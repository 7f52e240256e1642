-- ===== src/Quota/CpuGate/Laws.antt =====
-- What the fence of a request id does, and what it leaves alone.
use octg.Common.{
  ℕ, ◌≡◌, refl, inl, inr, String, Bool, true, false, Option, none, some, arith, Dict, lookup,
  lookup-insert_self, Bool-cases,
}
use octg.Shared.Types.{RequestEntry}
use octg.Quota.Store.{Storage, Clock, QuotaEnv, QuotaIdentity, RelayGrant, ok, Result-cases, is_set}
use octg.Quota.CpuGate.{
  GrantInspection, absent, FenceResult, fenced, fence_by, inspect, inspect_pair, inspect_fixture,
  get_relay_cpu_gate_grant_inspection, fence_relay_cpu_gate_setup,
}

-- `s` with other fences.
abbrev pub with_fences : Dict Bool → Storage → Storage
with_fences f s = record s { fences = f }

module _ (clock : Clock) (env : QuotaEnv) (identity : QuotaIdentity) (now : ℕ) where
  fence_by_frame :
      (id : String) (i : GrantInspection) (s : Storage)
      → (fence_by clock env identity now id i s).1
        ≡ with_fences (fence_by clock env identity now id i s).1.fences s
  fence_by_frame id (absent true) s = refl
  fence_by_frame id (absent false) s = refl
  fence_by_frame id GrantInspection.non_fixture s = refl
  fence_by_frame id (GrantInspection.fixture f) s = refl

  pub fence_frame :
      (id : String) (s : Storage) (r : FenceResult × Storage)
      → fence_relay_cpu_gate_setup clock env identity now id s ≡ ok r
      → r.1 ≡ with_fences (r.1).fences s
  unfolding fence_relay_cpu_gate_setup
  fence_frame id s r h =
      elim (Result-cases (get_relay_cpu_gate_grant_inspection clock env identity now id s)) [
        | inr (x, eq) ↦ absurd (ground arith)
        | inl (i, eq) ↦ ground (arith, fence_by_frame id i s)
      ]

  -- A fence that is granted stands, for a request that has neither a grant nor an entry.
  fence_by-fenced :
      (id : String) (i : GrantInspection) (s t : Storage)
      → fence_by clock env identity now id i s ≡ (fenced, t)
      → (f : Bool) × (i ≡ absent f)
  fence_by-fenced id (absent f) s t h = (f, refl)
  fence_by-fenced id GrantInspection.non_fixture s t h = absurd (ground arith)
  fence_by-fenced id (GrantInspection.fixture f) s t h = absurd (ground arith)

  inspect-absent :
      (id : String) (g : Option RelayGrant) (e : Option RequestEntry) (s : Storage) (f : Bool)
      → inspect clock env identity now id g e s ≡ ok (absent f)
      → (g ≡ none) × (e ≡ none) × (is_set (lookup id s.fences) ≡ f)
  unfolding inspect inspect_pair inspect_fixture
  inspect-absent id none none s f h = (refl, refl, ground arith)
  inspect-absent id (some g) none s f h = absurd (ground arith)
  inspect-absent id none (some e) s f h = absurd (ground arith)
  inspect-absent id (some g) (some e) s f h = absurd (ground arith)

  -- A fence that is granted stands in the storage, and the request it is for has neither a grant nor
  -- an entry.
  pub fence-IsSet :
      (id : String) (s t : Storage)
      → fence_relay_cpu_gate_setup clock env identity now id s ≡ ok (fenced, t)
      → (is_set (lookup id t.fences) ≡ true)
        × (lookup id t.grants ≡ none)
        × (lookup id t.entries ≡ none)
  unfolding fence_relay_cpu_gate_setup get_relay_cpu_gate_grant_inspection
  fence-IsSet id s t h =
      elim (Result-cases
        (inspect clock env identity now id (lookup id s.grants) (lookup id s.entries) s)) [
          | inr (x, eq) ↦ absurd (ground arith)
          | inl (i, eq) ↦
              let (f, known) = fence_by-fenced id i s t (ground arith) in
              let (no_grant, no_entry, flag) =
                inspect-absent id (lookup id s.grants) (lookup id s.entries) s f (ground arith) in
              elim (Bool-cases f) [
                | inl set ↦ ground (arith, no_grant, no_entry, flag)
                | inr unset ↦
                    ground (arith, no_grant, no_entry, flag, lookup-insert_self id true s.fences)
              ]
        ]
