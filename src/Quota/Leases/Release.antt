-- ===== src/Quota/Leases/Release.antt =====
-- What a release takes from the active leases, and from whom.
use octg.Common.{
  ℕ, ◌≤◌, ◌≡◌, refl, sym, ap, subst, ◌∙◌, inl, inr, ◌⊎◌, String, Bool, true, false, Option, none,
  some, List, ◌∷◌, ◌++◌, arith, length, Option-cases, Bool-cases, same_sound, same_refl, All, ◌||◌,
  not, ◌==◌,
}
use octg.Shared.Types.{InFlightLease}
use octg.Quota.Store.{
  Storage, Clock, Result, Result-cases, ok, ◌>>=◌, load_in_flight, save_in_flight,
}
use octg.Quota.Leases.{
  Normalized, normalize_in_flight_state, without_expired_leases, find_lease, remove_found,
  can_release, is_legacy_generation, retained, save_if_changed, release_in_flight_lease,
}
use octg.Quota.Leases.Parts.{
  IsActive, remove_found-split, length-remove_found, All-remove_found, without_expired-All,
  without_expired-active, length-without_expired,
}

-- The leases of a storage that are active at a time.
unfoldable pub active_leases : ℕ → Storage → Result (List InFlightLease)
active_leases now s = do
  n ← normalize_in_flight_state (load_in_flight s) now
  ok (without_expired_leases now n.leases)

-- A release is served under the lease's own generation, or under none where the lease has one of the
-- old format.
abbrev pub IsServed : Option String → InFlightLease → Type 0
IsServed (some g) l = l.generation ≡ g
IsServed none l = is_legacy_generation l.generation ≡ true

-- Why nothing is left of the active leases but `before`, or which one is gone.
pub record Kept (id : String) (generation : Option String) (before after : List InFlightLease)
    : Type 0 where
  pub all_left : after ≡ before
  pub no_lease :
      (find_lease id before ≡ none)
      ⊎ ((l : InFlightLease) × (find_lease id before ≡ some l) × ¬ (IsServed generation l))

pub record Taken (id : String) (generation : Option String) (before after : List InFlightLease)
    : Type 0 where
  pub lease : InFlightLease
  pub front : List InFlightLease
  pub back : List InFlightLease
  pub own : lease.request_id ≡ id
  pub served : IsServed generation lease
  pub was : before ≡ front ++ lease ∷ back
  pub is_left : after ≡ front ++ back
  pub first : find_lease id front ≡ none

abbrev pub Released :
    String → Option String → Bool → List InFlightLease → List InFlightLease → Type 0
Released id generation false before after = Kept id generation before after
Released id generation true before after = Taken id generation before after

can_release-IsServed :
    (l : InFlightLease) (generation : Option String)
    → can_release (some l) generation ≡ true
    → IsServed generation l
can_release-IsServed l none h = h
can_release-IsServed l (some k) h = same_sound l.generation k h

IsServed-can_release :
    (l : InFlightLease) (generation : Option String)
    → IsServed generation l
    → can_release (some l) generation ≡ true
IsServed-can_release l none h = h
IsServed-can_release l (some k) h = ground (arith, same_refl k)

can_release-found :
    (o : Option InFlightLease) (generation : Option String)
    → can_release o generation ≡ true
    → (l : InFlightLease) × (o ≡ some l)
can_release-found none generation h = absurd (ground arith)
can_release-found (some l) generation h = (l, refl)

module _ (id : String) (generation : Option String) (before : List InFlightLease) where
  abbrev freed : Bool
  freed = can_release (find_lease id before) generation

  kept-Released : freed ≡ false → Released id generation false before before
  kept-Released h = record {
    all_left = refl;
    no_lease = elim (Option-cases (find_lease id before)) [
      | inl n ↦ inl n
      | inr (l, found) ↦ inr (l, found, λ served. refuse l found served)
    ];
  }
    where
      refuse : (l : InFlightLease) → find_lease id before ≡ some l → ¬ (IsServed generation l)
      refuse l found served =
          let yes = IsServed-can_release l generation served in absurd (ground (arith, yes))

  taken-Released : freed ≡ true → Released id generation true before (remove_found id before)
  taken-Released h =
      let (l, found) = can_release-found (find_lease id before) generation h in
      let (xs, ys, parts, rest, none_before, own) = remove_found-split id before l found in
      record {
        lease = l;
        front = xs;
        back = ys;
        own = own;
        served =
            can_release-IsServed l generation
              (subst (λ o. can_release o generation ≡ true) found h);
        was = parts;
        is_left = rest;
        first = none_before;
      }

  retained-Released : Released id generation freed before (retained id generation before)
  retained-Released = elim (Bool-cases freed) [
    | inl h ↦ rw (h) (taken-Released h)
    | inr h ↦ rw (h) (kept-Released h)
  ]

  retained-active :
      (now : ℕ)
      → All (IsActive now) before
      → without_expired_leases now (retained id generation before) ≡ retained id generation before
  retained-active now h = elim (Bool-cases freed) [
    | inl q ↦
        rw (q)
          (without_expired-active now (remove_found id before) (All-remove_found id _ before h))
    | inr q ↦ rw (q) (without_expired-active now before h)
  ]

  -- As many leases as before are the leases before.
  retained_all :
      length (retained id generation before) ≡ length before
      → retained id generation before ≡ before
  retained_all h = elim (Bool-cases freed) [
    | inr q ↦ rw (q) refl
    | inl q ↦
        let (l, found) = can_release-found (find_lease id before) generation q in
        absurd (ground (arith, length-remove_found id before l found))
  ]

  length-retained : length (retained id generation before) ≤ length before
  length-retained = elim (Bool-cases freed) [
    | inr q ↦ rw (q) (omega arith)
    | inl q ↦
        let (l, found) = can_release-found (find_lease id before) generation q in
        ground (arith, length-remove_found id before l found)
  ]

active_of_normal :
    (now : ℕ) (s : Storage) (n : Normalized)
    → normalize_in_flight_state (load_in_flight s) now ≡ ok n
    → active_leases now s ≡ ok (without_expired_leases now n.leases)
unfolding active_leases
active_of_normal now s n h = ground arith

active_of_saved :
    (now : ℕ) (ls : List InFlightLease) (s : Storage)
    → without_expired_leases now ls ≡ ls
    → active_leases now (save_in_flight ls s) ≡ ok ls
unfolding active_leases normalize_in_flight_state
active_of_saved now ls s h = ground arith

module _ (clock : Clock) (id : String) (generation : Option String) (s : Storage) where
  stored-active :
      (n : Normalized)
      → normalize_in_flight_state (load_in_flight s) clock.now_ms ≡ ok n
      → (active : List InFlightLease) → without_expired_leases clock.now_ms n.leases ≡ active
      → active_leases clock.now_ms (save_if_changed n (retained id generation active) s)
        ≡ ok (retained id generation active)
  stored-active n normal active e =
      elim (Bool-cases
        (n.migrated || not (length (retained id generation active) == length n.leases))) [
          | inl q ↦ rw (q) (
              active_of_saved clock.now_ms (retained id generation active) s (
                retained-active id generation active clock.now_ms (
                  subst (All (IsActive clock.now_ms)) e
                    (without_expired-All clock.now_ms n.leases))))
          | inr q ↦
              let shorter : length active ≤ length n.leases =
                subst (λ ls. length ls ≤ length n.leases) e
                  (length-without_expired clock.now_ms n.leases) in
              let fewer = length-retained id generation active in
              let same_length : length (retained id generation active) ≡ length active =
                ground (arith, shorter, fewer) in
              let all = retained_all id generation active same_length in
              rw (q) (active_of_normal clock.now_ms s n normal ∙ ap ok (e ∙ sym all))
        ]

  -- A release that returns and answers that nothing was released leaves the active leases as they
  -- were, and the request had none or one that the caller may not release. Where it answers that it
  -- released, the first active lease of the request is gone and every other one stays, and the caller
  -- named its generation, or none where that is one of the old format.
  pub release-Released :
      (r : Bool × Storage)
      → release_in_flight_lease clock id generation s ≡ ok r
      → (before after : List InFlightLease) × (active_leases clock.now_ms s ≡ ok before)
        × (active_leases clock.now_ms r.1 ≡ ok after)
        × Released id generation r.0 before after
  unfolding release_in_flight_lease
  release-Released r h =
      elim (Result-cases (normalize_in_flight_state (load_in_flight s) clock.now_ms)) [
        | inr (x, e) ↦ absurd (ground arith)
        | inl (n, e) ↦
            let active = without_expired_leases clock.now_ms n.leases in
            let answer : (
              can_release (find_lease id active) generation,
              save_if_changed n (retained id generation active) s,
            )
                ≡ r =
              ground arith in
            (
              active,
              retained id generation active,
              active_of_normal clock.now_ms s n e,
              ap (λ x. active_leases clock.now_ms x.1) (sym answer) ∙ stored-active n e active refl,
              subst (λ x. Released id generation x.0 active (retained id generation active)) answer
                  (retained-Released id generation active),
            )
      ]
