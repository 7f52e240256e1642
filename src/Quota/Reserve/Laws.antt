-- ===== src/Quota/Reserve/Laws.antt =====
-- What `reserve` guarantees: the books stay balanced, a grant fits the quota, and a repeated call is
-- answered from the entry.
use octg.Common.{
  ℕ, ◌+◌, ◌≤◌, ◌≡◌, refl, String, true, false, Option, none, some, arith, lookup, insert,
  lookup-insert_self, lookup-insert, same_refl, is_some, is_some-lookup-insert,
  is_some-lookup-insert_self, inl, inr, Option-cases, Bool-cases, ◌⊎◌, subst, sym, ap, ltb,
}
use octg.Common.Int.{ℤ, pos, ◌-ℤ◌}
use octg.Shared.Number.{Number, safe_non_negative}
use octg.Shared.Types.{PoolState, RequestEntry, ReserveResult, granted, insufficient_quota}
use octg.Shared.Pool.{remaining_of, used_of, tier_of, is_strict}
use octg.Shared.Idempotency.{ParsedIdempotencyKey, invalid, valid, parse_idempotency_key, key_of}
use octg.Quota.Store.{
  Storage, Clock, QuotaEnv, QuotaIdentity, ok, load_pool, idempotency_slot, is_set,
}
use octg.Quota.Lifecycle.Ledger.{IsBalanced, enter}
use octg.Quota.Reserve.{
  Reservation, mapped_request_id, entry_request_id, lacks_quota, reserve_existing, reserve_new,
  reserve_in_transaction, reserve, reset_at, new_entry, take,
}

-- Every idempotency key names a request that has an entry.
pub record IsLinked (s : Storage) : Type 0 where
  pub has_entry :
      (slot id : String)
      → lookup slot s.idempotency ≡ some id
      → is_some (lookup id s.entries) ≡ true

mapped_has_entry :
    (key client : Option String) (s : Storage) (m : String)
    → IsLinked s
    → mapped_request_id key client s ≡ some m
    → is_some (lookup m s.entries) ≡ true
mapped_has_entry none client s m linked h = absurd (ground arith)
mapped_has_entry (some key) client s m linked h = linked.has_entry (idempotency_slot key client) m h

-- Links survive a write of an entry, and a key may be set to the request whose entry is written.
pub entry-IsLinked :
    (id : String) (e : RequestEntry) (s t : Storage)
    → t.entries ≡ insert id e s.entries
    → t.idempotency ≡ s.idempotency
    → IsLinked s
    → IsLinked t
entry-IsLinked id e s t es ks linked = record {
  has_entry = λ slot j h.
      rw es (is_some-lookup-insert id j e s.entries (linked.has_entry slot j (rw (← ks) h)));
}

pub key-IsLinked :
    (slot id : String) (s t : Storage)
    → t.entries ≡ s.entries
    → t.idempotency ≡ insert slot id s.idempotency
    → is_some (lookup id s.entries) ≡ true
    → IsLinked s
    → IsLinked t
key-IsLinked slot id s t es ks present linked = record { has_entry = follow }
  where
    follow : (k j : String) → lookup k t.idempotency ≡ some j → is_some (lookup j t.entries) ≡ true
    follow k j h = ground (arith, lookup-insert slot k id s.idempotency, linked.has_entry k j)

-- What the quota test lets through.
pub lacks_quota-false :
    (p : PoolState) (t u : ℕ)
    → lacks_quota (remaining_of p) p.limit t u ≡ false
    → (used_of p + t ≤ p.limit)
      × (is_strict (tier_of (remaining_of p) p.limit) ≡ true → used_of p + u ≤ p.limit)
unfolding remaining_of
lacks_quota-false p t u h = ground arith

module _ (clock : Clock) (env : QuotaEnv) (identity : QuotaIdentity) (r : Reservation)
    (s : Storage) where
  -- A request that gets a new entry had none.
  entry_absent :
      IsLinked s
      → lookup (entry_request_id r s) s.entries ≡ none
      → lookup r.request_id s.entries ≡ none
  unfolding entry_request_id
  entry_absent linked h = elim (Option-cases (mapped_request_id r.key r.client_id s)) [
    | inl e ↦ ground arith
    | inr (m, e) ↦ ground (arith, mapped_has_entry r.key r.client_id s m linked e)
  ]

  pub take-IsBalanced :
      (result : ReserveResult)
      → IsBalanced s
      → lookup r.request_id s.entries ≡ none
      → IsBalanced (take clock env identity r result (load_pool clock env identity s) s)
  take-IsBalanced result b absent =
      enter r.request_id (new_entry clock env identity r result) s
        (take clock env identity r result (load_pool clock env identity s) s) absent b
        (ground arith) (ground arith)

  pub take-IsLinked :
      (result : ReserveResult) (p : PoolState)
      → IsLinked s
      → IsLinked (take clock env identity r result p s)
  take-IsLinked result p linked = link r.key refl
    where
      entry : RequestEntry
      entry = new_entry clock env identity r result

      written : Storage
      written = record s { entries = insert r.request_id entry s.entries }

      link : (key : Option String) → r.key ≡ key → IsLinked (take clock env identity r result p s)
      link none e = entry-IsLinked r.request_id entry s _ (ground arith) (ground arith) linked
      link (some key) e =
          key-IsLinked (idempotency_slot key r.client_id) r.request_id written _ (ground arith)
            (ground arith) (is_some-lookup-insert_self r.request_id entry s.entries)
            (entry-IsLinked r.request_id entry s written refl refl linked)

  abbrev pool_now : PoolState
  pool_now = load_pool clock env identity s

  abbrev pub outcome : ReserveResult
  outcome = granted (remaining_of pool_now -ℤ pos r.tokens) (reset_at clock env identity)

  -- Nothing is written unless quota is granted.
  pub data NewCases : ReserveResult × Storage → Type 0 where
    turned_down : (left : ℤ) (reset : String) → NewCases (insufficient_quota left reset, s)
    took :
        is_set s.finalized ≡ false
        → lacks_quota (remaining_of pool_now) pool_now.limit r.tokens r.upper_bound ≡ false
        → NewCases (outcome, take clock env identity r outcome pool_now s)

  reserve_new_cases : NewCases (reserve_new clock env identity r pool_now s)
  unfolding reserve_new
  reserve_new_cases = elim (Bool-cases (is_set s.finalized)) [
    | inl final ↦ rw final (turned_down (pos 0) _)
    | inr running ↦
        elim (Bool-cases
          (lacks_quota (remaining_of pool_now) pool_now.limit r.tokens r.upper_bound)) [
            | inl lacking ↦ rw (running, lacking) (turned_down _ _)
            | inr enough ↦ rw (running, enough) (took running enough)
          ]
  ]

  abbrev Cases : Storage → Type 0
  Cases t =
      (t ≡ s)
      ⊎ ((result : ReserveResult) × (lookup r.request_id s.entries ≡ none)
          × (is_set s.finalized ≡ false)
          × (t ≡ take clock env identity r result pool_now s))

  from_new :
      {b : ReserveResult × Storage} (t : Storage)
      → lookup r.request_id s.entries ≡ none
      → NewCases b
      → b.1 ≡ t
      → Cases t
  from_new t absent (turned_down left reset) e = inl (sym e)
  from_new t absent (took running enough) e = inr (outcome, absent, running, sym e)

  -- A reservation leaves the storage as it was, or takes the tokens for a request that had none.
  pub reserve-Cases :
      (a : ReserveResult × Storage)
      → IsLinked s
      → reserve_in_transaction clock env identity r s ≡ ok a
      → Cases a.1
  unfolding reserve_in_transaction reserve_existing
  reserve-Cases a linked h = elim (Option-cases (lookup (entry_request_id r s) s.entries)) [
    | inr (e, found) ↦ inl (ground arith)
    | inl absent ↦ from_new a.1 (entry_absent linked absent) reserve_new_cases (ground arith)
  ]

  new_kept_or_granted :
      {b : ReserveResult × Storage} (a : ReserveResult × Storage)
      → NewCases b
      → b ≡ a
      → (a.1 ≡ s) ⊎ ((left : ℤ) × (reset : String) × (a.0 ≡ granted left reset))
  new_kept_or_granted a (turned_down left reset) e = inl (ground arith)
  new_kept_or_granted a (took running enough) e = inr (_, _, ap (λ b. b.0) (sym e))

  -- A call that returns changes the storage only where it grants quota.
  pub reserve_kept_or_granted :
      (a : ReserveResult × Storage)
      → reserve_in_transaction clock env identity r s ≡ ok a
      → (a.1 ≡ s) ⊎ ((left : ℤ) × (reset : String) × (a.0 ≡ granted left reset))
  unfolding reserve_in_transaction reserve_existing
  reserve_kept_or_granted a h = elim (Option-cases (lookup (entry_request_id r s) s.entries)) [
    | inr (e, found) ↦ inl (ground arith)
    | inl absent ↦ new_kept_or_granted a reserve_new_cases (ground arith)
  ]

  -- A reservation keeps the books balanced, and every key on a request that has an entry.
  pub reserve-IsBalanced :
      (a : ReserveResult × Storage)
      → IsLinked s
      → IsBalanced s
      → reserve_in_transaction clock env identity r s ≡ ok a
      → IsBalanced a.1 × IsLinked a.1
  reserve-IsBalanced a linked b h = elim (reserve-Cases a linked h) [
    | inl e ↦ (rw e b, rw e linked)
    | inr (result, absent, running, e) ↦
        (rw e (take-IsBalanced result b absent), rw e (take-IsLinked result pool_now linked))
  ]

  take-pool :
      (result : ReserveResult)
      → (used_of (load_pool clock env identity (take clock env identity r result pool_now s))
          ≡ used_of pool_now + r.tokens)
        × ((load_pool clock env identity (take clock env identity r result pool_now s)).limit
            ≡ pool_now.limit)
  take-pool result = ground arith

  abbrev Room : Storage → Type 0
  Room t =
      (is_set s.finalized ≡ false)
      × (used_of (load_pool clock env identity t) ≡ used_of pool_now + r.tokens)
      × (used_of (load_pool clock env identity t) ≤ (load_pool clock env identity t).limit)
      × (is_strict (tier_of (remaining_of pool_now) pool_now.limit) ≡ true
          → used_of pool_now + r.upper_bound ≤ pool_now.limit)

  granted-Room :
      {b : ReserveResult × Storage} (left : ℤ) (reset : String) (t : Storage)
      → NewCases b
      → b ≡ (granted left reset, t)
      → Room t
  granted-Room left reset t (turned_down x y) e = absurd (ground arith)
  granted-Room left reset t (took running enough) e =
      let (used, limit) = take-pool outcome in
      let (room, upper) = lacks_quota-false pool_now r.tokens r.upper_bound enough in
      subst Room {y = t} (ap (λ (a : ReserveResult × Storage). a.1) e)
        (running, used, rw (used, limit) room, upper)

  -- A reservation that is granted to a request without an entry saw a running day and room for its
  -- tokens: afterwards the pool's tokens are within its limit, and in the strict tier even the
  -- request's upper bound was.
  pub reserve_fits :
      (reset : String) (left : ℤ) (t : Storage)
      → lookup (entry_request_id r s) s.entries ≡ none
      → reserve_in_transaction clock env identity r s ≡ ok (granted left reset, t)
      → (is_set s.finalized ≡ false)
        × (used_of (load_pool clock env identity t) ≡ used_of pool_now + r.tokens)
        × (used_of (load_pool clock env identity t) ≤ (load_pool clock env identity t).limit)
        × (is_strict (tier_of (remaining_of pool_now) pool_now.limit) ≡ true
            → used_of pool_now + r.upper_bound ≤ pool_now.limit)
  unfolding reserve_in_transaction
  reserve_fits reset left t absent h = granted-Room left reset t reserve_new_cases (ground arith)

-- A call of `reserve` that returns passed the checks before its transaction.
pub reserve_checked :
    (clock : Clock) (env : QuotaEnv) (identity : QuotaIdentity) (id : String)
    (tokens upper : Number) (key client : Option String) (s : Storage) (a : ReserveResult × Storage)
    → reserve clock env identity id tokens upper key client s ≡ ok a
    → (r : Reservation) × (r.request_id ≡ id)
      × (reserve_in_transaction clock env identity r s ≡ ok a)
unfolding reserve
reserve_checked clock env identity id tokens upper key client s a h =
    elim (Option-cases (safe_non_negative tokens)) [
      | inl bad ↦ absurd (ground arith)
      | inr (t, et) ↦ elim (Option-cases (safe_non_negative upper)) [
        | inl bad ↦ absurd (ground arith)
        | inr (u, eu) ↦ elim (Bool-cases (ltb u t)) [
          | inl low ↦ absurd (ground arith)
          | inr enough ↦ keyed t u et eu enough (parse_idempotency_key key) refl
        ]
      ]
    ]
  where
    checked : ℕ → ℕ → ParsedIdempotencyKey → Reservation
    checked t u k = record {
      request_id = id;
      tokens = t;
      upper_bound = u;
      key = key_of k;
      client_id = client;
    }

    keyed :
        (t u : ℕ)
        → safe_non_negative tokens ≡ some t
        → safe_non_negative upper ≡ some u
        → ltb u t ≡ false
        → (k : ParsedIdempotencyKey) → parse_idempotency_key key ≡ k
        → (r : Reservation) × (r.request_id ≡ id)
          × (reserve_in_transaction clock env identity r s ≡ ok a)
    keyed t u et eu enough ParsedIdempotencyKey.absent e =
        (checked t u ParsedIdempotencyKey.absent, refl, ground arith)
    keyed t u et eu enough invalid e = absurd (ground arith)
    keyed t u et eu enough (valid k) e = (checked t u (valid k), refl, ground arith)

-- The second call finds the entry of the first, by the key or by the id.
took_again :
    (clock later : Clock) (env : QuotaEnv) (identity : QuotaIdentity) (r : Reservation)
    (s : Storage) (key : Option String) (result : ReserveResult) (p : PoolState)
    → r.key ≡ key
    → reserve_in_transaction later env identity r (take clock env identity r result p s)
      ≡ ok (result, take clock env identity r result p s)
unfolding reserve_in_transaction reserve_existing entry_request_id
took_again clock later env identity r s none result p e =
    ground
      (arith, lookup-insert_self r.request_id (new_entry clock env identity r result) s.entries)
took_again clock later env identity r s (some key) result p e = ground (
  arith,
  same_refl r.request_id,
  lookup-insert_self r.request_id (new_entry clock env identity r result) s.entries,
  lookup-insert_self (idempotency_slot key r.client_id) r.request_id s.idempotency,
)

granted_again :
    (clock later : Clock) (env : QuotaEnv) (identity : QuotaIdentity) (r : Reservation)
    (s : Storage) {b : ReserveResult × Storage} (left : ℤ) (reset : String) (t : Storage)
    → NewCases clock env identity r s b
    → b ≡ (granted left reset, t)
    → reserve_in_transaction later env identity r t ≡ ok (granted left reset, t)
granted_again clock later env identity r s left reset t (turned_down x y) e = absurd (ground arith)
granted_again clock later env identity r s left reset t (took running enough) e =
    subst (λ (a : ReserveResult × Storage). reserve_in_transaction later env identity r a.1 ≡ ok a)
      e
      (took_again clock later env identity r s r.key (outcome clock env identity r s)
        (load_pool clock env identity s) refl)

existing_later :
    (clock later : Clock) (env : QuotaEnv) (identity : QuotaIdentity) (r : Reservation)
    (e : RequestEntry) (s : Storage)
    → reserve_existing later env identity r e s ≡ reserve_existing clock env identity r e s
unfolding reserve_existing
existing_later clock later env identity r e s = refl

existing_kept :
    (clock : Clock) (env : QuotaEnv) (identity : QuotaIdentity) (r : Reservation) (e : RequestEntry)
    (s t : Storage) (left : ℤ) (reset : String)
    → reserve_existing clock env identity r e s ≡ ok (granted left reset, t)
    → s ≡ t
unfolding reserve_existing
existing_kept clock env identity r e s t left reset h = ground arith

-- A call that repeats a granted reservation, at any later time, gets the first answer and takes
-- nothing more.
pub reserve_replay :
    (clock later : Clock) (env : QuotaEnv) (identity : QuotaIdentity) (r : Reservation)
    (s t : Storage) (left : ℤ) (reset : String)
    → reserve_in_transaction clock env identity r s ≡ ok (granted left reset, t)
    → reserve_in_transaction later env identity r t ≡ ok (granted left reset, t)
unfolding reserve_in_transaction
reserve_replay clock later env identity r s t left reset h =
    elim (Option-cases (lookup (entry_request_id r s) s.entries)) [
      | inr (e, found) ↦ saved_again e found
      | inl absent ↦
          unfold reserve_in_transaction in
          granted_again clock later env identity r s left reset t
            (reserve_new_cases clock env identity r s) (ground arith)
    ]
  where
    saved_again :
        (e : RequestEntry)
        → lookup (entry_request_id r s) s.entries ≡ some e
        → reserve_in_transaction later env identity r t ≡ ok (granted left reset, t)
    saved_again e found =
        let answer : reserve_existing clock env identity r e s ≡ ok (granted left reset, t) =
          ground arith in
        let kept : s ≡ t =
          ground (arith, existing_kept clock env identity r e s t left reset answer) in
        subst (λ z. reserve_in_transaction later env identity r z ≡ ok (granted left reset, z)) kept
          (ground (arith, existing_later clock later env identity r e s))
