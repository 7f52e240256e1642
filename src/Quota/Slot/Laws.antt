-- ===== src/Quota/Slot/Laws.antt =====
-- The slot of the CPU-gate runs has one holder, and only proof that the run is over frees it.
use octg.Common.{
  ℕ, ◌≡◌, refl, true, false, none, some, arith, ◌⊎◌, inl, inr, same_refl, Option-cases, is_some,
  Bool-cases,
}
use octg.Shared.Number.{Number, safe_positive}
use octg.Relay.Routing.{relay_request_utc_day_of}
use octg.Quota.Store.{ok}
use octg.Quota.Slot.{
  SlotOwner, Holding, SlotState, idle, held, closing, SlotStorage, claimed, busy, closed, current,
  matches_owner, is_owner, next_holding, claim_from, claim_relay_cpu_gate_slot, Marked, was_idle,
  was_blocked, is_closing, is_holder, mark_from, mark_closing, is_proof, finish_from,
  finish_closing, Evidence, after_mark, close_relay_cpu_gate_slot,
}

claim_from-holder :
    (st : SlotState) (o : SlotOwner) (s t : SlotStorage) (x : SlotState)
    → current s ≡ st
    → claim_from st o s ≡ ok (claimed x, t)
    → (h : Holding) × (x ≡ held h) × (matches_owner h.owner o ≡ true) × (current t ≡ held h)
unfolding claim_from
claim_from-holder idle o s t x c h =
    (next_holding o s, ground arith, ground (arith, same_refl o.request_id), ground arith)
claim_from-holder (held y) o s t x c h = (y, ground arith, ground arith, ground arith)
claim_from-holder (closing y) o s t x c h = absurd (ground arith)

claim_from-other :
    (h : Holding) (o : SlotOwner) (s : SlotStorage)
    → matches_owner h.owner o ≡ false
    → claim_from (held h) o s ≡ ok (busy, s)
unfolding claim_from
claim_from-other h o s other = ground arith

-- Once a claim has succeeded, its caller holds the slot, and the claim of an owner that is not the
-- holder is told that the slot is busy and changes nothing.
pub claim_exclusive :
    (o o' : SlotOwner) (s t : SlotStorage) (x : SlotState)
    → claim_relay_cpu_gate_slot o s ≡ ok (claimed x, t)
    → is_owner o' ≡ true
    → (h : Holding) × (x ≡ held h)
      × (matches_owner h.owner o ≡ true)
      × (matches_owner h.owner o' ≡ false → claim_relay_cpu_gate_slot o' t ≡ ok (busy, t))
unfolding claim_relay_cpu_gate_slot
claim_exclusive o o' s t x h named =
    let (k, e, own, now_held) = claim_from-holder (current s) o s t x refl (ground arith) in
    (k, e, own, λ other. ground (arith, now_held, claim_from-other k o' t other))

-- What the second transaction needs, and what it writes.
mark_from-is_closing :
    (st : SlotState) (o : SlotOwner) (n : ℕ) (s : SlotStorage)
    → current s ≡ st
    → (mark_from st o n s).0 ≡ is_closing
    → (h : Holding) × ((st ≡ held h) ⊎ (st ≡ closing h)) × (is_holder h o n ≡ true)
unfolding mark_from
mark_from-is_closing idle o n s c h = absurd (ground arith)
mark_from-is_closing (held k) o n s c h = (k, inl refl, ground arith)
mark_from-is_closing (closing k) o n s c h = (k, inr refl, ground arith)

mark_from-last :
    (st : SlotState) (o : SlotOwner) (n : ℕ) (s : SlotStorage)
    → (mark_from st o n s).1.last_generation ≡ s.last_generation
unfolding mark_from
mark_from-last idle o n s = refl
mark_from-last (held k) o n s = ground arith
mark_from-last (closing k) o n s = ground arith

mark_from-idle :
    (st : SlotState) (o : SlotOwner) (n : ℕ) (s : SlotStorage)
    → (mark_from st o n s).0 ≡ was_idle
    → st ≡ idle
unfolding mark_from
mark_from-idle idle o n s h = refl
mark_from-idle (held k) o n s h = absurd (ground arith)
mark_from-idle (closing k) o n s h = absurd (ground arith)

mark_from-marked :
    (st : SlotState) (o : SlotOwner) (n : ℕ) (s : SlotStorage) (h : Holding)
    → (current s ≡ st)
    → (st ≡ held h) ⊎ (st ≡ closing h)
    → (mark_from st o n s).0 ≡ is_closing
    → current (mark_from st o n s).1 ≡ closing h
unfolding mark_from
mark_from-marked idle o n s h c was e = absurd (ground arith)
mark_from-marked (held k) o n s h c (inl p) e = ground arith
mark_from-marked (held k) o n s h c (inr p) e = absurd (ground arith)
mark_from-marked (closing k) o n s h c (inl p) e = absurd (ground arith)
mark_from-marked (closing k) o n s h c (inr p) e = ground arith

finish_from-closed :
    (st : SlotState) (o : SlotOwner) (n : ℕ) (u t : SlotStorage)
    → finish_from st o n u ≡ (closed, t)
    → (h : Holding) × (st ≡ closing h) × (is_holder h o n ≡ true) × (t ≡ record u { slot = none })
unfolding finish_from
finish_from-closed idle o n u t h = absurd (ground arith)
finish_from-closed (held k) o n u t h = absurd (ground arith)
finish_from-closed (closing k) o n u t h = (k, refl, ground arith, ground arith)

-- A holding that the caller names by its owner and its generation.
pub record IsCallers (o : SlotOwner) (g : Number) (h : Holding) : Type 0 where
  pub same_owner : matches_owner h.owner o ≡ true
  pub same_generation : safe_positive g ≡ some h.generation

is_holder-IsCallers :
    (o : SlotOwner) (g : Number) (n : ℕ) (h : Holding)
    → safe_positive g ≡ some n
    → is_holder h o n ≡ true
    → IsCallers o g h
is_holder-IsCallers o g n h num mine = record {
  same_owner = ground arith;
  same_generation = ground arith;
}

-- Why a slot that was not free is free after a close: the caller's holding had it at the first
-- transaction, and the caller's holding still was closing it at the second one, on what the other
-- calls had left of the first one's storage.
pub record Freed (o : SlotOwner) (g : Number) (v : Evidence) (meanwhile : SlotStorage → SlotStorage)
    (s t : SlotStorage) : Type 0 where
  pub holder : Holding
  pub was_holder : (current s ≡ held holder) ⊎ (current s ≡ closing holder)
  pub callers : IsCallers o g holder
  pub day_named : is_some (relay_request_utc_day_of o.request_id) ≡ true
  pub proved : is_proof v.fence v.inspection ≡ true
  pub marked : SlotStorage
  pub marked_closing : current marked ≡ closing holder
  pub marked_numbering : marked.last_generation ≡ s.last_generation
  pub closer : Holding
  pub still_closing : current (meanwhile marked) ≡ closing closer
  pub still_callers : IsCallers o g closer
  pub freed : t ≡ record (meanwhile marked) { slot = none }

after_mark-Freed :
    (o : SlotOwner) (g : Number) (n : ℕ) (v : Evidence) (meanwhile : SlotStorage → SlotStorage)
    (s t : SlotStorage)
    → ¬ (current s ≡ idle)
    → safe_positive g ≡ some n
    → (m : Marked) → (mark_closing o n s).0 ≡ m
    → after_mark m v meanwhile o n (mark_closing o n s).1 ≡ (closed, t)
    → Freed o g v meanwhile s t
unfolding after_mark mark_closing finish_closing
after_mark-Freed o g n v meanwhile s t taken num was_idle e h =
    absurd (taken (mark_from-idle (current s) o n s e))
after_mark-Freed o g n v meanwhile s t taken num was_blocked e h = absurd (ground arith)
after_mark-Freed o g n v meanwhile s t taken num is_closing e h =
    elim (Bool-cases (is_some (relay_request_utc_day_of o.request_id))) [
      | inr undated ↦ absurd (ground arith)
      | inl dated ↦ elim (Bool-cases (is_proof v.fence v.inspection)) [
        | inr unproved ↦ absurd (ground arith)
        | inl shown ↦
            let (x, was, mine) = mark_from-is_closing (current s) o n s refl e in
            let after : SlotStorage = (mark_from (current s) o n s).1 in
            let (y, still, own, free) =
              finish_from-closed (current (meanwhile after)) o n (meanwhile after) t
                (ground arith) in
            record {
              holder = x;
              was_holder = was;
              callers = is_holder-IsCallers o g n x num mine;
              day_named = dated;
              proved = shown;
              marked = after;
              marked_closing = mark_from-marked (current s) o n s x refl was e;
              marked_numbering = mark_from-last (current s) o n s;
              closer = y;
              still_closing = still;
              still_callers = is_holder-IsCallers o g n y num own;
              freed = free;
            }
      ]
    ]

-- Where a close frees a slot that was not free, its caller held the slot under the caller's
-- generation, the request id names a day and the run is shown to be over, and after whatever other
-- calls did meanwhile the slot still was closing under that owner and generation; the close then
-- removes it and keeps the numbering.
pub close-Freed :
    (o : SlotOwner) (g : Number) (v : Evidence) (meanwhile : SlotStorage → SlotStorage)
    (s t : SlotStorage)
    → ¬ (current s ≡ idle)
    → close_relay_cpu_gate_slot o g v meanwhile s ≡ ok (closed, t)
    → Freed o g v meanwhile s t
unfolding close_relay_cpu_gate_slot
close-Freed o g v meanwhile s t taken h = elim (Option-cases (safe_positive g)) [
  | inl bad ↦ absurd (ground arith)
  | inr (n, num) ↦
      after_mark-Freed o g n v meanwhile s t taken num (mark_closing o n s).0 refl (ground arith)
]
