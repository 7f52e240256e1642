-- ===== src/Quota/Slot/History.antt =====
-- The slot over many calls: the generation of a holding is given to no other.
use octg.Common.{
  ℕ, ◌+◌, ◌≤◌, ◌<◌, ◌≡◌, ◌∙◌, subst, sym, refl, leb, Option, none, some, List, [], ◌∷◌, arith, ◌⊎◌,
  inl, inr, Bool-cases,
}
use octg.Shared.Number.{max_safe_integer}
use octg.Quota.Store.{ok}
use octg.Quota.Slot.{
  SlotOwner, Holding, SlotState, idle, held, closing, SlotStorage, ClaimResult, claimed, current,
  last, next_holding, claim_from, claim_relay_cpu_gate_slot, mark_from, mark_closing, finish_from,
  finish_closing, is_holder, is_owner, SlotCall, claim, mark, finish, after_claim, run_call,
  run_calls,
}

-- No generation is above the last one that was given.
abbrev generation_of : SlotState → ℕ
generation_of idle = 0
generation_of (held h) = h.generation
generation_of (closing h) = h.generation

pub record IsNumbered (s : SlotStorage) : Type 0 where
  pub not_above : generation_of (current s) ≤ last s
  pub safe : last s ≤ max_safe_integer

claim_from-IsNumbered :
    (st : SlotState) (o : SlotOwner) (s : SlotStorage) (r : ClaimResult × SlotStorage)
    → IsNumbered s
    → claim_from st o s ≡ ok r
    → IsNumbered r.1
unfolding claim_from
claim_from-IsNumbered idle o s r num h = record {
  not_above = ground (arith, num);
  safe = ground (arith, num);
}
claim_from-IsNumbered (held x) o s r num h = ground (arith, num)
claim_from-IsNumbered (closing x) o s r num h = ground (arith, num)

-- A claim keeps the numbering.
claim-IsNumbered :
    (o : SlotOwner) (s : SlotStorage) (r : ClaimResult × SlotStorage)
    → IsNumbered s
    → claim_relay_cpu_gate_slot o s ≡ ok r
    → IsNumbered r.1
unfolding claim_relay_cpu_gate_slot
claim-IsNumbered o s r num h = claim_from-IsNumbered (current s) o s r num (ground arith)

abbrev holding_of : SlotState → Option Holding
holding_of idle = none
holding_of (held h) = some h
holding_of (closing h) = some h

-- What a call does to the holding: it stays or goes, with the numbering kept, or a free slot gets the
-- next number.
abbrev Turn : SlotStorage → SlotStorage → Type 0
Turn s t =
    (((holding_of (current t) ≡ none) ⊎ (holding_of (current t) ≡ holding_of (current s)))
      × (last t ≡ last s))
    ⊎ ((k : Holding) × (holding_of (current t) ≡ some k)
        × (k.generation ≡ last s + 1)
        × (last t ≡ k.generation))

claim_from-Turn :
    (st : SlotState) (o : SlotOwner) (s : SlotStorage)
    → current s ≡ st
    → Turn s (after_claim (claim_from st o s) s)
unfolding claim_from after_claim
claim_from-Turn idle o s c = elim (Bool-cases (leb (last s + 1) max_safe_integer)) [
  | inl q ↦ inr (next_holding o s, ground arith, ground arith, ground arith)
  | inr q ↦ inl (inr (ground arith), ground arith)
]
claim_from-Turn (held h) o s c = inl (inr (ground arith), ground arith)
claim_from-Turn (closing h) o s c = inl (inr (ground arith), ground arith)

mark_from-Turn :
    (st : SlotState) (o : SlotOwner) (n : ℕ) (s : SlotStorage)
    → current s ≡ st
    → Turn s (mark_from st o n s).1
unfolding mark_from
mark_from-Turn idle o n s c = inl (inr (ground arith), ground arith)
mark_from-Turn (held h) o n s c = inl (inr (ground arith), ground arith)
mark_from-Turn (closing h) o n s c = inl (inr (ground arith), ground arith)

finish_from-Turn :
    (st : SlotState) (o : SlotOwner) (n : ℕ) (s : SlotStorage)
    → current s ≡ st
    → Turn s (finish_from st o n s).1
unfolding finish_from
finish_from-Turn idle o n s c = inl (inr (ground arith), ground arith)
finish_from-Turn (held h) o n s c = inl (inr (ground arith), ground arith)
finish_from-Turn (closing h) o n s c = elim (Bool-cases (is_holder h o n)) [
  | inl q ↦ inl (inl (ground arith), ground arith)
  | inr q ↦ inl (inr (ground arith), ground arith)
]

claim-Turn :
    (o : SlotOwner) (s : SlotStorage) → Turn s (after_claim (claim_relay_cpu_gate_slot o s) s)
unfolding claim_relay_cpu_gate_slot after_claim
claim-Turn o s = elim (Bool-cases (is_owner o)) [
  | inl q ↦ rw (q) (claim_from-Turn (current s) o s refl)
  | inr q ↦ rw (q) (inl (inr refl, refl))
]

run_call-Turn : (c : SlotCall) (s : SlotStorage) → Turn s (run_call c s)
unfolding run_call mark_closing finish_closing
run_call-Turn (claim o) s = claim-Turn o s
run_call-Turn (mark o n) s = mark_from-Turn (current s) o n s refl
run_call-Turn (finish o n) s = finish_from-Turn (current s) o n s refl

claimed-Turn :
    (o : SlotOwner) (s t : SlotStorage) (x : ClaimResult)
    → claim_relay_cpu_gate_slot o s ≡ ok (x, t)
    → Turn s t
unfolding after_claim
claimed-Turn o s t x e = subst (λ r. Turn s (after_claim r s)) e (claim-Turn o s)

-- The generation of `h` is given, and a holding of the slot is `h` or has a later one.
record Given (h : Holding) (s : SlotStorage) : Type 0 where
  pub given : h.generation ≤ last s
  pub later :
      (k : Holding) → holding_of (current s) ≡ some k → (k ≡ h) ⊎ (h.generation < k.generation)

Turn-Given : (h : Holding) (s t : SlotStorage) → Turn s t → Given h s → Given h t
Turn-Given h s t (inl (inl gone, kept)) g = record {
  given = ground (arith, g.given);
  later = λ k e. absurd (ground arith);
}
Turn-Given h s t (inl (inr stays, kept)) g = record {
  given = ground (arith, g.given);
  later = λ k e. g.later k (sym stays ∙ e);
}
Turn-Given h s t (inr (k, held_k, next, counted)) g = record {
  given = omega (arith, g.given, next, counted);
  later = λ j e. inr (new_later j (sym held_k ∙ e));
}
  where
    new_later : (j : Holding) → some k ≡ some j → h.generation < j.generation
    new_later j e = ground (arith, g.given)

run_calls-Given :
    (h : Holding) (cs : List SlotCall) (s : SlotStorage) → Given h s → Given h (run_calls cs s)
unfolding run_calls
run_calls-Given h [] s g = g
run_calls-Given h (c ∷ cs) s g =
    run_calls-Given h cs (run_call c s) (Turn-Given h s (run_call c s) (run_call-Turn c s) g)

claim_from-claimed :
    (st : SlotState) (o : SlotOwner) (s t : SlotStorage) (h : Holding)
    → current s ≡ st
    → claim_from st o s ≡ ok (claimed (held h), t)
    → holding_of (current t) ≡ some h
unfolding claim_from
claim_from-claimed idle o s t h c e = ground arith
claim_from-claimed (held k) o s t h c e = ground arith
claim_from-claimed (closing k) o s t h c e = absurd (ground arith)

claim-claimed :
    (o : SlotOwner) (s t : SlotStorage) (h : Holding)
    → claim_relay_cpu_gate_slot o s ≡ ok (claimed (held h), t)
    → holding_of (current t) ≡ some h
unfolding claim_relay_cpu_gate_slot
claim-claimed o s t h e = claim_from-claimed (current s) o s t h refl (ground arith)

claimed-Given :
    (h : Holding) (t : SlotStorage) → IsNumbered t → holding_of (current t) ≡ some h → Given h t
claimed-Given h t num e = record {
  given = given_of (current t) refl;
  later = λ k f. inl (ground arith);
}
  where
    given_of : (st : SlotState) → current t ≡ st → h.generation ≤ last t
    given_of idle c = absurd (ground arith)
    given_of (held k) c = ground (arith, num.not_above)
    given_of (closing k) c = ground (arith, num.not_above)

-- After a claim on a numbered slot, and any calls that follow it, a claim that succeeds finds the same
-- holding or is given a later generation, so that no generation is ever given to two holdings.
pub claim_generation :
    (o o' : SlotOwner) (s t t' : SlotStorage) (h k : Holding) (calls : List SlotCall)
    → IsNumbered s
    → claim_relay_cpu_gate_slot o s ≡ ok (claimed (held h), t)
    → claim_relay_cpu_gate_slot o' (run_calls calls t) ≡ ok (claimed (held k), t')
    → (k ≡ h) ⊎ (h.generation < k.generation)
claim_generation o o' s t t' h k calls num first second =
    let num_t = claim-IsNumbered o s (claimed (held h), t) num first in
    let given = claimed-Given h t num_t (claim-claimed o s t h first) in
    let after = run_calls-Given h calls t given in
    let last_turn =
      Turn-Given h (run_calls calls t) t'
        (claimed-Turn o' (run_calls calls t) t' (claimed (held k)) second) after in
    last_turn.later k (claim-claimed o' (run_calls calls t) t' k second)
