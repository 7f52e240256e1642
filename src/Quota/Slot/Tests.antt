-- ===== src/Quota/Slot/Tests.antt =====
-- The slot laws at concrete owners.
use octg.Common.{◌≡◌, refl, true, false, none, some, same, matches, arith, ◌<◌, ◌⊎◌, List, [], ◌∷◌}
use octg.Shared.Number.{nat}
use octg.Shared.Types.{standard, mini}
use octg.Relay.Messages.{relay_request_id_pattern}
use octg.Quota.Store.{ok}
use octg.Quota.CpuGate.{fenced, absent}
use octg.Quota.Slot.{
  SlotOwner, Holding, held, SlotStorage, claimed, busy, closed, is_owner, claim_from,
  claim_relay_cpu_gate_slot, mark_from, mark_closing, is_proof, finish_from, finish_closing,
  Evidence, after_mark, close_relay_cpu_gate_slot, matches_owner, blocked, SlotCall, claim, mark,
  finish, run_calls, run_call,
}
use octg.Quota.Slot.Laws.{claim_exclusive, close-Freed, Freed}
use octg.Quota.Slot.History.{claim_generation, IsNumbered}

abbrev first_owner : SlotOwner
first_owner = record { pool = standard; request_id = "req_00007Q69W8TSV4RRFFQ69G5FAV" }

abbrev other_owner : SlotOwner
other_owner = record { pool = mini; request_id = "req_00007Q69W8TSV4RRFFQ69G5FAV" }

abbrev free_slot : SlotStorage
free_slot = record { slot = none; last_generation = some 4 }

abbrev first_hold : Holding
first_hold = record { owner = first_owner; generation = 5 }

abbrev taken_slot : SlotStorage
taken_slot = record { slot = some (held first_hold); last_generation = some 5 }

abbrev proof : Evidence
proof = record { fence = fenced; inspection = absent true }

first_claim :
    claim_relay_cpu_gate_slot first_owner free_slot ≡ ok (claimed (held first_hold), taken_slot)
unfolding claim_relay_cpu_gate_slot claim_from relay_request_id_pattern matches
first_claim = refl

other_is_owner : is_owner other_owner ≡ true
unfolding relay_request_id_pattern matches
other_is_owner = refl

claim_exclusive_example :
    (h : Holding) × (held first_hold ≡ held h)
    × (matches_owner h.owner first_owner ≡ true)
    × (matches_owner h.owner other_owner ≡ false
        → claim_relay_cpu_gate_slot other_owner taken_slot ≡ ok (busy, taken_slot))
claim_exclusive_example =
    claim_exclusive first_owner other_owner free_slot taken_slot (held first_hold) first_claim
      other_is_owner

free_slot-IsNumbered : IsNumbered free_slot
free_slot-IsNumbered = record { not_above = ground arith; safe = ground arith }

abbrev second_hold : Holding
second_hold = record { owner = other_owner; generation = 6 }

abbrev retaken_slot : SlotStorage
retaken_slot = record { slot = some (held second_hold); last_generation = some 6 }

-- The first holding is closed, and another owner claims the slot.
abbrev closing_calls : List SlotCall
closing_calls = mark first_owner 5 ∷ finish first_owner 5 ∷ []

second_claim :
    claim_relay_cpu_gate_slot other_owner (run_calls closing_calls taken_slot)
    ≡ ok (claimed (held second_hold), retaken_slot)
unfolding claim_relay_cpu_gate_slot claim_from relay_request_id_pattern matches run_calls run_call
    mark_closing mark_from finish_closing finish_from same
second_claim = refl

claim_generation_example :
    (second_hold ≡ first_hold) ⊎ (first_hold.generation < second_hold.generation)
claim_generation_example =
    claim_generation first_owner other_owner free_slot taken_slot retaken_slot first_hold
      second_hold closing_calls free_slot-IsNumbered first_claim second_claim

abbrev freed_slot : SlotStorage
freed_slot = record { slot = none; last_generation = some 5 }

-- Another owner asks for the slot while it is being closed.
abbrev meanwhile : SlotStorage → SlotStorage
meanwhile s = run_calls (claim other_owner ∷ []) s

proved_close :
    close_relay_cpu_gate_slot first_owner (nat 5) proof meanwhile taken_slot
    ≡ ok (closed, freed_slot)
unfolding close_relay_cpu_gate_slot after_mark mark_closing mark_from is_proof finish_closing
    finish_from relay_request_id_pattern same matches run_calls run_call claim_relay_cpu_gate_slot
    claim_from octg.Relay.Routing.relay_request_utc_day_of octg.Relay.Routing.timestamp_of
    octg.Relay.Routing.encoded_timestamp octg.Relay.Routing.crockford_index
    octg.Relay.Routing.utc_day_of octg.Shared.Calendar.next_day octg.Shared.Calendar.days_in_month
proved_close = refl

-- Another close that has come first leaves nothing to free.
late_close :
    close_relay_cpu_gate_slot first_owner
      (nat 5)
      proof
      (λ s. run_calls (finish first_owner 5 ∷ claim other_owner ∷ []) s)
      taken_slot
    ≡ ok (blocked, retaken_slot)
unfolding close_relay_cpu_gate_slot after_mark mark_closing mark_from is_proof finish_closing
    finish_from relay_request_id_pattern same matches run_calls run_call claim_relay_cpu_gate_slot
    claim_from octg.Relay.Routing.relay_request_utc_day_of octg.Relay.Routing.timestamp_of
    octg.Relay.Routing.encoded_timestamp octg.Relay.Routing.crockford_index
    octg.Relay.Routing.utc_day_of octg.Shared.Calendar.next_day octg.Shared.Calendar.days_in_month
late_close = refl

close-Freed_example : Freed first_owner (nat 5) proof meanwhile taken_slot freed_slot
close-Freed_example =
    close-Freed first_owner (nat 5) proof meanwhile taken_slot freed_slot (λ e. ground arith)
      proved_close
