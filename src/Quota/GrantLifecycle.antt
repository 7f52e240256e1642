-- ===== src/Quota/GrantLifecycle.antt =====
-- durable-objects/quota-controller/src/relay-grant-lifecycle.ts: the activation, the renewal and the
-- end of a relay grant, each inside one transaction. `now` is the time that the call was given, and
-- the clock is what the lease release and the entry writes read.
pub mod Laws
pub mod Sound
pub mod Replay
pub mod Tests
pub mod Advancing
use octg.Common.{
  ℕ, zero, suc, String, Bool, true, false, not, ◌&&◌, ◌||◌, Option, none, some, List, [], ◌∷◌, ltb,
  leb, ◌==◌, if◌then◌else◌, same, lookup, utf16_length, map,
}
use octg.Shared.Types.{RequestState, RequestEntry, InFlightLease, Ack, done}
use octg.Shared.Types
use octg.Relay.Value.{Value}
use octg.Relay.Errors.{
  RelayErrorCode, invalid_request, grant_not_found, grant_expired, grant_replayed,
  grant_terminalized, lease_lost, RelayGrantState, authorized, attempted, settled, released,
  uncertain, reconciled_consumed, reconciled_unused,
}
use octg.Relay.Messages
use octg.Relay.Messages.{RelayTerminal, RelayTerminalOutcome}
use octg.Relay.Parse.{parse_relay_terminal}
use octg.Quota.Store.{
  Storage, Clock, QuotaEnv, QuotaIdentity, RelayGrant, Result, ok, failed, ◌>>=◌, get_entry,
  load_in_flight, save_in_flight, get_relay_grant, put_relay_grant,
}
use octg.Quota.Leases.{
  Normalized, normalize_in_flight_state, without_expired_leases, find_lease, save_if_changed,
  release_in_flight_lease,
}
use octg.Quota.Grant.{
  RelayGrantBinding, grant_binding_mismatch, is_terminal_grant_state, relay_lease_expiry, option_eq,
}
use octg.Quota.Lifecycle.{
  Transition, settle, mark_uncertain, release, TransitionResult, ack, reconciliation,
  apply_quota_lifecycle_transition,
}

pub data ActivateResult : Type 0 where
  activated : RelayGrant → ActivateResult
  denied : RelayErrorCode → ActivateResult

pub data RenewRelayResult : Type 0 where
  renewed : RelayGrant → (lease_expires_at_ms : ℕ) → RenewRelayResult
  denied : RelayErrorCode → RenewRelayResult

pub data FinishResult : Type 0 where
  accepted : RelayGrant → RequestEntry → FinishResult
  denied : RelayErrorCode → Option RelayGrantState → FinishResult

pub record FinishRelayInput : Type 0 where
  pub binding : RelayGrantBinding
  pub report : Value
  pub report_fingerprint : String

abbrev pub with_state : RelayGrant → RelayGrantState → RelayGrant
with_state g st = record g { state = st }

-- `max_fingerprint_bytes` of the source; the text's `length` counts UTF-16 units.
abbrev max_fingerprint_bytes : ℕ
max_fingerprint_bytes = 128

abbrev entry_is_reserved : Option RequestEntry → Bool
entry_is_reserved none = false
entry_is_reserved (some e) = elim e.state [ Types.reserved ↦ true | _ ↦ false ]

-- The lease of the grant is active under the grant's generation.
abbrev holds_lease : RelayGrant → List InFlightLease → Bool
holds_lease g active = elim (find_lease g.request_id active) [
  | none ↦ false
  | some lease ↦ same lease.generation g.lease_generation
]

-- Renewal gives the new expiry to every lease of the request.
unfoldable pub extend_all : String → ℕ → List InFlightLease → List InFlightLease
extend_all id expires [] = []
extend_all id expires (l ∷ ls) =
    (if same l.request_id id then record l { expires_at_ms = expires } else l)
    ∷ extend_all id expires ls

module _ (clock : Clock) (env : QuotaEnv) (identity : QuotaIdentity) (now : ℕ) where
  abbrev transition : Transition → String → Storage → Result (TransitionResult × Storage)
  transition t id s = apply_quota_lifecycle_transition clock env identity t id s

  abbrev pub release_grant_lease : RelayGrant → Storage → Result Storage
  release_grant_lease g s =
      release_in_flight_lease clock g.request_id (some g.lease_generation) s >>= λ r. ok r.1

  -- A transition of the request, the release of the lease and the new state of the grant.
  pub close_grant : Transition → RelayGrant → RelayGrant → Storage → Result Storage
  close_grant t g g' s = transition t g.request_id s >>= λ r.
      release_grant_lease g r.1 >>= λ s'. ok (put_relay_grant g' s')

  pub expire_attempted_grant : RelayGrant → Storage → Result Storage
  expire_attempted_grant g s = close_grant mark_uncertain g (with_state g uncertain) s

  -- The grant that a credential belongs to.
  pub bound_grant : RelayGrantBinding → Storage → Option RelayGrant
  bound_grant b s = elim (get_relay_grant b.request_id s) [
    | none ↦ none
    | some g ↦ if grant_binding_mismatch g b identity then none else some g
  ]

  pub activate_leased : RelayGrant → Storage → Result (ActivateResult × Storage)
  activate_leased g s =
      if entry_is_reserved (get_entry g.request_id s)
      then (normalize_in_flight_state (load_in_flight s) now >>= λ n.
          if holds_lease g (without_expired_leases now n.leases)
          then ok (activated (with_state g attempted), put_relay_grant (with_state g attempted) s)
          else ok (ActivateResult.denied lease_lost, s))
      else ok (ActivateResult.denied grant_not_found, s)

  -- An expired authorized grant can never activate: its reservation and its lease are released.
  pub activate_authorized : RelayGrant → Storage → Result (ActivateResult × Storage)
  activate_authorized g s =
      if leb g.authorization_expires_at_ms now
      then (close_grant release g (with_state g released) s >>= λ s'.
          ok (ActivateResult.denied grant_expired, s'))
      else activate_leased g s

  activate_by_state : RelayGrantState → RelayGrant → Storage → Result (ActivateResult × Storage)
  activate_by_state authorized g s = activate_authorized g s
  activate_by_state attempted g s = ok (ActivateResult.denied grant_replayed, s)
  activate_by_state uncertain g s = ok (ActivateResult.denied grant_replayed, s)
  activate_by_state _ g s = ok (ActivateResult.denied grant_terminalized, s)

  pub activate_relay_in_transaction :
      RelayGrantBinding → Storage → Result (ActivateResult × Storage)
  activate_relay_in_transaction b s = elim (bound_grant b s) [
    | none ↦ ok (ActivateResult.denied grant_not_found, s)
    | some g ↦
        if leb g.credential_expires_at_ms now
        then ok (ActivateResult.denied grant_expired, s)
        else activate_by_state g.state g s
  ]

  pub renew_leased : RelayGrant → Storage → Result (RenewRelayResult × Storage)
  renew_leased g s =
      if entry_is_reserved (get_entry g.request_id s)
      then (normalize_in_flight_state (load_in_flight s) now >>= λ n.
          let active = without_expired_leases now n.leases in
          if holds_lease g active
          then (relay_lease_expiry now >>= λ expires.
              ok (renewed g expires, save_in_flight (extend_all g.request_id expires active) s))
          else ok (RenewRelayResult.denied lease_lost, save_if_changed n active s))
      else ok (RenewRelayResult.denied invalid_request, s)

  renew_attempted : RelayGrant → Storage → Result (RenewRelayResult × Storage)
  renew_attempted g s =
      if leb g.authorization_expires_at_ms now
      then (expire_attempted_grant g s >>= λ s'. ok (RenewRelayResult.denied grant_expired, s'))
      else renew_leased g s

  renew_by_state : RelayGrantState → RelayGrant → Storage → Result (RenewRelayResult × Storage)
  renew_by_state attempted g s = renew_attempted g s
  renew_by_state authorized g s = ok (RenewRelayResult.denied invalid_request, s)
  renew_by_state _ g s = ok (RenewRelayResult.denied grant_terminalized, s)

  pub renew_relay_in_transaction : RelayGrantBinding → Storage → Result (RenewRelayResult × Storage)
  renew_relay_in_transaction b s = elim (bound_grant b s) [
    | none ↦ ok (RenewRelayResult.denied grant_not_found, s)
    | some g ↦
        if leb g.credential_expires_at_ms now
        then ok (RenewRelayResult.denied grant_expired, s)
        else renew_by_state g.state g s
  ]

  abbrev outcome_state : RelayTerminalOutcome → RelayGrantState
  outcome_state Messages.settle = settled
  outcome_state Messages.uncertain = uncertain
  outcome_state Messages.release = released

  abbrev pub finished_grant : RelayGrant → RelayTerminal → String → RelayGrant
  finished_grant g report fingerprint = record g {
    state = outcome_state report.outcome;
    terminal_report = some report;
    terminal_fingerprint = some fingerprint;
  }

  -- The same report again is answered with the grant and the entry as they are.
  finish_terminal : RelayGrant → String → Storage → FinishResult
  finish_terminal g fingerprint s =
      if option_eq g.terminal_fingerprint (some fingerprint)
      then elim (get_entry g.request_id s) [
        | none ↦ FinishResult.denied invalid_request (some g.state)
        | some e ↦ accepted g e
      ]
      else FinishResult.denied grant_terminalized (some g.state)

  -- `!applied.ok`.
  abbrev pub is_unknown : TransitionResult → Bool
  is_unknown (ack Ack.unknown_request) = true
  is_unknown (ack done) = false
  is_unknown (reconciliation r) = false

  finish_accept : RelayGrant → Storage → FinishResult
  finish_accept g s = elim (get_entry g.request_id s) [
    | none ↦ FinishResult.denied invalid_request (some g.state)
    | some e ↦ accepted g e
  ]

  -- From the transition on.
  pub finish_apply :
      Transition → RelayGrant → RelayTerminal → String → Storage → Result (FinishResult × Storage)
  finish_apply t g report fingerprint s = transition t g.request_id s >>= λ r.
      if is_unknown r.0
      then ok (FinishResult.denied invalid_request (some g.state), r.1)
      else (release_grant_lease g r.1 >>= λ s'.
          let g' = finished_grant g report fingerprint in
          let t' = put_relay_grant g' s' in ok (finish_accept g' t', t'))

  -- The refusal of a release of a grant that is no longer authorized; an attempt whose time is over
  -- becomes uncertain on the way.
  finish_refused_release : RelayGrantState → RelayGrant → Storage → Result (FinishResult × Storage)
  finish_refused_release attempted g s =
      if leb g.authorization_expires_at_ms now
      then (expire_attempted_grant g s >>= λ s'.
          ok (FinishResult.denied invalid_request (some uncertain), s'))
      else ok (FinishResult.denied invalid_request (some attempted), s)
  finish_refused_release st g s = ok (FinishResult.denied invalid_request (some st), s)

  -- The outcome of the report against the state of the grant.
  pub finish_live :
      RelayTerminalOutcome
      → RelayGrantState
      → RelayGrant
      → RelayTerminal
      → String
      → Storage
      → Result (FinishResult × Storage)
  finish_live Messages.release authorized g report fp s = finish_apply release g report fp s
  finish_live Messages.release st g report fp s = finish_refused_release st g s
  finish_live Messages.settle authorized g report fp s =
      ok (FinishResult.denied invalid_request (some authorized), s)
  finish_live Messages.settle st g report fp s = elim report.total_tokens [
    | none ↦ ok (FinishResult.denied invalid_request (some st), s)
    | some n ↦ finish_apply (settle n) g report fp s
  ]
  finish_live Messages.uncertain st g report fp s = finish_apply mark_uncertain g report fp s

  finish_bound : RelayGrant → RelayTerminal → String → Storage → Result (FinishResult × Storage)
  finish_bound g report fp s =
      if leb g.credential_expires_at_ms now
      then ok (FinishResult.denied grant_expired (some g.state), s)
      else if is_terminal_grant_state g.state
      then ok (finish_terminal g fp s, s)
      else finish_live report.outcome g.state g report fp s

  abbrev pub report_fits : RelayTerminal → FinishRelayInput → Bool
  report_fits report i =
      same report.grant_id i.binding.grant_id
      && same report.lease_generation i.binding.lease_generation
      && not (same i.report_fingerprint "")
      && leb (utf16_length i.report_fingerprint) max_fingerprint_bytes

  pub finish_relay_in_transaction : FinishRelayInput → Storage → Result (FinishResult × Storage)
  finish_relay_in_transaction i s = elim (parse_relay_terminal i.report) [
    | none ↦ ok (FinishResult.denied invalid_request none, s)
    | some report ↦
        if report_fits report i
        then elim (bound_grant i.binding s) [
          | none ↦ ok (FinishResult.denied grant_not_found none, s)
          | some g ↦ finish_bound g report i.report_fingerprint s
        ]
        else ok (FinishResult.denied invalid_request none, s)
  ]
