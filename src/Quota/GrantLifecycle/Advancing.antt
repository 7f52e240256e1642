-- ===== src/Quota/GrantLifecycle/Advancing.antt =====
-- Activation, renewal and the end of a relay grant take requests only along edges of their state
-- machine.
use octg.Common.{ℕ, ◌≡◌, String, some, arith, subst, inl, inr, Option-cases, Bool-cases, leb}
use octg.Relay.Errors.{RelayGrantState, authorized, attempted, released, uncertain}
use octg.Relay.Messages
use octg.Relay.Messages.{RelayTerminal, RelayTerminalOutcome}
use octg.Relay.Parse.{parse_relay_terminal}
use octg.Quota.Store.{Storage, Clock, QuotaEnv, QuotaIdentity, RelayGrant, ok, Result-cases}
use octg.Quota.Leases.{release_in_flight_lease}
use octg.Quota.Leases.Laws.{release_in_flight_lease_frame}
use octg.Quota.Lifecycle.{
  Transition, settle, mark_uncertain, release, apply_quota_lifecycle_transition,
}
use octg.Quota.Grant.{RelayGrantBinding, is_terminal_grant_state}
use octg.Quota.GrantLifecycle.{
  ActivateResult, RenewRelayResult, FinishResult, FinishRelayInput, close_grant,
  expire_attempted_grant, bound_grant, activate_leased, activate_authorized, activate_by_state,
  activate_relay_in_transaction, renew_leased, renew_attempted, renew_by_state,
  renew_relay_in_transaction, finish_apply, finish_live, finish_bound, finish_refused_release,
  finish_relay_in_transaction, with_state, is_unknown, report_fits,
}
use octg.Quota.Lifecycle.Advances.{Advances, idle, then_idle, apply-Advances}

module _ (clock : Clock) (env : QuotaEnv) (identity : QuotaIdentity) (now : ℕ) where
  close_grant-Advances :
      (t : Transition) (g g' : RelayGrant) (s u : Storage)
      → close_grant clock env identity now t g g' s ≡ ok u
      → Advances s u
  unfolding close_grant
  close_grant-Advances t g g' s u h =
      elim (Result-cases (apply_quota_lifecycle_transition clock env identity t g.request_id s)) [
        | inr (x, eq) ↦ absurd (ground arith)
        | inl (r, moved) ↦
            elim (Result-cases
              (release_in_flight_lease clock g.request_id (some g.lease_generation) r.1)) [
                | inr (x, eq) ↦ absurd (ground arith)
                | inl (f, freed) ↦
                    let frame =
                      release_in_flight_lease_frame clock g.request_id (some g.lease_generation) r.1
                        f freed in
                    then_idle s r.1 u (apply-Advances clock env identity t g.request_id s r moved)
                      (ground (arith, frame)) (ground (arith, frame))
              ]
      ]

  activate_leased-Advances :
      (g : RelayGrant) (s : Storage) (r : ActivateResult × Storage)
      → activate_leased clock env identity now g s ≡ ok r
      → Advances s r.1
  unfolding activate_leased
  activate_leased-Advances g s r h = idle s r.1 (ground arith) (ground arith)

  activate_authorized-Advances :
      (g : RelayGrant) (s : Storage) (r : ActivateResult × Storage)
      → activate_authorized clock env identity now g s ≡ ok r
      → Advances s r.1
  unfolding activate_authorized
  activate_authorized-Advances g s r h = elim (Bool-cases (leb g.authorization_expires_at_ms now)) [
    | inr early ↦ activate_leased-Advances g s r (ground arith)
    | inl late ↦
        elim (Result-cases
          (close_grant clock env identity now release g (with_state g released) s)) [
            | inr (x, eq) ↦ absurd (ground arith)
            | inl (u, eq) ↦
                subst (Advances s) {x = u} {y = r.1} (ground arith)
                  (close_grant-Advances release g (with_state g released) s u eq)
          ]
  ]

  activate_by_state-Advances :
      (st : RelayGrantState) (g : RelayGrant) (s : Storage) (r : ActivateResult × Storage)
      → activate_by_state clock env identity now st g s ≡ ok r
      → Advances s r.1
  unfolding activate_by_state
  activate_by_state-Advances authorized g s r h = activate_authorized-Advances g s r h
  activate_by_state-Advances _ g s r h = idle s r.1 (ground arith) (ground arith)

  pub activate-Advances :
      (b : RelayGrantBinding) (s : Storage) (r : ActivateResult × Storage)
      → activate_relay_in_transaction clock env identity now b s ≡ ok r
      → Advances s r.1
  unfolding activate_relay_in_transaction
  activate-Advances b s r h = elim (Option-cases (bound_grant clock env identity now b s)) [
    | inl absent ↦ idle s r.1 (ground arith) (ground arith)
    | inr (g, found) ↦ elim (Bool-cases (leb g.credential_expires_at_ms now)) [
      | inl late ↦ idle s r.1 (ground arith) (ground arith)
      | inr early ↦ activate_by_state-Advances g.state g s r (ground arith)
    ]
  ]

  renew_leased-Advances :
      (g : RelayGrant) (s : Storage) (r : RenewRelayResult × Storage)
      → renew_leased clock env identity now g s ≡ ok r
      → Advances s r.1
  unfolding renew_leased
  renew_leased-Advances g s r h = idle s r.1 (ground arith) (ground arith)

  renew_attempted-Advances :
      (g : RelayGrant) (s : Storage) (r : RenewRelayResult × Storage)
      → renew_attempted clock env identity now g s ≡ ok r
      → Advances s r.1
  unfolding renew_attempted expire_attempted_grant
  renew_attempted-Advances g s r h = elim (Bool-cases (leb g.authorization_expires_at_ms now)) [
    | inr early ↦ renew_leased-Advances g s r (ground arith)
    | inl late ↦
        elim (Result-cases
          (close_grant clock env identity now mark_uncertain g (with_state g uncertain) s)) [
            | inr (x, eq) ↦ absurd (ground arith)
            | inl (u, eq) ↦
                subst (Advances s) {x = u} {y = r.1} (ground arith)
                  (close_grant-Advances mark_uncertain g (with_state g uncertain) s u eq)
          ]
  ]

  renew_by_state-Advances :
      (st : RelayGrantState) (g : RelayGrant) (s : Storage) (r : RenewRelayResult × Storage)
      → renew_by_state clock env identity now st g s ≡ ok r
      → Advances s r.1
  unfolding renew_by_state
  renew_by_state-Advances attempted g s r h = renew_attempted-Advances g s r h
  renew_by_state-Advances _ g s r h = idle s r.1 (ground arith) (ground arith)

  pub renew-Advances :
      (b : RelayGrantBinding) (s : Storage) (r : RenewRelayResult × Storage)
      → renew_relay_in_transaction clock env identity now b s ≡ ok r
      → Advances s r.1
  unfolding renew_relay_in_transaction
  renew-Advances b s r h = elim (Option-cases (bound_grant clock env identity now b s)) [
    | inl absent ↦ idle s r.1 (ground arith) (ground arith)
    | inr (g, found) ↦ elim (Bool-cases (leb g.credential_expires_at_ms now)) [
      | inl late ↦ idle s r.1 (ground arith) (ground arith)
      | inr early ↦ renew_by_state-Advances g.state g s r (ground arith)
    ]
  ]

  finish_apply-Advances :
      (t : Transition) (g : RelayGrant) (p : RelayTerminal) (fp : String) (s : Storage)
      (a : FinishResult × Storage)
      → finish_apply clock env identity now t g p fp s ≡ ok a
      → Advances s a.1
  unfolding finish_apply
  finish_apply-Advances t g p fp s a h =
      elim (Result-cases (apply_quota_lifecycle_transition clock env identity t g.request_id s)) [
        | inr (x, eq) ↦ absurd (ground arith)
        | inl (r, moved) ↦ elim (Bool-cases (is_unknown clock env identity now r.0)) [
          | inl unknown ↦
              then_idle s r.1 a.1 (apply-Advances clock env identity t g.request_id s r moved)
                (ground arith) (ground arith)
          | inr known ↦
              elim (Result-cases
                (release_in_flight_lease clock g.request_id (some g.lease_generation) r.1)) [
                  | inr (x, eq) ↦ absurd (ground arith)
                  | inl (f, freed) ↦
                      let frame =
                        release_in_flight_lease_frame clock g.request_id (some g.lease_generation)
                          r.1 f freed in
                      then_idle s r.1 a.1
                        (apply-Advances clock env identity t g.request_id s r moved)
                        (ground (arith, frame)) (ground (arith, frame))
                ]
        ]
      ]

  finish_refused_release-Advances :
      (st : RelayGrantState) (g : RelayGrant) (s : Storage) (a : FinishResult × Storage)
      → finish_refused_release clock env identity now st g s ≡ ok a
      → Advances s a.1
  unfolding finish_refused_release expire_attempted_grant
  finish_refused_release-Advances attempted g s a h =
      elim (Bool-cases (leb g.authorization_expires_at_ms now)) [
        | inr early ↦ idle s a.1 (ground arith) (ground arith)
        | inl late ↦
            elim (Result-cases
              (close_grant clock env identity now mark_uncertain g (with_state g uncertain) s)) [
                | inr (x, eq) ↦ absurd (ground arith)
                | inl (u, eq) ↦
                    subst (Advances s) {x = u} {y = a.1} (ground arith)
                      (close_grant-Advances mark_uncertain g (with_state g uncertain) s u eq)
              ]
      ]
  finish_refused_release-Advances _ g s a h = idle s a.1 (ground arith) (ground arith)

  finish_settle-Advances :
      (st : RelayGrantState) (g : RelayGrant) (p : RelayTerminal) (fp : String) (s : Storage)
      (a : FinishResult × Storage)
      → finish_live clock env identity now Messages.settle st g p fp s ≡ ok a
      → Advances s a.1
  unfolding finish_live
  finish_settle-Advances authorized g p fp s a h = idle s a.1 (ground arith) (ground arith)
  finish_settle-Advances _ g p fp s a h = elim (Option-cases p.total_tokens) [
    | inl none_given ↦ idle s a.1 (ground arith) (ground arith)
    | inr (n, given) ↦ finish_apply-Advances (settle n) g p fp s a (ground arith)
  ]

  finish_live-Advances :
      (o : RelayTerminalOutcome) (st : RelayGrantState) (g : RelayGrant) (p : RelayTerminal)
      (fp : String) (s : Storage) (a : FinishResult × Storage)
      → finish_live clock env identity now o st g p fp s ≡ ok a
      → Advances s a.1
  unfolding finish_live
  finish_live-Advances Messages.release authorized g p fp s a h =
      finish_apply-Advances release g p fp s a h
  finish_live-Advances Messages.release st g p fp s a h = finish_refused_release-Advances st g s a h
  finish_live-Advances Messages.settle st g p fp s a h = finish_settle-Advances st g p fp s a h
  finish_live-Advances Messages.uncertain st g p fp s a h =
      finish_apply-Advances mark_uncertain g p fp s a h

  finish_bound-Advances :
      (g : RelayGrant) (p : RelayTerminal) (fp : String) (s : Storage) (a : FinishResult × Storage)
      → finish_bound clock env identity now g p fp s ≡ ok a
      → Advances s a.1
  unfolding finish_bound
  finish_bound-Advances g p fp s a h = elim (Bool-cases (leb g.credential_expires_at_ms now)) [
    | inl late ↦ idle s a.1 (ground arith) (ground arith)
    | inr early ↦ elim (Bool-cases (is_terminal_grant_state g.state)) [
      | inl over ↦ idle s a.1 (ground arith) (ground arith)
      | inr alive ↦ finish_live-Advances p.outcome g.state g p fp s a (ground arith)
    ]
  ]

  pub finish-Advances :
      (i : FinishRelayInput) (s : Storage) (a : FinishResult × Storage)
      → finish_relay_in_transaction clock env identity now i s ≡ ok a
      → Advances s a.1
  unfolding finish_relay_in_transaction
  finish-Advances i s a h = elim (Option-cases (parse_relay_terminal i.report)) [
    | inl garbled ↦ idle s a.1 (ground arith) (ground arith)
    | inr (p, parsed) ↦ elim (Bool-cases (report_fits clock env identity now p i)) [
      | inr unfit ↦ idle s a.1 (ground arith) (ground arith)
      | inl fit ↦ elim (Option-cases (bound_grant clock env identity now i.binding s)) [
        | inl absent ↦ idle s a.1 (ground arith) (ground arith)
        | inr (g, found) ↦ finish_bound-Advances g p i.report_fingerprint s a (ground arith)
      ]
    ]
  ]
