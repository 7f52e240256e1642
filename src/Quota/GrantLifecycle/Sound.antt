-- ===== src/Quota/GrantLifecycle/Sound.antt =====
-- Activation, renewal and the end of a relay grant keep the invariant of the storage.
use octg.Common.{
  ℕ, ◌≡◌, refl, String, Bool, true, some, arith, lookup, subst, inl, inr, Option-cases, Bool-cases,
  leb,
}
use octg.Relay.Errors.{RelayGrantState, authorized, attempted, released, uncertain}
use octg.Relay.Messages
use octg.Relay.Messages.{RelayTerminal, RelayTerminalOutcome}
use octg.Relay.Parse.{parse_relay_terminal}
use octg.Quota.Store.{
  Storage, Clock, QuotaEnv, QuotaIdentity, RelayGrant, ok, Result-cases, put_relay_grant,
}
use octg.Quota.Leases.{release_in_flight_lease}
use octg.Quota.Leases.Laws.{release_in_flight_lease_frame, with_in_flight}
use octg.Quota.Lifecycle.{
  Transition, settle, mark_uncertain, release, TransitionResult, apply_quota_lifecycle_transition,
}
use octg.Quota.Lifecycle.Closing.{ClosedAt, apply-ClosedAt}
use octg.Quota.Grant.{RelayGrantBinding, is_terminal_grant_state}
use octg.Quota.GrantLifecycle.{
  ActivateResult, RenewRelayResult, FinishResult, FinishRelayInput, close_grant,
  expire_attempted_grant, bound_grant, activate_leased, activate_authorized, activate_by_state,
  activate_relay_in_transaction, renew_leased, renew_attempted, renew_by_state,
  renew_relay_in_transaction, finished_grant, finish_apply, finish_live, finish_bound,
  finish_refused_release, finish_relay_in_transaction, with_state, is_unknown, report_fits,
}
use octg.Quota.Invariant.{IsSound, same-IsSound, put-IsSound, apply-IsSound, is_live}

module _ (clock : Clock) (env : QuotaEnv) (identity : QuotaIdentity) (now : ℕ) where
  bound_grant-held :
      (b : RelayGrantBinding) (s : Storage) (g : RelayGrant)
      → IsSound s
      → bound_grant clock env identity now b s ≡ some g
      → lookup g.request_id s.grants ≡ some g
  unfolding bound_grant
  bound_grant-held b s g sound h = elim (Option-cases (lookup b.request_id s.grants)) [
    | inl absent ↦ absurd (ground arith)
    | inr (x, found) ↦ ground (arith, (sound.backed b.request_id x found).own_id)
  ]

  -- A transition of the grant's request, the release of its lease and a new state of the grant.
  close-IsSound :
      (t : Transition) (g g' : RelayGrant) (s : Storage) (r : TransitionResult × Storage)
      (f : Bool × Storage)
      → IsSound s
      → lookup g.request_id s.grants ≡ some g
      → g'.request_id ≡ g.request_id
      → apply_quota_lifecycle_transition clock env identity t g.request_id s ≡ ok r
      → release_in_flight_lease clock g.request_id (some g.lease_generation) r.1 ≡ ok f
      → IsSound (put_relay_grant g' f.1)
  close-IsSound t g g' s r f sound held own moved freed =
      elim (Option-cases (lookup g.request_id s.entries)) [
        | inl absent ↦ absurd (ground (arith, (sound.backed g.request_id g held).has_request))
        | inr (e, found) ↦
            let c : ClosedAt g.request_id r.1 =
              apply-ClosedAt clock env identity g.request_id t e s r found
                (sound.coherent g.request_id e found) moved in
            let frame =
              release_in_flight_lease_frame clock g.request_id (some g.lease_generation) r.1 f
                freed in
            put-IsSound g.request_id g' r.1 (put_relay_grant g' f.1)
              (apply-IsSound clock env identity t g.request_id s r sound moved)
              (ground (arith, frame)) (ground (arith, frame)) own (ground (arith, c)) (λ _. c)
      ]

  close_grant-IsSound :
      (t : Transition) (g g' : RelayGrant) (s u : Storage)
      → IsSound s
      → lookup g.request_id s.grants ≡ some g
      → g'.request_id ≡ g.request_id
      → close_grant clock env identity now t g g' s ≡ ok u
      → IsSound u
  unfolding close_grant
  close_grant-IsSound t g g' s u sound held own h =
      elim (Result-cases (apply_quota_lifecycle_transition clock env identity t g.request_id s)) [
        | inr (x, eq) ↦ absurd (ground arith)
        | inl (r, moved) ↦
            elim (Result-cases
              (release_in_flight_lease clock g.request_id (some g.lease_generation) r.1)) [
                | inr (x, eq) ↦ absurd (ground arith)
                | inl (f, freed) ↦
                    subst IsSound {x = put_relay_grant g' f.1} {y = u} (ground arith)
                      (close-IsSound t g g' s r f sound held own moved freed)
              ]
      ]

  -- A live grant stays live: its request may stay reserved.
  relive-IsSound :
      (g g' : RelayGrant) (s : Storage)
      → IsSound s
      → lookup g.request_id s.grants ≡ some g
      → g'.request_id ≡ g.request_id
      → is_live g'.state ≡ true
      → IsSound (put_relay_grant g' s)
  relive-IsSound g g' s sound held own alive =
      put-IsSound g.request_id g' s (put_relay_grant g' s) sound (ground arith) (ground arith) own
        (sound.backed g.request_id g held).has_request (λ dead. absurd (ground arith))

  -- Only the leases differ.
  leases-IsSound : (s t : Storage) → IsSound s → t ≡ with_in_flight t.in_flight s → IsSound t
  leases-IsSound s t sound e = same-IsSound s t sound (ground arith) (ground arith)

  activate_leased-IsSound :
      (g : RelayGrant) (s : Storage) (r : ActivateResult × Storage)
      → IsSound s
      → lookup g.request_id s.grants ≡ some g
      → activate_leased clock env identity now g s ≡ ok r
      → IsSound r.1
  unfolding activate_leased
  activate_leased-IsSound g s r sound held h =
      ground (arith, relive-IsSound g (with_state g attempted) s sound held refl refl)

  activate_authorized-IsSound :
      (g : RelayGrant) (s : Storage) (r : ActivateResult × Storage)
      → IsSound s
      → lookup g.request_id s.grants ≡ some g
      → activate_authorized clock env identity now g s ≡ ok r
      → IsSound r.1
  unfolding activate_authorized
  activate_authorized-IsSound g s r sound held h =
      elim (Bool-cases (leb g.authorization_expires_at_ms now)) [
        | inr early ↦ activate_leased-IsSound g s r sound held (ground arith)
        | inl late ↦
            elim (Result-cases
              (close_grant clock env identity now release g (with_state g released) s)) [
                | inr (x, eq) ↦ absurd (ground arith)
                | inl (u, eq) ↦
                    subst IsSound {x = u} {y = r.1} (ground arith)
                      (close_grant-IsSound release g (with_state g released) s u sound held refl eq)
              ]
      ]

  activate_by_state-IsSound :
      (st : RelayGrantState) (g : RelayGrant) (s : Storage) (r : ActivateResult × Storage)
      → IsSound s
      → lookup g.request_id s.grants ≡ some g
      → activate_by_state clock env identity now st g s ≡ ok r
      → IsSound r.1
  unfolding activate_by_state
  activate_by_state-IsSound authorized g s r sound held h =
      activate_authorized-IsSound g s r sound held h
  activate_by_state-IsSound _ g s r sound held h =
      subst IsSound {x = s} {y = r.1} (ground arith) sound

  -- Activation keeps the invariant, whatever it answers.
  pub activate-IsSound :
      (b : RelayGrantBinding) (s : Storage) (r : ActivateResult × Storage)
      → IsSound s
      → activate_relay_in_transaction clock env identity now b s ≡ ok r
      → IsSound r.1
  unfolding activate_relay_in_transaction
  activate-IsSound b s r sound h = elim (Option-cases (bound_grant clock env identity now b s)) [
    | inl absent ↦ subst IsSound {x = s} {y = r.1} (ground arith) sound
    | inr (g, found) ↦ elim (Bool-cases (leb g.credential_expires_at_ms now)) [
      | inl late ↦ subst IsSound {x = s} {y = r.1} (ground arith) sound
      | inr early ↦
          activate_by_state-IsSound g.state g s r sound (bound_grant-held b s g sound found)
            (ground arith)
    ]
  ]

  renew_leased-IsSound :
      (g : RelayGrant) (s : Storage) (r : RenewRelayResult × Storage)
      → IsSound s
      → renew_leased clock env identity now g s ≡ ok r
      → IsSound r.1
  unfolding renew_leased
  renew_leased-IsSound g s r sound h = leases-IsSound s r.1 sound (ground arith)

  renew_attempted-IsSound :
      (g : RelayGrant) (s : Storage) (r : RenewRelayResult × Storage)
      → IsSound s
      → lookup g.request_id s.grants ≡ some g
      → renew_attempted clock env identity now g s ≡ ok r
      → IsSound r.1
  unfolding renew_attempted expire_attempted_grant
  renew_attempted-IsSound g s r sound held h =
      elim (Bool-cases (leb g.authorization_expires_at_ms now)) [
        | inr early ↦ renew_leased-IsSound g s r sound (ground arith)
        | inl late ↦
            elim (Result-cases
              (close_grant clock env identity now mark_uncertain g (with_state g uncertain) s)) [
                | inr (x, eq) ↦ absurd (ground arith)
                | inl (u, eq) ↦ subst IsSound {x = u} {y = r.1} (ground arith) (
                    close_grant-IsSound mark_uncertain g (with_state g uncertain) s u sound held
                      refl eq)
              ]
      ]

  renew_by_state-IsSound :
      (st : RelayGrantState) (g : RelayGrant) (s : Storage) (r : RenewRelayResult × Storage)
      → IsSound s
      → lookup g.request_id s.grants ≡ some g
      → renew_by_state clock env identity now st g s ≡ ok r
      → IsSound r.1
  unfolding renew_by_state
  renew_by_state-IsSound attempted g s r sound held h = renew_attempted-IsSound g s r sound held h
  renew_by_state-IsSound _ g s r sound held h = subst IsSound {x = s} {y = r.1} (ground arith) sound

  -- Renewal keeps the invariant, whatever it answers.
  pub renew-IsSound :
      (b : RelayGrantBinding) (s : Storage) (r : RenewRelayResult × Storage)
      → IsSound s
      → renew_relay_in_transaction clock env identity now b s ≡ ok r
      → IsSound r.1
  unfolding renew_relay_in_transaction
  renew-IsSound b s r sound h = elim (Option-cases (bound_grant clock env identity now b s)) [
    | inl absent ↦ subst IsSound {x = s} {y = r.1} (ground arith) sound
    | inr (g, found) ↦ elim (Bool-cases (leb g.credential_expires_at_ms now)) [
      | inl late ↦ subst IsSound {x = s} {y = r.1} (ground arith) sound
      | inr early ↦
          renew_by_state-IsSound g.state g s r sound (bound_grant-held b s g sound found)
            (ground arith)
    ]
  ]

  finish_apply-IsSound :
      (t : Transition) (g : RelayGrant) (p : RelayTerminal) (fp : String) (s : Storage)
      (a : FinishResult × Storage)
      → IsSound s
      → lookup g.request_id s.grants ≡ some g
      → finish_apply clock env identity now t g p fp s ≡ ok a
      → IsSound a.1
  unfolding finish_apply
  finish_apply-IsSound t g p fp s a sound held h =
      elim (Result-cases (apply_quota_lifecycle_transition clock env identity t g.request_id s)) [
        | inr (x, eq) ↦ absurd (ground arith)
        | inl (r, moved) ↦ elim (Bool-cases (is_unknown clock env identity now r.0)) [
          | inl unknown ↦
              subst IsSound {x = r.1} {y = a.1} (ground arith)
                (apply-IsSound clock env identity t g.request_id s r sound moved)
          | inr known ↦
              elim (Result-cases
                (release_in_flight_lease clock g.request_id (some g.lease_generation) r.1)) [
                  | inr (x, eq) ↦ absurd (ground arith)
                  | inl (f, freed) ↦
                      subst IsSound
                        {x = put_relay_grant (finished_grant clock env identity now g p fp) f.1}
                        {y = a.1} (ground arith)
                        (close-IsSound t g (finished_grant clock env identity now g p fp) s r f
                          sound held refl moved freed)
                ]
        ]
      ]

  finish_refused_release-IsSound :
      (st : RelayGrantState) (g : RelayGrant) (s : Storage) (a : FinishResult × Storage)
      → IsSound s
      → lookup g.request_id s.grants ≡ some g
      → finish_refused_release clock env identity now st g s ≡ ok a
      → IsSound a.1
  unfolding finish_refused_release expire_attempted_grant
  finish_refused_release-IsSound attempted g s a sound held h =
      elim (Bool-cases (leb g.authorization_expires_at_ms now)) [
        | inr early ↦ subst IsSound {x = s} {y = a.1} (ground arith) sound
        | inl late ↦
            elim (Result-cases
              (close_grant clock env identity now mark_uncertain g (with_state g uncertain) s)) [
                | inr (x, eq) ↦ absurd (ground arith)
                | inl (u, eq) ↦ subst IsSound {x = u} {y = a.1} (ground arith) (
                    close_grant-IsSound mark_uncertain g (with_state g uncertain) s u sound held
                      refl eq)
              ]
      ]
  finish_refused_release-IsSound _ g s a sound held h =
      subst IsSound {x = s} {y = a.1} (ground arith) sound

  finish_settle-IsSound :
      (st : RelayGrantState) (g : RelayGrant) (p : RelayTerminal) (fp : String) (s : Storage)
      (a : FinishResult × Storage)
      → IsSound s
      → lookup g.request_id s.grants ≡ some g
      → finish_live clock env identity now Messages.settle st g p fp s ≡ ok a
      → IsSound a.1
  unfolding finish_live
  finish_settle-IsSound authorized g p fp s a sound held h =
      subst IsSound {x = s} {y = a.1} (ground arith) sound
  finish_settle-IsSound _ g p fp s a sound held h = elim (Option-cases p.total_tokens) [
    | inl none_given ↦ subst IsSound {x = s} {y = a.1} (ground arith) sound
    | inr (n, given) ↦ finish_apply-IsSound (settle n) g p fp s a sound held (ground arith)
  ]

  finish_live-IsSound :
      (o : RelayTerminalOutcome) (st : RelayGrantState) (g : RelayGrant) (p : RelayTerminal)
      (fp : String) (s : Storage) (a : FinishResult × Storage)
      → IsSound s
      → lookup g.request_id s.grants ≡ some g
      → finish_live clock env identity now o st g p fp s ≡ ok a
      → IsSound a.1
  unfolding finish_live
  finish_live-IsSound Messages.release authorized g p fp s a sound held h =
      finish_apply-IsSound release g p fp s a sound held h
  finish_live-IsSound Messages.release st g p fp s a sound held h =
      finish_refused_release-IsSound st g s a sound held h
  finish_live-IsSound Messages.settle st g p fp s a sound held h =
      finish_settle-IsSound st g p fp s a sound held h
  finish_live-IsSound Messages.uncertain st g p fp s a sound held h =
      finish_apply-IsSound mark_uncertain g p fp s a sound held h

  finish_bound-IsSound :
      (g : RelayGrant) (p : RelayTerminal) (fp : String) (s : Storage) (a : FinishResult × Storage)
      → IsSound s
      → lookup g.request_id s.grants ≡ some g
      → finish_bound clock env identity now g p fp s ≡ ok a
      → IsSound a.1
  unfolding finish_bound
  finish_bound-IsSound g p fp s a sound held h =
      elim (Bool-cases (leb g.credential_expires_at_ms now)) [
        | inl late ↦ subst IsSound {x = s} {y = a.1} (ground arith) sound
        | inr early ↦ elim (Bool-cases (is_terminal_grant_state g.state)) [
          | inl over ↦ subst IsSound {x = s} {y = a.1} (ground arith) sound
          | inr alive ↦ finish_live-IsSound p.outcome g.state g p fp s a sound held (ground arith)
        ]
      ]

  -- A terminal report keeps the invariant, whatever it is answered.
  pub finish-IsSound :
      (i : FinishRelayInput) (s : Storage) (a : FinishResult × Storage)
      → IsSound s
      → finish_relay_in_transaction clock env identity now i s ≡ ok a
      → IsSound a.1
  unfolding finish_relay_in_transaction
  finish-IsSound i s a sound h = elim (Option-cases (parse_relay_terminal i.report)) [
    | inl garbled ↦ subst IsSound {x = s} {y = a.1} (ground arith) sound
    | inr (p, parsed) ↦ elim (Bool-cases (report_fits clock env identity now p i)) [
      | inr unfit ↦ subst IsSound {x = s} {y = a.1} (ground arith) sound
      | inl fit ↦ elim (Option-cases (bound_grant clock env identity now i.binding s)) [
        | inl absent ↦ subst IsSound {x = s} {y = a.1} (ground arith) sound
        | inr (g, found) ↦
            finish_bound-IsSound g p i.report_fingerprint s a sound
              (bound_grant-held i.binding s g sound found) (ground arith)
      ]
    ]
  ]
