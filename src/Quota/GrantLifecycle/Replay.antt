-- ===== src/Quota/GrantLifecycle/Replay.antt =====
-- A terminal report that is sent again is answered as it was, and changes nothing.
use octg.Common.{
  ℕ, ◌<◌, ◌≡◌, refl, String, true, false, some, arith, lookup, lookup-insert_self, same_refl, inl,
  inr, Option-cases, Bool-cases, leb,
}
use octg.Shared.Types.{RequestEntry}
use octg.Relay.Errors.{RelayGrantState, authorized, attempted}
use octg.Relay.Messages
use octg.Relay.Messages.{RelayTerminal, RelayTerminalOutcome}
use octg.Relay.Parse.{parse_relay_terminal}
use octg.Quota.Store.{
  Storage, Clock, QuotaEnv, QuotaIdentity, RelayGrant, ok, Result-cases, put_relay_grant,
}
use octg.Quota.Leases.{release_in_flight_lease}
use octg.Quota.Lifecycle.{
  Transition, settle, mark_uncertain, release, apply_quota_lifecycle_transition,
}
use octg.Quota.Grant.{
  RelayGrantBinding, grant_binding_mismatch, grant_binding_agrees, is_terminal_grant_state,
  option_eq,
}
use octg.Quota.GrantLifecycle.{
  accepted, FinishRelayInput, bound_grant, finished_grant, finish_apply, finish_accept,
  finish_terminal, finish_live, finish_bound, finish_refused_release, finish_relay_in_transaction,
  is_unknown, report_fits,
}
use octg.Quota.GrantLifecycle.Laws.{bound_grant-IsBound}

module _ (clock : Clock) (env : QuotaEnv) (identity : QuotaIdentity) where
  -- What an accepted report leaves: the grant carries its fingerprint and the same binding.
  record Recorded (g g' : RelayGrant) (fp : String) (e : RequestEntry) (t : Storage) : Type 0 where
    pub held : lookup g.request_id t.grants ≡ some g'
    pub marked : option_eq g'.terminal_fingerprint (some fp) ≡ true
    pub entry_held : lookup g.request_id t.entries ≡ some e
    pub same_binding :
        (b : RelayGrantBinding)
        → grant_binding_agrees g' b identity ≡ grant_binding_agrees g b identity
    pub same_id : g'.request_id ≡ g.request_id

  finish_accept-found :
      (now : ℕ) (g g' : RelayGrant) (e : RequestEntry) (s : Storage)
      → finish_accept clock env identity now g s ≡ accepted g' e
      → (g' ≡ g) × (lookup g.request_id s.entries ≡ some e)
  unfolding finish_accept
  finish_accept-found now g g' e s h = elim (Option-cases (lookup g.request_id s.entries)) [
    | inl absent ↦ absurd (ground arith)
    | inr (x, eq) ↦ (ground arith, ground arith)
  ]

  finish_apply-Recorded :
      (now : ℕ) (tr : Transition) (g g' : RelayGrant) (p : RelayTerminal) (fp : String)
      (e : RequestEntry) (s t : Storage)
      → finish_apply clock env identity now tr g p fp s ≡ ok (accepted g' e, t)
      → Recorded g g' fp e t
  unfolding finish_apply grant_binding_agrees
  finish_apply-Recorded now tr g g' p fp e s t h =
      elim (Result-cases (apply_quota_lifecycle_transition clock env identity tr g.request_id s)) [
        | inr (x, eq) ↦ absurd (ground arith)
        | inl (r, moved) ↦ elim (Bool-cases (is_unknown clock env identity now r.0)) [
          | inl unknown ↦ absurd (ground arith)
          | inr known ↦
              elim (Result-cases
                (release_in_flight_lease clock g.request_id (some g.lease_generation) r.1)) [
                  | inr (x, eq) ↦ absurd (ground arith)
                  | inl (f, freed) ↦
                      let done = finished_grant clock env identity now g p fp in
                      let stored : t ≡ put_relay_grant done f.1 = ground arith in
                      let (e1, e2) = finish_accept-found now done g' e t (ground arith) in
                      record {
                        held = ground (arith, lookup-insert_self g.request_id done (f.1).grants);
                        marked = ground (arith, same_refl fp);
                        entry_held = ground arith;
                        same_binding = λ b. ground (arith, e1);
                        same_id = ground arith;
                      }
                ]
        ]
      ]

  finish_terminal-Recorded :
      (now : ℕ) (g g' : RelayGrant) (fp : String) (e : RequestEntry) (s t : Storage)
      → lookup g.request_id s.grants ≡ some g
      → finish_terminal clock env identity now g fp s ≡ accepted g' e
      → t ≡ s
      → Recorded g g' fp e t
  unfolding finish_terminal
  finish_terminal-Recorded now g g' fp e s t found h stays =
      elim (Bool-cases (option_eq g.terminal_fingerprint (some fp))) [
        | inr other ↦ absurd (ground arith)
        | inl agrees ↦ elim (Option-cases (lookup g.request_id s.entries)) [
          | inl absent ↦ absurd (ground arith)
          | inr (x, eq) ↦
              let own : g' ≡ g = ground arith in
              record {
                held = ground arith;
                marked = ground arith;
                entry_held = ground arith;
                same_binding = λ b. rw own refl;
                same_id = ground arith;
              }
        ]
      ]

  finish_refused_release-denied :
      (now : ℕ) (st : RelayGrantState) (g g' : RelayGrant) (e : RequestEntry) (s t : Storage)
      → ¬ (finish_refused_release clock env identity now st g s ≡ ok (accepted g' e, t))
  unfolding finish_refused_release
  finish_refused_release-denied now attempted g g' e s t h = ground arith
  finish_refused_release-denied now _ g g' e s t h = ground arith

  finish_live-Recorded :
      (now : ℕ) (o : RelayTerminalOutcome) (st : RelayGrantState) (g g' : RelayGrant)
      (p : RelayTerminal) (fp : String) (e : RequestEntry) (s t : Storage)
      → finish_live clock env identity now o st g p fp s ≡ ok (accepted g' e, t)
      → Recorded g g' fp e t
  unfolding finish_live
  finish_live-Recorded now Messages.release authorized g g' p fp e s t h =
      finish_apply-Recorded now release g g' p fp e s t h
  finish_live-Recorded now Messages.release st g g' p fp e s t h =
      absurd (finish_refused_release-denied now st g g' e s t h)
  finish_live-Recorded now Messages.settle authorized g g' p fp e s t h = absurd (ground arith)
  finish_live-Recorded now Messages.settle st g g' p fp e s t h =
      elim (Option-cases p.total_tokens) [
        | inl missing ↦ absurd (ground arith)
        | inr (n, eq) ↦ finish_apply-Recorded now (settle n) g g' p fp e s t (ground arith)
      ]
  finish_live-Recorded now Messages.uncertain st g g' p fp e s t h =
      finish_apply-Recorded now mark_uncertain g g' p fp e s t h

  finish_bound-Recorded :
      (now : ℕ) (g g' : RelayGrant) (p : RelayTerminal) (fp : String) (e : RequestEntry)
      (s t : Storage)
      → lookup g.request_id s.grants ≡ some g
      → finish_bound clock env identity now g p fp s ≡ ok (accepted g' e, t)
      → Recorded g g' fp e t
  unfolding finish_bound
  finish_bound-Recorded now g g' p fp e s t found h =
      elim (Bool-cases (leb g.credential_expires_at_ms now)) [
        | inl late ↦ absurd (ground arith)
        | inr early ↦ elim (Bool-cases (is_terminal_grant_state g.state)) [
          | inl over ↦
              finish_terminal-Recorded now g g' fp e s t found (ground arith) (ground arith)
          | inr alive ↦ finish_live-Recorded now p.outcome g.state g g' p fp e s t (ground arith)
        ]
      ]

  finish_bound-replay :
      (now : ℕ) (g : RelayGrant) (p : RelayTerminal) (fp : String) (e : RequestEntry) (t : Storage)
      → leb g.credential_expires_at_ms now ≡ false
      → is_terminal_grant_state g.state ≡ true
      → option_eq g.terminal_fingerprint (some fp) ≡ true
      → lookup g.request_id t.entries ≡ some e
      → finish_bound clock env identity now g p fp t ≡ ok (accepted g e, t)
  unfolding finish_bound finish_terminal
  finish_bound-replay now g p fp e t early over marked found = ground arith

  bound_grant-Recorded :
      (now now' : ℕ) (b : RelayGrantBinding) (g g' : RelayGrant) (fp : String) (e : RequestEntry)
      (s t : Storage)
      → bound_grant clock env identity now b s ≡ some g
      → Recorded g g' fp e t
      → bound_grant clock env identity now' b t ≡ some g'
  unfolding bound_grant grant_binding_mismatch
  bound_grant-Recorded now now' b g g' fp e s t h r =
      let (found, bound) = bound_grant-IsBound clock env identity now b s g h in
      ground (arith, r.held, r.same_binding b, bound.same_request, found, h)

  -- A report that was accepted and that ended its grant is accepted again with the same grant and the
  -- same entry, at any time before the credential expires, and the repetition writes nothing.
  pub finish_replay :
      (now now' : ℕ) (i : FinishRelayInput) (g' : RelayGrant) (e : RequestEntry) (s t : Storage)
      → finish_relay_in_transaction clock env identity now i s ≡ ok (accepted g' e, t)
      → is_terminal_grant_state g'.state ≡ true
      → now' < g'.credential_expires_at_ms
      → finish_relay_in_transaction clock env identity now' i t ≡ ok (accepted g' e, t)
  unfolding finish_relay_in_transaction
  finish_replay now now' i g' e s t h over early =
      elim (Option-cases (parse_relay_terminal i.report)) [
        | inl garbled ↦ absurd (ground arith)
        | inr (p, parsed) ↦ elim (Bool-cases (report_fits clock env identity now p i)) [
          | inr unfit ↦ absurd (ground arith)
          | inl fit ↦ elim (Option-cases (bound_grant clock env identity now i.binding s)) [
            | inl absent ↦ absurd (ground arith)
            | inr (g, eq) ↦
                let (found, bound) = bound_grant-IsBound clock env identity now i.binding s g eq in
                let r =
                  finish_bound-Recorded now g g' p i.report_fingerprint e s t
                    (ground (arith, found, bound.same_request)) (ground arith) in
                let again =
                  bound_grant-Recorded now now' i.binding g g' i.report_fingerprint e s t eq r in
                let same_answer =
                  finish_bound-replay now' g' p i.report_fingerprint e t (ground arith) over
                    r.marked (ground (arith, r.entry_held, r.same_id)) in
                ground (arith, parsed, fit, again, same_answer)
          ]
        ]
      ]
