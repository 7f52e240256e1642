-- ===== src/Gateway/Reservation/Laws.antt =====
-- A reservation over the network takes effect at most once.
use octg.Common.{◌≡◌, refl, sym, ap, subst, ◌∙◌, inl, inr, ◌⊎◌}
use octg.Shared.Types.{ReserveResult}
use octg.Quota.Store.{Storage, Clock, QuotaEnv, QuotaIdentity, Result, ok, failed}
use octg.Quota.Reserve.{Reservation, reserve_in_transaction}
use octg.Quota.Reserve.Laws.{reserve_replay, reserve_kept_or_granted}
use octg.Gateway.Reservation.{
  ReserveOutcome, resolved, unknown, Delivery, delivered, request_lost, answer_lost, over,
  reserve_fail_closed, last_attempt, after_first, answer_of,
}

module _ (first second : Clock) (env : QuotaEnv) (identity : QuotaIdentity) (r : Reservation) where
  abbrev call : Clock → Storage → Result (ReserveResult × Storage)
  call clock = reserve_in_transaction clock env identity r

  -- One call, at one of the two times, gave the answer and the storage.
  abbrev IsOneCall : Storage → ReserveResult → Storage → Type 0
  IsOneCall s a t = (call first s ≡ ok (a, t)) ⊎ (call second s ≡ ok (a, t))

  -- What is known after the attempts: an answer is that of one call, and without an answer there
  -- was no call that changed the storage, or one.
  abbrev pub IsOnce : Storage → ReserveOutcome × Storage → Type 0
  IsOnce s (resolved a, t) = IsOneCall s a t
  IsOnce s (unknown, t) = (t ≡ s) ⊎ ((a : ReserveResult) × IsOneCall s a t)

  -- A call after a first one that went through has the first one's answer and storage, or meets the
  -- storage as it was.
  second-call :
      (s t u : Storage) (a b : ReserveResult)
      → call first s ≡ ok (a, t)
      → call second t ≡ ok (b, u)
      → IsOneCall s b u
  second-call s t u a b h k = elim (reserve_kept_or_granted first env identity r s (a, t) h) [
    | inl kept ↦ inr (subst (λ x. call second x ≡ ok (b, u)) kept k)
    | inr (left, reset, e) ↦
        let replayed =
          reserve_replay first second env identity r s t left reset (h ∙ ap (λ x. ok (x, t)) e) in
        inl (h ∙ ap (λ x. ok (x, t)) e ∙ sym replayed ∙ k)
  ]

  -- Before the second attempt, nothing has happened, or one call has.
  abbrev IsStarted : Storage → Storage → Type 0
  IsStarted s t = (t ≡ s) ⊎ ((a : ReserveResult) × (call first s ≡ ok (a, t)))

  started_call :
      (s t u : Storage) (b : ReserveResult)
      → IsStarted s t
      → call second t ≡ ok (b, u)
      → IsOneCall s b u
  started_call s t u b (inl e) k = inr (subst (λ x. call second x ≡ ok (b, u)) e k)
  started_call s t u b (inr (a, h)) k = second-call s t u a b h k

  started_unknown : (s t : Storage) → IsStarted s t → IsOnce s (unknown, t)
  started_unknown s t (inl e) = inl e
  started_unknown s t (inr (a, h)) = inr (a, inl h)

  last-IsOnce :
      (d : Delivery) (s t : Storage)
      → IsStarted s t
      → IsOnce s (last_attempt (over d (call second) t))
  unfolding last_attempt over answer_of
  last-IsOnce request_lost s t h = started_unknown s t h
  last-IsOnce delivered s t h = go (call second t) refl
    where
      go :
          (x : Result (ReserveResult × Storage))
          → call second t ≡ x
          → IsOnce s (last_attempt (answer_of x t))
      go (ok a) e = started_call s t a.1 a.0 h e
      go (failed x) e = started_unknown s t h
  last-IsOnce answer_lost s t h = go (call second t) refl
    where
      go :
          (x : Result (ReserveResult × Storage))
          → call second t ≡ x
          → IsOnce s (unknown, (answer_of x t).1)
      go (ok a) e = inr (a.0, started_call s t a.1 a.0 h e)
      go (failed x) e = started_unknown s t h

  -- Whatever the network loses of the two attempts, the reservation happened at most once: an
  -- answer is the answer of one call on the first storage, with the storage that this call leaves,
  -- and where the outcome is unknown the storage is the first one or that of one call.
  pub reserve_fail_closed-IsOnce :
      (d e : Delivery) (s : Storage)
      → IsOnce s (reserve_fail_closed (over d (call first)) (over e (call second)) s)
  unfolding reserve_fail_closed after_first over answer_of
  reserve_fail_closed-IsOnce request_lost e s = last-IsOnce e s s (inl refl)
  reserve_fail_closed-IsOnce delivered e s = go (call first s) refl
    where
      go :
          (x : Result (ReserveResult × Storage))
          → call first s ≡ x
          → IsOnce s (after_first (over e (call second)) (answer_of x s))
      go (ok a) h = inl h
      go (failed x) h = last-IsOnce e s s (inl refl)
  reserve_fail_closed-IsOnce answer_lost e s = go (call first s) refl
    where
      go :
          (x : Result (ReserveResult × Storage))
          → call first s ≡ x
          → IsOnce s (last_attempt (over e (call second) (answer_of x s).1))
      go (ok a) h = last-IsOnce e s a.1 (inr (a.0, h))
      go (failed x) h = last-IsOnce e s s (inl refl)
