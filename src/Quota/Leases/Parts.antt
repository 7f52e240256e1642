-- ===== src/Quota/Leases/Parts.antt =====
-- What expiry and removal leave of a list of leases.
use octg.Common.{
  ℕ, suc, ◌≤◌, ◌<◌, ◌≡◌, refl, ap, inl, inr, String, none, some, List, [], ◌∷◌, ◌++◌, arith, length,
  Bool-cases, same, same_sound, All, ltb,
}
use octg.Shared.Types.{InFlightLease}
use octg.Quota.Leases.{without_expired_leases, find_lease, remove_found}

module _ (id : String) where
  -- The lease that is found is taken out where it stands, the first one of its request.
  pub remove_found-split :
      (ls : List InFlightLease) (l : InFlightLease)
      → find_lease id ls ≡ some l
      → (xs ys : List InFlightLease) × (ls ≡ xs ++ l ∷ ys)
        × (remove_found id ls ≡ xs ++ ys)
        × (find_lease id xs ≡ none)
        × (l.request_id ≡ id)
  unfolding find_lease remove_found
  remove_found-split [] l h = absurd (ground arith)
  remove_found-split (x ∷ xs) l h = elim (Bool-cases (same x.request_id id)) [
    | inl q ↦
        ([], xs, ground arith, ground arith, refl, ground (arith, same_sound x.request_id id q))
    | inr q ↦
        let (ys, zs, parts, rest, none_before, own) = remove_found-split xs l (ground arith) in
        (x ∷ ys, zs, ap (λ r. x ∷ r) parts, ground (arith, rest), ground (arith, none_before), own)
  ]

  pub length-remove_found :
      (ls : List InFlightLease) (l : InFlightLease)
      → find_lease id ls ≡ some l
      → length ls ≡ suc (length (remove_found id ls))
  unfolding find_lease remove_found
  length-remove_found [] l h = absurd (ground arith)
  length-remove_found (x ∷ xs) l h = ground (arith, length-remove_found xs l)

  pub All-remove_found {ℓ} :
      (P : InFlightLease → Type ℓ) (ls : List InFlightLease) → All P ls → All P (remove_found id ls)
  unfolding remove_found
  All-remove_found P [] h = h
  All-remove_found P (l ∷ ls) h = elim (Bool-cases (same l.request_id id)) [
    | inl q ↦ rw (q) h.1
    | inr q ↦ rw (q) ((h.0, All-remove_found P ls h.1))
  ]

module _ (now : ℕ) where
  abbrev pub IsActive : InFlightLease → Type 0
  IsActive l = now < l.expires_at_ms

  pub without_expired-All : (ls : List InFlightLease) → All IsActive (without_expired_leases now ls)
  unfolding without_expired_leases
  without_expired-All [] = tt
  without_expired-All (l ∷ ls) = elim (Bool-cases (ltb now l.expires_at_ms)) [
    | inl q ↦ rw (q) ((ground arith, without_expired-All ls))
    | inr q ↦ rw (q) (without_expired-All ls)
  ]

  pub without_expired-active :
      (ls : List InFlightLease) → All IsActive ls → without_expired_leases now ls ≡ ls
  unfolding without_expired_leases
  without_expired-active [] h = refl
  without_expired-active (l ∷ ls) h = ground (arith, h.0, without_expired-active ls h.1)

  pub length-without_expired :
      (ls : List InFlightLease) → length (without_expired_leases now ls) ≤ length ls
  unfolding without_expired_leases
  length-without_expired [] = omega arith
  length-without_expired (l ∷ ls) = ground (arith, length-without_expired ls)
