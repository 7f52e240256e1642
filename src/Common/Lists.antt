-- ===== src/Common/Lists.antt =====
-- Lists over the native numbers, and dictionaries as association lists whose keys are texts.
use Prim.Native.Nat.{ℕ, suc, ◌+◌, ◌≤◌}
use Prim.Native.String.{String}
use mathlib.Core.Path.{◌≡◌, refl}
use mathlib.Core.Bool.{Bool, true, false, ◌&&◌}
use mathlib.Core.Option.{Option, none, some}
use mathlib.Core.List.{List, [], ◌∷◌, ◌++◌}
use native.Mathlib.Omega.{arith}
use octg.Common.Tests.{if◌then◌else◌, same, same_iff, same_refl, is_some}

module _ {ℓ} {A : Type ℓ} where
  abbrev pub length : List A → ℕ
  length [] = 0
  length (x ∷ xs) = suc (length xs)

  abbrev pub all : (A → Bool) → List A → Bool
  all p [] = true
  all p (x ∷ xs) = p x && all p xs

  pub length-append : (xs ys : List A) → length (xs ++ ys) ≡ length xs + length ys
  length-append [] ys = omega arith
  length-append (x ∷ xs) ys = omega (arith, length-append xs ys)

-- A predicate of every item, by recursion.
abbrev pub All {ℓ κ} : {A : Type ℓ} → (A → Type κ) → List A → Type κ
All P [] = Unit
All P (x ∷ xs) = P x × All P xs

abbrev pub Dict {ℓ} : Type ℓ → Type ℓ
Dict V = List (String × V)

module _ {ℓ} {V : Type ℓ} where
  unfoldable pub lookup : String → Dict V → Option V
  lookup k [] = none
  lookup k ((j, v) ∷ m) = if same j k then some v else lookup k m

  -- A write replaces the value in place, and a new key goes to the end.
  unfoldable pub insert : String → V → Dict V → Dict V
  insert k v [] = (k, v) ∷ []
  insert k v ((j, w) ∷ m) = if same j k then (k, v) ∷ m else (j, w) ∷ insert k v m

  pub lookup-nil : (k : String) → lookup k [] ≡ none
  unfolding lookup
  lookup-nil k = refl

  pub lookup-insert :
      (k j : String) (v : V) (m : Dict V)
      → lookup j (insert k v m) ≡ (if same k j then some v else lookup j m)
  unfolding lookup insert
  lookup-insert k j v [] = refl
  lookup-insert k j v ((i, w) ∷ m) =
      ground (arith, same_iff k j, same_iff i k, same_iff i j, lookup-insert k j v m)

  pub lookup-insert_self : (k : String) (v : V) (m : Dict V) → lookup k (insert k v m) ≡ some v
  lookup-insert_self k v m = rw (lookup-insert, same_refl k)

  pub lookup-insert_other :
      (k j : String) (v : V) (m : Dict V) → same k j ≡ false → lookup j (insert k v m) ≡ lookup j m
  lookup-insert_other k j v m h = rw (lookup-insert, h)

  -- Writing what is there changes nothing.
  pub insert-lookup : (k : String) (v : V) (m : Dict V) → lookup k m ≡ some v → insert k v m ≡ m
  unfolding lookup insert
  insert-lookup k v [] h = ground arith
  insert-lookup k v ((j, w) ∷ m) h = ground (arith, same_iff j k, insert-lookup k v m)

  -- A write keeps every key.
  pub is_some-lookup-insert :
      (k j : String) (v : V) (m : Dict V)
      → is_some (lookup j m) ≡ true
      → is_some (lookup j (insert k v m)) ≡ true
  is_some-lookup-insert k j v m h = ground (arith, lookup-insert k j v m)

  pub is_some-lookup-insert_self :
      (k : String) (v : V) (m : Dict V) → is_some (lookup k (insert k v m)) ≡ true
  is_some-lookup-insert_self k v m = ground (arith, lookup-insert_self k v m)

  -- The total of a number over the values.
  unfoldable pub sum_of : (V → ℕ) → Dict V → ℕ
  sum_of f [] = 0
  sum_of f ((k, v) ∷ m) = f v + sum_of f m

  pub sum_of-nil : (f : V → ℕ) → sum_of f [] ≡ 0
  unfolding sum_of
  sum_of-nil f = refl

  pub sum_of-insert_new :
      (f : V → ℕ) (k : String) (v : V) (m : Dict V)
      → lookup k m ≡ none
      → sum_of f (insert k v m) ≡ sum_of f m + f v
  unfolding sum_of lookup insert
  sum_of-insert_new f k v [] h = omega arith
  sum_of-insert_new f k v ((j, w) ∷ m) h = ground (arith, sum_of-insert_new f k v m)

  pub sum_of-insert_old :
      (f : V → ℕ) (k : String) (v w : V) (m : Dict V)
      → lookup k m ≡ some w
      → sum_of f (insert k v m) + f w ≡ sum_of f m + f v
  unfolding sum_of lookup insert
  sum_of-insert_old f k v w [] h = ground arith
  sum_of-insert_old f k v w ((j, u) ∷ m) h = ground (arith, sum_of-insert_old f k v w m)

  -- One value is at most the total.
  pub le-sum_of :
      (f : V → ℕ) (k : String) (w : V) (m : Dict V) → lookup k m ≡ some w → f w ≤ sum_of f m
  unfolding sum_of lookup
  le-sum_of f k w [] h = ground arith
  le-sum_of f k w ((j, u) ∷ m) h = ground (arith, le-sum_of f k w m)
