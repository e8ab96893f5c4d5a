-- ===== src/Base/HashSet.antt =====
-- `HashSet` as a list, with the operations that the program calls.
use mathlib.Core.Path.{◌≡◌}
use mathlib.Core.Bool.{Bool, false, ◌||◌, ◌&&◌, not}
use mathlib.Core.List.{List, [], ◌∷◌}
use native.Mathlib.Omega.{arith}
use ocserv_rs.Base.Tests.{if◌then◌else◌}
use ocserv_rs.Base.Eq.{Eq, ◌==◌}

module _ {ℓ} {A : Type ℓ} ⦃e : Eq A⦄ where
  unfoldable pub contains : A → List A → Bool
  contains a [] = false
  contains a (x ∷ xs) = x == a || contains a xs

  unfoldable pub insert : A → List A → List A
  insert a xs = if contains a xs then xs else a ∷ xs

  unfoldable pub remove : A → List A → List A
  remove a [] = []
  remove a (x ∷ xs) = if x == a then remove a xs else x ∷ remove a xs

  pub contains-insert :
      (a b : A) (xs : List A) → contains b (insert a xs) ≡ ((a == b) || contains b xs)
  unfolding contains insert
  contains-insert a b xs = ground (arith, e.beq_iff a b)

  pub contains-remove :
      (a b : A) (xs : List A) → contains b (remove a xs) ≡ (not (a == b) && contains b xs)
  unfolding contains remove
  contains-remove a b [] = ground arith
  contains-remove a b (x ∷ xs) =
      ground (arith, e.beq_iff a b, e.beq_iff x a, e.beq_iff x b, contains-remove a b xs)

  -- No element twice.
  abbrev pub IsDistinct : List A → Type 0
  IsDistinct [] = Unit
  IsDistinct (x ∷ xs) = (contains x xs ≡ false) × IsDistinct xs

  pub remove-IsDistinct : (a : A) (xs : List A) → IsDistinct xs → IsDistinct (remove a xs)
  unfolding remove
  remove-IsDistinct a [] h = tt
  remove-IsDistinct a (x ∷ xs) h =
      ground (arith, remove-IsDistinct a xs h.1, contains-remove a x xs)
