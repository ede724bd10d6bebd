-- ===== src/Base/Sort.antt =====
-- `sort.Slice` as an insertion sort by a test `before`. Go's sort is not stable: among elements
-- that the test does not order the order is a choice of this model.
pub mod Sorted
use mathlib.Core.Bool.{Bool, true, false}
use mathlib.Core.List.{List, [], ◌∷◌, Perm}
use mathlib.Core.List.Perm
use golang_fb_mirror.Base.Tests.{if◌then◌else◌}

module _ {ℓ} {A : Type ℓ} (before : A → A → Bool) where
  unfoldable pub insert_sorted : A → List A → List A
  insert_sorted a [] = a ∷ []
  insert_sorted a (x ∷ xs) = if before x a then x ∷ insert_sorted a xs else a ∷ x ∷ xs

  unfoldable pub sort : List A → List A
  unfolding insert_sorted
  sort [] = []
  sort (x ∷ xs) = insert_sorted x (sort xs)

  pub insert_sorted-perm : (a : A) (xs : List A) → Perm (insert_sorted a xs) (a ∷ xs)
  unfolding insert_sorted
  insert_sorted-perm a [] = Perm.refl (a ∷ [])
  insert_sorted-perm a (x ∷ xs) =
      elim (before x a)
        as (λ b. Perm (if b then x ∷ insert_sorted a xs else a ∷ x ∷ xs) (a ∷ x ∷ xs)) [
          | true ↦ Perm.trans (Perm.cons x (insert_sorted-perm a xs)) (Perm.swap a x xs)
          | false ↦ Perm.refl (a ∷ x ∷ xs)
        ]

  -- Sorting only changes the order.
  pub sort-perm : (xs : List A) → Perm (sort xs) xs
  unfolding sort
  sort-perm [] = Perm.refl []
  sort-perm (x ∷ xs) = Perm.trans (insert_sorted-perm x (sort xs)) (Perm.cons x (sort-perm xs))
