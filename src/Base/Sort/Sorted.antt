-- ===== src/Base/Sort/Sorted.antt =====
-- What the sort gives where `before` is a strict weak order.
use mathlib.Core.Path.{◌≡◌, refl, ap, sym, ◌∙◌, subst}
use mathlib.Core.Logic.{◌↔◌, ◌⊎◌, inl, inr}
use mathlib.Core.Bool.{Bool, true, false}
use mathlib.Core.List.{List, [], ◌∷◌, Memᴰ}
use mathlib.Core.List.Memᴰ
use golang_fb_mirror.Base.Tests.{if◌then◌else◌, Bool-cases}
use golang_fb_mirror.Base.Sort.{insert_sorted, sort}

module _ {A : Type 0} (before : A → A → Bool) where
  -- No element is before one that stands in front of it.
  abbrev pub IsSorted : List A → Type 0
  IsSorted [] = Unit
  IsSorted (x ∷ xs) = ((y : A) → Memᴰ y xs → before y x ≡ false) × IsSorted xs

  insert-cons :
      (a x : A) (xs : List A) (b : Bool)
      → before x a ≡ b
      → insert_sorted before a (x ∷ xs) ≡ (if b then x ∷ insert_sorted before a xs else a ∷ x ∷ xs)
  unfolding insert_sorted
  insert-cons a x xs b h = rw (insert_sorted, h) refl

  insert-mem : (y a : A) (xs : List A) → Memᴰ y (insert_sorted before a xs) ↔ ((y ≡ a) ⊎ Memᴰ y xs)
  insert-mem y a [] = (
    (λ i. Memᴰ.cases_cons (subst (Memᴰ y) one i)),
    λ h.
        subst (Memᴰ y) (sym one) (elim h [ inl e ↦ Memᴰ.head e | inr j ↦ absurd (Memᴰ.not-nil j) ]),
  )
    where
      one : insert_sorted before a [] ≡ a ∷ []
      one = (unfold insert_sorted in refl)
  insert-mem y a (x ∷ xs) = elim (Bool-cases (before x a)) [
    | inl h ↦
        let (to, from) = insert-mem y a xs in
        (
          (λ i. elim (Memᴰ.cases_cons (subst (Memᴰ y) (insert-cons a x xs true h) i)) [
            | inl e ↦ inr (Memᴰ.head e)
            | inr j ↦ elim (to j) [ inl e ↦ inl e | inr k ↦ inr (Memᴰ.tail k) ]
          ]),
          (λ c. subst (Memᴰ y) (sym (insert-cons a x xs true h)) (elim c [
            | inl e ↦ Memᴰ.tail (from (inl e))
            | inr i ↦ elim (Memᴰ.cases_cons i) [
              | inl e ↦ Memᴰ.head e
              | inr j ↦ Memᴰ.tail (from (inr j))
            ]
          ])),
        )
    | inr h ↦ (
      (λ i. Memᴰ.cases_cons (subst (Memᴰ y) (insert-cons a x xs false h) i)),
      (λ c.
          subst (Memᴰ y) (sym (insert-cons a x xs false h))
            (elim c [ inl e ↦ Memᴰ.head e | inr j ↦ Memᴰ.tail j ])),
    )
  ]

  pub sort-mem : (y : A) (xs : List A) → Memᴰ y (sort before xs) ↔ Memᴰ y xs
  unfolding sort
  sort-mem y [] = (λ i. i, λ i. i)
  sort-mem y (x ∷ xs) =
      let (to, from) = insert-mem y x (sort before xs) in
      let (there, back) = sort-mem y xs in
      (
        (λ i. elim (to i) [ inl e ↦ Memᴰ.head e | inr j ↦ Memᴰ.tail (there j) ]),
        (λ i. elim (Memᴰ.cases_cons i) [ inl e ↦ from (inl e) | inr j ↦ from (inr (back j)) ]),
      )

  module _ (asym : (x y : A) → before x y ≡ true → before y x ≡ false)
      (trans : (x y z : A) → before y x ≡ false → before z y ≡ false → before z x ≡ false) where
    insert-IsSorted : (a : A) (xs : List A) → IsSorted xs → IsSorted (insert_sorted before a xs)
    unfolding insert_sorted
    insert-IsSorted a [] s = ((λ y i. absurd (Memᴰ.not-nil i)), tt)
    insert-IsSorted a (x ∷ xs) (below, s) = elim (Bool-cases (before x a)) [
      | inl h ↦ subst IsSorted (sym (insert-cons a x xs true h)) (
        (λ y i. elim ((insert-mem y a xs).0 i) [
          | inl e ↦ ap (λ t. before t x) e ∙ asym x a h
          | inr j ↦ below y j
        ]),
        insert-IsSorted a xs s,
      )
      | inr h ↦ subst IsSorted (sym (insert-cons a x xs false h)) (
        (λ y i. elim (Memᴰ.cases_cons i) [
          | inl e ↦ ap (λ t. before t a) e ∙ h
          | inr j ↦ trans a x y h (below y j)
        ]),
        (below, s),
      )
    ]

    pub sort-IsSorted : (xs : List A) → IsSorted (sort before xs)
    unfolding sort
    sort-IsSorted [] = tt
    sort-IsSorted (x ∷ xs) = insert-IsSorted x (sort before xs) (sort-IsSorted xs)
