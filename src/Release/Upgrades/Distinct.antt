-- ===== src/Release/Upgrades/Distinct.antt =====
-- The upgrades of `CalculateUpgrades` after its last loop: no image comes twice, none is lost.
use mathlib.Core.List.{Memᴰ}
use mathlib.Core.List.Memᴰ
use golang_fb_mirror.Base.{
  ◌≡◌, ◌≢◌, refl, ap, sym, ◌∙◌, subst, inl, inr, true, false, List, [], ◌∷◌, ◌==◌, ==_iff, ℕ_eq,
  List_eq, if◌then◌else◌, Bool-cases, arith,
}
use golang_fb_mirror.Base.Text.{Str}
use golang_fb_mirror.Semver.{Semver}
use golang_fb_mirror.Release.Graph.{Update}
use golang_fb_mirror.Release.Upgrades.{is_seen, keep_first}

is_seen-cons :
    (image s : Str) (seen : List Str)
    → is_seen image (s ∷ seen) ≡ (if s == image then true else is_seen image seen)
unfolding is_seen
is_seen-cons image s seen = refl

module _ (sv : Semver) where
  -- No two updates of the list have the same image.
  abbrev pub Distinct : List (Update sv) → Type 0
  Distinct [] = Unit
  Distinct (u ∷ us) = ((w : Update sv) → Memᴰ w us → w.image ≢ u.image) × Distinct us

  skip :
      (seen : List Str) (u : Update sv) (us : List (Update sv))
      → is_seen u.image seen ≡ true
      → keep_first sv seen (u ∷ us) ≡ keep_first sv seen us
  unfolding keep_first
  skip seen u us h = rw (keep_first, h) refl

  keep :
      (seen : List Str) (u : Update sv) (us : List (Update sv))
      → is_seen u.image seen ≡ false
      → keep_first sv seen (u ∷ us) ≡ u ∷ keep_first sv (u.image ∷ seen) us
  unfolding keep_first
  keep seen u us h = rw (keep_first, h) refl

  -- Each update kept is one of the list, with an image not seen before.
  kept-mem :
      (w : Update sv) (seen : List Str) (us : List (Update sv))
      → Memᴰ w (keep_first sv seen us)
      → Memᴰ w us × (is_seen w.image seen ≡ false)
  unfolding keep_first
  kept-mem w seen [] i = absurd (Memᴰ.not-nil i)
  kept-mem w seen (u ∷ us) i = elim (Bool-cases (is_seen u.image seen)) [
    | inl h ↦
        let (j, e) = kept-mem w seen us (subst (Memᴰ w) (skip seen u us h) i) in (Memᴰ.tail j, e)
    | inr h ↦ elim (Memᴰ.cases_cons (subst (Memᴰ w) (keep seen u us h) i)) [
      | inl e ↦ (Memᴰ.head e, ap (λ (v : Update sv). is_seen v.image seen) e ∙ h)
      | inr j ↦
          let (k, e) = kept-mem w (u.image ∷ seen) us j in
          (Memᴰ.tail k, ground (arith, e, is_seen-cons w.image u.image seen))
    ]
  ]

  kept-Distinct : (seen : List Str) (us : List (Update sv)) → Distinct (keep_first sv seen us)
  unfolding keep_first
  kept-Distinct seen [] = tt
  kept-Distinct seen (u ∷ us) = elim (Bool-cases (is_seen u.image seen)) [
    | inl h ↦ subst Distinct (sym (skip seen u us h)) (kept-Distinct seen us)
    | inr h ↦ subst Distinct (sym (keep seen u us h)) (
      (λ w i same.
          let e = (kept-mem w (u.image ∷ seen) us i).1 in
          ground (arith, e, same, is_seen-cons w.image u.image seen, ==_iff u.image w.image)),
      kept-Distinct (u.image ∷ seen) us,
    )
  ]

  kept-all :
      (u : Update sv) (seen : List Str) (us : List (Update sv))
      → Memᴰ u us
      → is_seen u.image seen ≡ false
      → (w : Update sv) × Memᴰ w (keep_first sv seen us) × (w.image ≡ u.image)
  kept-all u seen [] i h = absurd (Memᴰ.not-nil i)
  kept-all u seen (v ∷ us) i h = elim (Bool-cases (is_seen v.image seen)) [
    | inl s ↦ elim (Memᴰ.cases_cons i) [
      | inl e ↦ absurd (ground (arith, s, h, ap (λ (x : Update sv). is_seen x.image seen) e))
      | inr j ↦
          let (w, k, e) = kept-all u seen us j h in
          (w, subst (Memᴰ w) (sym (skip seen v us s)) k, e)
    ]
    | inr s ↦ elim (Bool-cases (v.image == u.image)) [
      | inl e ↦ (
        v,
        subst (Memᴰ v) (sym (keep seen v us s)) (Memᴰ.head refl),
        (==_iff v.image u.image).0 e,
      )
      | inr n ↦ elim (Memᴰ.cases_cons i) [
        | inl e ↦ (
          v,
          subst (Memᴰ v) (sym (keep seen v us s)) (Memᴰ.head refl),
          ap (λ (x : Update sv). x.image) (sym e),
        )
        | inr j ↦
            let (w, k, e) =
              kept-all u (v.image ∷ seen) us j
                (ground (arith, h, n, is_seen-cons u.image v.image seen)) in
            (w, subst (Memᴰ w) (sym (keep seen v us s)) (Memᴰ.tail k), e)
      ]
    ]
  ]

  -- The last loop of `CalculateUpgrades` leaves updates with pairwise different images, which are
  -- updates of the list, and for each update of the list one with its image.
  pub keep_first-Distinct :
      (us : List (Update sv))
      → Distinct (keep_first sv [] us)
        × ((w : Update sv) → Memᴰ w (keep_first sv [] us) → Memᴰ w us)
        × ((u : Update sv)
            → Memᴰ u us
            → (w : Update sv) × Memᴰ w (keep_first sv [] us) × (w.image ≡ u.image))
  keep_first-Distinct us = (
    kept-Distinct [] us,
    (λ w i. (kept-mem w [] us i).0),
    (λ u i. kept-all u [] us i (unfold is_seen in refl)),
  )
