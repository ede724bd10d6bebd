-- ===== src/Diff/Changes/Gone.antt =====
-- Which names `calculateDiff` leaves to be deleted, among the channels and among the additional
-- images.
use golang_fb_mirror.Base.{
  ◌≡◌, refl, ap, ◌∙◌, inl, inr, Bool, true, false, ◌||◌, Option, none, some, List, [], ◌∷◌, ◌==◌,
  List_eq, ℕ_eq, if◌then◌else◌, Bool-cases, arith,
}
use golang_fb_mirror.Base.Text.{Str}
use golang_fb_mirror.Base.Maps.{lookup, put, lookup-put}
use golang_fb_mirror.Diff.Changes.{
  previous, current, both, DiffEntry, Images, mark_previous, mark_current, mark_both, compare_all,
  compare_lists, is_gone,
}

abbrev pub gone_entry : Option DiffEntry → Bool
gone_entry none = false
gone_entry (some e) = is_gone e

-- `!v.found && v.from == "previous"` at a key; false where the key is missing
abbrev pub gone : Str → Images → Bool
gone k images = gone_entry (lookup k images)

gone-if :
    (b : Bool) (e : DiffEntry) (o : Option DiffEntry)
    → gone_entry (if b then some e else o) ≡ (if b then is_gone e else gone_entry o)
gone-if true e o = refl
gone-if false e o = refl

gone-put :
    (k j : Str) (e : DiffEntry) (images : Images)
    → gone k (put j e images) ≡ (if j == k then is_gone e else gone k images)
gone-put k j e images =
    ap gone_entry (lookup-put j k e images) ∙ gone-if (j == k) e (lookup k images)

gone-previous :
    (k j : Str) (images : Images)
    → gone k (mark_previous j images) ≡ (if j == k then true else gone k images)
unfolding mark_previous is_gone
gone-previous k j images = gone-put k j (record { from = previous; found = false }) images

gone-current :
    (k j : Str) (images : Images)
    → gone k (mark_current j images) ≡ (if j == k then false else gone k images)
unfolding mark_current is_gone
gone-current k j images = gone-put k j (record { from = current; found = false }) images

gone-both :
    (k j : Str) (images : Images)
    → gone k (mark_both j images) ≡ (if j == k then false else gone k images)
unfolding mark_both is_gone
gone-both k j images = gone-put k j (record { from = both; found = true }) images

module _ {A : Type 0} (name : A → Str) (same : A → A → Bool) where
  -- One of the objects has the name.
  abbrev pub has_name : Str → List A → Bool
  has_name k [] = false
  has_name k (a ∷ rest) = (name a == k) || has_name k rest

  compare_all-cons :
      (p c : A) (cs : List A) (images : Images) (b : Bool)
      → same c p ≡ b
      → compare_all name same p (c ∷ cs) images
        ≡ compare_all name same p cs (
            if b
            then mark_both (name p) (mark_current (name c) images)
            else mark_current (name c) images)
  unfolding compare_all
  compare_all-cons p c cs images b h = rw (compare_all, h) refl

  gone-compare_all :
      ((c p : A) → same c p ≡ true → name c ≡ name p)
      → (k : Str) (p : A) (cs : List A) (images : Images)
      → gone k (compare_all name same p cs images)
        ≡ (if has_name k cs then false else gone k images)
  gone-compare_all eq k p [] images = (unfold compare_all in refl)
  gone-compare_all eq k p (c ∷ cs) images = elim (Bool-cases (same c p)) [
    | inl h ↦
        let ih = gone-compare_all eq k p cs (mark_both (name p) (mark_current (name c) images)) in
        ap (gone k) (compare_all-cons p c cs images true h)
        ∙ ih
        ∙ ground (
          arith,
          gone-both k (name p) (mark_current (name c) images),
          gone-current k (name c) images,
          ap (λ n. n == k) (eq c p h),
        )
    | inr h ↦
        let ih = gone-compare_all eq k p cs (mark_current (name c) images) in
        ap (gone k) (compare_all-cons p c cs images false h)
        ∙ ih
        ∙ ground (arith, gone-current k (name c) images)
  ]

  compare_lists-cons :
      (p : A) (ps cs : List A) (images : Images)
      → compare_lists name same (p ∷ ps) cs images
        ≡ compare_lists name same ps cs (compare_all name same p cs (mark_previous (name p) images))
  unfolding compare_lists
  compare_lists-cons p ps cs images = refl

  -- Where a current object has the name, it is not gone; where only a previous one has it, it is;
  -- any other name is as before.
  abbrev pub gone_after : Str → List A → List A → Bool → Bool
  gone_after k [] cs before = before
  gone_after k (p ∷ ps) cs before =
      if has_name k cs then false else if has_name k (p ∷ ps) then true else before

  gone_after-next :
      (k : Str) (p : A) (ps cs : List A) (before : Bool)
      → gone_after k ps cs (if has_name k cs then false else if name p == k then true else before)
        ≡ gone_after k (p ∷ ps) cs before
  gone_after-next k p [] cs before = ground arith
  gone_after-next k p (q ∷ ps) cs before = ground arith

  -- Where objects that are deeply equal have the same name, the nested loops of `calculateDiff` over
  -- the channels and over the additional images, from any map on, do this to what is left to be
  -- deleted: without a previous object, nothing changes. Otherwise the name of a current object is
  -- not to be deleted, also where the object was changed; a name that only previous objects have is
  -- to be deleted; and for any other name it is as before the loops.
  pub gone-compare_lists :
      ((c p : A) → same c p ≡ true → name c ≡ name p)
      → (k : Str) (ps cs : List A) (images : Images)
      → gone k (compare_lists name same ps cs images) ≡ gone_after k ps cs (gone k images)
  gone-compare_lists eq k [] cs images = (unfold compare_lists in refl)
  gone-compare_lists eq k (p ∷ ps) cs images =
      let images' = compare_all name same p cs (mark_previous (name p) images) in
      let e : gone k images'
          ≡ (if has_name k cs then false else if name p == k then true else gone k images) =
        gone-compare_all eq k p cs (mark_previous (name p) images)
        ∙ ap (λ g. if has_name k cs then false else g) (gone-previous k (name p) images) in
      ap (gone k) (compare_lists-cons p ps cs images)
      ∙ gone-compare_lists eq k ps cs images'
      ∙ ap (gone_after k ps cs) e
      ∙ gone_after-next k p ps cs (gone k images)
