-- ===== src/Collect/Releases/Related.antt =====
-- What `findRelatedImage` looks up (pkg/release/collector.go).
use golang_fb_mirror.Base.{
  ℕ, suc, ◌-◌, ◌≡◌, ◌≢◌, refl, sym, subst, ap, ◌∙◌, ◌⊎◌, inl, inr, true, false, List, [], ◌∷◌, ◌++◌,
  ◌==◌, ==_iff, ℕ_eq, List_eq, Bool-cases, arith, drop, length, index, ok,
}
use golang_fb_mirror.Base.Text.{Str, codes, split, split_from, cons_head, join}
use golang_fb_mirror.Names.Parts.{
  Lacks, split_from-hit, split_from-miss, split-part, split-end, contains-part,
}
use golang_fb_mirror.Cli.Destination.{HasOne, HasTwo, split_from-HasOne, split-HasTwo}
use golang_fb_mirror.Api.{RelatedImage}
use golang_fb_mirror.Collect.Releases.{find_related_image}
use golang_fb_mirror.Collect.Releases.Loop.{component_of}

join-skip : (c : ℕ) (ps : List Str) → HasOne ps → join ([] ∷ ps) (c ∷ []) ≡ c ∷ join ps (c ∷ [])
unfolding join
join-skip c [] h = absurd h
join-skip c (p ∷ ps) h = refl

join-cons_head :
    (b : ℕ) (sep : Str) (ps : List Str) → HasOne ps → join (cons_head b ps) sep ≡ b ∷ join ps sep
unfolding join
join-cons_head b sep [] h = absurd h
join-cons_head b sep (p ∷ []) h = refl
join-cons_head b sep (p ∷ q ∷ ps) h = refl

-- The pieces of a string are put together again.
pub join-split : (c : ℕ) (s : Str) → join (split s (c ∷ [])) (c ∷ []) ≡ s
unfolding split
join-split c [] = (unfold split_from join in refl)
join-split c (b ∷ s) =
    let one = split_from-HasOne 0 s (c ∷ []) in
    elim (Bool-cases (b == c)) [
      | inl h ↦
          let c' = (==_iff b c).0 h in
          ap (λ x. join (split_from 0 (x ∷ s) (c ∷ [])) (c ∷ [])) c'
          ∙ ap (λ ps. join ps (c ∷ [])) (split_from-hit c s)
          ∙ join-skip c (split_from 0 s (c ∷ [])) one
          ∙ ap (λ t. c ∷ t) (join-split c s)
          ∙ ap (λ x. x ∷ s) (sym c')
      | inr h ↦
          ap (λ ps. join ps (c ∷ [])) (split_from-miss b c s h)
          ∙ join-cons_head b (c ∷ []) (split_from 0 s (c ∷ [])) one
          ∙ ap (λ t. b ∷ t) (join-split c s)
    ]

-- A string with its first `c`, if it has one
pub first_cut :
    (c : ℕ) (s : Str)
    → Lacks c s ⊎ ((host : Str) × (path : Str) × (s ≡ host ++ c ∷ path) × Lacks c host)
first_cut c [] = inl tt
first_cut c (b ∷ s) = elim (Bool-cases (b == c)) [
  | inl h ↦ inr ([], s, ap (λ x. x ∷ s) ((==_iff b c).0 h), tt)
  | inr h ↦ elim (first_cut c s) [
    | inl l ↦ inl (h, l)
    | inr (host, path, e, l) ↦ inr (b ∷ host, path, ap (λ t. b ∷ t) e, (h, l))
  ]
]

-- The name of an image without its registry: what stands behind the first slash
pub data PathOf : Str → Str → Type 0 where
  no_registry : {image : Str} → Lacks 47 image → PathOf image []
  behind_registry : (host : Str) {path : Str} → Lacks 47 host → PathOf (host ++ 47 ∷ path) path

path-PathOf : (image : Str) → PathOf image (join (drop 1 (split image (codes "/"))) (codes "/"))
path-PathOf image = elim (first_cut 47 image) [
  | inl l ↦
      subst (λ ps. PathOf image (join (drop 1 ps) (codes "/"))) (sym (split-end 47 image l))
        (unfold join in no_registry l)
  | inr (host, path, e, l) ↦
      let r : join (drop 1 (split image (codes "/"))) (codes "/") ≡ path =
        ap (λ t. join (drop 1 (split t (codes "/"))) (codes "/")) e
        ∙ ap (λ ps. join (drop 1 ps) (codes "/")) (split-part 47 host path l)
        ∙ join-split 47 path in
      subst (λ t. PathOf image t) (sym r)
        (subst (λ t. PathOf t path) (sym e) (behind_registry host l))
]

-- The path of the first image of a name; empty, if there is none.
pub data PathIn (name : Str) : List RelatedImage → Str → Type 0 where
  not_there : PathIn name [] []
  first :
      {img : RelatedImage} {images : List RelatedImage} {path : Str}
      → name ≡ img.name
      → PathOf img.image path
      → PathIn name (img ∷ images) path
  later :
      {img : RelatedImage} {images : List RelatedImage} {path : Str}
      → name ≢ img.name
      → PathIn name images path
      → PathIn name (img ∷ images) path

pub find_related_image-PathIn :
    (name : Str) (images : List RelatedImage) → PathIn name images (find_related_image name images)
unfolding find_related_image
find_related_image-PathIn name [] = not_there
find_related_image-PathIn name (img ∷ images) = elim (Bool-cases (name == img.name)) [
  | inl h ↦ rw h (first ((==_iff name img.name).0 h) (path-PathOf img.image))
  | inr h ↦ rw h (
      later (λ e. absurd (ground (arith, h, (==_iff name img.name).1 e)))
        (find_related_image-PathIn name images))
]

-- What stands behind the last slash
pub data LastPart : Str → Str → Type 0 where
  whole : {part : Str} → Lacks 47 part → LastPart part part
  behind : (before : Str) {part : Str} → Lacks 47 part → LastPart (before ++ 47 ∷ part) part

abbrev last_of : List Str → Str
last_of [] = []
last_of (p ∷ []) = p
last_of (p ∷ q ∷ ps) = last_of (q ∷ ps)

index-last : (ps : List Str) → HasOne ps → index ps (length ps - 1) ≡ ok (last_of ps)
unfolding index
index-last [] h = absurd h
index-last (p ∷ []) h = refl
index-last (p ∷ q ∷ ps) h =
    let z : length (p ∷ q ∷ ps) - 1 ≡ suc (length (q ∷ ps) - 1) = omega arith in
    ap (index (p ∷ q ∷ ps)) z ∙ index-last (q ∷ ps) tt

last_of-skip : (ps : List Str) → HasOne ps → last_of ([] ∷ ps) ≡ last_of ps
last_of-skip [] h = absurd h
last_of-skip (p ∷ ps) h = refl

last_of-cons_head : (b : ℕ) (ps : List Str) → HasTwo ps → last_of (cons_head b ps) ≡ last_of ps
last_of-cons_head b [] h = absurd h
last_of-cons_head b (p ∷ []) h = absurd h
last_of-cons_head b (p ∷ q ∷ ps) h = refl

behind-HasTwo : (before part : Str) → HasTwo (split_from 0 (before ++ 47 ∷ part) (codes "/"))
behind-HasTwo before part = split-HasTwo (before ++ 47 ∷ part) 47 [] (contains-part 47 before part)

last_of-hit :
    (b : ℕ) (s : Str)
    → (b == 47) ≡ true
    → last_of (split_from 0 (b ∷ s) (codes "/")) ≡ last_of (split_from 0 s (codes "/"))
last_of-hit b s h =
    ap (λ x. last_of (split_from 0 (x ∷ s) (codes "/"))) ((==_iff b 47).0 h)
    ∙ ap last_of (split_from-hit 47 s)
    ∙ last_of-skip (split_from 0 s (codes "/")) (split_from-HasOne 0 s (codes "/"))

last_of-LastPart : (s : Str) → LastPart s (last_of (split_from 0 s (codes "/")))
unfolding split_from split
last_of-LastPart [] = whole tt
last_of-LastPart (b ∷ s) = elim (Bool-cases (b == 47)) [
  | inl h ↦
      subst (λ p. LastPart (b ∷ s) p) (sym (last_of-hit b s h))
        (subst (λ x. LastPart (x ∷ s) (last_of (split_from 0 s (codes "/"))))
          (sym ((==_iff b 47).0 h)) (after_slash s _ (last_of-LastPart s)))
  | inr h ↦
      subst (λ ps. LastPart (b ∷ s) (last_of ps)) (sym (split_from-miss b 47 s h))
        (after_byte s _ h refl (last_of-LastPart s))
]
  where
    after_slash : (s part : Str) → LastPart s part → LastPart (47 ∷ s) part
    after_slash _ _ (whole {part} l) = behind [] l
    after_slash _ _ (behind before {part} l) = behind (47 ∷ before) l

    after_byte :
        (s part : Str)
        → (b == 47) ≡ false
        → part ≡ last_of (split_from 0 s (codes "/"))
        → LastPart s part
        → LastPart (b ∷ s) (last_of (cons_head b (split_from 0 s (codes "/"))))
    after_byte _ _ h e (whole {part} l) =
        subst (λ ps. LastPart (b ∷ part) (last_of (cons_head b ps))) (sym (split-end 47 part l))
          (whole (h, l))
    after_byte _ _ h e (behind before {part} l) =
        subst (λ p. LastPart (b ∷ before ++ 47 ∷ part) p)
          (e
            ∙ sym (
                last_of-cons_head b (split_from 0 (before ++ 47 ∷ part) (codes "/"))
                  (behind-HasTwo before part)))
          (behind (b ∷ before) l)

pub component_of-LastPart : (dir : Str) → (c : Str) × (component_of dir ≡ ok c) × LastPart dir c
unfolding component_of split
component_of-LastPart dir =
    let ps = split_from 0 dir (codes "/") in
    (last_of ps, index-last ps (split_from-HasOne 0 dir (codes "/")), last_of-LastPart dir)
