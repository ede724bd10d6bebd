-- ===== src/Names/Parts.antt =====
-- The parsers of image names on names that are put together from their parts.
use golang_fb_mirror.Base.{
  ℕ, ◌≡◌, refl, ap, ◌∙◌, true, false, ◌||◌, [], ◌∷◌, ◌++◌, ◌==◌, ℕ_eq, arith, ok, index,
}
use golang_fb_mirror.Base.Text.{Str, codes, has_prefix, contains, split, split_from, cons_head}
use golang_fb_mirror.Api.{ImageRef}
use golang_fb_mirror.Names.{before_sep, ref_of_parts, custom_image_parser}

-- The byte does not occur.
abbrev pub Lacks : ℕ → Str → Type 0
Lacks c [] = Unit
Lacks c (b ∷ s) = ((b == c) ≡ false) × Lacks c s

prefix-one : (b c : ℕ) (s : Str) → has_prefix (b ∷ s) (c ∷ []) ≡ (b == c)
unfolding has_prefix
prefix-one b c s = ground arith

pub split_from-hit :
    (c : ℕ) (s : Str) → split_from 0 (c ∷ s) (c ∷ []) ≡ [] ∷ split_from 0 s (c ∷ [])
unfolding split_from
split_from-hit c s =
    let h : has_prefix (c ∷ s) (c ∷ []) ≡ true = prefix-one c c s ∙ ground arith in
    rw (split_from, h) refl

pub split_from-miss :
    (b c : ℕ) (s : Str)
    → (b == c) ≡ false
    → split_from 0 (b ∷ s) (c ∷ []) ≡ cons_head b (split_from 0 s (c ∷ []))
unfolding split_from
split_from-miss b c s h =
    let h' : has_prefix (b ∷ s) (c ∷ []) ≡ false = prefix-one b c s ∙ h in rw (split_from, h') refl

pub split-part :
    (c : ℕ) (part rest : Str)
    → Lacks c part
    → split (part ++ c ∷ rest) (c ∷ []) ≡ part ∷ split rest (c ∷ [])
unfolding split
split-part c [] rest h = split_from-hit c rest
split-part c (b ∷ part) rest (n, h) =
    split_from-miss b c (part ++ c ∷ rest) n ∙ ap (cons_head b) (split-part c part rest h)

pub split-end : (c : ℕ) (part : Str) → Lacks c part → split part (c ∷ []) ≡ part ∷ []
unfolding split split_from
split-end c [] h = refl
split-end c (b ∷ part) (n, h) = split_from-miss b c part n ∙ ap (cons_head b) (split-end c part h)

contains-cons : (b c : ℕ) (s : Str) → contains (b ∷ s) (c ∷ []) ≡ ((b == c) || contains s (c ∷ []))
unfolding contains
contains-cons b c s = ap (λ t. t || contains s (c ∷ [])) (prefix-one b c s)

contains-Lacks : (c : ℕ) (s : Str) → Lacks c s → contains s (c ∷ []) ≡ false
unfolding contains has_prefix
contains-Lacks c [] h = refl
contains-Lacks c (b ∷ s) (n, h) = contains-cons b c s ∙ ground (arith, n, contains-Lacks c s h)

pub contains-part : (c : ℕ) (part rest : Str) → contains (part ++ c ∷ rest) (c ∷ []) ≡ true
contains-part c [] rest = contains-cons c c rest ∙ ground arith
contains-part c (b ∷ part) rest =
    contains-cons b c (part ++ c ∷ rest) ∙ ground (arith, contains-part c part rest)

before-none :
    (part component : Str) (c : ℕ)
    → Lacks c part
    → before_sep part (c ∷ []) component ≡ ok component
unfolding before_sep
before-none part component c h = rw (contains-Lacks c part h) refl

before-some :
    (part rest component : Str) (c : ℕ)
    → Lacks c part
    → before_sep (part ++ c ∷ rest) (c ∷ []) component ≡ ok part
unfolding before_sep index
before-some part rest component c h = rw (contains-part c part rest, split-part c part rest h) refl

-- A part with a digest or a tag behind it: a separator and its text.
abbrev pub with_sep : Str → ℕ → Str → Str
with_sep part c rest = part ++ c ∷ rest

abbrev pub with_slashes : Str → Str → Str → Str
with_slashes repository namespace part = repository ++ 47 ∷ (namespace ++ 47 ∷ part)

split-three :
    (repository namespace part : Str)
    → Lacks 47 repository
    → Lacks 47 namespace
    → Lacks 47 part
    → split (with_slashes repository namespace part) (codes "/")
      ≡ repository ∷ namespace ∷ part ∷ []
split-three repository namespace part r n p =
    split-part 47 repository (namespace ++ 47 ∷ part) r
    ∙ ap (◌∷◌ repository)
        (split-part 47 namespace part n ∙ ap (◌∷◌ namespace) (split-end 47 part p))

-- For a name of three parts without slashes, whose last part is a component without an at sign,
-- alone or with a digest: the parser of the operator collector and the diff returns the two parts
-- and the component; the digest is dropped.
pub custom_image_parser-parts :
    (repository namespace component digest : Str)
    → Lacks 47 repository
    → Lacks 47 namespace
    → Lacks 47 component
    → Lacks 64 component
    → Lacks 47 (with_sep component 64 digest)
    → let ref : ImageRef = record {
      repository = repository;
      namespace = namespace;
      component = component;
    } in
      (custom_image_parser (with_slashes repository namespace component) ≡ ok ref)
      × (custom_image_parser (with_slashes repository namespace (with_sep component 64 digest))
          ≡ ok ref)
unfolding custom_image_parser ref_of_parts
custom_image_parser-parts repository namespace component digest r n c a d = (
  rw (split-three repository namespace component r n c, before-none component component 64 a) refl,
  rw
      (
        split-three repository namespace (with_sep component 64 digest) r n d,
        before-some component digest (with_sep component 64 digest) 64 a,
      )
      refl,
)
