-- ===== src/Cli/Destination.antt =====
-- The destination that `Validate` accepts is one that `Complete` can split.
use golang_fb_mirror.Base.{
  ℕ, zero, suc, ◌-◌, ◌≡◌, refl, ◌∙◌, ◌⊎◌, inl, inr, Bool, true, false, ◌||◌, ◌&&◌, List, [], ◌∷◌,
  ◌++◌, Bool-cases, arith, length, ok, index, ◌==◌, ℕ_eq,
}
use golang_fb_mirror.Base.Text.{Str, codes, contains, has_prefix, split, split_from, cons_head}
use golang_fb_mirror.Collect.Files.{mirror_to_disk, disk_to_mirror}
use golang_fb_mirror.Names.Cuts.{Between, split-Between}
use golang_fb_mirror.Cli.{is_local, complete_mode}

-- The list has two elements or more.
abbrev pub HasTwo : List Str → Type 0
HasTwo (p ∷ q ∷ ps) = Unit
HasTwo _ = ⊥

abbrev pub HasOne : List Str → Type 0
HasOne [] = ⊥
HasOne (p ∷ ps) = Unit

cons_head-HasOne : (c : ℕ) (ps : List Str) → HasOne (cons_head c ps)
cons_head-HasOne c [] = tt
cons_head-HasOne c (p ∷ ps) = tt

cons_head-HasTwo : (c : ℕ) (ps : List Str) → HasTwo ps → HasTwo (cons_head c ps)
cons_head-HasTwo c [] h = absurd h
cons_head-HasTwo c (p ∷ []) h = absurd h
cons_head-HasTwo c (p ∷ q ∷ ps) h = tt

HasTwo-cons : (p : Str) (ps : List Str) → HasOne ps → HasTwo (p ∷ ps)
HasTwo-cons p [] h = absurd h
HasTwo-cons p (q ∷ ps) h = tt

pub split_from-HasOne : (n : ℕ) (s sep : Str) → HasOne (split_from n s sep)
unfolding split_from
split_from-HasOne n [] sep = tt
split_from-HasOne (suc n) (c ∷ s) sep = split_from-HasOne n s sep
split_from-HasOne zero (c ∷ s) sep =
    elim (has_prefix (c ∷ s) sep)
      as (λ b. HasOne (elim b [
        | true ↦ [] ∷ split_from (length sep - 1) s sep
        | false ↦ cons_head c (split_from zero s sep)
      ])) [ true ↦ tt | false ↦ cons_head-HasOne c (split_from zero s sep) ]

contains-cons :
    (c : ℕ) (s sub : Str) → contains (c ∷ s) sub ≡ (has_prefix (c ∷ s) sub || contains s sub)
unfolding contains
contains-cons c s sub = refl

-- A separator that is not empty and occurs gives two parts.
pub split-HasTwo :
    (s : Str) (x : ℕ) (sep : Str) → contains s (x ∷ sep) ≡ true → HasTwo (split_from 0 s (x ∷ sep))
unfolding split_from contains has_prefix
split-HasTwo [] x sep h = absurd (ground (arith, h))
split-HasTwo (c ∷ s) x sep h = elim (Bool-cases (has_prefix (c ∷ s) (x ∷ sep))) [
  | inl p ↦
      rw (split_from, p)
        (HasTwo-cons [] (split_from (length (x ∷ sep) - 1) s (x ∷ sep))
          (split_from-HasOne (length (x ∷ sep) - 1) s (x ∷ sep)))
  | inr p ↦
      let rest : contains s (x ∷ sep) ≡ true = ground (arith, h, p, contains-cons c s (x ∷ sep)) in
      rw (split_from, p) (cons_head-HasTwo c (split_from 0 s (x ∷ sep)) (split-HasTwo s x sep rest))
]

prefix-contains : (s a sep : Str) → has_prefix s (a ++ sep) ≡ true → contains s sep ≡ true
unfolding has_prefix contains
prefix-contains [] [] sep h = h
prefix-contains (c ∷ s) [] sep h = contains-cons c s sep ∙ ground (arith, h)
prefix-contains [] (x ∷ a) sep h = absurd (ground (arith, h))
prefix-contains (c ∷ s) (x ∷ a) sep h =
    contains-cons c s sep
    ∙ ground (arith, prefix-contains s a sep (and-right (c == x) (has_prefix s (a ++ sep)) h))
  where
    and-right : (b d : Bool) → (b && d) ≡ true → d ≡ true
    and-right true d e = e
    and-right false d e = absurd (ground (arith, e))

contains-end : (s a sep : Str) → contains s (a ++ sep) ≡ true → contains s sep ≡ true
unfolding contains
contains-end [] a sep h = prefix-contains [] a sep h
contains-end (c ∷ s) a sep h = elim (Bool-cases (has_prefix (c ∷ s) (a ++ sep))) [
  | inl p ↦ prefix-contains (c ∷ s) a sep p
  | inr p ↦
      let rest : contains s (a ++ sep) ≡ true =
        ground (arith, h, p, contains-cons c s (a ++ sep)) in
      contains-cons c s sep ∙ ground (arith, contains-end s a sep rest)
]

-- A local destination has a piece behind its first `://`, which `Complete` takes.
local-part :
    (dest : Str)
    → is_local dest ≡ true
    → (part : Str) × (index (split dest (codes "://")) 1 ≡ ok part)
      × Between (codes "://") dest part
unfolding is_local
local-part dest h = elim (Bool-cases (contains dest (codes "oci://"))) [
  | inl o ↦ split-Between dest 58 (47 ∷ 47 ∷ []) (contains-end dest (codes "oci") (codes "://") o)
  | inr o ↦
      split-Between dest 58 (47 ∷ 47 ∷ [])
        (contains-end dest (codes "dir") (codes "://") (ground (arith, h, o)))
]

-- `Complete` sets a mode for every destination, and its index into the parts of the destination
-- does not panic. For a destination that contains `oci://` or `dir://` the mode is mirrorToDisk, and
-- the directory is below the working directory, at what stands between the first `://` of the
-- destination and the next, or the end. For any other the mode is diskToMirror, and the directory is
-- the working directory.
pub complete_mode-returns :
    (dest : Str)
    → ((is_local dest ≡ true)
        × ((part : Str) × Between (codes "://") dest part
            × (complete_mode dest ≡ ok (mirror_to_disk, codes "working-dir/" ++ part))))
      ⊎ ((is_local dest ≡ false) × (complete_mode dest ≡ ok (disk_to_mirror, codes "working-dir")))
unfolding complete_mode
complete_mode-returns dest = elim (Bool-cases (is_local dest)) [
  | inl h ↦ let (part, e, b) = local-part dest h in inl (h, (part, b, rw (h, e) refl))
  | inr h ↦ inr (h, rw h refl)
]
