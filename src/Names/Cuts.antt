-- ===== src/Names/Cuts.antt =====
-- What `strings.Split` returns at a separator of any length: the first piece and the second.
use golang_fb_mirror.Base.{
  ℕ, ◌-◌, ◌≡◌, refl, sym, ap, ◌∙◌, ◌⊎◌, inl, inr, true, false, ◌||◌, List, [], ◌∷◌, ◌++◌, ==_iff,
  ℕ_eq, Bool-cases, arith, length, index, ok,
}
use golang_fb_mirror.Base.Text.{Str, has_prefix, contains, split, split_from, cons_head}

prefix-cut : (s p : Str) → has_prefix s p ≡ true → (b : Str) × (s ≡ p ++ b)
unfolding has_prefix
prefix-cut s [] h = (s, refl)
prefix-cut [] (c ∷ p) h = absurd (ground (arith, h))
prefix-cut (d ∷ s) (c ∷ p) h =
    let (b, e) = prefix-cut s p (ground (arith, h)) in
    (b, ap (λ x. x ∷ s) ((==_iff d c).0 (ground (arith, h))) ∙ ap (λ t. c ∷ t) e)

prefix-append : (s p t : Str) → has_prefix s p ≡ true → has_prefix (s ++ t) p ≡ true
unfolding has_prefix
prefix-append s [] t h = refl
prefix-append [] (c ∷ p) t h = absurd (ground (arith, h))
prefix-append (d ∷ s) (c ∷ p) t h = ground (arith, h, prefix-append s p t (ground (arith, h)))

skip_lem : (p b sep : Str) → split_from (length p) (p ++ b) sep ≡ split_from 0 b sep
unfolding split_from
skip_lem [] b sep = refl
skip_lem (c ∷ p) b sep = skip_lem p b sep

contains-nil : (x : ℕ) (sep : Str) → contains [] (x ∷ sep) ≡ false
unfolding contains has_prefix
contains-nil x sep = refl

contains-cons :
    (c : ℕ) (s sub : Str) → contains (c ∷ s) sub ≡ (has_prefix (c ∷ s) sub || contains s sub)
unfolding contains
contains-cons c s sub = refl

split_from-miss :
    (c : ℕ) (s sep : Str)
    → has_prefix (c ∷ s) sep ≡ false
    → split_from 0 (c ∷ s) sep ≡ cons_head c (split_from 0 s sep)
unfolding split_from
split_from-miss c s sep h = rw (split_from, h) refl

split_from-hit :
    (x : ℕ) (b sep : Str)
    → has_prefix (x ∷ sep ++ b) (x ∷ sep) ≡ true
    → split_from 0 (x ∷ sep ++ b) (x ∷ sep) ≡ [] ∷ split_from 0 b (x ∷ sep)
unfolding split_from
split_from-hit x b sep h =
    let one : length (x ∷ sep) - 1 ≡ length sep = omega arith in
    rw (split_from, h)
      (ap (λ ps. [] ∷ ps)
        (ap (λ n. split_from n (sep ++ b) (x ∷ sep)) one ∙ skip_lem sep b (x ∷ sep)))

-- Without a separator there is one piece.
split_from-whole : (s sep : Str) → contains s sep ≡ false → split_from 0 s sep ≡ s ∷ []
split_from-whole [] sep h = (unfold split_from in refl)
split_from-whole (c ∷ s) sep h =
    let k = contains-cons c s sep in
    split_from-miss c s sep (ground (arith, h, k))
    ∙ ap (cons_head c) (split_from-whole s sep (ground (arith, h, k)))

-- The string is cut at its first separator.
abbrev FirstCut : Str → Str → Str → Str → Type 0
FirstCut s sep a b =
    (s ≡ a ++ (sep ++ b)) × (contains a sep ≡ false) × (split_from 0 s sep ≡ a ∷ split_from 0 b sep)

first_cut :
    (s : Str) (x : ℕ) (sep : Str)
    → contains s (x ∷ sep) ≡ true
    → (a : Str) × (b : Str) × FirstCut s (x ∷ sep) a b
first_cut [] x sep h = absurd (ground (arith, h, contains-nil x sep))
first_cut (c ∷ s) x sep h = elim (Bool-cases (has_prefix (c ∷ s) (x ∷ sep))) [
  | inl p ↦
      let (b, e) = prefix-cut (c ∷ s) (x ∷ sep) p in
      let q : has_prefix (x ∷ sep ++ b) (x ∷ sep) ≡ true =
        ap (λ t. has_prefix t (x ∷ sep)) (sym e) ∙ p in
      (
        [],
        b,
        (e, contains-nil x sep, ap (λ t. split_from 0 t (x ∷ sep)) e ∙ split_from-hit x b sep q),
      )
  | inr p ↦
      let (a, b, (e, n, r)) =
        first_cut s x sep (ground (arith, h, p, contains-cons c s (x ∷ sep))) in
      let m : has_prefix (c ∷ a) (x ∷ sep) ≡ false =
        elim (Bool-cases (has_prefix (c ∷ a) (x ∷ sep))) [
          | inr f ↦ f
          | inl t ↦
              let t' : has_prefix (c ∷ s) (x ∷ sep) ≡ true =
                ap (λ u. has_prefix (c ∷ u) (x ∷ sep)) e
                ∙ prefix-append (c ∷ a) (x ∷ sep) ((x ∷ sep) ++ b) t in
              absurd (ground (arith, p, t'))
        ] in
      (
        c ∷ a,
        b,
        (
          ap (λ t. c ∷ t) e,
          contains-cons c a (x ∷ sep) ∙ ground (arith, m, n),
          split_from-miss c s (x ∷ sep) p ∙ ap (cons_head c) r,
        ),
      )
]

-- The string begins with the piece, which ends with the string or before a separator.
abbrev pub Begins : Str → Str → Str → Type 0
Begins sep s part =
    (contains part sep ≡ false) × ((s ≡ part) ⊎ ((rest : Str) × (s ≡ part ++ (sep ++ rest))))

-- The piece stands between the first separator and the next, or the end.
abbrev pub Between : Str → Str → Str → Type 0
Between sep s part =
    (before : Str) × (after : Str) × (s ≡ before ++ (sep ++ after))
    × (contains before sep ≡ false)
    × Begins sep after part

begin :
    (s : Str) (x : ℕ) (sep : Str)
    → (part : Str) × (ps : List Str) × (split_from 0 s (x ∷ sep) ≡ part ∷ ps)
      × Begins (x ∷ sep) s part
begin s x sep = elim (Bool-cases (contains s (x ∷ sep))) [
  | inr h ↦ (s, [], split_from-whole s (x ∷ sep) h, (h, inl refl))
  | inl h ↦
      let (a, b, (e, n, r)) = first_cut s x sep h in
      (a, split_from 0 b (x ∷ sep), r, (n, inr (b, e)))
]

-- The piece at index 1 of a string that contains the separator
pub split-Between :
    (s : Str) (x : ℕ) (sep : Str)
    → contains s (x ∷ sep) ≡ true
    → (part : Str) × (index (split s (x ∷ sep)) 1 ≡ ok part) × Between (x ∷ sep) s part
unfolding split index
split-Between s x sep h =
    let (a, b, (e, n, r)) = first_cut s x sep h in
    let (part, ps, q, g) = begin b x sep in
    (part, ap (λ l. index l 1) (r ∙ ap (λ l. a ∷ l) q), (a, b, e, n, g))
