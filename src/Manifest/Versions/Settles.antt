-- ===== src/Manifest/Versions/Settles.antt =====
-- `semverFindMax` and `semverFindRange` return a name or an error, and do not panic, on a channel
-- that has an entry.
use golang_fb_mirror.Base.{
  ℕ, zero, suc, ◌+◌, ◌-◌, ◌≤◌, ◌<◌, ◌≡◌, refl, ◌⊎◌, inl, inr, true, false, ◌&&◌, List, [], ◌∷◌,
  none, some, if◌then◌else◌, arith, length, Result, Error, ok, err, index, foreign, bad_bundle_name,
  ◌==◌, List_eq, ℕ_eq,
}
use golang_fb_mirror.Base.Text.{
  Str, codes, split, split_from, cons_head, has_prefix, join, replace_all,
}
use golang_fb_mirror.Semver.{Semver, gt_version, le_version}
use golang_fb_mirror.Api.{ChannelEntry}
use golang_fb_mirror.Release.Updates.Routes.{index_returns}
use golang_fb_mirror.Manifest.Versions.{
  first_part, parsed, version_of_parts, entry_version, find_max, semver_find_max, bound, find_range,
  semver_find_range,
}

-- A value or an error.
abbrev pub Settles {ℓ} : {A : Type ℓ} → Result A → Type ℓ
Settles {A = A} r = ((a : A) × (r ≡ ok a)) ⊎ ((e : Error) × (r ≡ err e))

abbrev pub IsFull : List Str → Type 0
IsFull [] = ⊥
IsFull (p ∷ ps) = Unit

cons_head-IsFull : (c : ℕ) (ps : List Str) → IsFull (cons_head c ps)
cons_head-IsFull c [] = tt
cons_head-IsFull c (p ∷ ps) = tt

split_from-IsFull : (n : ℕ) (s sep : Str) → IsFull (split_from n s sep)
unfolding split_from
split_from-IsFull n [] sep = tt
split_from-IsFull (suc n) (c ∷ s) sep = split_from-IsFull n s sep
split_from-IsFull zero (c ∷ s) sep =
    elim (has_prefix (c ∷ s) sep)
      as (λ b. IsFull (elim b [
        | true ↦ [] ∷ split_from (length sep - 1) s sep
        | false ↦ cons_head c (split_from zero s sep)
      ])) [ true ↦ tt | false ↦ cons_head-IsFull c (split_from zero s sep) ]

first-IsFull : (ps : List Str) → IsFull ps → (p : Str) × (first_part ps ≡ ok p)
unfolding first_part index
first-IsFull [] h = absurd h
first-IsFull (p ∷ ps) h = (p, refl)

first-split : (s sep : Str) → (p : Str) × (first_part (split s sep) ≡ ok p)
unfolding split
first-split s sep = first-IsFull (split_from 0 s sep) (split_from-IsFull 0 s sep)

module _ (sv : Semver) where
  open sv use {Version, parse, zero_version}

  parsed-Settles : (s : Str) → Settles (parsed sv s)
  parsed-Settles s =
      elim (parse s) as (λ o. Settles (elim o [ none ↦ err (foreign 1) | some v ↦ ok v ])) [
        | none ↦ inr (foreign 1, refl)
        | some v ↦ inl (v, refl)
      ]

  version-Settles : (parts : List Str) → Settles (version_of_parts sv parts)
  unfolding version_of_parts
  version-Settles [] = inr (bad_bundle_name, refl)
  version-Settles (a ∷ []) = inr (bad_bundle_name, refl)
  version-Settles (a ∷ b ∷ []) = inr (bad_bundle_name, refl)
  version-Settles (a ∷ b ∷ c ∷ []) = inr (bad_bundle_name, refl)
  version-Settles (a ∷ b ∷ c ∷ d ∷ ps) =
      let (p, e) = first-split d (codes "-") in
      rw e (parsed-Settles (join (replace_all b (codes "v") [] ∷ c ∷ p ∷ []) (codes ".")))

  entry-Settles : (s : ChannelEntry) → Settles (entry_version sv s)
  unfolding entry_version
  entry-Settles s = version-Settles (split s.name (codes "."))

  -- An error, or a position that stands at the start or in the rest of the list.
  abbrev pub Lands : ℕ → ℕ → List ChannelEntry → Result ℕ → Type 0
  Lands i id es r =
      ((j : ℕ) × (r ≡ ok j) × ((j ≡ i) ⊎ ((id ≤ j) × (j < id + length es))))
      ⊎ ((e : Error) × (r ≡ err e))

  Lands-cons :
      (i id : ℕ) (s : ChannelEntry) (es : List ChannelEntry) (r : Result ℕ)
      → Lands i (suc id) es r
      → Lands i id (s ∷ es) r
  Lands-cons i id s es r (inl (j, e, inl h)) = inl (j, e, inl h)
  Lands-cons i id s es r (inl (j, e, inr (a, b))) = inl (j, e, inr (omega arith, omega arith))
  Lands-cons i id s es r (inr h) = inr h

  Lands-here :
      (i id : ℕ) (s : ChannelEntry) (es : List ChannelEntry) (r : Result ℕ)
      → Lands id (suc id) es r
      → Lands i id (s ∷ es) r
  Lands-here i id s es r (inl (j, e, inl h)) = inl (j, e, inr (omega arith, omega arith))
  Lands-here i id s es r (inl (j, e, inr (a, b))) = inl (j, e, inr (omega arith, omega arith))
  Lands-here i id s es r (inr h) = inr h

  find_max-Lands :
      (max : Version) (i id : ℕ) (es : List ChannelEntry) → Lands i id es (find_max sv max i id es)
  unfolding find_max
  find_max-Lands max i id [] = inl (i, refl, inl refl)
  find_max-Lands max i id (s ∷ es) = elim (entry-Settles s) [
    | inl (v, e) ↦
        rw e
          (elim (gt_version sv v max)
            as (λ b. Lands i id (s ∷ es) (elim b [
              | true ↦ find_max sv v id (suc id) es
              | false ↦ find_max sv max i (suc id) es
            ])) [
              | true ↦
                  Lands-here i id s es (find_max sv v id (suc id) es)
                    (find_max-Lands v id (suc id) es)
              | false ↦
                  Lands-cons i id s es (find_max sv max i (suc id) es)
                    (find_max-Lands max i (suc id) es)
            ])
    | inr (x, e) ↦ inr (x, rw e refl)
  ]

  -- On a channel that has an entry, `semverFindMax` returns a name or an error and does not panic,
  -- whatever the names of its entries are.
  pub semver_find_max-Settles :
      (first : ChannelEntry) (es : List ChannelEntry) → Settles (semver_find_max sv (first ∷ es))
  unfolding semver_find_max
  semver_find_max-Settles first es = elim (find_max-Lands zero_version 0 0 (first ∷ es)) [
    | inl (j, e, at) ↦
        let lt : j < suc (length es) = elim at [ inl h ↦ omega arith | inr (a, b) ↦ omega arith ] in
        let (m, e') = index_returns (first ∷ es) j lt in inl (m.name, rw (e, e') refl)
    | inr (x, e) ↦ inr (x, rw e refl)
  ]

  find_range-Settles : (lo hi : Version) (es : List ChannelEntry) → Settles (find_range sv lo hi es)
  unfolding find_range
  find_range-Settles lo hi [] = inl ([], refl)
  find_range-Settles lo hi (s ∷ es) = elim (entry-Settles s) [
    | inl (v, e) ↦ elim (find_range-Settles lo hi es) [
      | inl (names, e') ↦ inl (
        if le_version sv v hi && gt_version sv v lo then s.name ∷ names else names,
        rw (e, e') refl,
      )
      | inr (x, e') ↦ inr (x, rw (e, e') refl)
    ]
    | inr (x, e) ↦ inr (x, rw e refl)
  ]

  bound-Settles : (s default : Str) → Settles (bound sv s default)
  unfolding bound
  bound-Settles s default =
      elim (s == [])
        as (λ b. Settles (
          if b
          then ok (elim (parse default) [ none ↦ zero_version | some v ↦ v ])
          else parsed sv s)) [ true ↦ inl (_, refl) | false ↦ parsed-Settles s ]

  pub semver_find_range-Settles :
      (es : List ChannelEntry) (min max : Str) → Settles (semver_find_range sv es min max)
  unfolding semver_find_range
  semver_find_range-Settles es min max = elim (bound-Settles min (codes "0.0.0")) [
    | inl (lo, e) ↦ elim (bound-Settles max (codes "9.9.9")) [
      | inl (hi, e') ↦ rw (e, e') (find_range-Settles lo hi es)
      | inr (x, e') ↦ inr (x, rw (e, e') refl)
    ]
    | inr (x, e) ↦ inr (x, rw e refl)
  ]
