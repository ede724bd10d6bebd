-- ===== src/Manifest/Versions/Select.antt =====
-- Which bundles `semverFindMax` and `semverFindRange` choose.
use mathlib.Core.List.{Memᴰ}
use mathlib.Core.List.Memᴰ
use golang_fb_mirror.Base.{
  ℕ, zero, suc, ◌+◌, ◌≡◌, refl, ap, sym, ◌∙◌, subst, ◌↔◌, ◌⊎◌, inl, inr, true, false, List, [], ◌∷◌,
  if◌then◌else◌, Bool-cases, arith, All, ok, index,
}
use golang_fb_mirror.Base.Text.{Str}
use golang_fb_mirror.Semver.{Semver, gt_version, le_version}
use golang_fb_mirror.Api.{ChannelEntry}
use golang_fb_mirror.Manifest.Versions.{entry_version, find_max, semver_find_max}

module _ (sv : Semver) where
  open sv use {Version, compare, zero_version}

  -- The versions in the names of the entries, where each of them has one.
  abbrev pub HaveVersions : List ChannelEntry → List Version → Type 0
  HaveVersions [] [] = Unit
  HaveVersions (e ∷ es) (v ∷ vs) = (entry_version sv e ≡ ok v) × HaveVersions es vs
  HaveVersions es vs = ⊥

  abbrev pub AllBelow : Version → List Version → Type 0
  AllBelow w = All (λ v. le_version sv v w ≡ true)

  find_max-cons :
      (max v : Version) (i id : ℕ) (s : ChannelEntry) (es : List ChannelEntry)
      → entry_version sv s ≡ ok v
      → find_max sv max i id (s ∷ es) ≡ (
          if gt_version sv v max
          then find_max sv v id (suc id) es
          else find_max sv max i (suc id) es)
  unfolding find_max
  find_max-cons max v i id s es e = rw (find_max, e) (ground arith)

  gt-le : (v w : Version) → gt_version sv v w ≡ true → le_version sv w v ≡ true
  gt-le v w h = ground (arith, h, sv.compare_flip v w)

  not_gt-le : (v w : Version) → gt_version sv v w ≡ false → le_version sv v w ≡ true
  not_gt-le v w h = ground (arith, h)

  le_refl : (v : Version) → le_version sv v v ≡ true
  le_refl v = ground (arith, sv.compare_flip v v)

  -- Where the loop ends: at an entry with the largest version, or where it started.
  abbrev pub Found : Version → ℕ → ℕ → List ChannelEntry → ℕ → Version → Type 0
  Found max i id es j w =
      ((j ≡ i) × (w ≡ max))
      ⊎ ((k : ℕ) × (e : ChannelEntry) × (j ≡ id + k)
          × (index es k ≡ ok e)
          × (entry_version sv e ≡ ok w))

  Found-cons :
      (max : Version) (i id : ℕ) (s : ChannelEntry) (es : List ChannelEntry) (j : ℕ) (w : Version)
      → Found max i (suc id) es j w
      → Found max i id (s ∷ es) j w
  unfolding index
  Found-cons max i id s es j w (inl h) = inl h
  Found-cons max i id s es j w (inr (k, e, ej, ei, ev)) = inr (suc k, e, omega (arith, ej), ei, ev)

  Found-here :
      (max v : Version) (i id : ℕ) (s : ChannelEntry) (es : List ChannelEntry) (j : ℕ) (w : Version)
      → entry_version sv s ≡ ok v
      → Found v id (suc id) es j w
      → Found max i id (s ∷ es) j w
  unfolding index
  Found-here max v i id s es j w ev (inl (ej, ew)) =
      inr (0, s, omega (arith, ej), refl, ev ∙ ap ok (sym ew))
  Found-here max v i id s es j w ev (inr (k, e, ej, ei, ew)) =
      inr (suc k, e, omega (arith, ej), ei, ew)

  find_max-Found :
      (max : Version) (i id : ℕ) (es : List ChannelEntry) (vs : List Version)
      → HaveVersions es vs
      → (j : ℕ) × (w : Version) × (find_max sv max i id es ≡ ok j)
        × (le_version sv max w ≡ true)
        × AllBelow w vs
        × Found max i id es j w
  unfolding find_max
  find_max-Found max i id [] [] h = (i, max, refl, le_refl max, tt, inl (refl, refl))
  find_max-Found max i id [] (v ∷ vs) h = absurd h
  find_max-Found max i id (s ∷ es) [] h = absurd h
  find_max-Found max i id (s ∷ es) (v ∷ vs) (ev, h) = elim (Bool-cases (gt_version sv v max)) [
    | inl g ↦
        let (j, w, e, up, below, f) = find_max-Found v id (suc id) es vs h in
        let e' = find_max-cons max v i id s es ev in
        (
          j,
          w,
          ground (arith, e, e', g),
          sv.compare_trans max v w (gt-le v max g) up,
          (up, below),
          Found-here max v i id s es j w ev f,
        )
    | inr g ↦
        let (j, w, e, up, below, f) = find_max-Found max i (suc id) es vs h in
        let e' = find_max-cons max v i id s es ev in
        (
          j,
          w,
          ground (arith, e, e', g),
          up,
          (sv.compare_trans v max w (not_gt-le v max g) up, below),
          Found-cons max i id s es j w f,
        )
  ]

  index-mem : (es : List ChannelEntry) (k : ℕ) (e : ChannelEntry) → index es k ≡ ok e → Memᴰ e es
  unfolding index
  index-mem [] k e h = absurd (ground (arith, h))
  index-mem (s ∷ es) zero e h = Memᴰ.head (ground (arith, h))
  index-mem (s ∷ es) (suc k) e h = Memᴰ.tail (index-mem es k e h)

  name_at :
      (es : List ChannelEntry) (j : ℕ) (e : ChannelEntry)
      → find_max sv zero_version 0 0 es ≡ ok j
      → index es j ≡ ok e
      → semver_find_max sv es ≡ ok e.name
  unfolding semver_find_max
  name_at es j e h h' = rw (h, h') refl

  -- For a channel that has an entry and whose entries' names all hold a version, `semverFindMax`
  -- returns the name of an entry: one with the largest of the versions, or, if none of them is
  -- above the zero version, the first.
  pub semver_find_max-IsMax :
      (first : ChannelEntry) (es : List ChannelEntry) (vs : List Version)
      → HaveVersions (first ∷ es) vs
      → (m : ChannelEntry) × (semver_find_max sv (first ∷ es) ≡ ok m.name)
        × Memᴰ m (first ∷ es)
        × (((w : Version) × (entry_version sv m ≡ ok w) × AllBelow w vs)
            ⊎ ((m ≡ first) × AllBelow zero_version vs))
  unfolding index
  semver_find_max-IsMax first es vs h =
      let (j, w, e, up, below, f) = find_max-Found zero_version 0 0 (first ∷ es) vs h in
      elim f [
        | inl (ej, ew) ↦ (
          first,
          name_at (first ∷ es) 0 first (e ∙ ap ok ej) refl,
          Memᴰ.head refl,
          inr (refl, subst (λ x. AllBelow x vs) ew below),
        )
        | inr (k, m, ej, ei, ew) ↦ (
          m,
          name_at (first ∷ es) k m (e ∙ ap ok (omega (arith, ej))) ei,
          index-mem (first ∷ es) k m ei,
          inl (w, ew, below),
        )
      ]

  -- The entry's version is above `lo` and not above `hi`.
  abbrev pub InRange : Version → Version → ChannelEntry → Type 0
  InRange lo hi e =
      (v : Version) × (entry_version sv e ≡ ok v)
      × (le_version sv v hi ≡ true)
      × (gt_version sv v lo ≡ true)

  abbrev pub Names : Version → Version → List ChannelEntry → List Str → Type 0
  Names lo hi es names =
      (n : Str) → Memᴰ n names ↔ ((e : ChannelEntry) × Memᴰ e es × (e.name ≡ n) × InRange lo hi e)
