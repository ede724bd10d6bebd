-- ===== src/Semver.antt =====
-- The package github.com/blang/semver/v4, which the program uses and the repository only vendors:
-- its versions, their parser and their order, with what its documentation says of them.
use Prim.Native.Nat.{Ordering}
use mathlib.Core.List.{Memᴰ}
use golang_fb_mirror.Base.{ℕ, ◌≡◌, ◌↔◌, Bool, true, false, Option, List, [], ◌∷◌}
use golang_fb_mirror.Base.Text.{Str}

-- Each element relates to all that stand behind it.
abbrev pub Ascending {ℓ} : {A : Type ℓ} → (A → A → Bool) → List A → Type ℓ
Ascending le [] = Unit
Ascending le (x ∷ xs) = ((y : _) → Memᴰ y xs → le x y ≡ true) × Ascending le xs

abbrev pub converse : Ordering → Ordering
converse Ordering.lt = Ordering.gt
converse Ordering.eq = Ordering.eq
converse Ordering.gt = Ordering.lt

abbrev pub not_gt : Ordering → Bool
not_gt Ordering.gt = false
not_gt _ = true

pub record Semver : Type 1 where
  pub Version : Type 0
  -- semver.Parse
  pub parse : Str → Option Version
  -- v.String()
  pub to_string : Version → Str
  -- v.Compare(w): -1, 0 and 1 are lt, eq and gt
  pub compare : Version → Version → Ordering
  -- semver.Sort
  pub sort : List Version → List Version
  -- the fields Major and Minor, and an assignment to Minor
  pub major : Version → ℕ
  pub minor : Version → ℕ
  pub with_minor : Version → ℕ → Version
  -- fmt.Sprintf("%v", …) at a field
  pub show_nat : ℕ → Str
  -- semver.Version{}
  pub zero_version : Version
  -- versions are ordered; two that differ in their build metadata alone compare as equal
  pub compare_flip : (v w : Version) → compare w v ≡ converse (compare v w)
  pub compare_trans :
      (u v w : Version)
      → not_gt (compare u v) ≡ true
      → not_gt (compare v w) ≡ true
      → not_gt (compare u w) ≡ true
  -- Sort puts the same versions in ascending order
  pub sort_mem : (v : Version) (vs : List Version) → Memᴰ v (sort vs) ↔ Memᴰ v vs
  pub sort_ascending : (vs : List Version) → Ascending (λ v w. not_gt (compare v w)) (sort vs)

module _ (sv : Semver) where
  open sv use {Version, compare}

  -- v.EQ(w)
  abbrev pub eq_version : Version → Version → Bool
  eq_version v w = elim (compare v w) [ Ordering.eq ↦ true | _ ↦ false ]

  -- v.GT(w)
  abbrev pub gt_version : Version → Version → Bool
  gt_version v w = elim (compare v w) [ Ordering.gt ↦ true | _ ↦ false ]

  -- v.LT(w)
  abbrev pub lt_version : Version → Version → Bool
  lt_version v w = elim (compare v w) [ Ordering.lt ↦ true | _ ↦ false ]

  -- v.LTE(w)
  abbrev pub le_version : Version → Version → Bool
  le_version v w = not_gt (compare v w)
