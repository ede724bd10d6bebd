-- ===== src/Release/Find/Extreme.antt =====
-- The release that `FindRelease` finds.
use mathlib.Core.List.{Memᴰ}
use mathlib.Core.List.Memᴰ
use golang_fb_mirror.Base.{
  ◌≡◌, ◌⊎◌, refl, ap, sym, ◌∙◌, subst, inl, inr, Bool, true, false, List, [], ◌∷◌, if◌then◌else◌,
  arith, ok,
}
use golang_fb_mirror.Base.Text.{Str}
use golang_fb_mirror.Base.Maps.{Map}
use golang_fb_mirror.Base.Sort.{sort}
use golang_fb_mirror.Base.Sort.Sorted.{IsSorted, sort-mem, sort-IsSorted}
use golang_fb_mirror.Semver.{Semver, gt_version, lt_version, le_version}
use golang_fb_mirror.Api.{ReleaseChannel}
use golang_fb_mirror.Release.Channels.Bounds.{IsEnd}
use golang_fb_mirror.Release.Find.{find_releases, find_release, last_key}

module _ (sv : Semver) where
  open sv use {Version}

  -- The order of the keys: the largest version first for the minimum, the smallest for the maximum.
  abbrev pub comes_before : Bool → Str × Version → Str × Version → Bool
  comes_before min a b = if min then gt_version sv a.1 b.1 else lt_version sv a.1 b.1

  asym :
      (min : Bool) (x y : Str × Version)
      → comes_before min x y ≡ true
      → comes_before min y x ≡ false
  asym true (j, v) (k, w) h = ground (arith, h, sv.compare_flip v w)
  asym false (j, v) (k, w) h = ground (arith, h, sv.compare_flip v w)

  not_gt-le : (v w : Version) → gt_version sv v w ≡ false → le_version sv v w ≡ true
  not_gt-le v w h = ground (arith, h)

  le-not_gt : (v w : Version) → le_version sv v w ≡ true → gt_version sv v w ≡ false
  le-not_gt v w h = ground (arith, h)

  not_lt-le : (v w : Version) → lt_version sv v w ≡ false → le_version sv w v ≡ true
  not_lt-le v w h = ground (arith, h, sv.compare_flip v w)

  le-not_lt : (v w : Version) → le_version sv w v ≡ true → lt_version sv v w ≡ false
  le-not_lt v w h = ground (arith, h, sv.compare_flip v w)

  trans :
      (min : Bool) (x y z : Str × Version)
      → comes_before min y x ≡ false
      → comes_before min z y ≡ false
      → comes_before min z x ≡ false
  trans true (i, u) (j, v) (k, w) p q =
      le-not_gt w u (sv.compare_trans w v u (not_gt-le w v q) (not_gt-le v u p))
  trans false (i, u) (j, v) (k, w) p q =
      le-not_lt w u (sv.compare_trans u v w (not_lt-le v u p) (not_lt-le w v q))

  -- Nothing that stands in front of the last key is behind it in the order.
  last-IsEnd :
      (min : Bool) (k : Str × Version) (ks : List (Str × Version))
      → IsSorted (comes_before min) (k ∷ ks)
      → (l : Str × Version) × (last_key sv (k ∷ ks) ≡ ok l)
        × Memᴰ l (k ∷ ks)
        × ((j : Str × Version) → Memᴰ j (k ∷ ks) → (j ≡ l) ⊎ (comes_before min l j ≡ false))
  unfolding last_key
  last-IsEnd min k [] s = (
    k,
    refl,
    Memᴰ.head refl,
    λ j i. elim (Memᴰ.cases_cons i) [ inl e ↦ inl e | inr n ↦ absurd (Memᴰ.not-nil n) ],
  )
  last-IsEnd min k (m ∷ ks) (below, s) =
      let (l, e, i, h) = last-IsEnd min m ks s in
      (
        l,
        e,
        Memᴰ.tail i,
        λ j n. elim (Memᴰ.cases_cons n) [
          | inl same ↦ inr (ap (comes_before min l) same ∙ below l i)
          | inr o ↦ h j o
        ],
      )

  IsEnd-refl : (min : Bool) (v : Version) → IsEnd sv min v v
  IsEnd-refl true v = ground (arith, sv.compare_flip v v)
  IsEnd-refl false v = ground (arith, sv.compare_flip v v)

  before-IsEnd :
      (min : Bool) (l j : Str × Version)
      → (j ≡ l) ⊎ (comes_before min l j ≡ false)
      → IsEnd sv min l.1 j.1
  before-IsEnd min l j (inl e) =
      subst (λ (x : Str × Version). IsEnd sv min l.1 x.1) (sym e) (IsEnd-refl min l.1)
  before-IsEnd true l j (inr h) = not_gt-le l.1 j.1 h
  before-IsEnd false l j (inr h) = not_lt-le l.1 j.1 h

  found :
      (channels : List ReleaseChannel) (min : Bool) (vers : Map Str Version)
      → find_releases sv channels min ≡ ok vers
      → find_release sv channels min ≡ last_key sv (sort (comes_before min) vers)
  unfolding find_release
  found channels min vers e = rw e refl

  sorted-last :
      (min : Bool) (first : Str × Version) (ks : List (Str × Version))
      → Memᴰ first ks
      → IsSorted (comes_before min) ks
      → (l : Str × Version) × (last_key sv ks ≡ ok l)
        × Memᴰ l ks
        × ((j : Str × Version) → Memᴰ j ks → IsEnd sv min l.1 j.1)
  sorted-last min first [] i s = absurd (Memᴰ.not-nil i)
  sorted-last min first (k ∷ ks) i s =
      let (l, e, m, h) = last-IsEnd min k ks s in (l, e, m, λ j n. before-IsEnd min l j (h j n))

  -- Where `findReleases` gives a map of versions that has an entry, `FindRelease` returns an entry of
  -- it, and no entry has a smaller version (for the minimum) or a larger one (for the maximum).
  pub find_release-IsEnd :
      (channels : List ReleaseChannel) (min : Bool) (vers : Map Str Version) (first : Str × Version)
      → find_releases sv channels min ≡ ok vers
      → Memᴰ first vers
      → (l : Str × Version) × (find_release sv channels min ≡ ok l)
        × Memᴰ l vers
        × ((j : Str × Version) → Memᴰ j vers → IsEnd sv min l.1 j.1)
  find_release-IsEnd channels min vers first e i =
      let ks = sort (comes_before min) vers in
      let (l, el, m, h) =
        sorted-last min first ks ((sort-mem (comes_before min) first vers).1 i)
          (sort-IsSorted (comes_before min) (asym min) (trans min) vers) in
      (
        l,
        found channels min vers e ∙ el,
        (sort-mem (comes_before min) l vers).0 m,
        λ j n. h j ((sort-mem (comes_before min) j vers).1 n),
      )
