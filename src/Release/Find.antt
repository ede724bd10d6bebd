-- ===== src/Release/Find.antt =====
-- The channel with the smallest or largest bound (pkg/release/find.go).
pub mod Extreme
use golang_fb_mirror.Base.{
  Bool, none, some, List, [], ◌∷◌, if◌then◌else◌, List_eq, ℕ_eq, Result, ok, err, ◌>>=◌, panic,
  foreign, no_previous_release,
}
use golang_fb_mirror.Base.Text.{Str}
use golang_fb_mirror.Base.Maps.{Map, put}
use golang_fb_mirror.Base.Sort.{sort}
use golang_fb_mirror.Semver.{Semver, gt_version, lt_version}
use golang_fb_mirror.Api.{ReleaseChannel}

module _ (sv : Semver) where
  open sv use {Version, parse}

  abbrev pub parse_version : Str → Result Version
  parse_version s = elim (parse s) [ none ↦ err (foreign 4) | some v ↦ ok v ]

  -- The loop of `findReleases`.
  unfoldable pub collect_versions :
      Bool → Map Str Version → List ReleaseChannel → Result (Map Str Version)
  unfolding put
  collect_versions min vers [] = ok vers
  collect_versions min vers (ch ∷ channels) =
      parse_version (if min then ch.min_version else ch.max_version) >>= λ v.
      collect_versions min (put ch.name v vers) channels

  -- `findReleases`
  unfoldable pub find_releases : List ReleaseChannel → Bool → Result (Map Str Version)
  unfolding collect_versions
  find_releases [] min = err no_previous_release
  find_releases (ch ∷ channels) min = collect_versions min [] (ch ∷ channels)

  -- `keys[len(keys)-1]`
  unfoldable pub last_key : List (Str × Version) → Result (Str × Version)
  last_key [] = panic
  last_key (k ∷ []) = ok k
  last_key (k ∷ j ∷ ks) = last_key (j ∷ ks)

  -- `FindRelease`: the keys are sorted with their versions. Go visits the keys of a map in any
  -- order; here they come as they were put, which matters where two versions are equal only.
  unfoldable pub find_release : List ReleaseChannel → Bool → Result (Str × Version)
  unfolding find_releases sort last_key
  find_release channels min = find_releases channels min >>= λ vers. last_key (
      sort (λ (a b : Str × Version). if min then gt_version sv a.1 b.1 else lt_version sv a.1 b.1)
        vers)
