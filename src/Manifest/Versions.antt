-- ===== src/Manifest/Versions.antt =====
-- `semverFindMax` and `semverFindRange` (pkg/manifest/oci-manifest.go): the bundles of a channel
-- by the versions in their names, such as `aws-load-balancer-operator.v0.0.1`.

pub mod Select
pub mod Settles
use golang_fb_mirror.Base.{
  ℕ, zero, suc, ◌+◌, Bool, true, false, ◌&&◌, Option, none, some, List, [], ◌∷◌, ◌==◌, List_eq,
  ℕ_eq, if◌then◌else◌, Result, ok, err, panic, ◌>>=◌, index, foreign, bad_bundle_name,
}
use golang_fb_mirror.Base.Text.{Str, codes, split, join, replace_all}
use golang_fb_mirror.Semver.{Semver, gt_version, le_version}
use golang_fb_mirror.Api.{ChannelEntry}

-- `end[0]`
unfoldable pub first_part : List Str → Result Str
unfolding index
first_part parts = index parts 0

module _ (sv : Semver) where
  open sv use {Version, parse, zero_version}

  abbrev pub parsed : Str → Result Version
  parsed s = elim (parse s) [ none ↦ err (foreign 1) | some v ↦ ok v ]

  -- The second, third and fourth of the parts between dots, without the `v`s of the second and
  -- without what follows a dash in the fourth.
  unfoldable pub version_of_parts : List Str → Result Version
  unfolding split join replace_all first_part
  version_of_parts (_ ∷ major ∷ minor ∷ rest ∷ _) = do
    patch ← first_part (split rest (codes "-"))
    parsed (join (replace_all major (codes "v") [] ∷ minor ∷ patch ∷ []) (codes "."))
  version_of_parts _ = err bad_bundle_name

  unfoldable pub entry_version : ChannelEntry → Result Version
  unfolding split version_of_parts
  entry_version s = version_of_parts (split s.name (codes "."))

  -- The loop of `semverFindMax`: `max`, `index` and the position in the list.
  unfoldable pub find_max : Version → ℕ → ℕ → List ChannelEntry → Result ℕ
  unfolding entry_version
  find_max max i id [] = ok i
  find_max max i id (s ∷ entries) = entry_version s >>= λ version.
      elim (gt_version sv version max) [
        | true ↦ find_max version id (suc id) entries
        | false ↦ find_max max i (suc id) entries
      ]

  -- `semverFindMax`
  unfoldable pub semver_find_max : List ChannelEntry → Result Str
  unfolding find_max index
  semver_find_max entries = do i ← find_max zero_version 0 0 entries; e ← index entries i; ok e.name

  -- `if len(s) > 0 { semver.Parse(s) } else { … }`: the error of the second parse is dropped, and
  -- leaves the zero value.
  unfoldable pub bound : Str → Str → Result Version
  bound s default =
      if s == [] then ok (elim (parse default) [ none ↦ zero_version | some v ↦ v ]) else parsed s

  -- The loop of `semverFindRange`.
  unfoldable pub find_range : Version → Version → List ChannelEntry → Result (List Str)
  unfolding entry_version
  find_range min max [] = ok []
  find_range min max (s ∷ entries) = do
    version ← entry_version s
    names ← find_range min max entries
    ok (if le_version sv version max && gt_version sv version min then s.name ∷ names else names)

  -- `semverFindRange`
  unfoldable pub semver_find_range : List ChannelEntry → Str → Str → Result (List Str)
  unfolding bound find_range
  semver_find_range entries min max = do
    min_version ← bound min (codes "0.0.0")
    max_version ← bound max (codes "9.9.9")
    find_range min_version max_version entries
