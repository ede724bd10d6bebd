-- ===== src/Release/Channels.antt =====
-- What a channel holds (pkg/release/core-cincinnati.go): its versions, the smallest and the
-- largest of them, the updates in a range, and the channels that its nodes name.
pub mod Bounds
pub mod Blocked
use golang_fb_mirror.Base.{
  ℕ, Bool, true, false, not, Option, none, some, List, [], ◌∷◌, ◌++◌, map, ◌==◌, List_eq, ℕ_eq,
  if◌then◌else◌, Result, ok, err, no_versions_found, invalid_version_filter,
}
use golang_fb_mirror.Base.Text.{Str, codes, split}
use golang_fb_mirror.Base.Maps.{Map, lookup}
use golang_fb_mirror.Semver.{Semver, eq_version}
use golang_fb_mirror.Release.Graph.{Node, Graph}
use golang_fb_mirror.Release.Client
use golang_fb_mirror.Release.Client.{Upstream, M, ◌>>=◌, query_graph, lift}

-- The environment variable VERSION_FILTER and the regular expressions of the package `regexp`.
pub record VersionFilter : Type 1 where
  pub Regexp : Type 0
  pub filter : Str
  pub compile : Str → Option Regexp
  pub match_string : Regexp → Str → Bool

-- `channels[value] = struct{}{}`
unfoldable pub add_key : List Str → Str → List Str
add_key [] k = k ∷ []
add_key (x ∷ xs) k = if x == k then x ∷ xs else x ∷ add_key xs k

unfoldable pub add_keys : List Str → List Str → List Str
unfolding add_key
add_keys keys [] = keys
add_keys keys (v ∷ vs) = add_keys (add_key keys v) vs

module _ (sv : Semver) where
  open sv use {Version, to_string, sort}

  abbrev pub versions_of : List (Node sv) → List Version
  versions_of ns = map (λ (n : Node sv). n.version) ns

  -- The versions that the filter lets through; without a filter all of them.
  unfoldable pub matching : (vf : VersionFilter) → Option vf.Regexp → List (Node sv) → List Version
  matching vf none ns = versions_of ns
  matching vf (some r) [] = []
  matching vf (some r) (n ∷ ns) =
      let rest = matching vf (some r) ns in
      if vf.match_string r (to_string n.version) then n.version ∷ rest else rest

  -- `Vers[len(Vers)-1]`, where the first is given
  unfoldable pub last_of : Version → List Version → Version
  last_of v [] = v
  last_of v (w ∷ vs) = last_of w vs

  -- `Vers[0]` or `Vers[len(Vers)-1]` of the sorted versions
  unfoldable pub end_of : Bool → List Version → Result Version
  unfolding last_of
  end_of min [] = err no_versions_found
  end_of true (v ∷ vs) = ok v
  end_of false (v ∷ vs) = ok (last_of v vs)

  -- What `GetChannelMinOrMax` does with the graph.
  unfoldable pub min_or_max : VersionFilter → Graph sv → Bool → Result Version
  unfolding matching end_of
  min_or_max vf g min =
      if vf.filter == []
      then end_of min (sort (matching vf none g.nodes))
      else elim (vf.compile vf.filter) [
        | none ↦ err invalid_version_filter
        | some r ↦ end_of min (sort (matching vf (some r) g.nodes))
      ]

  -- `GetVersions` without its query
  unfoldable pub versions_in : Graph sv → Result (List Version)
  versions_in g = elim g.nodes [
    | [] ↦ err no_versions_found
    | _ ∷ _ ↦ ok (sort (versions_of g.nodes))
  ]

  unfoldable pub in_range : (Version → Bool) → List (Node sv) → List (Node sv)
  in_range range [] = []
  in_range range (n ∷ ns) =
      let rest = in_range range ns in if range n.version then n ∷ rest else rest

  -- A missing key reads as the empty string.
  abbrev pub channels_text : Map Str Str → Str
  channels_text m = elim (lookup (codes "io.openshift.upgrades.graph.release.channels") m) [
    | none ↦ []
    | some t ↦ t
  ]

  -- The values of `node.Metadata["io.openshift.upgrades.graph.release.channels"]`, as the keys of
  -- a map.
  unfoldable pub channels_in : List Str → List (Node sv) → List Str
  unfolding add_keys split lookup
  channels_in keys [] = keys
  channels_in keys (n ∷ ns) =
      channels_in (add_keys keys (split (channels_text n.metadata) (codes ","))) ns

  -- The loop of `handleBlockedEdges`.
  unfoldable pub is_blocked : Version → List Version → Bool
  is_blocked start [] = true
  is_blocked start (v ∷ vs) =
      let rest = is_blocked start vs in if eq_version sv v start then false else rest

  module _ (up : Upstream sv) where
    -- `GetChannelMinOrMax`
    unfoldable pub get_channel_min_or_max : VersionFilter → Str → Str → Bool → M Version
    unfolding query_graph min_or_max
    get_channel_min_or_max vf arch channel min =
        query_graph sv up arch channel [] >>= λ g. lift (min_or_max vf g min)

    -- `GetVersions`
    unfoldable pub get_versions : Str → Str → M (List Version)
    unfolding query_graph versions_in
    get_versions arch channel = query_graph sv up arch channel [] >>= λ g. lift (versions_in g)

    -- `GetUpdatesInRange`
    unfoldable pub get_updates_in_range : Str → Str → (Version → Bool) → M (List (Node sv))
    unfolding query_graph in_range
    get_updates_in_range channel arch range =
        query_graph sv up arch channel [] >>= λ g. lift (ok (in_range range g.nodes))

    -- `GetChannels`
    unfoldable pub get_channels : Str → M (List Str)
    unfolding query_graph channels_in
    get_channels channel =
        query_graph sv up [] channel [] >>= λ g. lift (ok (channels_in [] g.nodes))

    -- `handleBlockedEdges`
    unfoldable pub handle_blocked_edges : Str → Str → Version → M Bool
    unfolding get_versions is_blocked
    handle_blocked_edges arch channel start =
        get_versions arch channel >>= λ vs. lift (ok (is_blocked start vs))
