-- ===== src/Release/Updates.antt =====
-- `GetUpdates` (pkg/release/core-cincinnati.go): the path of updates between two versions.
pub mod Routes
pub mod Path
use golang_fb_mirror.Base.{
  ℕ, zero, suc, Option, none, some, List, [], ◌∷◌, if◌then◌else◌, length, Result, ok, err,
  out_of_fuel, ◌>>=◌, index, version_not_found,
}
use golang_fb_mirror.Base.Text.{Str}
use golang_fb_mirror.Semver.{Semver, eq_version}
use golang_fb_mirror.Release.Graph.{Node, Graph, destinations_of, group_edges, sort_all}
use golang_fb_mirror.Release.Search.{shortest_path}
use golang_fb_mirror.Release.Client
use golang_fb_mirror.Release.Client.{Upstream, M, query_graph, lift}

-- The path, or the news that the model ran out of fuel.
abbrev pub of_option : Option (List ℕ) → Result (List ℕ)
of_option none = out_of_fuel
of_option (some p) = ok p

module _ (sv : Semver) where
  open sv use {Version, to_string}

  -- `for i, node := range graph.Nodes { if version.EQ(node.Version) { …; break } }`
  unfoldable pub find_version : Version → List (Node sv) → Option (ℕ × Node sv)
  find_version v [] = none
  find_version v (n ∷ ns) = elim (find_version v ns) [
    | none ↦ if eq_version sv v n.version then some (0, n) else none
    | some (i, m) ↦ if eq_version sv v n.version then some (0, n) else some (suc i, m)
  ]

  -- `for _, i := range nextIdxs { updates = append(updates, Update(graph.Nodes[i])) }`
  unfoldable pub pick : List (Node sv) → List ℕ → Result (List (Node sv))
  unfolding index
  pick nodes [] = ok []
  pick nodes (i ∷ is) = do n ← index nodes i; ns ← pick nodes is; ok (n ∷ ns)

  -- The shortest path between two nodes of the graph. The search has a round for the start and
  -- one for each edge.
  unfoldable pub path_between : Graph sv → ℕ → ℕ → Result (List (Node sv))
  unfolding group_edges sort_all destinations_of shortest_path pick
  path_between g i j = do
    adjacency ← sort_all sv g.nodes (group_edges [] g.edges)
    is ← of_option (shortest_path (destinations_of adjacency) (suc (length g.edges)) i j)
    pick g.nodes is

  -- What `GetUpdates` does with the graph: the current node, the requested one, and the updates.
  unfoldable pub find_updates :
      Graph sv → Version → Version → Result (Node sv × Node sv × List (Node sv))
  unfolding find_version path_between
  find_updates g version requested = elim (find_version version g.nodes) [
    | none ↦ err version_not_found
    | some (i, current) ↦ elim (find_version requested g.nodes) [
      | none ↦ err version_not_found
      | some (j, target) ↦ do updates ← path_between g i j; ok (current, target, updates)
    ]
  ]

  -- `GetUpdates`
  unfoldable pub get_updates :
      Upstream sv → Str → Str → Version → Version → M (Node sv × Node sv × List (Node sv))
  unfolding query_graph find_updates
  get_updates up arch channel version requested c =
      let (g, c') = query_graph sv up arch channel (to_string version) c in
      Client.continue g (λ g'. lift (find_updates g' version requested)) c'
