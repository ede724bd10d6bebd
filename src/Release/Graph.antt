-- ===== src/Release/Graph.antt =====
-- The update graph (pkg/release/core-cincinnati.go): `graph`, `node`, `edge`, and the edges of a
-- graph grouped by their origin. An index is a natural number; a negative one, which the JSON
-- allows, is not modelled.
pub mod Adjacency
use golang_fb_mirror.Base.{
  ℕ, ◌<◌, ◌≡◌, Bool, true, false, Option, none, some, List, [], ◌∷◌, ◌++◌, ◌&&◌, ◌==◌, ℕ_eq,
  if◌then◌else◌, length, ltb, All, Result, ok, err, panic, ◌>>=◌, index, Error, bad_edge,
}
use golang_fb_mirror.Base.Text.{Str}
use golang_fb_mirror.Base.Maps.{Map, lookup, put}
use golang_fb_mirror.Base.Sort.{sort}
use golang_fb_mirror.Semver.{Semver, gt_version}

pub record Edge : Type 0 where
  pub origin : ℕ
  pub destination : ℕ

-- `edge.UnmarshalJSON`, once the JSON array has been read
unfoldable pub edge_of_fields : List ℕ → Result Edge
edge_of_fields (o ∷ d ∷ []) = ok (record { origin = o; destination = d })
edge_of_fields _ = err bad_edge

-- `edgesByOrigin[edge.Origin] = append(edgesByOrigin[edge.Origin], edge.Destination)`
unfoldable pub destinations_of : Map ℕ (List ℕ) → ℕ → List ℕ
unfolding lookup
destinations_of m n = elim (lookup n m) [ none ↦ [] | some ds ↦ ds ]

unfoldable pub group_edges : Map ℕ (List ℕ) → List Edge → Map ℕ (List ℕ)
unfolding destinations_of put
group_edges m [] = m
group_edges m (e ∷ es) =
    group_edges (put e.origin (destinations_of m e.origin ++ e.destination ∷ []) m) es

unfoldable pub all_below : ℕ → List ℕ → Bool
all_below n [] = true
all_below n (d ∷ ds) = ltb d n && all_below n ds

module _ (sv : Semver) where
  open sv use {Version}

  pub record Node : Type 0 where
    pub version : Version
    pub image : Str
    pub metadata : Map Str Str

  pub record Graph : Type 0 where
    pub nodes : List Node
    pub edges : List Edge

  -- `type Update node`; the zero value of an update has the empty image.
  abbrev pub Update : Type 0
  Update = Node

  -- `graph.Nodes[i].Version.GT(graph.Nodes[j].Version)`; the indices are checked before the sort
  unfoldable pub newer : List Node → ℕ → ℕ → Bool
  unfolding index
  newer nodes i j = elim (index nodes i) [
    | ok a ↦ elim (index nodes j) [ ok b ↦ gt_version sv a.version b.version | _ ↦ false ]
    | _ ↦ false
  ]

  -- `sort.Slice(destinations, …)`: with two elements or more every index is read.
  unfoldable pub sort_destinations : List Node → List ℕ → Result (List ℕ)
  unfolding sort newer all_below
  sort_destinations nodes [] = ok []
  sort_destinations nodes (d ∷ []) = ok (d ∷ [])
  sort_destinations nodes (d ∷ e ∷ ds) =
      if all_below (length nodes) (d ∷ e ∷ ds) then ok (sort (newer nodes) (d ∷ e ∷ ds)) else panic

  -- The loop over `edgesByOrigin`.
  unfoldable pub sort_all : List Node → Map ℕ (List ℕ) → Result (Map ℕ (List ℕ))
  unfolding sort_destinations
  sort_all nodes [] = ok []
  sort_all nodes ((origin, ds) ∷ m) = do
    sorted ← sort_destinations nodes ds
    rest ← sort_all nodes m
    ok ((origin, sorted) ∷ rest)
