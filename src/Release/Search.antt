-- ===== src/Release/Search.antt =====
-- The breadth-first search `shortestPath` inside `GetUpdates` (pkg/release/core-cincinnati.go).
-- A node is an index into the graph's nodes. The sentinel -1 of the map `prev` is `none`.
pub mod Trace
pub mod Front
pub mod Ends
pub mod Final
pub mod Shortest
use mathlib.Core.List.{reverse}
use mathlib.Core.Option
use golang_fb_mirror.Base.{
  ℕ, zero, suc, ◌≡◌, refl, true, false, Option, none, some, List, [], ◌∷◌, ◌++◌, ◌==◌, ℕ_eq,
  if◌then◌else◌, length,
}
use golang_fb_mirror.Base.Maps.{Map, lookup, insert, has}

abbrev pub Prev : Type 0
Prev = Map ℕ (Option ℕ)

pub record Search : Type 0 where
  pub prev : Prev
  pub visited : Map ℕ (Unit {0})
  pub queue : List ℕ

-- The body of the loop over `g[node]`.
unfoldable pub offer : ℕ → Search → ℕ → Search
unfolding has lookup insert
offer node s neighbor = if has neighbor s.visited then s else record {
  prev = insert neighbor (some node) s.prev;
  visited = insert neighbor tt s.visited;
  queue = s.queue ++ neighbor ∷ [];
}

unfoldable pub offer_all : ℕ → Search → List ℕ → Search
unfolding offer
offer_all node s [] = s
offer_all node s (n ∷ ns) = offer_all node (offer node s n) ns

-- `prev[k]`; a key that is not there reads as Go's zero value.
unfoldable pub read_prev : Prev → ℕ → Option ℕ
unfolding lookup
read_prev m k = elim (lookup k m) [ none ↦ some 0 | some p ↦ p ]

-- The loop that follows `prev` back to the sentinel and appends each node to `path`.
unfoldable pub walk_back : ℕ → Prev → List ℕ → Option ℕ → Option (List ℕ)
unfolding read_prev
walk_back fuel m path none = some path
walk_back zero m path (some v) = none
walk_back (suc fuel) m path (some v) = walk_back fuel m (path ++ v ∷ []) (read_prev m v)

abbrev pub initial : ℕ → Search
initial start = record { prev = (start, none) ∷ []; visited = (start, tt) ∷ []; queue = start ∷ [] }

module _ (g : ℕ → List ℕ) where
  -- `for len(queue) > 0 { … }`; `none` means that the fuel ran out.
  unfoldable pub search_from : ℕ → ℕ → Search → Option Search
  unfolding offer_all
  search_from zero end s = elim s.queue [ [] ↦ some s | _ ∷ _ ↦ none ]
  search_from (suc fuel) end s = elim s.queue [
    | [] ↦ some s
    | node ∷ rest ↦ elim (node == end) [
      | true ↦ some (record s { queue = rest })
      | false ↦ search_from fuel end (offer_all node (record s { queue = rest }) (g node))
    ]
  ]

-- The path of `prev` from the start to `end`, or the empty path if `end` was not visited.
unfoldable pub rebuild : ℕ → Search → Option (List ℕ)
unfolding has walk_back
rebuild end t =
    if has end t.visited
    then Option.map reverse (walk_back (length t.prev) t.prev (end ∷ []) (read_prev t.prev end))
    else some []

-- `shortestPath(g, start, end)`, where the search takes `fuel` rounds at most.
unfoldable pub shortest_path : (ℕ → List ℕ) → ℕ → ℕ → ℕ → Option (List ℕ)
unfolding search_from rebuild Option.bind
shortest_path g fuel start end = Option.bind (search_from g fuel end (initial start)) (rebuild end)
