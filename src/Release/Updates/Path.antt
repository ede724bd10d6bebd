-- ===== src/Release/Updates/Path.antt =====
-- `GetUpdates` returns a shortest path of updates along the edges of the graph.
use mathlib.Core.Option
use golang_fb_mirror.Base.{
  ℕ, zero, suc, ◌<◌, ◌≡◌, inl, inr, ⊎_elim, refl, List, [], ◌∷◌, map, length, All, Bool-cases,
  Option-cases, if◌then◌else◌, length-map, ok, some, true, false, arith, index,
}
use golang_fb_mirror.Base.Maps.{Map}
use golang_fb_mirror.Semver.{Semver, eq_version}
use golang_fb_mirror.Release.Graph.{Node, Graph, destinations_of, group_edges, sort_all}
use golang_fb_mirror.Release.Graph.Adjacency.{
  successors, mem-adjacency, adjacency_returns, mem-successors,
}
use golang_fb_mirror.Release.Search.{shortest_path}
use golang_fb_mirror.Release.Search.Shortest.{IsShortest, shortest_path-IsShortest}
use golang_fb_mirror.Release.Updates.{path_between, pick, find_updates, find_version}
use golang_fb_mirror.Release.Updates.Routes.{
  IsShortest-mono, Route-InRange, Picked, index_returns, index-lt,
}

module _ (sv : Semver) where
  open sv use {Version}

  pick_returns :
      (nodes : List (Node sv)) (is : List ℕ)
      → All (λ x. x < length nodes) is
      → (us : List (Node sv)) × (pick sv nodes is ≡ ok us) × Picked nodes is us
  unfolding pick
  pick_returns nodes [] h = ([], refl, tt)
  pick_returns nodes (i ∷ is) h =
      let (u, e) = index_returns nodes i h.0 in
      let (us, e', p) = pick_returns nodes is h.1 in (u ∷ us, rw (e, e') refl, (e, p))

  -- The first node with the version.
  pub IsFirst : Version → List (Node sv) → ℕ → Node sv → Type 0
  IsFirst v nodes i n =
      (index nodes i ≡ ok n)
      × (eq_version sv v n.version ≡ true)
      × ((k : ℕ) (m : Node sv) → k < i → index nodes k ≡ ok m → eq_version sv v m.version ≡ false)

  first-lt :
      (v : Version) (nodes : List (Node sv)) (i : ℕ) (n : Node sv)
      → IsFirst v nodes i n
      → i < length nodes
  unfolding IsFirst
  first-lt v nodes i n f = index-lt nodes i f.0

  IsFirst-head :
      (v : Version) (n : Node sv) (ns : List (Node sv))
      → eq_version sv v n.version ≡ true
      → IsFirst v (n ∷ ns) 0 n
  unfolding IsFirst index
  IsFirst-head v n ns e = (refl, e, λ k m lt. absurd (omega arith))

  IsFirst-cons :
      (v : Version) (m n : Node sv) (ns : List (Node sv)) (i : ℕ)
      → eq_version sv v m.version ≡ false
      → IsFirst v ns i n
      → IsFirst v (m ∷ ns) (suc i) n
  unfolding IsFirst index
  IsFirst-cons v m n ns i e (at, same, before) = (at, same, earlier)
    where
      earlier :
          (k : ℕ) (l : Node sv)
          → k < suc i
          → index (m ∷ ns) k ≡ ok l
          → eq_version sv v l.version ≡ false
      earlier zero l lt h = let same_node : m ≡ l = ground arith in rw (← same_node) e
      earlier (suc k) l lt h = before k l (omega arith) h

  find_version-cons :
      (v : Version) (m : Node sv) (ns : List (Node sv))
      → find_version sv v (m ∷ ns) ≡ (
          if eq_version sv v m.version
          then some (0, m)
          else Option.map (λ f. (suc f.0, f.1)) (find_version sv v ns))
  unfolding find_version
  find_version-cons v m ns = ground arith

  pub find_version-IsFirst :
      (v : Version) (nodes : List (Node sv)) (i : ℕ) (n : Node sv)
      → find_version sv v nodes ≡ some (i, n)
      → IsFirst v nodes i n
  find_version-IsFirst v [] i n h = (unfold find_version in ground arith)
  find_version-IsFirst v (m ∷ ns) i n h = elim (Bool-cases (eq_version sv v m.version)) [
    | inl same ↦
        let q = rw (find_version-cons v m ns, same) at h in
        let zeroth : 0 ≡ i = ground arith in
        let node : m ≡ n = ground arith in rw (← zeroth, ← node) (IsFirst-head v m ns same)
    | inr other ↦
        let q = rw (find_version-cons v m ns, other) at h in
        elim (Option-cases (find_version sv v ns)) [
          | inl missing ↦ let r = rw missing at q in ground arith
          | inr ((k, l), found) ↦
              let r = rw found at q in
              let position : suc k ≡ i = ground arith in
              let node : l ≡ n = ground arith in
              rw (← position, ← node)
                (IsFirst-cons v m l ns k other (find_version-IsFirst v ns k l found))
        ]
  ]

  path_between-eq-ok :
      (g : Graph sv) (i j : ℕ) (t : Map ℕ (List ℕ)) (p : List ℕ) (us : List (Node sv))
      → sort_all sv g.nodes (group_edges [] g.edges) ≡ ok t
      → shortest_path (destinations_of t) (suc (length g.edges)) i j ≡ some p
      → pick sv g.nodes p ≡ ok us
      → path_between sv g i j ≡ ok us
  unfolding path_between
  path_between-eq-ok g i j t p us e e' e'' = rw (e, e', e'') refl

  path_between_returns :
      (g : Graph sv) (i j : ℕ)
      → i < length g.nodes
      → All (λ e. e.destination < length g.nodes) g.edges
      → (p : List ℕ) × (us : List (Node sv)) × (path_between sv g i j ≡ ok us)
        × IsShortest (successors g.edges) i j p
        × Picked g.nodes p us
  path_between_returns g i j lt range =
      let (t, e) = adjacency_returns sv g.nodes g.edges range in
      let same = λ (u v : ℕ). mem-adjacency sv g.nodes g.edges t u v e in
      let (p, e', s) =
        shortest_path-IsShortest (destinations_of t) (map (λ e. e.destination) g.edges)
          (suc (length g.edges)) i j (λ u v m. mem-successors g.edges u v ((same u v).0 m))
          (omega (arith, length-map g.edges (λ e. e.destination))) in
      let s' = IsShortest-mono (destinations_of t) (successors g.edges) same i j p s in
      let (us, e'', picked) = pick_returns g.nodes p (in_range p s') in
      (p, us, path_between-eq-ok g i j t p us e e' e'', s', picked)
    where
      in_range :
          (p : List ℕ) → IsShortest (successors g.edges) i j p → All (λ x. x < length g.nodes) p
      in_range p =
          ⊎_elim (λ (none_left, _). rw none_left tt)
            (λ (route, _). Route-InRange g.edges (length g.nodes) lt range route)

  find_updates-eq-ok :
      (g : Graph sv) (version requested : Version) (i j : ℕ) (current target : Node sv)
      (us : List (Node sv))
      → find_version sv version g.nodes ≡ some (i, current)
      → find_version sv requested g.nodes ≡ some (j, target)
      → path_between sv g i j ≡ ok us
      → find_updates sv g version requested ≡ ok (current, target, us)
  unfolding find_updates
  find_updates-eq-ok g version requested i j current target us ei ej e = ground arith

  -- In a graph whose edges lead to nodes of the graph, from a version that the graph has to
  -- another: `GetUpdates` finds the first node of each version, and returns them with the nodes of
  -- a shortest path along the edges from the one to the other (none if no path leads there).
  pub find_updates-IsShortest :
      (g : Graph sv) (version requested : Version) (i j : ℕ) (current target : Node sv)
      → find_version sv version g.nodes ≡ some (i, current)
      → find_version sv requested g.nodes ≡ some (j, target)
      → All (λ e. e.destination < length g.nodes) g.edges
      → IsFirst version g.nodes i current
        × IsFirst requested g.nodes j target
        × ((p : List ℕ) × (us : List (Node sv)) × (find_updates sv g version requested
              ≡ ok (current, target, us))
            × IsShortest (successors g.edges) i j p
            × Picked g.nodes p us)
  find_updates-IsShortest g version requested i j current target ei ej range =
      let first = find_version-IsFirst version g.nodes i current ei in
      let (p, us, e, s, picked) =
        path_between_returns g i j (first-lt version g.nodes i current first) range in
      (
        first,
        find_version-IsFirst requested g.nodes j target ej,
        (p, us, find_updates-eq-ok g version requested i j current target us ei ej e, s, picked),
      )
