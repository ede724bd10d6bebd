-- ===== src/Release/Search/Trace.antt =====
-- What the map `prev` of the search holds: a tree of parents, and the route from each node back
-- to the start.
use mathlib.Core.List.{Memᴰ, reverse, reverse-cons, append_assoc}
use golang_fb_mirror.Base.{
  ℕ, zero, suc, ◌≤◌, ◌<◌, ◌≡◌, ◌≢◌, refl, ap, ◌∙◌, true, false, Option, none, some, List, [], ◌∷◌,
  ◌++◌, ◌==◌, ℕ_eq, if◌then◌else◌, length, arith, nat_eq_iff, Bool-cases, Option-cases, inl, inr,
}
use golang_fb_mirror.Base.Maps.{lookup, has, has-cons}
use golang_fb_mirror.Release.Search.{Prev, read_prev, walk_back}

-- The nodes from `v` back to the start, read off the map.
pub trace : Prev → ℕ → List ℕ
trace [] v = []
trace ((k, none) ∷ m) v = if k == v then v ∷ [] else trace m v
trace ((k, some u) ∷ m) v = if k == v then v ∷ trace m u else trace m v

-- How many nodes there are on the way from the start to `v`.
abbrev pub level : Prev → ℕ → ℕ
level m v = length (trace m v)

-- A route along the edges of `g`: its nodes from the start to the end.
pub data Route (g : ℕ → List ℕ) (start : ℕ) : ℕ → List ℕ → Type 0 where
  here : Route g start start (start ∷ [])
  step :
      {u w : ℕ} {p q : List ℕ}
      → Route g start u p
      → Memᴰ w (g u)
      → q ≡ p ++ w ∷ []
      → Route g start w q

-- The map as the search builds it: the start first, then each new node with a known parent.
pub data Built (g : ℕ → List ℕ) (start : ℕ) : Prev → Type 0 where
  root : Built g start ((start, none) ∷ [])
  grow :
      {m : Prev} (v u : ℕ)
      → Built g start m
      → has v m ≡ false
      → has u m ≡ true
      → Memᴰ v (g u)
      → Built g start ((v, some u) ∷ m)

-- An entry of another key does not change the way back.
pub trace-grow :
    (v x u : ℕ) (m : Prev)
    → has v m ≡ false
    → has x m ≡ true
    → trace ((v, some u) ∷ m) x ≡ trace m x
unfolding trace
trace-grow v x u m h k =
    let differ : v ≢ x = λ e. cc (ap (λ (y : ℕ). has y m) e) in
    ground (arith, nat_eq_iff v x, differ)

pub trace-new : (v u : ℕ) (m : Prev) → trace ((v, some u) ∷ m) v ≡ v ∷ trace m u
unfolding trace
trace-new v u m = ground (arith, nat_eq_iff v v)

-- The map that the search starts from.
abbrev pub root_map : ℕ → Prev
root_map start = (start, none) ∷ []

trace-root : (start v : ℕ) → trace (root_map start) v ≡ (if start == v then v ∷ [] else [])
unfolding trace
trace-root start v = refl

pub has-root : (start v : ℕ) → has v (root_map start) ≡ true → start ≡ v
unfolding has lookup
has-root start v h = ground (arith, nat_eq_iff start v)

read_prev-root : (start v : ℕ) → has v (root_map start) ≡ true → read_prev (root_map start) v ≡ none
unfolding read_prev has lookup
read_prev-root start v h = ground arith

read_prev-grow :
    (x v u : ℕ) (m : Prev)
    → read_prev ((x, some u) ∷ m) v ≡ (if x == v then some u else read_prev m v)
unfolding read_prev lookup
read_prev-grow x v u m = ground arith

pub level-le : (m : Prev) (v : ℕ) → level m v ≤ length m
unfolding trace
level-le [] v = omega arith
level-le ((k, none) ∷ m) v = ground (arith, level-le m v)
level-le ((k, some u) ∷ m) v = ground (arith, level-le m v, level-le m u)

walk_back-none : (fuel : ℕ) (m : Prev) (path : List ℕ) → walk_back fuel m path none ≡ some path
unfolding walk_back
walk_back-none zero m path = refl
walk_back-none (suc fuel) m path = refl

walk_back-some :
    (fuel : ℕ) (m : Prev) (path : List ℕ) (v : ℕ)
    → walk_back (suc fuel) m path (some v) ≡ walk_back fuel m (path ++ v ∷ []) (read_prev m v)
unfolding walk_back
walk_back-some fuel m path v = refl

module _ {g : ℕ → List ℕ} {start : ℕ} where
  -- The start is visited, at level one.
  pub start-At : {m : Prev} → Built g start m → (has start m ≡ true) × (trace m start ≡ start ∷ [])
  start-At root = (
    ground (arith, has-cons {V = Option ℕ} start start none [], nat_eq_iff start start),
    ground (arith, trace-root start start, nat_eq_iff start start),
  )
  start-At (grow {m} x u b fresh known edge) =
      let (there, way) = start-At b in
      (ground (arith, has-cons x start (some u) m), trace-grow x start u m fresh there ∙ way)

  -- The way back from a visited node is a route of the graph, read backwards.
  pub trace-Route :
      {m : Prev} (v : ℕ) → Built g start m → has v m ≡ true → Route g start v (reverse (trace m v))
  trace-Route v root h =
      let same = has-root start v h in
      let t : trace (root_map start) v ≡ v ∷ [] =
        ground (arith, trace-root start v, nat_eq_iff start v) in
      rw (t, ← same) here
  trace-Route v (grow {m} x u b fresh known edge) h = elim (Bool-cases (x == v)) [
    | inl e ↦
        let same : x ≡ v = (nat_eq_iff x v).0 e in
        rw (← same, trace-new x u m)
          (step (trace-Route u b known) edge (reverse-cons x (trace m u)))
    | inr e ↦
        let old : has v m ≡ true = ground (arith, has-cons x v (some u) m) in
        rw (trace-grow x v u m fresh old) (trace-Route v b old)
  ]

  -- A parent is visited.
  pub read_prev-has :
      {m : Prev} (v u : ℕ)
      → Built g start m
      → has v m ≡ true
      → read_prev m v ≡ some u
      → has u m ≡ true
  read_prev-has v u root h e = cc (read_prev-root start v h)
  read_prev-has v u (grow {m} x w b fresh known edge) h e = ground (
    arith,
    read_prev-grow x v w m,
    has-cons x u (some w) m,
    has-cons x v (some w) m,
    nat_eq_iff x u,
    read_prev-has v u b,
  )

  -- One round of the loop that walks back, at the start and at another node.
  pub trace-end :
      {m : Prev} (v : ℕ)
      → Built g start m
      → has v m ≡ true
      → read_prev m v ≡ none
      → trace m v ≡ v ∷ []
  trace-end v root h e = ground (arith, trace-root start v, has-root start v h, nat_eq_iff start v)
  trace-end v (grow {m} x w b fresh known edge) h e = ground (
    arith,
    read_prev-grow x v w m,
    has-cons x v (some w) m,
    trace-grow x v w m fresh,
    trace-end v b,
  )

  pub trace-parent :
      {m : Prev} (v u : ℕ)
      → Built g start m
      → has v m ≡ true
      → read_prev m v ≡ some u
      → trace m v ≡ v ∷ trace m u
  trace-parent v u root h e = cc (read_prev-root start v h)
  trace-parent v u (grow {m} x w b fresh known edge) h e = ground (
    arith,
    read_prev-grow x v w m,
    has-cons x v (some w) m,
    trace-grow x v w m fresh,
    trace-grow x u w m fresh,
    trace-new x w m,
    nat_eq_iff x v,
    trace-parent v u b,
    read_prev-has v u b,
  )

  trace-pos : {m : Prev} (v : ℕ) → Built g start m → has v m ≡ true → 0 < level m v
  trace-pos {m} v b h = elim (Option-cases (read_prev m v)) [
    | inl e ↦ omega (arith, ap (length {A = ℕ}) (trace-end v b h e))
    | inr (u, e) ↦ omega (arith, ap (length {A = ℕ}) (trace-parent v u b h e))
  ]

  -- The loop that walks back returns the trace behind the path that it was given.
  pub walk_back-trace :
      {m : Prev} (fuel : ℕ) (path : List ℕ) (v : ℕ)
      → Built g start m
      → has v m ≡ true
      → level m v ≤ fuel
      → walk_back fuel m path (some v) ≡ some (path ++ trace m v)
  walk_back-trace zero path v b h le = absurd (omega (arith, trace-pos v b h))
  walk_back-trace {m} (suc fuel) path v b h le = elim (Option-cases (read_prev m v)) [
    | inl e ↦ rw (walk_back-some, e, walk_back-none, trace-end v b h e) refl
    | inr (u, e) ↦
        let whole = trace-parent v u b h e in
        let rest =
          walk_back-trace fuel (path ++ v ∷ []) u b (read_prev-has v u b h e)
            (omega (arith, ap (length {A = ℕ}) whole)) in
        rw (walk_back-some, e, whole, rest) (ap some (append_assoc path (v ∷ []) (trace m u)))
  ]

  -- The loop as the program starts it, with the end on the path already.
  pub walk_back_lem :
      {m : Prev} (v : ℕ)
      → Built g start m
      → has v m ≡ true
      → walk_back (length m) m (v ∷ []) (read_prev m v) ≡ some (trace m v)
  walk_back_lem {m} v b h = elim (Option-cases (read_prev m v)) [
    | inl e ↦ rw (e, walk_back-none, trace-end v b h e) refl
    | inr (u, e) ↦
        rw (e, trace-parent v u b h e)
          (walk_back-trace (length m) (v ∷ []) u b (read_prev-has v u b h e) (level-le m u))
  ]
