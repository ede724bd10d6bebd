-- ===== src/Release/Graph/Adjacency.antt =====
-- Grouping and sorting the edges changes no adjacency: the destinations recorded for an origin are
-- those of its edges.
use mathlib.Core.List.{Memᴰ, append_assoc, append-nil}
use mathlib.Core.List.Memᴰ
use golang_fb_mirror.Base.{
  ℕ, ◌<◌, ◌≡◌, ◌↔◌, inl, inr, ⊎_elim, refl, ap, sym, ◌∙◌, subst, Bool, true, List, [], ◌∷◌, ◌++◌,
  map, ◌==◌, ℕ_eq, if◌then◌else◌, length, All, ok, panic, ◌>>=◌, arith, Bool-cases, nat_eq_iff,
  Memᴰ-cons, bind-eq-ok,
}
use golang_fb_mirror.Base.Maps.{Map, lookup, put, lookup-put}
use golang_fb_mirror.Base.Sort.{sort, insert_sorted}
use golang_fb_mirror.Semver.{Semver}
use golang_fb_mirror.Release.Graph.{
  Edge, Node, destinations_of, group_edges, all_below, sort_destinations, sort_all, newer,
}

-- The destinations of the edges from `n`, in their order.
pub successors : List Edge → ℕ → List ℕ
successors [] n = []
successors (e ∷ es) n =
    let rest = successors es n in if e.origin == n then e.destination ∷ rest else rest

successors-cons :
    (e : Edge) (es : List Edge) (n : ℕ)
    → successors (e ∷ es) n
      ≡ (if e.origin == n then e.destination ∷ successors es n else successors es n)
unfolding successors
successors-cons e es n = refl

destinations_of-put :
    (m : Map ℕ (List ℕ)) (k n : ℕ) (ds : List ℕ)
    → destinations_of (put k ds m) n ≡ (if k == n then ds else destinations_of m n)
unfolding destinations_of
destinations_of-put m k n ds = ground (arith, lookup-put k n ds m)

group_edges-cons :
    (m : Map ℕ (List ℕ)) (e : Edge) (es : List Edge)
    → group_edges m (e ∷ es)
      ≡ group_edges (put e.origin (destinations_of m e.origin ++ e.destination ∷ []) m) es
unfolding group_edges
group_edges-cons m e es = refl

group_edges-eq-append :
    (m : Map ℕ (List ℕ)) (es : List Edge) (n : ℕ)
    → destinations_of (group_edges m es) n ≡ destinations_of m n ++ successors es n
group_edges-eq-append m [] n =
    (unfold group_edges successors in sym (append-nil (destinations_of m n)))
group_edges-eq-append m (e ∷ es) n =
    let grown = destinations_of m e.origin ++ e.destination ∷ [] in
    ground (
      arith,
      group_edges-cons m e es,
      group_edges-eq-append (put e.origin grown m) es n,
      destinations_of-put m e.origin n grown,
      nat_eq_iff e.origin n,
      successors-cons e es n,
      append_assoc (destinations_of m n) (e.destination ∷ []) (successors es n),
    )

mem-insert_sorted {ℓ} :
    {A : Type ℓ} (before : A → A → Bool) (x a : A) (xs : List A)
    → Memᴰ x (insert_sorted before a xs) ↔ Memᴰ x (a ∷ xs)
unfolding insert_sorted
mem-insert_sorted before x a [] = (λ i. i, λ i. i)
mem-insert_sorted before x a (y ∷ ys) = ground (
  arith,
  Memᴰ-cons x a (y ∷ ys),
  Memᴰ-cons x y ys,
  Memᴰ-cons x a ys,
  mem-insert_sorted before x a ys,
  Memᴰ-cons x y (insert_sorted before a ys),
)

mem-sort {ℓ} :
    {A : Type ℓ} (before : A → A → Bool) (x : A) (xs : List A) → Memᴰ x (sort before xs) ↔ Memᴰ x xs
unfolding sort
mem-sort before x [] = (λ i. i, λ i. i)
mem-sort before x (y ∷ ys) = ground (
  arith,
  mem-insert_sorted before x y (sort before ys),
  mem-sort before x ys,
  Memᴰ-cons x y ys,
  Memᴰ-cons x y (sort before ys),
)

destinations_of-cons :
    (k n : ℕ) (ds : List ℕ) (m : Map ℕ (List ℕ))
    → destinations_of ((k, ds) ∷ m) n ≡ (if k == n then ds else destinations_of m n)
unfolding destinations_of lookup
destinations_of-cons k n ds m = ground arith

mem-entry :
    (x k n : ℕ) (sorted ds : List ℕ) (rest m : Map ℕ (List ℕ))
    → Memᴰ x sorted ↔ Memᴰ x ds
    → Memᴰ x (destinations_of rest n) ↔ Memᴰ x (destinations_of m n)
    → Memᴰ x (destinations_of ((k, sorted) ∷ rest) n) ↔ Memᴰ x (destinations_of ((k, ds) ∷ m) n)
mem-entry x k n sorted ds rest m first others = elim (Bool-cases (k == n)) [
  | inl same ↦ rw (destinations_of-cons k n sorted rest, destinations_of-cons k n ds m, same) first
  | inr other ↦
      rw (destinations_of-cons k n sorted rest, destinations_of-cons k n ds m, other) others
]

module _ (sv : Semver) where
  -- What the sort returns, and when it panics.
  sort_destinations-many :
      (nodes : List (Node sv)) (d e : ℕ) (ds : List ℕ)
      → sort_destinations sv nodes (d ∷ e ∷ ds) ≡ (
          if all_below (length nodes) (d ∷ e ∷ ds)
          then ok (sort (newer sv nodes) (d ∷ e ∷ ds))
          else panic)
  unfolding sort_destinations
  sort_destinations-many nodes d e ds = refl

  mem-sort_destinations :
      (nodes : List (Node sv)) (x : ℕ) (ds es : List ℕ)
      → sort_destinations sv nodes ds ≡ ok es
      → Memᴰ x es ↔ Memᴰ x ds
  mem-sort_destinations nodes x [] es h =
      let same : [] ≡ es = (unfold sort_destinations in ground arith) in
      (subst (Memᴰ x) (sym same), subst (Memᴰ x) same)
  mem-sort_destinations nodes x (d ∷ []) es h =
      let same : d ∷ [] ≡ es = (unfold sort_destinations in ground arith) in
      (subst (Memᴰ x) (sym same), subst (Memᴰ x) same)
  mem-sort_destinations nodes x (d ∷ e ∷ ds) es h =
      let same : sort (newer sv nodes) (d ∷ e ∷ ds) ≡ es =
        ground (arith, sort_destinations-many nodes d e ds) in
      let whole = mem-sort (newer sv nodes) x (d ∷ e ∷ ds) in
      (λ i. whole.0 (subst (Memᴰ x) (sym same) i), λ i. subst (Memᴰ x) same (whole.1 i))

  sort_all-cons :
      (nodes : List (Node sv)) (k : ℕ) (ds : List ℕ) (m : Map ℕ (List ℕ))
      → sort_all sv nodes ((k, ds) ∷ m) ≡ (
          sort_destinations sv nodes ds >>= λ sorted.
          sort_all sv nodes m >>= λ rest. ok ((k, sorted) ∷ rest))
  unfolding sort_all
  sort_all-cons nodes k ds m = refl

  -- A search over the sorted adjacency sees the edges that lead from each node.
  pub mem-sort_all :
      (nodes : List (Node sv)) (x n : ℕ) (m t : Map ℕ (List ℕ))
      → sort_all sv nodes m ≡ ok t
      → Memᴰ x (destinations_of t n) ↔ Memᴰ x (destinations_of m n)
  mem-sort_all nodes x n [] t h =
      let same : [] ≡ t = (unfold sort_all in ground arith) in
      let way = ap (λ (m : Map ℕ (List ℕ)). destinations_of m n) same in
      (subst (Memᴰ x) (sym way), subst (Memᴰ x) way)
  mem-sort_all nodes x n ((k, ds) ∷ m) t h =
      let (sorted, eds, h') = bind-eq-ok _ _ (sym (sort_all-cons nodes k ds m) ∙ h) in
      let (rest, em, h'') = bind-eq-ok (sort_all sv nodes m) (λ r. ok ((k, sorted) ∷ r)) h' in
      let same : (k, sorted) ∷ rest ≡ t = ground arith in
      let first = mem-sort_destinations nodes x ds sorted eds in
      let others = mem-sort_all nodes x n m rest em in
      subst (λ t'. Memᴰ x (destinations_of t' n) ↔ Memᴰ x (destinations_of ((k, ds) ∷ m) n)) same
        (mem-entry x k n sorted ds rest m first others)

  sort_destinations_returns :
      (nodes : List (Node sv)) (ds : List ℕ)
      → all_below (length nodes) ds ≡ true
      → (es : List ℕ) × (sort_destinations sv nodes ds ≡ ok es)
  sort_destinations_returns nodes [] h = ([], (unfold sort_destinations in refl))
  sort_destinations_returns nodes (d ∷ []) h = (d ∷ [], (unfold sort_destinations in refl))
  sort_destinations_returns nodes (d ∷ e ∷ ds) h =
      (sort (newer sv nodes) (d ∷ e ∷ ds), rw (sort_destinations-many nodes d e ds, h) refl)

  -- With every destination in range the sort does not panic.
  pub sort_all_returns :
      (nodes : List (Node sv)) (m : Map ℕ (List ℕ))
      → All (λ e. all_below (length nodes) e.1 ≡ true) m
      → (t : Map ℕ (List ℕ)) × (sort_all sv nodes m ≡ ok t)
  sort_all_returns nodes [] h = ([], (unfold sort_all in refl))
  sort_all_returns nodes ((k, ds) ∷ m) h =
      let (t, e) = sort_all_returns nodes m h.1 in
      let (es, e') = sort_destinations_returns nodes ds h.0 in
      ((k, es) ∷ t, rw (sort_all-cons nodes k ds m, e', e) refl)

abbrev pub InRange : ℕ → Map ℕ (List ℕ) → Type 0
InRange n = All (λ e. all_below n e.1 ≡ true)

all_below-append :
    (n d : ℕ) (ds : List ℕ) → all_below n ds ≡ true → d < n → all_below n (ds ++ d ∷ []) ≡ true
unfolding all_below
all_below-append n d [] h lt = ground arith
all_below-append n d (x ∷ ds) h lt = ground (arith, all_below-append n d ds)

InRange-put :
    (n k : ℕ) (ds : List ℕ) (m : Map ℕ (List ℕ))
    → InRange n m
    → all_below n ds ≡ true
    → InRange n (put k ds m)
unfolding put
InRange-put n k ds [] h a = (a, tt)
InRange-put n k ds ((j, es) ∷ m) h a = elim (Bool-cases (j == k)) [
  | inl same ↦ rw same (a, h.1)
  | inr other ↦ rw other (h.0, InRange-put n k ds m h.1 a)
]

InRange-destinations_of :
    (n k : ℕ) (m : Map ℕ (List ℕ)) → InRange n m → all_below n (destinations_of m k) ≡ true
InRange-destinations_of n k [] h = (unfold destinations_of lookup all_below in refl)
InRange-destinations_of n k ((j, es) ∷ m) h =
    ground (arith, destinations_of-cons j k es m, InRange-destinations_of n k m)

InRange-group_edges :
    (n : ℕ) (m : Map ℕ (List ℕ)) (es : List Edge)
    → InRange n m
    → All (λ e. e.destination < n) es
    → InRange n (group_edges m es)
InRange-group_edges n m [] h a = (unfold group_edges in h)
InRange-group_edges n m (e ∷ es) h a =
    let grown = destinations_of m e.origin ++ e.destination ∷ [] in
    rw (group_edges-cons m e es) (
      InRange-group_edges n (put e.origin grown m) es
        (InRange-put n e.origin grown m h (
          all_below-append n e.destination (destinations_of m e.origin)
            (InRange-destinations_of n e.origin m h) a.0))
        a.1)

pub mem-successors :
    (es : List Edge) (u v : ℕ) → Memᴰ v (successors es u) → Memᴰ v (map (λ e. e.destination) es)
mem-successors [] u v i = (unfold successors in absurd (Memᴰ.not-nil i))
mem-successors (e ∷ es) u v i =
    let i' = subst (Memᴰ v) (successors-cons e es u) i in
    elim (Bool-cases (e.origin == u)) [
      | inl same ↦
          let j = rw same at i' in
          ⊎_elim Memᴰ.head (λ k. Memᴰ.tail (mem-successors es u v k)) (Memᴰ.cases_cons j)
      | inr other ↦ Memᴰ.tail (mem-successors es u v (rw other at i'))
    ]

module _ (sv : Semver) where
  -- The sorted adjacency of a graph has the edges of the graph.
  pub mem-adjacency :
      (nodes : List (Node sv)) (es : List Edge) (t : Map ℕ (List ℕ)) (u v : ℕ)
      → sort_all sv nodes (group_edges [] es) ≡ ok t
      → Memᴰ v (destinations_of t u) ↔ Memᴰ v (successors es u)
  mem-adjacency nodes es t u v h =
      subst (λ ds. Memᴰ v (destinations_of t u) ↔ Memᴰ v ds)
        (group_edges-eq-append [] es u ∙ nothing u (successors es u))
        (mem-sort_all sv nodes v u (group_edges [] es) t h)
    where
      nothing : (n : ℕ) (ds : List ℕ) → destinations_of [] n ++ ds ≡ ds
      nothing n ds = (unfold destinations_of lookup in refl)

  pub adjacency_returns :
      (nodes : List (Node sv)) (es : List Edge)
      → All (λ e. e.destination < length nodes) es
      → (t : Map ℕ (List ℕ)) × (sort_all sv nodes (group_edges [] es) ≡ ok t)
  adjacency_returns nodes es h =
      sort_all_returns sv nodes (group_edges [] es) (InRange-group_edges (length nodes) [] es tt h)
