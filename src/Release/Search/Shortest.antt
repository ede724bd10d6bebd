-- ===== src/Release/Search/Shortest.antt =====
-- The path that the search returns is a shortest one, and it is empty exactly where there is none.
use mathlib.Core.List.{Memᴰ, reverse}
use golang_fb_mirror.Base.{
  ℕ, suc, ◌≤◌, ◌≡◌, ◌⊎◌, inl, inr, refl, ap, sym, true, false, Option, none, some, List, [], ◌∷◌,
  ℕ_eq, ◌==◌, if◌then◌else◌, length, arith, Bool-cases, length-reverse, ⊎_elim, ◌∙◌,
}
use native.Mathlib.Decide.{dec_le}
use golang_fb_mirror.Base.Maps.{has, has-cons, has-nil}
use golang_fb_mirror.Release.Search.{
  Prev, Search, search_from, initial, rebuild, shortest_path, walk_back, read_prev,
}
use golang_fb_mirror.Release.Search.Trace.{
  level, level-le, trace, root_map, has-root, start-At, Built, root, Route, trace-Route,
  walk_back_lem,
}
use golang_fb_mirror.Release.Search.Front.{Front}
use golang_fb_mirror.Release.Search.Ends.{search_from_ends, unseen-le-length}
use golang_fb_mirror.Release.Search.Final.{IsClosed, Final, Final-loop}

-- A walk of `n` edges from the start.
pub data Walk (g : ℕ → List ℕ) (start : ℕ) : ℕ → ℕ → Type 0 where
  stay : Walk g start start 0
  go : {u w n : ℕ} → Walk g start u n → Memᴰ w (g u) → Walk g start w (suc n)

-- What `shortestPath` promises.
abbrev pub IsShortest : (ℕ → List ℕ) → ℕ → ℕ → List ℕ → Type 0
IsShortest g start end p =
    ((p ≡ []) × ((n : ℕ) → ¬ Walk g start end n))
    ⊎ (Route g start end p × ((n : ℕ) → Walk g start end n → length p ≤ suc n))

rebuild-seen :
    (end : ℕ) (t : Search) (way : List ℕ)
    → has end t.visited ≡ true
    → walk_back (length t.prev) t.prev (end ∷ []) (read_prev t.prev end) ≡ some way
    → rebuild end t ≡ some (reverse way)
unfolding rebuild
rebuild-seen end t way seen back = rw (seen, back) refl

rebuild-missed : (end : ℕ) (t : Search) → has end t.visited ≡ false → rebuild end t ≡ some []
unfolding rebuild
rebuild-missed end t missed = rw missed refl

shortest_path-bind :
    (g : ℕ → List ℕ) (fuel start end : ℕ) (t : Search)
    → search_from g fuel end (initial start) ≡ some t
    → shortest_path g fuel start end ≡ rebuild end t
unfolding shortest_path
shortest_path-bind g fuel start end t ends = rw ends refl

agree-initial : (start v : ℕ) → has v (initial start).visited ≡ has v (initial start).prev
agree-initial start v =
    has-cons {V = Unit {0}} start v tt []
    ∙ ap (λ b. if start == v then true else b) (has-nil (Unit {0}) v ∙ sym (has-nil (Option ℕ) v))
    ∙ sym (has-cons {V = Option ℕ} start v none [])

module _ (g : ℕ → List ℕ) (start : ℕ) where
  Front-initial : Front g start (initial start) start [] 1 (start ∷ []) []
  Front-initial =
      let first = start-At {g = g} root in
      record {
        built = root;
        agree = agree-initial start;
        queued = refl;
        near_at = ((first.0, omega (arith, ap (length {A = ℕ}) first.1)), tt);
        far_at = tt;
        top = λ v h. omega (arith, level-le (root_map start) v);
        closed = λ u w h edge. inl (Memᴰ.head (sym (has-root start u h)));
      }

  -- A walk leads to a visited node, by the lowest level that its length allows.
  Walk-level :
      {m : Prev} {v n : ℕ} (d : ℕ)
      → Built g start m
      → IsClosed g start m d
      → Walk g start v n
      → suc n ≤ d
      → (has v m ≡ true) × (level m v ≤ suc n)
  Walk-level d b c stay h =
      let first = start-At b in (first.0, omega (arith, ap (length {A = ℕ}) first.1))
  Walk-level d b c (go {u} {w} p edge) h =
      let before = Walk-level d b c p (omega arith) in
      let after = c.below u w before.0 (omega arith) edge in (after.0, omega arith)

  -- What the final state says of every walk to the end.
  Final-Walk :
      (end n : ℕ) (t : Search)
      → Final g start end t
      → Walk g start end n
      → (has end t.prev ≡ true) × (level t.prev end ≤ suc n)
  Final-Walk end n t f w =
      ⊎_elim
        (λ (d, at, c). elim (dec_le (suc n) d) [
          | yes le ↦ Walk-level d f.built c w le
          | no gt ↦ (at.0, omega arith)
        ])
        (λ c. Walk-level (suc n) f.built (c (suc n)) w (omega arith)) f.outcome

  rebuild-IsShortest :
      (end : ℕ) (t : Search)
      → Final g start end t
      → (p : List ℕ) × (rebuild end t ≡ some p) × IsShortest g start end p
  rebuild-IsShortest end t f = elim (Bool-cases (has end t.prev)) [
    | inl seen ↦ (
      reverse (trace t.prev end),
      rebuild-seen end t (trace t.prev end) (f.agree end ∙ seen) (walk_back_lem end f.built seen),
      inr (trace-Route end f.built seen, λ n w. rw length-reverse (Final-Walk end n t f w).1),
    )
    | inr missed ↦ (
      [],
      rebuild-missed end t (f.agree end ∙ missed),
      inl (refl, λ n w. cc (Final-Walk end n t f w).0),
    )
  ]

-- With a round of fuel for the start and for each node that an edge leads to, `shortestPath`
-- returns. Its result is empty if no walk leads from the start to the end; otherwise it is a route
-- along edges from the start to the end, and no walk between the two has fewer nodes.
pub shortest_path-IsShortest :
    (g : ℕ → List ℕ) (all : List ℕ) (fuel start end : ℕ)
    → ((u v : ℕ) → Memᴰ v (g u) → Memᴰ v all)
    → suc (length all) ≤ fuel
    → (p : List ℕ) × (shortest_path g fuel start end ≡ some p) × IsShortest g start end p
shortest_path-IsShortest g all fuel start end sub h =
    let (t, ends) =
      search_from_ends all g fuel end (initial start) sub
        (omega (arith, unseen-le-length (initial start).visited all)) in
    let (p, e, s) = rebuild-IsShortest g start end t (
      Final-loop g start fuel end start 1 (initial start) t (start ∷ []) [] (Front-initial g start)
        ends) in
    (p, rw (shortest_path-bind g fuel start end t ends) e, s)
