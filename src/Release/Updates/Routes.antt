-- ===== src/Release/Updates/Routes.antt =====
-- Walks and routes in two graphs with the same edges, and the positions that a route visits.
use mathlib.Core.List.{Memᴰ}
use mathlib.Core.List.Memᴰ
use golang_fb_mirror.Base.{
  ℕ, zero, suc, ◌<◌, ◌≡◌, ◌↔◌, inl, inr, ⊎_elim, refl, List, [], ◌∷◌, map, length, All, All-append,
  ok, arith, index,
}
use golang_fb_mirror.Release.Graph.{Edge}
use golang_fb_mirror.Release.Graph.Adjacency.{successors, mem-successors}
use golang_fb_mirror.Release.Search.Trace.{Route, here, step}
use golang_fb_mirror.Release.Search.Shortest.{Walk, stay, go, IsShortest}

module _ {g h : ℕ → List ℕ} (sub : (u v : ℕ) → Memᴰ v (g u) → Memᴰ v (h u)) {start : ℕ} where
  Walk-mono : {v n : ℕ} → Walk g start v n → Walk h start v n
  Walk-mono stay = stay
  Walk-mono (go {u} {w} p e) = go (Walk-mono p) (sub u w e)

  Route-mono : {v : ℕ} {p : List ℕ} → Route g start v p → Route h start v p
  Route-mono here = here
  Route-mono (step {u} {w} r e q) = step (Route-mono r) (sub u w e) q

pub IsShortest-mono :
    (g h : ℕ → List ℕ)
    → ((u v : ℕ) → Memᴰ v (g u) ↔ Memᴰ v (h u))
    → (start end : ℕ) (p : List ℕ) → IsShortest g start end p
    → IsShortest h start end p
IsShortest-mono g h same start end p =
    ⊎_elim (λ (e, no_walk). inl (e, λ n w. no_walk n (Walk-mono (λ u v. (same u v).1) w)))
      (λ (r, least).
        inr
          (Route-mono (λ u v. (same u v).0) r, λ n w. least n (Walk-mono (λ u v. (same u v).1) w)))

pub Route-InRange :
    (es : List Edge) {i j : ℕ} {p : List ℕ} (n : ℕ)
    → i < n
    → All (λ e. e.destination < n) es
    → Route (successors es) i j p
    → All (λ x. x < n) p
Route-InRange es n lt r here = (lt, tt)
Route-InRange es n lt r (step {u} {w} {p} route e q) = rw q (
    All-append (λ x. x < n) p (w ∷ []) (Route-InRange es n lt r route)
      (destination-lt es n w r (mem-successors es u w e), tt))
  where
    destination-lt :
        (ds : List Edge) (n w : ℕ)
        → All (λ e. e.destination < n) ds
        → Memᴰ w (map (λ e. e.destination) ds)
        → w < n
    destination-lt [] n w r i = absurd (Memᴰ.not-nil i)
    destination-lt (d ∷ ds) n w r i =
        ⊎_elim (λ e. rw e r.0) (destination-lt ds n w r.1) (Memᴰ.cases_cons i)

module _ {A : Type 0} where
  -- The elements at the given positions, in the same order.
  abbrev pub Picked : List A → List ℕ → List A → Type 0
  Picked nodes [] [] = Unit
  Picked nodes [] (u ∷ us) = ⊥
  Picked nodes (i ∷ is) [] = ⊥
  Picked nodes (i ∷ is) (u ∷ us) = (index nodes i ≡ ok u) × Picked nodes is us

  pub index_returns : (xs : List A) (i : ℕ) → i < length xs → (x : A) × (index xs i ≡ ok x)
  unfolding index
  index_returns [] i h = absurd (omega arith)
  index_returns (x ∷ xs) zero h = (x, refl)
  index_returns (x ∷ xs) (suc i) h = index_returns xs i (omega arith)

  pub index-lt : (xs : List A) (i : ℕ) {x : A} → index xs i ≡ ok x → i < length xs
  unfolding index
  index-lt [] i h = ground arith
  index-lt (x ∷ xs) zero h = omega arith
  index-lt (x ∷ xs) (suc i) h = omega (arith, index-lt xs i h)
