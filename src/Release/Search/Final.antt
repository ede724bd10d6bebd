-- ===== src/Release/Search/Final.antt =====
-- The state in which the search stops: what its invariant says there.
use mathlib.Core.List.{Memᴰ, append-nil}
use mathlib.Core.List.Memᴰ
use golang_fb_mirror.Base.{
  ℕ, zero, suc, ◌≤◌, ◌≡◌, ◌⊎◌, inl, inr, ap, sym, subst, true, some, List, [], ◌∷◌, ◌++◌, ◌==◌,
  ℕ_eq, arith, nat_eq_iff, Bool-cases, List-cases, All, ⊎_elim, ◌∙◌, All-mem,
}
use golang_fb_mirror.Base.Maps.{has}
use golang_fb_mirror.Release.Search.{Prev, Search, offer_all, search_from}
use golang_fb_mirror.Release.Search.Trace.{level, Built}
use golang_fb_mirror.Release.Search.Front.{At, Front, offer_all-Front}
use golang_fb_mirror.Release.Search.Ends.{
  search_from-stuck, search_from-empty, search_from-found, search_from-round,
}

module _ (g : ℕ → List ℕ) (start : ℕ) where
  -- Below level `d` every neighbour of a visited node is visited, one level higher at most.
  pub record IsClosed (m : Prev) (d : ℕ) : Type 0 where
    pub below :
        (u w : ℕ)
        → has u m ≡ true
        → suc (level m u) ≤ d
        → Memᴰ w (g u)
        → (has w m ≡ true) × (level m w ≤ suc (level m u))

  -- The state in which the search stops.
  pub record Final (end : ℕ) (t : Search) : Type 0 where
    pub built : Built g start t.prev
    pub agree : (v : ℕ) → has v t.visited ≡ has v t.prev
    pub outcome : ((d : ℕ) × At t.prev d end × IsClosed t.prev d) ⊎ ((d : ℕ) → IsClosed t.prev d)

  level-queued :
      (m : Prev) (d u : ℕ) (near far : List ℕ)
      → All (At m d) near
      → All (At m (suc d)) far
      → Memᴰ u (near ++ far)
      → d ≤ level m u
  level-queued m d u near far n f i =
      ⊎_elim (λ i'. omega (arith, All-mem (At m d) u near n i'))
        (λ i'. omega (arith, All-mem (At m (suc d)) u far f i')) (Memᴰ.append_cases near i)

  -- The head of the queue is at the lower level, once levels are counted from it.
  refront :
      (s : Search) (k d node : ℕ) (near far rest : List ℕ)
      → Front g start s k [] d near far
      → s.queue ≡ node ∷ rest
      → (d' : ℕ) × (near' : List ℕ) × (far' : List ℕ) × Front g start s k [] d' (node ∷ near') far'
        × (rest ≡ near' ++ far')
  refront s k d node [] far rest f e =
      let full : far ≡ node ∷ rest = sym f.queued ∙ e in
      let far_at = subst (All (At s.prev (suc d))) full f.far_at in
      (
        suc d,
        rest,
        [],
        record {
          built = f.built;
          agree = f.agree;
          queued = e ∙ ap (◌∷◌ node) (sym (append-nil rest));
          near_at = far_at;
          far_at = tt;
          top = λ v h. omega (arith, f.top v h);
          closed = λ u w h edge. rw append-nil (rw full at (f.closed u w h edge));
        },
        sym (append-nil rest),
      )
  refront s k d node (x ∷ near) far rest f e =
      let full : x ∷ (near ++ far) ≡ node ∷ rest = sym f.queued ∙ e in
      let same : x ≡ node = cc full in (d, near, far, rw (← same) f, cc full)

  -- Taking a node from the queue leaves all its neighbours to be offered.
  pop :
      (s : Search) (k d node : ℕ) (near far rest : List ℕ)
      → Front g start s k [] d (node ∷ near) far
      → rest ≡ near ++ far
      → Front g start (record s { queue = rest }) node (g node) d near far
  pop s k d node near far rest f e = record {
    built = f.built;
    agree = f.agree;
    queued = e;
    near_at = f.near_at.1;
    far_at = f.far_at;
    top = f.top;
    closed = λ u w h edge.
        ⊎_elim
          (λ i.
            ⊎_elim (λ e'. inr (inl (e', subst (λ x. Memᴰ w (g x)) e' edge))) inl
              (Memᴰ.cases_cons i))
          (⊎_elim (λ none_left. absurd (Memᴰ.not-nil none_left.1)) (λ r. inr (inr r)))
          (f.closed u w h edge);
  }

  Final-empty :
      (end k d : ℕ) (s : Search) (near far : List ℕ)
      → Front g start s k [] d near far
      → s.queue ≡ []
      → Final end s
  Final-empty end k d s near far f e = record {
    built = f.built;
    agree = f.agree;
    outcome = inr λ d'. record {
      below = λ u w h le edge.
          ⊎_elim (λ i. absurd (Memᴰ.not-nil (subst (Memᴰ u) (sym f.queued ∙ e) i)))
            (⊎_elim (λ none_left. absurd (Memᴰ.not-nil none_left.1)) (λ r. r))
            (f.closed u w h edge);
    };
  }

  Final-found :
      (end k d node : ℕ) (s : Search) (near far rest : List ℕ)
      → Front g start s k [] d (node ∷ near) far
      → node ≡ end
      → Final end (record s { queue = rest })
  Final-found end k d node s near far rest f e = record {
    built = f.built;
    agree = f.agree;
    outcome = inl (
      d,
      subst (At s.prev d) e f.near_at.0,
      record {
        below = λ u w h le edge.
            ⊎_elim
              (λ i.
                absurd
                  (omega (arith, level-queued s.prev d u (node ∷ near) far f.near_at f.far_at i)))
              (⊎_elim (λ none_left. absurd (Memᴰ.not-nil none_left.1)) (λ r. r))
              (f.closed u w h edge);
      },
    );
  }

  pub Final-loop :
      (fuel end k d : ℕ) (s t : Search) (near far : List ℕ)
      → Front g start s k [] d near far
      → search_from g fuel end s ≡ some t
      → Final end t
  Final-loop zero end k d s t near far f e = elim (List-cases s.queue) [
    | inl empty ↦
        subst (Final end) (cc (search_from-empty g 0 end s empty, e))
          (Final-empty end k d s near far f empty)
    | inr (node, rest, q) ↦ cc (search_from-stuck g 0 end s node rest q, e)
  ]
  Final-loop (suc fuel) end k d s t near far f e = elim (List-cases s.queue) [
    | inl empty ↦
        subst (Final end) (cc (search_from-empty g (suc fuel) end s empty, e))
          (Final-empty end k d s near far f empty)
    | inr (node, rest, q) ↦
        let (d', near', far', f', r) = refront s k d node near far rest f q in
        elim (Bool-cases (node == end)) [
          | inl found ↦
              subst (Final end) (cc (search_from-found g fuel end s node rest q found, e))
                (Final-found end k d' node s near' far' rest f' ((nat_eq_iff node end).0 found))
          | inr on ↦
              let scan = record s { queue = rest } in
              let (far'', next) =
                offer_all-Front g start scan node d' (g node) near' far'
                  (pop s k d' node near' far' rest f' r) f'.near_at.0 (λ v i. i) in
              Final-loop fuel end node d' (offer_all node scan (g node)) t near' far'' next
                (sym (search_from-round g fuel end s node rest q on) ∙ e)
        ]
  ]
