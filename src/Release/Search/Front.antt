-- ===== src/Release/Search/Front.antt =====
-- The invariant of the search: the queue holds nodes of one level and then nodes of the next, and
-- every visited node that has left the queue has only visited neighbours.
use mathlib.Core.List.{Memᴰ, append_assoc}
use mathlib.Core.List.Memᴰ
use golang_fb_mirror.Base.{
  ℕ, suc, ◌≤◌, ◌≡◌, ◌⊎◌, inl, inr, refl, ap, sym, true, false, some, List, [], ◌∷◌, ◌++◌, ◌==◌,
  ℕ_eq, length, arith, nat_eq_iff, Bool-cases, All, All-append, Memᴰ-cons, Memᴰ-append,
}
use golang_fb_mirror.Base.Maps.{has, has-cons}
use golang_fb_mirror.Release.Search.{Prev, Search, offer, offer_all}
use golang_fb_mirror.Release.Search.Trace.{level, Built, grow, trace-grow, trace-new}

abbrev pub At : Prev → ℕ → ℕ → Type 0
At m d v = (has v m ≡ true) × (level m v ≡ d)

-- What a new entry changes.
has-grow : (v x u : ℕ) (m : Prev) → has x m ≡ true → has x ((v, some u) ∷ m) ≡ true
has-grow v x u m h = ground (arith, has-cons v x (some u) m)

has-new : (v u : ℕ) (m : Prev) → has v ((v, some u) ∷ m) ≡ true
has-new v u m = ground (arith, has-cons v v (some u) m, nat_eq_iff v v)

level-grow :
    (v x u : ℕ) (m : Prev)
    → has v m ≡ false
    → has x m ≡ true
    → level ((v, some u) ∷ m) x ≡ level m x
level-grow v x u m fresh h = ap (length {A = ℕ}) (trace-grow v x u m fresh h)

level-new : (v u : ℕ) (m : Prev) → level ((v, some u) ∷ m) v ≡ suc (level m u)
level-new v u m = ap (length {A = ℕ}) (trace-new v u m)

At-grow : (v x u d : ℕ) (m : Prev) → has v m ≡ false → At m d x → At ((v, some u) ∷ m) d x
At-grow v x u d m fresh h = ground (arith, has-grow v x u m, level-grow v x u m fresh)

All-At-grow :
    (v u d : ℕ) (m : Prev) (xs : List ℕ)
    → has v m ≡ false
    → All (At m d) xs
    → All (At ((v, some u) ∷ m) d) xs
All-At-grow v u d m [] fresh h = tt
All-At-grow v u d m (x ∷ xs) fresh h =
    (At-grow v x u d m fresh h.0, All-At-grow v u d m xs fresh h.1)

module _ (g : ℕ → List ℕ) (start : ℕ) where
  -- `rest` are the neighbours of `node` that the loop over `g[node]` has yet to offer.
  pub record Front (s : Search) (node : ℕ) (rest : List ℕ) (d : ℕ) (near far : List ℕ)
      : Type 0 where
    pub built : Built g start s.prev
    pub agree : (v : ℕ) → has v s.visited ≡ has v s.prev
    pub queued : s.queue ≡ near ++ far
    pub near_at : All (At s.prev d) near
    pub far_at : All (At s.prev (suc d)) far
    pub top : (v : ℕ) → has v s.prev ≡ true → level s.prev v ≤ suc d
    pub closed :
        (u w : ℕ)
        → has u s.prev ≡ true
        → Memᴰ w (g u)
        → Memᴰ u (near ++ far)
          ⊎ ((u ≡ node) × Memᴰ w rest)
          ⊎ ((has w s.prev ≡ true) × (level s.prev w ≤ suc (level s.prev u)))

  module _ {s : Search} {node v d : ℕ} {rest near far : List ℕ} where
    -- A neighbour that was visited before.
    offer-old :
        Front s node (v ∷ rest) d near far
        → At s.prev d node
        → has v s.prev ≡ true
        → Front s node rest d near far
    offer-old f at seen = record {
      built = f.built;
      agree = f.agree;
      queued = f.queued;
      near_at = f.near_at;
      far_at = f.far_at;
      top = f.top;
      closed = λ u w h edge. ground (arith, f.closed u w h edge, Memᴰ-cons w v rest, f.top v);
    }

    -- After a new neighbour has been queued, what left the queue still has visited neighbours.
    offer-closed :
        Front s node (v ∷ rest) d near far
        → has v s.prev ≡ false
        → (u w : ℕ) → has u ((v, some node) ∷ s.prev) ≡ true
        → Memᴰ w (g u)
        → Memᴰ u (near ++ (far ++ v ∷ []))
          ⊎ ((u ≡ node) × Memᴰ w rest)
          ⊎ ((has w ((v, some node) ∷ s.prev) ≡ true)
              × (level ((v, some node) ∷ s.prev) w ≤ suc (level ((v, some node) ∷ s.prev) u)))
    offer-closed f fresh u w h edge = elim (Bool-cases (v == u)) [
      | inl e ↦
          let same : u ≡ v = sym ((nat_eq_iff v u).0 e) in
          inl (Memᴰ.append_right near (Memᴰ.append_right far (Memᴰ.head same)))
      | inr e ↦
          let old : has u s.prev ≡ true = ground (arith, has-cons v u (some node) s.prev) in
          ground (
            arith,
            f.closed u w old edge,
            Memᴰ-append u near far,
            Memᴰ-cons w v rest,
            Memᴰ-append u near (far ++ v ∷ []),
            Memᴰ-append u far (v ∷ []),
            has-grow v w node s.prev,
            level-grow v w node s.prev fresh,
            level-grow v u node s.prev fresh,
            has-new v node s.prev,
            level-new v node s.prev,
          )
    ]

    -- A neighbour that is new.
    offer-new :
        Front s node (v ∷ rest) d near far
        → At s.prev d node
        → has v s.prev ≡ false
        → Memᴰ v (g node)
        → Front
            (record {
              prev = (v, some node) ∷ s.prev;
              visited = (v, tt) ∷ s.visited;
              queue = s.queue ++ v ∷ [];
            })
            node
            rest
            d
            near
            (far ++ v ∷ [])
    offer-new f at fresh edge = record {
      built = grow v node f.built fresh at.0 edge;
      agree = λ x.
          ground (arith, has-cons v x tt s.visited, has-cons v x (some node) s.prev, f.agree x);
      queued = rw f.queued (append_assoc near far (v ∷ []));
      near_at = All-At-grow v node d s.prev near fresh f.near_at;
      far_at =
          All-append (At ((v, some node) ∷ s.prev) (suc d)) far (v ∷ [])
            (All-At-grow v node (suc d) s.prev far fresh f.far_at)
            ((has-new v node s.prev, omega (arith, level-new v node s.prev, at.1)), tt);
      top = λ x h. ground (
        arith,
        has-cons v x (some node) s.prev,
        nat_eq_iff v x,
        f.top x,
        level-grow v x node s.prev fresh,
        level-new v node s.prev,
      );
      closed = offer-closed f fresh;
    }

  -- What one neighbour leaves: the queue may have grown at its far end.
  offer-Front :
      (s : Search) (node v d : ℕ) (rest near far : List ℕ)
      → Front s node (v ∷ rest) d near far
      → At s.prev d node
      → Memᴰ v (g node)
      → (far' : List ℕ) × Front (offer node s v) node rest d near far'
        × At (offer node s v).prev d node
  unfolding offer
  offer-Front s node v d rest near far f at edge = elim (Bool-cases (has v s.prev)) [
    | inl seen ↦ (far, rw (f.agree v, seen) (offer-old f at seen), rw (f.agree v, seen) at)
    | inr fresh ↦ (
      far ++ v ∷ [],
      rw (f.agree v, fresh) (offer-new f at fresh edge),
      rw (f.agree v, fresh) (At-grow v node node d s.prev fresh at),
    )
  ]

  -- The whole loop over the neighbours of `node`.
  pub offer_all-Front :
      (s : Search) (node d : ℕ) (rest near far : List ℕ)
      → Front s node rest d near far
      → At s.prev d node
      → ((v : ℕ) → Memᴰ v rest → Memᴰ v (g node))
      → (far' : List ℕ) × Front (offer_all node s rest) node [] d near far'
  unfolding offer_all
  offer_all-Front s node d [] near far f at edges = (far, f)
  offer_all-Front s node d (v ∷ rest) near far f at edges =
      let (far', f', at') = offer-Front s node v d rest near far f at (edges v (Memᴰ.head refl)) in
      offer_all-Front (offer node s v) node d rest near far' f' at' (λ x m. edges x (Memᴰ.tail m))
