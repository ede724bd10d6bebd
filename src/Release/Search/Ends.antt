-- ===== src/Release/Search/Ends.antt =====
-- The loop of the search ends: each round takes a node from the queue, and a node is queued only
-- when it is first visited.
use mathlib.Core.List.{Memᴰ}
use mathlib.Core.List.Memᴰ
use golang_fb_mirror.Base.{
  ℕ, zero, suc, ◌+◌, ◌≤◌, ◌≡◌, inl, inr, refl, ◌∙◌, ap, true, false, none, some, List, [], ◌∷◌,
  ◌==◌, ℕ_eq, if◌then◌else◌, length, length-append, arith, nat_eq_iff, Bool-cases, List-cases,
  Memᴰ-cons,
}
use golang_fb_mirror.Base.Maps.{Map, has, has-cons}
use golang_fb_mirror.Release.Search.{Search, offer, offer_all, search_from}

-- How many entries of a list of nodes are not visited.
pub unseen : Map ℕ (Unit {0}) → List ℕ → ℕ
unseen m [] = 0
unseen m (x ∷ xs) = if has x m then unseen m xs else suc (unseen m xs)

unseen-le : (m : Map ℕ (Unit {0})) (v : ℕ) (xs : List ℕ) → unseen ((v, tt) ∷ m) xs ≤ unseen m xs
unfolding unseen
unseen-le m v [] = omega arith
unseen-le m v (x ∷ xs) = ground (arith, has-cons v x tt m, unseen-le m v xs)

unseen-cons :
    (m : Map ℕ (Unit {0})) (v : ℕ) (xs : List ℕ)
    → Memᴰ v xs
    → has v m ≡ false
    → suc (unseen ((v, tt) ∷ m) xs) ≤ unseen m xs
unfolding unseen
unseen-cons m v [] i h = absurd (Memᴰ.not-nil i)
unseen-cons m v (x ∷ xs) i h = ground (
  arith,
  has-cons v x tt m,
  nat_eq_iff v x,
  unseen-le m v xs,
  unseen-cons m v xs,
  Memᴰ-cons v x xs,
)

pub unseen-le-length : (m : Map ℕ (Unit {0})) (xs : List ℕ) → unseen m xs ≤ length xs
unfolding unseen
unseen-le-length m [] = omega arith
unseen-le-length m (x ∷ xs) = ground (arith, unseen-le-length m xs)

-- One round of the loop, in its three cases.
module _ (g : ℕ → List ℕ) (fuel end : ℕ) (s : Search) where
  pub search_from-empty : s.queue ≡ [] → search_from g fuel end s ≡ some s
  unfolding search_from
  search_from-empty e = elim fuel as (λ f. search_from g f end s ≡ some s) [
    | zero ↦ ground arith
    | suc f ↦ ground arith
  ]

  module _ (node : ℕ) (rest : List ℕ) (e : s.queue ≡ node ∷ rest) where
    pub search_from-stuck : search_from g 0 end s ≡ none
    unfolding search_from
    search_from-stuck = ground arith

    pub search_from-found :
        node == end ≡ true → search_from g (suc fuel) end s ≡ some (record s { queue = rest })
    unfolding search_from
    search_from-found h = ground arith

    pub search_from-round :
        node == end ≡ false
        → search_from g (suc fuel) end s
          ≡ search_from g fuel end (offer_all node (record s { queue = rest }) (g node))
    unfolding search_from
    search_from-round h = ground arith

module _ (all : List ℕ) where
  abbrev pub work : Search → ℕ
  work s = unseen s.visited all + length s.queue

  offer-work : (node v : ℕ) (s : Search) → Memᴰ v all → work (offer node s v) ≤ work s
  unfolding offer
  offer-work node v s i =
      ground (arith, unseen-cons s.visited v all i, length-append s.queue (v ∷ []))

  offer_all-work :
      (node : ℕ) (s : Search) (ns : List ℕ)
      → ((v : ℕ) → Memᴰ v ns → Memᴰ v all)
      → work (offer_all node s ns) ≤ work s
  unfolding offer_all
  offer_all-work node s [] sub = omega arith
  offer_all-work node s (v ∷ ns) sub = omega (
    arith,
    offer-work node v s (sub v (Memᴰ.head refl)),
    offer_all-work node (offer node s v) ns (λ x m. sub x (Memᴰ.tail m)),
  )

  -- With fuel for the queue and for every node that may still be queued, the loop ends.
  pub search_from_ends :
      (g : ℕ → List ℕ) (fuel end : ℕ) (s : Search)
      → ((u v : ℕ) → Memᴰ v (g u) → Memᴰ v all)
      → work s ≤ fuel
      → (t : Search) × (search_from g fuel end s ≡ some t)
  search_from_ends g zero end s sub h =
      (s, search_from-empty g 0 end s (empty s.queue (omega arith)))
    where
      empty : (q : List ℕ) → length q ≤ 0 → q ≡ []
      empty [] le = refl
      empty (x ∷ q) le = absurd (omega arith)
  search_from_ends g (suc fuel) end s sub h = elim (List-cases s.queue) [
    | inl e ↦ (s, search_from-empty g (suc fuel) end s e)
    | inr (node, rest, e) ↦ elim (Bool-cases (node == end)) [
      | inl found ↦ (record s { queue = rest }, search_from-found g fuel end s node rest e found)
      | inr on ↦
          let s' : Search = record s { queue = rest } in
          let less = offer_all-work node s' (g node) (sub node) in
          let (t, ends) =
            search_from_ends g fuel end (offer_all node s' (g node)) sub
              (omega (arith, ap (length {A = ℕ}) e)) in
          (t, search_from-round g fuel end s node rest e on ∙ ends)
    ]
  ]
