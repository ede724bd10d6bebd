-- ===== src/Release/Channels/Bounds.antt =====
-- The smallest and the largest version of a channel, and the versions that are blocked in it.
use mathlib.Core.List.{Memᴰ}
use mathlib.Core.List.Memᴰ
use golang_fb_mirror.Base.{
  ◌≡◌, ◌≢◌, ==_iff, refl, ap, sym, ◌∙◌, subst, inl, inr, Bool, true, false, Option, none, some,
  List, [], ◌∷◌, if◌then◌else◌, Bool-cases, arith, ok, List_eq, ℕ_eq,
}
use golang_fb_mirror.Semver.{Semver, Ascending, le_version}
use golang_fb_mirror.Release.Graph.{Node, Graph}
use golang_fb_mirror.Release.Channels.{VersionFilter, matching, last_of, end_of, min_or_max}

module _ (sv : Semver) where
  open sv use {Version, compare, to_string, sort}

  le_refl : (v : Version) → le_version sv v v ≡ true
  le_refl v = ground (arith, sv.compare_flip v v)

  module _ (vf : VersionFilter) where
    -- The filter that `VERSION_FILTER` stands for: none where it is empty.
    abbrev pub IsFilter : Option vf.Regexp → Type 0
    IsFilter none = vf.filter ≡ []
    IsFilter (some r) = (vf.filter ≢ []) × (vf.compile vf.filter ≡ some r)

    -- The node's version is let through.
    abbrev pub Passes : Option vf.Regexp → Node sv → Type 0
    Passes none n = Unit
    Passes (some r) n = vf.match_string r (to_string n.version) ≡ true

    matching-some :
        (r : vf.Regexp) (n : Node sv) (ns : List (Node sv))
        → matching sv vf (some r) (n ∷ ns) ≡ (
            if vf.match_string r (to_string n.version)
            then n.version ∷ matching sv vf (some r) ns
            else matching sv vf (some r) ns)
    unfolding matching
    matching-some r n ns = refl

    matched :
        (r : Option vf.Regexp) (n : Node sv) (ns : List (Node sv))
        → Memᴰ n ns
        → Passes r n
        → Memᴰ n.version (matching sv vf r ns)
    unfolding matching
    matched r n [] i p = absurd (Memᴰ.not-nil i)
    matched none n (m ∷ ns) i p = elim (Memᴰ.cases_cons i) [
      | inl e ↦ Memᴰ.head (ap (λ (x : Node sv). x.version) e)
      | inr j ↦ Memᴰ.tail (matched none n ns j p)
    ]
    matched (some r) n (m ∷ ns) i p = elim (Bool-cases (vf.match_string r (to_string m.version))) [
      | inl h ↦
          subst (Memᴰ n.version)
            (sym (
              matching-some r m ns
              ∙ ap
                  (λ t.
                    if t
                    then m.version ∷ matching sv vf (some r) ns
                    else matching sv vf (some r) ns)
                  h))
            (elim (Memᴰ.cases_cons i) [
              | inl e ↦ Memᴰ.head (ap (λ (x : Node sv). x.version) e)
              | inr j ↦ Memᴰ.tail (matched (some r) n ns j p)
            ])
      | inr h ↦
          subst (Memᴰ n.version)
            (sym (
              matching-some r m ns
              ∙ ap
                  (λ t.
                    if t
                    then m.version ∷ matching sv vf (some r) ns
                    else matching sv vf (some r) ns)
                  h))
            (elim (Memᴰ.cases_cons i) [
              | inl e ↦ absurd (
                  ground
                    (arith, h, p, ap (λ (x : Node sv). vf.match_string r (to_string x.version)) e))
              | inr j ↦ matched (some r) n ns j p
            ])
    ]

    matches :
        (r : Option vf.Regexp) (v : Version) (ns : List (Node sv))
        → Memᴰ v (matching sv vf r ns)
        → (n : Node sv) × Memᴰ n ns × Passes r n × (n.version ≡ v)
    unfolding matching
    matches none v [] i = absurd (Memᴰ.not-nil i)
    matches (some r) v [] i = absurd (Memᴰ.not-nil i)
    matches none v (m ∷ ns) i = elim (Memᴰ.cases_cons i) [
      | inl e ↦ (m, Memᴰ.head refl, tt, sym e)
      | inr j ↦ let (n, k, p, e) = matches none v ns j in (n, Memᴰ.tail k, p, e)
    ]
    matches (some r) v (m ∷ ns) i = elim (Bool-cases (vf.match_string r (to_string m.version))) [
      | inl h ↦
          elim (Memᴰ.cases_cons (
            subst (Memᴰ v)
              (matching-some r m ns
                ∙ ap
                    (λ t.
                      if t
                      then m.version ∷ matching sv vf (some r) ns
                      else matching sv vf (some r) ns)
                    h)
              i)) [
                | inl e ↦ (m, Memᴰ.head refl, h, sym e)
                | inr j ↦ let (n, k, p, e) = matches (some r) v ns j in (n, Memᴰ.tail k, p, e)
              ]
      | inr h ↦
          let j =
            subst (Memᴰ v)
              (matching-some r m ns
                ∙ ap
                    (λ t.
                      if t
                      then m.version ∷ matching sv vf (some r) ns
                      else matching sv vf (some r) ns)
                    h)
              i in
          let (n, k, p, e) = matches (some r) v ns j in (n, Memᴰ.tail k, p, e)
    ]

  -- `v` is at the end of the versions that `min` asks for.
  abbrev pub IsEnd : Bool → Version → Version → Type 0
  IsEnd true v w = le_version sv v w ≡ true
  IsEnd false v w = le_version sv w v ≡ true

  last-IsEnd :
      (v : Version) (vs : List Version)
      → Ascending (λ a b. le_version sv a b) (v ∷ vs)
      → Memᴰ (last_of sv v vs) (v ∷ vs)
        × ((w : Version) → Memᴰ w (v ∷ vs) → le_version sv w (last_of sv v vs) ≡ true)
  unfolding last_of
  last-IsEnd v [] a = (
    Memᴰ.head refl,
    λ w i. elim (Memᴰ.cases_cons i) [
      | inl e ↦ subst (λ x. le_version sv x v ≡ true) (sym e) (le_refl v)
      | inr j ↦ absurd (Memᴰ.not-nil j)
    ],
  )
  last-IsEnd v (u ∷ vs) (below, a) =
      let (m, h) = last-IsEnd u vs a in
      (
        Memᴰ.tail m,
        λ w i. elim (Memᴰ.cases_cons i) [
          | inl e ↦
              subst (λ x. le_version sv x (last_of sv u vs) ≡ true) (sym e)
                (below (last_of sv u vs) m)
          | inr j ↦ h w j
        ],
      )

  IsEnd-IsEnd :
      (min : Bool) (vs : List Version) (u : Version)
      → Ascending (λ a b. le_version sv a b) vs
      → Memᴰ u vs
      → (v : Version) × (end_of sv min vs ≡ ok v)
        × Memᴰ v vs
        × ((w : Version) → Memᴰ w vs → IsEnd min v w)
  unfolding end_of
  IsEnd-IsEnd min [] u a i = absurd (Memᴰ.not-nil i)
  IsEnd-IsEnd true (v ∷ vs) u a i = (
    v,
    refl,
    Memᴰ.head refl,
    λ w j. elim (Memᴰ.cases_cons j) [
      | inl e ↦ subst (λ x. le_version sv v x ≡ true) (sym e) (le_refl v)
      | inr k ↦ a.0 w k
    ],
  )
  IsEnd-IsEnd false (v ∷ vs) u a i = let (m, h) = last-IsEnd v vs a in (last_of sv v vs, refl, m, h)

  min_or_max-end :
      (vf : VersionFilter) (r : Option vf.Regexp) (g : Graph sv) (min : Bool)
      → IsFilter vf r
      → min_or_max sv vf g min ≡ end_of sv min (sort (matching sv vf r g.nodes))
  unfolding min_or_max
  min_or_max-end vf none g min e = ground (arith, e, ==_iff vf.filter [])
  min_or_max-end vf (some r) g min (e, c) = rw c (ground (arith, e, ==_iff vf.filter []))

  -- If a node of the graph passes the filter, `GetChannelMinOrMax` finds in the graph the version
  -- of such a node; no node that passes has a smaller version (for the minimum) or a larger one
  -- (for the maximum).
  pub min_or_max-IsEnd :
      (vf : VersionFilter) (r : Option vf.Regexp) (g : Graph sv) (min : Bool) (n : Node sv)
      → IsFilter vf r
      → Memᴰ n g.nodes
      → Passes vf r n
      → (m : Node sv) × (min_or_max sv vf g min ≡ ok m.version)
        × Memᴰ m g.nodes
        × Passes vf r m
        × ((k : Node sv) → Memᴰ k g.nodes → Passes vf r k → IsEnd min m.version k.version)
  min_or_max-IsEnd vf r g min n f i p =
      let vs = matching sv vf r g.nodes in
      let j = (sv.sort_mem n.version vs).1 (matched vf r n g.nodes i p) in
      let (v, e, k, h) = IsEnd-IsEnd min (sort vs) n.version (sv.sort_ascending vs) j in
      let (m, mi, mp, me) = matches vf r v g.nodes ((sv.sort_mem v vs).0 k) in
      (
        m,
        min_or_max-end vf r g min f ∙ e ∙ ap ok (sym me),
        mi,
        mp,
        λ k' ki kp.
            subst (λ x. IsEnd min x k'.version) (sym me)
              (h k'.version ((sv.sort_mem k'.version vs).1 (matched vf r k' g.nodes ki kp))),
      )
