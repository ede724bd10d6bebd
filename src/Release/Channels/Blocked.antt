-- ===== src/Release/Channels/Blocked.antt =====
-- Which versions `handleBlockedEdges` calls blocked.
use mathlib.Core.List.{Memᴰ}
use mathlib.Core.List.Memᴰ
use golang_fb_mirror.Base.{
  ◌≡◌, refl, ap, sym, ◌∙◌, ◌↔◌, inl, inr, Bool, true, false, List, [], ◌∷◌, if◌then◌else◌,
  Bool-cases, arith, ok,
}
use golang_fb_mirror.Base.Text.{Str}
use golang_fb_mirror.Semver.{Semver, eq_version}
use golang_fb_mirror.Release.Graph.{Node, Graph}
use golang_fb_mirror.Release.Client.{Client, Upstream, query_graph}
use golang_fb_mirror.Release.Channels.{
  versions_of, versions_in, is_blocked, get_versions, handle_blocked_edges,
}

module _ (sv : Semver) where
  open sv use {Version, sort}

  is_blocked-cons :
      (start v : Version) (vs : List Version)
      → is_blocked sv start (v ∷ vs)
        ≡ (if eq_version sv v start then false else is_blocked sv start vs)
  unfolding is_blocked
  is_blocked-cons start v vs = refl

  is_blocked-nil : (start : Version) → is_blocked sv start [] ≡ true
  unfolding is_blocked
  is_blocked-nil start = refl

  is_blocked-Mem :
      (start : Version) (vs : List Version)
      → (is_blocked sv start vs ≡ false)
        ↔ ((v : Version) × Memᴰ v vs × (eq_version sv v start ≡ true))
  is_blocked-Mem start [] =
      (λ h. absurd (ground (arith, h, is_blocked-nil start)), λ (v, i, e). absurd (Memᴰ.not-nil i))
  is_blocked-Mem start (v ∷ vs) =
      let (to, from) = is_blocked-Mem start vs in
      elim (Bool-cases (eq_version sv v start)) [
        | inl h ↦
            ((λ _. (v, Memᴰ.head refl, h)), λ _. ground (arith, is_blocked-cons start v vs, h))
        | inr h ↦ (
          (λ b.
              let (w, i, e) = to (ground (arith, is_blocked-cons start v vs, h, b)) in
              (w, Memᴰ.tail i, e)),
          (λ (w, i, e). elim (Memᴰ.cases_cons i) [
            | inl same ↦ absurd (ground (arith, h, e, ap (λ x. eq_version sv x start) same))
            | inr j ↦ ground (arith, is_blocked-cons start v vs, h, from (w, j, e))
          ]),
        )
      ]

  versions-node :
      (v : Version) (ns : List (Node sv))
      → Memᴰ v (versions_of sv ns)
      → (n : Node sv) × Memᴰ n ns × (n.version ≡ v)
  versions-node v [] i = absurd (Memᴰ.not-nil i)
  versions-node v (n ∷ ns) i = elim (Memᴰ.cases_cons i) [
    | inl e ↦ (n, Memᴰ.head refl, sym e)
    | inr j ↦ let (m, k, e) = versions-node v ns j in (m, Memᴰ.tail k, e)
  ]

  node-versions :
      (n : Node sv) (ns : List (Node sv)) → Memᴰ n ns → Memᴰ n.version (versions_of sv ns)
  node-versions n [] i = absurd (Memᴰ.not-nil i)
  node-versions n (m ∷ ns) i = elim (Memᴰ.cases_cons i) [
    | inl e ↦ Memᴰ.head (ap (λ (x : Node sv). x.version) e)
    | inr j ↦ Memᴰ.tail (node-versions n ns j)
  ]

  versions_in-from :
      (g : Graph sv) (n : Node sv) (ns : List (Node sv))
      → g.nodes ≡ ns
      → Memᴰ n ns
      → versions_in sv g ≡ ok (sort (versions_of sv g.nodes))
  unfolding versions_in
  versions_in-from g n [] e i = absurd (Memᴰ.not-nil i)
  versions_in-from g n (m ∷ ns) e i = rw e refl

  handle-ok :
      (up : Upstream sv) (arch channel : Str) (start : Version) (c c' : Client) (g : Graph sv)
      (vs : List Version)
      → query_graph sv up arch channel [] c ≡ (ok g, c')
      → versions_in sv g ≡ ok vs
      → handle_blocked_edges sv up arch channel start c ≡ (ok (is_blocked sv start vs), c')
  unfolding handle_blocked_edges get_versions
  handle-ok up arch channel start c c' g vs q e = rw (q, e) refl

  -- Where the server answers with a graph that has a node, `handleBlockedEdges` returns; it says
  -- that the version is blocked exactly if no node of the graph has an equal version.
  pub handle_blocked_edges-Mem :
      (up : Upstream sv) (arch channel : Str) (start : Version) (c c' : Client) (g : Graph sv)
      (n : Node sv)
      → query_graph sv up arch channel [] c ≡ (ok g, c')
      → Memᴰ n g.nodes
      → (blocked : Bool) × (handle_blocked_edges sv up arch channel start c ≡ (ok blocked, c'))
        × ((blocked ≡ false)
            ↔ ((m : Node sv) × Memᴰ m g.nodes × (eq_version sv m.version start ≡ true)))
  handle_blocked_edges-Mem up arch channel start c c' g n q i =
      let all = versions_of sv g.nodes in
      let (to, from) = is_blocked-Mem start (sort all) in
      (
        is_blocked sv start (sort all),
        handle-ok up arch channel start c c' g (sort all) q (versions_in-from g n g.nodes refl i),
        (
          (λ b.
              let (v, j, e) = to b in
              let (m, k, em) = versions-node v g.nodes ((sv.sort_mem v all).0 j) in
              (m, k, ap (λ x. eq_version sv x start) em ∙ e)),
          λ (m, k, e).
              from (m.version, (sv.sort_mem m.version all).1 (node-versions m g.nodes k), e),
        ),
      )
