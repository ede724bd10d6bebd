-- ===== src/Tests/Runs.antt =====
-- The theorems on batches and releases at concrete inputs.
use mathlib.Core.List.{Memᴰ}
use mathlib.Core.List.Memᴰ
use golang_fb_mirror.Base.{
  ◌≢◌, ◌⊎◌, if◌then◌else◌, ℕ, zero, suc, ◌≡◌, ◌↔◌, refl, Bool, true, false, none, some, List, [],
  ◌∷◌, ◌==◌, ℕ_eq, List_eq, not, arith, ok, take,
}
use golang_fb_mirror.Base.Text.{codes, Str}
use golang_fb_mirror.Tests.Versions.{digit_versions}
use golang_fb_mirror.Semver.{eq_version}
use golang_fb_mirror.Batch.{CopyImage, failed, worker}
use golang_fb_mirror.Batch.{any_failed}
use golang_fb_mirror.Batch.Race.{
  Run, begin, next, here, there, fail, read, write, appended, Run-any_failed,
}
use golang_fb_mirror.Batch.Copies.{worker-IsSound, IsSound}
use golang_fb_mirror.Release.Graph.{Edge, Node, Graph}
use golang_fb_mirror.Release.Graph.Adjacency.{successors}
use golang_fb_mirror.Release.Client.{ocp, Client, body, Upstream, query_graph}
use golang_fb_mirror.Release.Client.Queries.{Asked, set_all, set_query_params-Asked}
use golang_fb_mirror.Release.Channels.{VersionFilter, min_or_max, handle_blocked_edges}
use golang_fb_mirror.Release.Channels.Bounds.{min_or_max-IsEnd, IsEnd, Passes}
use golang_fb_mirror.Release.Channels.Blocked.{handle_blocked_edges-Mem}
use golang_fb_mirror.Api.{ReleaseChannel}
use golang_fb_mirror.Release.Find.{find_release, find_releases}
use golang_fb_mirror.Release.Find.Extreme.{find_release-IsEnd}
use golang_fb_mirror.Release.Search.{shortest_path}
use golang_fb_mirror.Release.Search.Shortest.{IsShortest, shortest_path-IsShortest}
use golang_fb_mirror.Release.Updates.{find_version, find_updates}
use golang_fb_mirror.Release.Updates.Path.{find_updates-IsShortest, IsFirst}
use golang_fb_mirror.Release.Updates.Routes.{Picked}
use golang_fb_mirror.Release.Upgrades.{keep_first}
use golang_fb_mirror.Release.Upgrades.Distinct.{Distinct, keep_first-Distinct}

abbrev copy : ℕ → CopyImage
copy n = record { source = n ∷ []; destination = n ∷ [] }

-- Nine images, of which the ninth is not copied.
abbrev nine : List CopyImage
nine = copy 1 ∷ copy 2 ∷ copy 3 ∷ copy 4 ∷ copy 5 ∷ copy 6 ∷ copy 7 ∷ copy 8 ∷ copy 9 ∷ []

abbrev copies : CopyImage → Bool
copies c = not (c.source == (9 ∷ []))

worker-nine : worker copies 2 nine ≡ (failed, take 8 nine ∷ (copy 9 ∷ []) ∷ [])
unfolding worker
worker-nine = refl

worker-IsSound_example : IsSound copies (worker copies 2 nine) nine []
worker-IsSound_example = worker-IsSound copies 0 nine

-- Two goroutines that fail and read the slice before either of them writes it: one error is lost.
lost_error :
    Run copies (copy 9 ∷ copy 9 ∷ []) (copy 9 ∷ []) ((copy 9, appended) ∷ (copy 9, appended) ∷ [])
lost_error =
    next
      (next
        (next (next (next (next begin (here (fail refl))) (here read)) (there (here (fail refl))))
          (there (here read)))
        (here write))
      (there (here write))

Run-any_failed_example :
    ((any_failed copies (copy 9 ∷ copy 9 ∷ []) ≡ true) × (copy 9 ∷ [] ≢ []))
    ⊎ ((any_failed copies (copy 9 ∷ copy 9 ∷ []) ≡ false) × (copy 9 ∷ [] ≡ []))
Run-any_failed_example =
    Run-any_failed copies (copy 9 ∷ copy 9 ∷ []) (copy 9 ∷ [])
      ((copy 9, appended) ∷ (copy 9, appended) ∷ []) lost_error (tt, (tt, tt))

-- The edges 0 → 1, 0 → 2 and 1 → 2
abbrev triangle : ℕ → List ℕ
triangle zero = 1 ∷ 2 ∷ []
triangle (suc zero) = 2 ∷ []
triangle (suc (suc n)) = []

triangle-below : (u v : ℕ) → Memᴰ v (triangle u) → Memᴰ v (1 ∷ 2 ∷ [])
triangle-below zero v i = i
triangle-below (suc zero) v i = Memᴰ.tail i
triangle-below (suc (suc n)) v i = absurd (Memᴰ.not-nil i)

diamond : shortest_path (λ n. if n == 0 then 2 ∷ 1 ∷ [] else 3 ∷ []) 5 0 3 ≡ some (0 ∷ 2 ∷ 3 ∷ [])
unfolding shortest_path
diamond = refl

shortest_path-IsShortest_example :
    (p : List ℕ) × (shortest_path triangle 3 0 2 ≡ some p) × IsShortest triangle 0 2 p
shortest_path-IsShortest_example =
    shortest_path-IsShortest triangle (1 ∷ 2 ∷ []) 3 0 2 triangle-below (omega arith)

abbrev node : ℕ → Node digit_versions
node v = record { version = v; image = v ∷ []; metadata = [] }

abbrev edge : ℕ → ℕ → Edge
edge o d = record { origin = o; destination = d }

abbrev graph : Graph digit_versions
graph = record {
  nodes = node 410 ∷ node 411 ∷ node 412 ∷ [];
  edges = edge 0 1 ∷ edge 1 2 ∷ edge 0 2 ∷ [];
}

find_updates-IsShortest_example :
    IsFirst digit_versions 410 graph.nodes 0 (node 410)
    × IsFirst digit_versions 412 graph.nodes 2 (node 412)
    × ((p : List ℕ) × (us : List (Node digit_versions)) × (find_updates digit_versions graph 410 412
          ≡ ok (node 410, node 412, us))
        × IsShortest (successors graph.edges) 0 2 p
        × Picked graph.nodes p us)
unfolding find_version
find_updates-IsShortest_example =
    find_updates-IsShortest digit_versions graph 410 412 0 2 (node 410) (node 412) refl refl
      (omega arith, (omega arith, (omega arith, tt)))

abbrev no_filter : VersionFilter
no_filter = record {
  Regexp = Unit {0};
  filter = [];
  compile = λ s. none;
  match_string = λ r s. true;
}

min_or_max-IsEnd_example :
    (m : Node digit_versions) × (min_or_max digit_versions no_filter graph false ≡ ok m.version)
    × Memᴰ m graph.nodes
    × Passes digit_versions no_filter none m
    × ((k : Node digit_versions)
        → Memᴰ k graph.nodes
        → Passes digit_versions no_filter none k
        → IsEnd digit_versions false m.version k.version)
min_or_max-IsEnd_example =
    min_or_max-IsEnd digit_versions no_filter none graph false (node 410) refl (Memᴰ.head refl) tt

abbrev bounded : Str → Str → ReleaseChannel
bounded name max = record {
  name = name;
  platform_type = ocp;
  min_version = [];
  max_version = max;
  shortest_path = false;
  full = false;
}

abbrev two_channels : List ReleaseChannel
two_channels = bounded (codes "a") (codes "4.1.2") ∷ bounded (codes "b") (codes "4.2.0") ∷ []

find_release-IsEnd_example :
    (l : Str × ℕ) × (find_release digit_versions two_channels false ≡ ok l)
    × Memᴰ l ((codes "a", 412) ∷ (codes "b", 420) ∷ [])
    × ((j : Str × ℕ)
        → Memᴰ j ((codes "a", 412) ∷ (codes "b", 420) ∷ [])
        → IsEnd digit_versions false l.1 j.1)
unfolding find_releases
find_release-IsEnd_example =
    find_release-IsEnd digit_versions two_channels false ((codes "a", 412) ∷ (codes "b", 420) ∷ [])
      (codes "a", 412) refl (Memᴰ.head refl)

abbrev upstream : Upstream digit_versions
upstream = record {
  respond = λ c. body [];
  decode = λ b.
      some
        (record { nodes = graph.nodes; edges = (0 ∷ 1 ∷ []) ∷ (1 ∷ 2 ∷ []) ∷ (0 ∷ 2 ∷ []) ∷ [] });
}

abbrev client : Client
client = record {
  platform = ocp;
  id = codes "id";
  query = record { ids = []; archs = []; channels = []; versions = [] };
}

abbrev asked_client : Client
asked_client = record {
  platform = ocp;
  id = codes "id";
  query = record {
    ids = codes "id" ∷ [];
    archs = codes "amd64" ∷ [];
    channels = codes "stable-4.1" ∷ [];
    versions = [];
  };
}

handle_blocked_edges-Mem_example :
    (blocked : Bool) × (handle_blocked_edges digit_versions upstream
        (codes "amd64")
        (codes "stable-4.1")
        411
        client
      ≡ (ok blocked, asked_client))
    × ((blocked ≡ false) ↔ (
        (m : Node digit_versions) × Memᴰ m graph.nodes
        × (eq_version digit_versions m.version 411 ≡ true)))
unfolding query_graph
handle_blocked_edges-Mem_example =
    handle_blocked_edges-Mem digit_versions upstream (codes "amd64") (codes "stable-4.1") 411 client
      asked_client graph (node 410) refl (Memᴰ.head refl)

set_query_params-Asked_example :
    Asked client
      ((codes "amd64", codes "stable-4.1", []) ∷ (codes "amd64", codes "stable-4.2", []) ∷ [])
      (set_all
        ((codes "amd64", codes "stable-4.1", []) ∷ (codes "amd64", codes "stable-4.2", []) ∷ [])
        client)
set_query_params-Asked_example =
    set_query_params-Asked
      ((codes "amd64", codes "stable-4.1", []) ∷ (codes "amd64", codes "stable-4.2", []) ∷ [])
      client refl

-- The images of 410 and 411, and the first of them again under another version
abbrev upgrades : List (Node digit_versions)
upgrades = node 410 ∷ node 411 ∷ record { version = 412; image = 410 ∷ []; metadata = [] } ∷ []

keep_first-Distinct_example :
    Distinct digit_versions (keep_first digit_versions [] upgrades)
    × ((w : Node digit_versions) → Memᴰ w (keep_first digit_versions [] upgrades) → Memᴰ w upgrades)
    × ((u : Node digit_versions)
        → Memᴰ u upgrades
        → (w : Node digit_versions) × Memᴰ w (keep_first digit_versions [] upgrades)
          × (w.image ≡ u.image))
keep_first-Distinct_example = keep_first-Distinct digit_versions upgrades
