-- ===== src/Release/Client.antt =====
-- The Cincinnati clients (pkg/release/client.go) and the download of the update graph
-- (`getGraphData`). What the server answers, and how the JSON of a graph is read, are parameters.
pub mod Queries
pub mod Asking
use golang_fb_mirror.Base.{
  ℕ, Option, none, some, List, [], ◌∷◌, ◌++◌, ◌==◌, ℕ_eq, List_eq, if◌then◌else◌, Result, ok, err,
  panic, out_of_fuel, invalid_request, remote_failed, response_failed, response_invalid,
  api_request,
}
use golang_fb_mirror.Base.Text.{Str}
use golang_fb_mirror.Semver.{Semver}
use golang_fb_mirror.Release.Graph.{Node, Graph, Edge, edge_of_fields}

-- The query of the client's URL under the four keys that the program adds to.
pub record Query : Type 0 where
  pub ids : List Str
  pub archs : List Str
  pub channels : List Str
  pub versions : List Str

pub data Platform : Type 0 where
  ocp okd : Platform

pub record Client : Type 0 where
  pub platform : Platform
  pub id : Str
  pub query : Query

-- `if value != "" { queryParams.Add(key, value) }`
unfoldable pub add_param : List Str → Str → List Str
add_param values v = if v == [] then values else values ++ v ∷ []

-- `SetQueryParams` of the OCP client adds to the query that is there; that of the OKD client does
-- nothing.
unfoldable pub set_query_for : Platform → Client → Str → Str → Str → Client
unfolding add_param
set_query_for okd c arch channel version = c
set_query_for ocp c arch channel version = record c {
  query = record {
    ids = c.query.ids ++ c.id ∷ [];
    archs = add_param c.query.archs arch;
    channels = add_param c.query.channels channel;
    versions = add_param c.query.versions version;
  };
}

unfoldable pub set_query_params : Client → Str → Str → Str → Client
unfolding set_query_for
set_query_params c arch channel version = set_query_for c.platform c arch channel version

-- What comes back for a request.
pub data Reply : Type 0 where
  bad_url no_reply bad_status unreadable : Reply
  body : Str → Reply

-- A graph as its JSON gives it, each edge an array of indices.
pub record RawGraph (sv : Semver) : Type 0 where
  pub nodes : List (Node sv)
  pub edges : List (List ℕ)

-- The server and the JSON decoder. The server answers by the URL alone: during a run its graph
-- does not change.
pub record Upstream (sv : Semver) : Type 0 where
  pub respond : Client → Reply
  pub decode : Str → Option (RawGraph sv)

-- A method that may change the client's URL and may fail.
abbrev pub M {ℓ} : Type ℓ → Type ℓ
M A = Client → Result A × Client

module _ {ℓ κ} {A : Type ℓ} {B : Type κ} where
  abbrev pub continue : Result A → (A → M B) → M B
  continue (ok a) f c = f a c
  continue (err e) f c = (err e, c)
  continue panic f c = (panic, c)
  continue out_of_fuel f c = (out_of_fuel, c)

  infixl 5 ◌>>=◌
  abbrev pub ◌>>=◌ : M A → (A → M B) → M B
  ◌>>=◌ m f c = let (r, c') = m c in continue r f c'

abbrev pub lift {ℓ} : {A : Type ℓ} → Result A → M A
lift r c = (r, c)

-- `json.Unmarshal` reports the error of an edge as its own.
unfoldable pub read_edges : List (List ℕ) → Result (List Edge)
unfolding edge_of_fields
read_edges [] = ok []
read_edges (fields ∷ rest) = elim (edge_of_fields fields) [
  | ok e ↦ elim (read_edges rest) [ ok es ↦ ok (e ∷ es) | _ ↦ err response_invalid ]
  | _ ↦ err response_invalid
]

module _ (sv : Semver) (up : Upstream sv) where
  unfoldable pub read_graph : Str → Result (Graph sv)
  unfolding read_edges
  read_graph b = elim (up.decode b) [
    | none ↦ err response_invalid
    | some raw ↦ elim (read_edges raw.edges) [
      | ok es ↦ ok (record { nodes = raw.nodes; edges = es })
      | _ ↦ err response_invalid
    ]
  ]

  -- `getGraphData`
  unfoldable pub get_graph_data : Client → Result (Graph sv)
  unfolding read_graph
  get_graph_data c = elim (up.respond c) [
    | bad_url ↦ err invalid_request
    | no_reply ↦ err remote_failed
    | bad_status ↦ err response_failed
    | unreadable ↦ err response_failed
    | body b ↦ read_graph b
  ]

  -- `c.SetQueryParams(…)`, `getGraphData` and the error of its callers
  unfoldable pub query_graph : Str → Str → Str → M (Graph sv)
  unfolding set_query_params get_graph_data
  query_graph arch channel version c =
      let c' = set_query_params c arch channel version in
      elim (get_graph_data c') [
        | ok g ↦ (ok g, c')
        | err e ↦ (err (api_request e), c')
        | panic ↦ (panic, c')
        | out_of_fuel ↦ (out_of_fuel, c')
      ]
