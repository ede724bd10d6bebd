-- ===== src/Release/Client/Asking.antt =====
-- The calls of `SetQueryParams` that an action makes on its client.
use golang_fb_mirror.Base.{
  ◌≡◌, refl, sym, ap, ◌∙◌, Bool, true, false, List, [], ◌∷◌, ◌++◌, if◌then◌else◌, Result, ok, err,
  panic, out_of_fuel, Result-cases, is_value, is_error, is_panic, is_out_of_fuel,
}
use golang_fb_mirror.Base.Text.{Str}
use golang_fb_mirror.Semver.{Semver}
use golang_fb_mirror.Release.Client.{
  Client, Upstream, M, continue, lift, ◌>>=◌, query_graph, get_graph_data, set_query_params,
}
use golang_fb_mirror.Release.Client.Queries.{Call, set_all}

pub set_all-append :
    (calls more : List Call) (c : Client)
    → set_all (calls ++ more) c ≡ set_all more (set_all calls c)
set_all-append [] more c = refl
set_all-append ((arch, channel, version) ∷ calls) more c =
    set_all-append calls more (set_query_params c arch channel version)

-- The client is what the calls make of the one before.
abbrev pub Made : List Call → Client → Client → Type 0
Made calls c c' = c' ≡ set_all calls c

pub record Asks {ℓ} {A : Type ℓ} (m : M A) : Type 0 where
  pub asked : (c : Client) → (calls : List Call) × Made calls c (m c).1

-- The first call is known.
pub record AsksFirst {ℓ} {A : Type ℓ} (call : Call) (m : M A) : Type 0 where
  pub asked_first : (c : Client) → (calls : List Call) × Made (call ∷ calls) c (m c).1

pub Made-trans :
    (calls more : List Call) (c c' c'' : Client)
    → Made calls c c'
    → Made more c' c''
    → Made (calls ++ more) c c''
Made-trans calls more c c' c'' h k = k ∙ ap (set_all more) h ∙ sym (set_all-append calls more c)

pub Asks-lift {ℓ} : {A : Type ℓ} (r : Result A) → Asks (lift r)
Asks-lift r = record { asked = λ c. ([], refl) }

pub Asks-if {ℓ} : {A : Type ℓ} (b : Bool) (m n : M A) → Asks m → Asks n → Asks (if b then m else n)
Asks-if true m n h k = h
Asks-if false m n h k = k

module _ {ℓ κ} {A : Type ℓ} {B : Type κ} where
  Asks-continue :
      (r : Result A) (f : A → M B)
      → ((a : A) → Asks (f a))
      → (c : Client) → (calls : List Call) × Made calls c (continue r f c).1
  Asks-continue (ok a) f h c = (h a).asked c
  Asks-continue (err e) f h c = ([], refl)
  Asks-continue panic f h c = ([], refl)
  Asks-continue out_of_fuel f h c = ([], refl)

  pub Asks-bind : (m : M A) (f : A → M B) → Asks m → ((a : A) → Asks (f a)) → Asks (m >>= f)
  Asks-bind m f h k = record {
    asked = λ c.
        let (calls, e) = h.asked c in
        let (more, e') = Asks-continue (m c).0 f k (m c).1 in
        (calls ++ more, Made-trans calls more c (m c).1 ((m >>= f) c).1 e e');
  }

  pub AsksFirst-bind :
      (call : Call) (m : M A) (f : A → M B)
      → AsksFirst call m
      → ((a : A) → Asks (f a))
      → AsksFirst call (m >>= f)
  AsksFirst-bind call m f h k = record {
    asked_first = λ c.
        let (calls, e) = h.asked_first c in
        let (more, e') = Asks-continue (m c).0 f k (m c).1 in
        (calls ++ more, Made-trans (call ∷ calls) more c (m c).1 ((m >>= f) c).1 e e');
  }

pub AsksFirst-Asks {ℓ} : {A : Type ℓ} (call : Call) (m : M A) → AsksFirst call m → Asks m
AsksFirst-Asks call m h = record {
  asked = λ c. let (calls, e) = h.asked_first c in (call ∷ calls, e);
}

pub query_graph-AsksFirst :
    (sv : Semver) (up : Upstream sv) (arch channel version : Str)
    → AsksFirst (arch, channel, version) (query_graph sv up arch channel version)
unfolding query_graph
query_graph-AsksFirst sv up arch channel version = record {
  asked_first = λ c.
      elim (Result-cases (get_graph_data sv up (set_query_params c arch channel version))) [
        | is_value g e ↦ ([], rw (query_graph, e) refl)
        | is_error x e ↦ ([], rw (query_graph, e) refl)
        | is_panic e ↦ ([], rw (query_graph, e) refl)
        | is_out_of_fuel e ↦ ([], rw (query_graph, e) refl)
      ];
}
