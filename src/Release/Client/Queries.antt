-- ===== src/Release/Client/Queries.antt =====
-- What a client asks after several calls of `SetQueryParams`.
use mathlib.Core.List.{append_assoc, append-nil}
use golang_fb_mirror.Base.{
  ◌≡◌, refl, ap, sym, ◌∙◌, List, [], ◌∷◌, ◌++◌, ◌==◌, ℕ_eq, List_eq, if◌then◌else◌, subst,
}
use golang_fb_mirror.Base.Text.{Str}
use golang_fb_mirror.Release.Client.{ocp, Client, add_param, set_query_for, set_query_params}

-- The arguments of one call: the architecture, the channel and the version.
abbrev pub Call : Type 0
Call = Str × Str × Str

abbrev pub set_all : List Call → Client → Client
set_all [] c = c
set_all ((arch, channel, version) ∷ calls) c =
    set_all calls (set_query_params c arch channel version)

abbrev pub nonempty : List Str → List Str
nonempty [] = []
nonempty (s ∷ ss) = if s == [] then nonempty ss else s ∷ nonempty ss

abbrev pub archs_of : List Call → List Str
archs_of [] = []
archs_of ((arch, channel, version) ∷ calls) = arch ∷ archs_of calls

abbrev pub channels_of : List Call → List Str
channels_of [] = []
channels_of ((arch, channel, version) ∷ calls) = channel ∷ channels_of calls

abbrev pub versions_of : List Call → List Str
versions_of [] = []
versions_of ((arch, channel, version) ∷ calls) = version ∷ versions_of calls

set_ocp :
    (c : Client) (arch channel version : Str)
    → c.platform ≡ ocp
    → set_query_params c arch channel version ≡ set_query_for ocp c arch channel version
unfolding set_query_params
set_ocp c arch channel version h = ap (λ p. set_query_for p c arch channel version) h

add_param-nonempty :
    (values ss : List Str) (s : Str)
    → add_param values s ++ nonempty ss ≡ values ++ nonempty (s ∷ ss)
unfolding add_param
add_param-nonempty values ss [] = refl
add_param-nonempty values ss (b ∷ s) = append_assoc values ((b ∷ s) ∷ []) (nonempty ss)

-- The values under the three keys, once the calls are over.
abbrev pub Asked : Client → List Call → Client → Type 0
Asked c calls c' =
    (c'.query.archs ≡ c.query.archs ++ nonempty (archs_of calls))
    × (c'.query.channels ≡ c.query.channels ++ nonempty (channels_of calls))
    × (c'.query.versions ≡ c.query.versions ++ nonempty (versions_of calls))

asked-ocp :
    (c : Client) (arch channel version : Str)
    → (set_query_for ocp c arch channel version).platform ≡ c.platform
unfolding set_query_for
asked-ocp c arch channel version = refl

-- An OCP client keeps what it was asked before: after any sequence of calls of `SetQueryParams`
-- its URL holds, under each of the keys arch, channel and version, the values of all calls in
-- order, except for the empty ones.
pub set_query_params-Asked :
    (calls : List Call) (c : Client) → c.platform ≡ ocp → Asked c calls (set_all calls c)
unfolding set_query_for
set_query_params-Asked [] c h = (sym (append-nil _), sym (append-nil _), sym (append-nil _))
set_query_params-Asked ((arch, channel, version) ∷ calls) c h =
    let c1 = set_query_for ocp c arch channel version in
    let (a, b, d) = set_query_params-Asked calls c1 h in
    subst (λ x. Asked c ((arch, channel, version) ∷ calls) (set_all calls x))
      (sym (set_ocp c arch channel version h))
      (
        a ∙ add_param-nonempty c.query.archs (archs_of calls) arch,
        b ∙ add_param-nonempty c.query.channels (channels_of calls) channel,
        d ∙ add_param-nonempty c.query.versions (versions_of calls) version,
      )
