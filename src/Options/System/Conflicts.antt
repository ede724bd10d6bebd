-- ===== src/Options/System/Conflicts.antt =====
-- Which credentials and TLS options `NewSystemContext` accepts, and what it makes of them.
use golang_fb_mirror.Base.{
  ◌≡◌, refl, ok-inj, ap, sym, ◌∙◌, subst, ◌↔◌, Bool, true, false, not, Option, none, some, [], ok,
  arith, bind-eq-ok, if◌then◌else◌,
}
use golang_fb_mirror.Base.Text.{Str}
use golang_fb_mirror.Options.{parse_creds}
use golang_fb_mirror.Options.System.{
  ImageOptions, AuthConfig, SystemContext, get_docker_auth, given_auth, choose_auth, base_context,
  new_system_context, global_context, skip_of, deprecated_of,
}

-- The four ways to log in, by `--creds`, the user name, the password and `--no-creds`.
pub data Login : Option Str → Option Str → Option Str → Bool → Option AuthConfig → Type 0 where
  anonymous : Login none none none true (some (record { username = []; password = [] }))
  by_creds :
      {creds name password : Str}
      → parse_creds creds ≡ ok (name, password)
      → Login (some creds) none none false (some (record { username = name; password = password }))
  by_name :
      {name password : Str}
      → Login none
          (some name)
          (some password)
          false
          (some (record { username = name; password = password }))
  unset : Login none none none false none

creds-Login :
    (creds : Str) (auth : Option AuthConfig)
    → choose_auth (some creds) none none false ≡ ok auth
    → Login (some creds) none none false auth
unfolding choose_auth
creds-Login creds auth h =
    let (a, h1, e1) = bind-eq-ok (given_auth (some creds) none none) _ h in
    let (b, h2, e2) = bind-eq-ok (get_docker_auth creds) _ (unfold given_auth in h1) in
    let (up, h3, e3) = bind-eq-ok (parse_creds creds) _ (unfold get_docker_auth in h2) in
    subst (Login (some creds) none none false) (ap some (ok-inj e3) ∙ ok-inj e2 ∙ ok-inj e1)
      (by_creds {creds = creds} {name = up.0} {password = up.1} h3)

choose_auth-Login :
    (creds name password : Option Str) (no_creds : Bool) (auth : Option AuthConfig)
    → choose_auth creds name password no_creds ≡ ok auth
    → Login creds name password no_creds auth
unfolding choose_auth
choose_auth-Login none none none true auth h =
    subst (Login none none none true) (ok-inj h) anonymous
choose_auth-Login none none none false auth h = subst (Login none none none false) (ok-inj h) unset
choose_auth-Login none none (some p) true auth h = ground arith
choose_auth-Login none none (some p) false auth h = ground arith
choose_auth-Login none (some n) none true auth h = ground arith
choose_auth-Login none (some n) none false auth h = ground arith
choose_auth-Login none (some n) (some p) true auth h = ground arith
choose_auth-Login none (some n) (some p) false auth h =
    subst (Login none (some n) (some p) false) (ok-inj h) by_name
choose_auth-Login (some c) none none true auth h = ground arith
choose_auth-Login (some c) none none false auth h = creds-Login c auth h
choose_auth-Login (some c) none (some p) true auth h = ground arith
choose_auth-Login (some c) none (some p) false auth h = ground arith
choose_auth-Login (some c) (some n) p true auth h = ground arith
choose_auth-Login (some c) (some n) p false auth h = ground arith

Login-choose_auth :
    (creds name password : Option Str) (no_creds : Bool) (auth : Option AuthConfig)
    → Login creds name password no_creds auth
    → choose_auth creds name password no_creds ≡ ok auth
unfolding choose_auth
Login-choose_auth _ _ _ _ _ anonymous = refl
Login-choose_auth _ _ _ _ _ (by_creds h) = rw (choose_auth, h) refl
Login-choose_auth _ _ _ _ _ by_name = refl
Login-choose_auth _ _ _ _ _ unset = refl

-- Whether the check of certificates is skipped, by the image's option, the deprecated one and the
-- global one.
pub data Skips : Option Bool → Option Bool → Bool → Option Bool → Type 0 where
  by_image :
      {verify : Bool} {old : Option Bool} {all : Bool}
      → Skips (some verify) old all (some (not verify))
  by_deprecated : {verify all : Bool} → Skips none (some verify) all (some (not verify))
  by_global : Skips none none false (some true)
  checked : Skips none none true none

skip_of_all : Option Bool → Option Bool → Bool → Option Bool
skip_of_all new old all = skip_of new (skip_of old (if all then none else some true))

skip_of_all-Skips :
    (new old : Option Bool) (all : Bool) → Skips new old all (skip_of_all new old all)
unfolding skip_of_all
skip_of_all-Skips (some v) old all = by_image
skip_of_all-Skips none (some v) all = by_deprecated
skip_of_all-Skips none none true = checked
skip_of_all-Skips none none false = by_global

Skips-skip_of_all :
    (new old : Option Bool) (all : Bool) (skip : Option Bool)
    → Skips new old all skip
    → skip_of_all new old all ≡ skip
unfolding skip_of_all
Skips-skip_of_all _ _ _ _ by_image = refl
Skips-skip_of_all _ _ _ _ by_deprecated = refl
Skips-skip_of_all _ _ _ _ by_global = refl
Skips-skip_of_all _ _ _ _ checked = refl

base_context-skip :
    (o : ImageOptions)
    → (base_context o).docker_insecure_skip_tls_verify
      ≡ skip_of_all o.tls_verify (deprecated_of o.deprecated_tls_verify) o.global.tls_verify
unfolding base_context global_context skip_of_all
base_context-skip o = refl

-- `NewSystemContext` succeeds exactly for the four ways to log in: anonymously, by credentials that
-- parse, by a user name and a password, or without a login; each excludes the others, and the
-- context has the login given. The check of certificates follows the option of the image; without
-- it the deprecated option; without both it is skipped unless the global option asks for it.
pub new_system_context-Login :
    (o : ImageOptions) (auth : Option AuthConfig) (skip : Option Bool)
    → (Login o.creds_option o.user_name o.password o.no_creds auth
        × Skips o.tls_verify (deprecated_of o.deprecated_tls_verify) o.global.tls_verify skip)
      ↔ ((ctx : SystemContext) × (new_system_context o ≡ ok ctx)
          × (ctx.docker_auth_config ≡ auth)
          × (ctx.docker_insecure_skip_tls_verify ≡ skip))
unfolding new_system_context
new_system_context-Login o auth skip =
    let old = deprecated_of o.deprecated_tls_verify in
    (
      λ (l, s). (
        record (base_context o) { docker_auth_config = auth },
        rw (Login-choose_auth _ _ _ _ auth l) refl,
        refl,
        base_context-skip o ∙ Skips-skip_of_all o.tls_verify old o.global.tls_verify skip s,
      ),
      λ (ctx, h, e, s).
          let (a, h1, e1) =
            bind-eq-ok (choose_auth o.creds_option o.user_name o.password o.no_creds) _ h in
          (
            choose_auth-Login o.creds_option o.user_name o.password o.no_creds auth
                (h1 ∙ ap ok (ap (λ (c : SystemContext). c.docker_auth_config) (ok-inj e1) ∙ e)),
            subst (Skips o.tls_verify old o.global.tls_verify)
                (sym (base_context-skip o)
                  ∙ ap (λ (c : SystemContext). c.docker_insecure_skip_tls_verify) (ok-inj e1)
                  ∙ s)
                (skip_of_all-Skips o.tls_verify old o.global.tls_verify),
          ),
    )
