-- ===== src/Options/System.antt =====
-- The options of the command line (pkg/mirror/options.go) and the settings that `NewSystemContext`
-- makes of them for the packages of containers/image.
pub mod Conflicts
use golang_fb_mirror.Base.{
  ℕ, Bool, true, false, not, ◌&&◌, Option, none, some, [], if◌then◌else◌, Result, ok, err, ◌>>=◌,
  credentials_conflict, password_missing, username_missing,
}
use golang_fb_mirror.Base.Text.{Str, codes}
use golang_fb_mirror.Options.{parse_creds}

-- `GlobalOptions`; a `CommandTimeout` below zero is as good as none.
pub record GlobalOptions : Type 0 where
  pub log_level : Str
  pub tls_verify : Bool
  pub policy_path : Str
  pub insecure_policy : Bool
  pub registries_dir_path : Str
  pub override_arch : Str
  pub override_os : Str
  pub override_variant : Str
  pub command_timeout : ℕ
  pub registries_conf_path : Str
  pub tmp_dir : Str
  pub dir : Str
  pub config_path : Str
  pub release_from : Str
  pub operators_from : Str
  pub additional_from : Str
  pub quiet : Bool
  pub force : Bool

-- `imageOptions` with the `dockerImageOptions` in it, and the two options that it only reads of
-- `SharedImageOptions` and of `DeprecatedTLSVerifyOption`, the latter `none` for a nil pointer.
pub record ImageOptions : Type 0 where
  pub global : GlobalOptions
  pub shared_auth_file_path : Str
  pub deprecated_tls_verify : Option (Option Bool)
  pub auth_file_path : Option Str
  pub creds_option : Option Str
  pub user_name : Option Str
  pub password : Option Str
  pub registry_token : Option Str
  pub docker_cert_path : Str
  pub tls_verify : Option Bool
  pub no_creds : Bool
  pub shared_blob_dir : Str
  pub docker_daemon_host : Str

-- `types.DockerAuthConfig`, by the fields that are set
pub record AuthConfig : Type 0 where
  pub username : Str
  pub password : Str

-- `types.SystemContext`, by the fields that are set
pub record SystemContext : Type 0 where
  pub registries_dir_path : Str
  pub architecture_choice : Str
  pub os_choice : Str
  pub variant_choice : Str
  pub system_registries_conf_path : Str
  pub big_files_temporary_dir : Str
  pub docker_registry_user_agent : Str
  pub docker_insecure_skip_tls_verify : Option Bool
  pub docker_cert_path : Str
  pub oci_shared_blob_dir_path : Str
  pub auth_file_path : Str
  pub docker_daemon_host : Str
  pub docker_daemon_cert_path : Str
  pub docker_daemon_insecure_skip_tls_verify : Bool
  pub docker_auth_config : Option AuthConfig
  pub docker_bearer_registry_token : Str

-- `defaultUserAgent`
abbrev pub default_user_agent : Str
default_user_agent = codes "skopeo/v.19.5"

-- `x.Present()`
abbrev pub present {ℓ} : {A : Type ℓ} → Option A → Bool
present none = false
present (some a) = true

-- `if x.Present() { … = x.Value() }` on top of another value
abbrev pub or_else {ℓ} : {A : Type ℓ} → Option A → A → A
or_else none a = a
or_else (some b) a = b

-- `NewSystemContext` of the global options
unfoldable pub global_context : GlobalOptions → SystemContext
global_context g = record {
  registries_dir_path = g.registries_dir_path;
  architecture_choice = g.override_arch;
  os_choice = g.override_os;
  variant_choice = g.override_variant;
  system_registries_conf_path = g.registries_conf_path;
  big_files_temporary_dir = g.tmp_dir;
  docker_registry_user_agent = default_user_agent;
  docker_insecure_skip_tls_verify = if g.tls_verify then none else some true;
  docker_cert_path = [];
  oci_shared_blob_dir_path = [];
  auth_file_path = [];
  docker_daemon_host = [];
  docker_daemon_cert_path = [];
  docker_daemon_insecure_skip_tls_verify = false;
  docker_auth_config = none;
  docker_bearer_registry_token = [];
}

-- A TLS option asks for a check, the context for skipping it.
abbrev pub skip_of : Option Bool → Option Bool → Option Bool
skip_of none skip = skip
skip_of (some verify) skip = some (not verify)

abbrev pub deprecated_of : Option (Option Bool) → Option Bool
deprecated_of none = none
deprecated_of (some o) = o

-- `getDockerAuth`
unfoldable pub get_docker_auth : Str → Result AuthConfig
unfolding parse_creds
get_docker_auth creds = parse_creds creds >>= λ up. ok (record { username = up.0; password = up.1 })

-- The login that `--creds`, or the user name and the password, give.
unfoldable pub given_auth : Option Str → Option Str → Option Str → Result (Option AuthConfig)
unfolding get_docker_auth
given_auth (some creds) name password = get_docker_auth creds >>= λ auth. ok (some auth)
given_auth none (some name) password =
    ok (some (record { username = name; password = or_else password [] }))
given_auth none none password = ok none

-- The login of the context, with the checks in the order of the source, for `--creds`, the user
-- name, the password and `--no-creds`.
unfoldable pub choose_auth :
    Option Str → Option Str → Option Str → Bool → Result (Option AuthConfig)
unfolding given_auth
choose_auth creds name password no_creds =
    if present creds && no_creds
    then err credentials_conflict
    else if present name && no_creds
    then err credentials_conflict
    else if present creds && present name
    then err credentials_conflict
    else if present name && not (present password)
    then err password_missing
    else if present password && not (present name)
    then err username_missing
    else (given_auth creds name password >>= λ auth.
        ok (if no_creds then some (record { username = []; password = [] }) else auth))

-- What does not depend on the credentials.
unfoldable pub base_context : ImageOptions → SystemContext
unfolding global_context
base_context o =
    let ctx = global_context o.global in
    let skip =
      skip_of (deprecated_of o.deprecated_tls_verify) ctx.docker_insecure_skip_tls_verify in
    record ctx {
      docker_cert_path = o.docker_cert_path;
      oci_shared_blob_dir_path = o.shared_blob_dir;
      auth_file_path = or_else o.auth_file_path o.shared_auth_file_path;
      docker_daemon_host = o.docker_daemon_host;
      docker_daemon_cert_path = o.docker_cert_path;
      docker_daemon_insecure_skip_tls_verify =
          or_else (skip_of o.tls_verify none) ctx.docker_daemon_insecure_skip_tls_verify;
      docker_insecure_skip_tls_verify = skip_of o.tls_verify skip;
      docker_bearer_registry_token = or_else o.registry_token [];
    }

-- `NewSystemContext` of the options of an image
unfoldable pub new_system_context : ImageOptions → Result SystemContext
unfolding base_context choose_auth
new_system_context o = choose_auth o.creds_option o.user_name o.password o.no_creds >>= λ auth.
    ok (record (base_context o) { docker_auth_config = auth })
