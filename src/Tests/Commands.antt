-- ===== src/Tests/Commands.antt =====
-- The theorems on options, copies and the command at concrete inputs.
use golang_fb_mirror.Base.{
  suc, ℕ, ◌≡◌, ◌⊎◌, ◌↔◌, refl, Bool, true, false, Option, none, some, List, [], ◌∷◌, ◌++◌, ok, err,
  foreign,
}
use golang_fb_mirror.Base.Text.{Str, codes}
use golang_fb_mirror.Base.Action.{Action}
use golang_fb_mirror.Base.Action.Logs.{Adds}
use golang_fb_mirror.Options.System.{
  GlobalOptions, ImageOptions, AuthConfig, SystemContext, new_system_context,
}
use golang_fb_mirror.Options.System.Conflicts.{Login, Skips, new_system_context-Login}
use golang_fb_mirror.Mirror.{Outside, CopyOptions}
use golang_fb_mirror.Mirror.Reexec.{Process}
use golang_fb_mirror.Mirror.Copy.{Registry, copy}
use golang_fb_mirror.Mirror.Session.{State, Tries, last, Session}
use golang_fb_mirror.Mirror.Session.Keeps.{copy-Session}
use golang_fb_mirror.Api.{Mirror}
use golang_fb_mirror.Batch.{CopyImage}
use golang_fb_mirror.Collect.Files.{mirror_to_disk, disk_to_mirror}
use golang_fb_mirror.Cli.{is_local, validate_config, validate_destination}
use golang_fb_mirror.Cli.Run
use golang_fb_mirror.Cli.Run.{Executor, Parts, removed, logs_dir, dirs_of, run, mirror_command}
use golang_fb_mirror.Cli.Run.Order.{Gathering, Prepared, run-Prepared}
use golang_fb_mirror.Cli.Run.Command.{mirror_command-runs}

abbrev globals : GlobalOptions
globals = record {
  log_level = codes "info";
  tls_verify = false;
  policy_path = [];
  insecure_policy = true;
  registries_dir_path = [];
  override_arch = [];
  override_os = [];
  override_variant = [];
  command_timeout = 0;
  registries_conf_path = [];
  tmp_dir = [];
  dir = codes "working-dir";
  config_path = codes "isc.yaml";
  release_from = [];
  operators_from = [];
  additional_from = [];
  quiet = false;
  force = false;
}

abbrev image_options : Option Str → Option Bool → ImageOptions
image_options creds tls = record {
  global = globals;
  shared_auth_file_path = [];
  deprecated_tls_verify = some none;
  auth_file_path = none;
  creds_option = creds;
  user_name = none;
  password = none;
  registry_token = none;
  docker_cert_path = [];
  tls_verify = tls;
  no_creds = false;
  shared_blob_dir = [];
  docker_daemon_host = [];
}

abbrev options : ImageOptions
options = image_options (some (codes "me:secret")) (some true)

abbrev auth : AuthConfig
auth = record { username = codes "me"; password = codes "secret" }

new_system_context-Login_example :
    (Login (some (codes "me:secret")) none none false (some auth)
      × Skips (some true) none false (some false))
    ↔ ((ctx : SystemContext) × (new_system_context options ≡ ok ctx)
        × (ctx.docker_auth_config ≡ some auth)
        × (ctx.docker_insecure_skip_tls_verify ≡ some false))
new_system_context-Login_example = new_system_context-Login options (some auth) (some false)

-- Packages that accept everything; the world counts the copies.
abbrev outside : Outside
outside = record {
  World = ℕ;
  Ref = Str;
  Named = Str;
  Policy = Unit {0};
  PolicyContext = Unit {0};
  parse_image_name = λ w name. some name;
  parse_named = λ name. some name;
  read_passphrase_file = λ w file. ok [];
  accept_anything = tt;
  default_policy = λ w. ok tt;
  policy_from_file = λ w file. ok tt;
  new_policy_context = λ p w. (ok tt, w);
  destroy = λ pc w. (ok tt, w);
  digest = λ bytes. ok (codes "sha256:" ++ bytes);
  write_file = λ file text w. (ok tt, w);
}

abbrev process : Process ℕ
process = record {
  effective = λ w. none;
  transport_name = λ name. some (codes "docker");
  unshare = λ w. w;
}

-- Without retries the operation is run once.
abbrev registry : Registry outside
registry = record {
  copy_image = λ pc plan w. (ok (codes "manifest"), suc w);
  delete_image = λ deadline ref sys w. (ok tt, w);
  if_necessary = λ deadline retries op s. op s;
}

registry-Tries :
    (deadline : Option ℕ) (retries : ℕ) (op : Action (State outside) (Unit {0})) (s : State outside)
    → Tries outside op s (registry.if_necessary deadline retries op s)
registry-Tries deadline retries op s = last

abbrev copy_options : CopyOptions
copy_options = record {
  global = globals;
  deprecated_tls_verify = some none;
  src_image = image_options none none;
  dest_image = options;
  max_retry = 0;
  sign_by_fingerprint = [];
  sign_by_sigstore_private_key = [];
  sign_passphrase_file = [];
  sign_identity = [];
  digest_file = codes "digest";
  format = codes "oci";
  all = true;
  multi_arch = [];
  preserve_digests = false;
  encryption_keys = [];
  decryption_keys = [];
}

abbrev start : State outside
start = record { world = 0; trace = [] }

copy-Session_example :
    Adds
      (Session outside (codes "docker://a/b") (codes "dir:c") copy_options)
      start
      (copy outside process registry (codes "docker://a/b") (codes "dir:c") copy_options start)
copy-Session_example =
    copy-Session outside process registry registry-Tries (codes "docker://a/b") (codes "dir:c")
      copy_options start

abbrev no_images : Mirror
no_images = record {
  platform = record {
    graph = false;
    channels = [];
    architectures = [];
    release = codes "dir://release";
  };
  operators = [];
  additional_images = [];
  helm = record { repositories = []; local = [] };
  blocked_images = [];
  samples = [];
}

abbrev image_a : CopyImage
image_a = record { source = codes "docker://a/b/c"; destination = codes "dir:c" }

-- Each collector finds one image, and the worker fails.
abbrev parts : Parts
parts = record {
  World = ℕ;
  read_config = λ w path. (no_images, none);
  collect = λ c ex w. (ok (image_a ∷ []), suc w);
  worker = λ images ex w. (err (foreign 1), w);
  make_dir = λ dir w. (ok tt, w);
  remove_dir = λ dir w. w;
}

abbrev executor : Executor
executor = record {
  config = no_images;
  config_path = codes "isc.yaml";
  mode = mirror_to_disk;
  destination = codes "dir://out";
  dir = codes "working-dir/out";
}

abbrev begin : Run.State parts
begin = record { world = 0; trace = [] }

run-Prepared_example :
    Adds
      (λ r t.
        (t' : List Run.Event) × (t ≡ removed logs_dir ∷ t')
        × Prepared
            (logs_dir ∷ dirs_of parts mirror_to_disk (codes "working-dir/out"))
            Gathering
            r
            t')
      begin
      (run parts executor begin)
run-Prepared_example = run-Prepared parts executor begin

mirror_command-runs_example :
    (ex : Executor) × (mirror_command parts (codes "isc.yaml") (codes "docker://reg") begin
      ≡ run parts ex begin)
    × (ex.config ≡ no_images)
    × (((is_local (codes "docker://reg") ≡ true)
          × (ex.mode ≡ mirror_to_disk)
          × ((part : Str) × (ex.dir ≡ codes "working-dir/" ++ part)))
        ⊎ ((is_local (codes "docker://reg") ≡ false)
            × (ex.mode ≡ disk_to_mirror)
            × (ex.dir ≡ codes "working-dir")
            × ((m : Mirror) × (parts.read_config 0 (codes "isc.yaml") ≡ (m, none))
                × (validate_config m ≡ ok tt))))
mirror_command-runs_example =
    mirror_command-runs parts (codes "isc.yaml") (codes "docker://reg") begin
      (unfold validate_destination in refl)
