-- ===== src/Tests/Program.antt =====
-- The program as a whole at a concrete configuration: one additional image, copied to disk; and two
-- channels whose bounds are asked for with one client.
use golang_fb_mirror.Base.{
  ◌≡◌, refl, true, false, some, none, List, [], ◌∷◌, ◌++◌, ok, not, if◌then◌else◌, ◌==◌, ℕ_eq,
  List_eq, Bool, Error, api_request, invalid_request, foreign,
}
use golang_fb_mirror.Base.Text.{Str, codes}
use golang_fb_mirror.Api.{Mirror, ReleaseChannel, PlatformConfig}
use golang_fb_mirror.Release.Client.Queries.{Call, set_all}
use golang_fb_mirror.Release.Downloads.{get_release_reference_images}
use golang_fb_mirror.Release.Downloads.Shared.{AreAsked, get_release_reference_images-AreAsked}
use golang_fb_mirror.Batch.{CopyImage, any_failed}
use golang_fb_mirror.Collect.Files.{mirror_to_disk}
use golang_fb_mirror.Release.Client.{bad_url, ocp}
use golang_fb_mirror.Cli.Run.{Executor, State, run, release, operators, additional}
use golang_fb_mirror.Cli.Program.{Environment, parts_of, collect_images}
use golang_fb_mirror.Cli.Program.Copied.{run-Copied}
use golang_fb_mirror.Tests.Versions.{digit_versions}

-- A disk as the list of its directories.
abbrev has_dir : Str → List Str → Bool
has_dir d [] = false
has_dir d (e ∷ dirs) = if e == d then true else has_dir d dirs

abbrev one_image : Mirror
one_image = record {
  platform = record { graph = false; channels = []; architectures = []; release = [] };
  operators = [];
  additional_images = record { name = codes "quay.io/ns/a:v1" } ∷ [];
  helm = record { repositories = []; local = [] };
  blocked_images = [];
  samples = [];
}

abbrev environment : Environment
environment = record {
  sv = digit_versions;
  upstream = record { respond = λ c. bad_url; decode = λ b. none };
  version_filter = record {
    Regexp = Unit {0};
    filter = [];
    compile = λ s. none;
    match_string = λ r s. false;
  };
  parse_range = λ r. none;
  client = record {
    platform = ocp;
    id = codes "1";
    query = record { ids = []; archs = []; channels = []; versions = [] };
  };
  new_ocp_client = none;
  files = record {
    State = List Str;
    missing = λ dirs d. not (has_dir d dirs);
    mkdir_all = λ dirs d. some (d ∷ dirs);
    index_dirs = λ dirs d r. [];
  };
  manifests = record {
    get_image_index = λ dir s. ok none;
    get_image_manifest = λ file s. ok none;
    get_operator_config = λ file s. ok none;
    get_related_images_from_catalog = λ path label s. ok [];
    get_related_images_from_catalog_by_filter = λ path label packages mp s. ok [];
    extract_layers_oci = λ from to label o s. (ok tt, s);
    get_release_schema = λ path s. ok [];
  };
  tree = record { walk = λ s dir. []; matches = λ r path. false; dir_of = λ path. path };
  copier = λ source destination s. (ok tt, s);
  read_signature = λ s path. [];
  get = λ url s. (none, s);
  read_message = λ bytes. none;
  decode_content = λ body. none;
  write_signature = λ path bytes s. s;
  read_config = λ s path. (one_image, none);
  remove_dir = λ dir s. s;
  fresh_name = codes "abcdef";
  copies = λ c. true;
}

abbrev to_disk : Executor
to_disk = record {
  config = one_image;
  config_path = codes "isc.yaml";
  mode = mirror_to_disk;
  destination = codes "dir://out";
  dir = codes "working-dir/out";
}

abbrev nothing_yet : State (parts_of environment 1)
unfolding parts_of
nothing_yet = record { world = []; trace = [] }

run-Copied_example :
    (w1 : List Str) × (a : List CopyImage) × (w2 : List Str) × (b : List CopyImage) × (w3 : List
      Str)
    × (c : List CopyImage) × (w4 : List Str) × (collect_images environment 1 release to_disk w1
        ≡ (ok a, w2))
    × (collect_images environment 1 operators to_disk w2 ≡ (ok b, w3))
    × (collect_images environment 1 additional to_disk w3 ≡ (ok c, w4))
    × (any_failed (λ (c' : CopyImage). true) ((a ++ b) ++ c) ≡ false)
run-Copied_example =
    run-Copied environment 1 to_disk nothing_yet
      (run (parts_of environment 1) to_disk nothing_yet).1 (unfold run parts_of in refl)

abbrev headless : Str → ReleaseChannel
headless name = record {
  name = name;
  platform_type = ocp;
  min_version = [];
  max_version = [];
  shortest_path = false;
  full = false;
}

abbrev two_channels : PlatformConfig
two_channels = record {
  graph = false;
  channels = headless (codes "stable-4.1") ∷ headless (codes "stable-4.2") ∷ [];
  architectures = codes "amd64" ∷ [];
  release = [];
}

abbrev no_answer : Error
no_answer = api_request invalid_request

get_release_reference_images-AreAsked_example :
    (calls : List Call) × ((get_release_reference_images digit_versions environment.upstream
        environment.version_filter environment.parse_range none false 1 two_channels
        environment.client).1
      ≡ set_all calls environment.client)
    × AreAsked digit_versions environment.upstream environment.version_filter
        environment.parse_range none false 1
        (codes "amd64")
        calls
        two_channels.channels
get_release_reference_images-AreAsked_example =
    get_release_reference_images-AreAsked digit_versions environment.upstream
      environment.version_filter environment.parse_range none false 1 two_channels (codes "amd64")
      [] environment.client ([], no_answer ∷ no_answer ∷ foreign 7 ∷ []) refl
      (unfold get_release_reference_images in refl)
