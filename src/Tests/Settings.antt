-- ===== src/Tests/Settings.antt =====
-- The theorems on catalogs, configurations and image names at concrete inputs.
use mathlib.Core.List.{Memᴰ}
use golang_fb_mirror.Base.{
  arith, some, ℕ, ◌≡◌, ◌⊎◌, refl, Bool, true, false, some, List, [], ◌∷◌, ◌++◌, ◌+◌, ◌==◌, ==_iff,
  ℕ_eq, List_eq, invalid_configuration, duplicate_catalog, duplicate_channel, invalid_image_type,
  ok, err, length,
}
use golang_fb_mirror.Base.Text.{Str, codes}
use golang_fb_mirror.Tests.Versions.{digit_versions}
use golang_fb_mirror.Api.ImageTypes.{
  IsImageType, marshal_type, unmarshal_type, validate_type, marshal-unmarshal,
  type_cincinnati_graph,
}
use golang_fb_mirror.Api.{Image, ReleaseChannel, Operator, Mirror, ChannelEntry}
use golang_fb_mirror.Release.Client.{ocp}
use golang_fb_mirror.Manifest.Versions.{semver_find_max, entry_version}
use golang_fb_mirror.Manifest.Versions.Select.{AllBelow, Names, semver_find_max-IsMax}
use golang_fb_mirror.Base.Maps.{Map, lookup}
use golang_fb_mirror.Api.{DeclarativeConfig, RelatedImage, IscPackage}
use golang_fb_mirror.Manifest.Versions.Settles.{Settles, semver_find_max-Settles}
use golang_fb_mirror.Manifest.Related.{
  get_related_image_by_filter, get_related_image_by_default_channel, schema_of,
}
use golang_fb_mirror.Manifest.Related.Origin.{
  FromBundle, get_related_image_by_filter-FromBundle,
  get_related_image_by_default_channel-FromBundle,
}
use golang_fb_mirror.Config.Validate.{References, validate, get_unique_name}
use golang_fb_mirror.Config.Validate.Unique.{validate-Fresh, Fresh, channel_names}
use golang_fb_mirror.Diff.Sequence.{Item, write_metadata, get_previous_isc}
use golang_fb_mirror.Diff.Sequence.Current.{write-get, currents, isc_path}
use golang_fb_mirror.Diff.Changes.{previous, Images, compare_lists}
use golang_fb_mirror.Diff.Changes.Gone.{gone, gone_after, gone-compare_lists}
use golang_fb_mirror.Cli.{is_local, complete_mode}
use golang_fb_mirror.Names.Cuts.{Between}
use golang_fb_mirror.Cli.Destination.{complete_mode-returns}
use golang_fb_mirror.Collect.Files.{mirror_to_disk, disk_to_mirror}
use golang_fb_mirror.Options.{parse_creds}
use golang_fb_mirror.Options.Credentials.{parse_creds-parts}
use golang_fb_mirror.Base.{empty_credentials, empty_username}
use golang_fb_mirror.Names.{custom_image_parser}
use golang_fb_mirror.Names.Parts.{custom_image_parser-parts}

abbrev entry : Str → ChannelEntry
entry s = record { name = s }

abbrev entries : List ChannelEntry
entries = entry (codes "op.v1.0.2") ∷ entry (codes "op.v1.2.0") ∷ entry (codes "op.v1.1.9-3") ∷ []

semver_find_max-IsMax_example :
    (m : ChannelEntry) × (semver_find_max digit_versions entries ≡ ok m.name)
    × Memᴰ m entries
    × (((w : ℕ) × (entry_version digit_versions m ≡ ok w)
          × AllBelow digit_versions w (102 ∷ 120 ∷ 119 ∷ []))
        ⊎ ((m ≡ entry (codes "op.v1.0.2")) × AllBelow digit_versions 0 (102 ∷ 120 ∷ 119 ∷ [])))
unfolding entry_version
semver_find_max-IsMax_example =
    semver_find_max-IsMax digit_versions (entry (codes "op.v1.0.2"))
      (entry (codes "op.v1.2.0") ∷ entry (codes "op.v1.1.9-3") ∷ []) (102 ∷ 120 ∷ 119 ∷ [])
      (refl, (refl, (refl, tt)))

semver_find_max-Settles_example : Settles (semver_find_max digit_versions (entry (codes "op") ∷ []))
semver_find_max-Settles_example = semver_find_max-Settles digit_versions (entry (codes "op")) []

abbrev object : Str → Str → List ChannelEntry → List RelatedImage → DeclarativeConfig
object schema name entries images = record {
  schema = codes "olm." ++ schema;
  name = name;
  default_channel = codes "stable";
  entries = entries;
  related_images = images;
}

abbrev related : List RelatedImage
related = record { name = codes "op"; image = codes "quay.io/a/b" } ∷ []

abbrev catalog : List DeclarativeConfig
catalog =
    object (codes "package") (codes "op") [] []
    ∷ object (codes "channel") (codes "stable") entries []
    ∷ object (codes "bundle") (codes "op.v1.2.0") [] related
    ∷ []

abbrev any_package : IscPackage
any_package = record { channel = []; min_version = []; max_version = []; full = false }

get_related_image_by_filter-FromBundle_example :
    (m : Map Str (List RelatedImage)) × (get_related_image_by_filter digit_versions any_package
        catalog
      ≡ ok m)
    × ((k : Str) (images : List RelatedImage)
        → lookup k m ≡ some images
        → FromBundle catalog k images)
unfolding schema_of
get_related_image_by_filter-FromBundle_example =
    get_related_image_by_filter-FromBundle digit_versions any_package catalog
      ((λ c e. ground (arith, c)), ((λ c e. ground (arith, e)), ((λ c e. ground (arith, c)), tt)))

get_related_image_by_default_channel-FromBundle_example :
    (m : Map Str (List RelatedImage)) × (get_related_image_by_default_channel digit_versions catalog
      ≡ ok m)
    × ((k : Str) (images : List RelatedImage)
        → lookup k m ≡ some images
        → FromBundle catalog k images)
unfolding schema_of
get_related_image_by_default_channel-FromBundle_example =
    get_related_image_by_default_channel-FromBundle digit_versions catalog
      ((λ c e. ground (arith, c)), ((λ c e. ground (arith, e)), ((λ c e. ground (arith, c)), tt)))

catalog_images :
    get_related_image_by_default_channel digit_versions catalog
    ≡ ok ((codes "op.v1.2.0", related) ∷ [])
unfolding get_related_image_by_default_channel
catalog_images = refl

abbrev references : References
references = record {
  Reference = Str;
  parse = some;
  exact = λ r. r;
  set_name = λ n r. n;
  set_id = λ i r. r;
  set_tag = λ t r. r ++ (codes ":" ++ t);
}

abbrev channel : Str → ReleaseChannel
channel s = record {
  name = s;
  platform_type = ocp;
  min_version = [];
  max_version = [];
  shortest_path = false;
  full = false;
}

abbrev operator : Str → Operator
operator s = record {
  packages = [];
  catalog = s;
  target_name = [];
  target_tag = [];
  full = false;
  skip_dependencies = false;
  original_ref = [];
}

abbrev mirror : List Operator → Mirror
mirror operators = record {
  platform = record {
    graph = false;
    channels = channel (codes "stable-4.1") ∷ channel (codes "stable-4.1") ∷ [];
    architectures = [];
    release = [];
  };
  operators = operators;
  additional_images = [];
  helm = record { repositories = []; local = [] };
  blocked_images = [];
  samples = [];
}

abbrev two_catalogs : Mirror
two_catalogs = mirror (operator (codes "oci:///c") ∷ operator (codes "d") ∷ [])

validate-Fresh_example :
    ((validate references two_catalogs ≡ [])
      × Fresh [] (codes "c" ∷ codes "d" ∷ [])
      × Fresh [] (channel_names two_catalogs.platform.channels))
    ⊎ ((validate references two_catalogs ≡ invalid_configuration duplicate_catalog ∷ [])
        × (¬ Fresh [] (codes "c" ∷ codes "d" ∷ []))
        × Fresh [] (channel_names two_catalogs.platform.channels))
    ⊎ ((validate references two_catalogs ≡ invalid_configuration duplicate_channel ∷ [])
        × Fresh [] (codes "c" ∷ codes "d" ∷ [])
        × (¬ Fresh [] (channel_names two_catalogs.platform.channels)))
    ⊎ ((validate references two_catalogs
          ≡ invalid_configuration duplicate_catalog ∷ invalid_configuration duplicate_channel ∷ [])
        × (¬ Fresh [] (codes "c" ∷ codes "d" ∷ []))
        × (¬ Fresh [] (channel_names two_catalogs.platform.channels)))
unfolding get_unique_name
validate-Fresh_example =
    validate-Fresh references two_catalogs (codes "c" ∷ codes "d" ∷ []) (refl, (refl, tt))

validate-two : validate references two_catalogs ≡ invalid_configuration duplicate_channel ∷ []
unfolding validate
validate-two = refl

abbrev image : Str → Image
image s = record { name = s }

abbrev same_image : Image → Image → Bool
same_image a b = a.name == b.name

same_image-name : (c p : Image) → same_image c p ≡ true → c.name ≡ p.name
same_image-name c p h = (==_iff c.name p.name).0 h

abbrev gone_before : Images
gone_before = (codes "c", record { from = previous; found = false }) ∷ []

gone-compare_lists_example :
    gone (codes "c") (
      compare_lists
        (λ i. i.name)
        same_image
        (image (codes "a") ∷ image (codes "b") ∷ [])
        (image (codes "b") ∷ [])
        gone_before)
    ≡ gone_after
        (λ i. i.name)
        same_image
        (codes "c")
        (image (codes "a") ∷ image (codes "b") ∷ [])
        (image (codes "b") ∷ [])
        (gone (codes "c") gone_before)
gone-compare_lists_example =
    gone-compare_lists (λ i. i.name) same_image same_image-name (codes "c")
      (image (codes "a") ∷ image (codes "b") ∷ []) (image (codes "b") ∷ []) gone_before

abbrev first_item : Item
first_item = record {
  value = 0;
  timestamp = 7;
  imagesetconfig = codes "/.imagesetconfig-0.yaml";
  current = true;
  destination = codes "e";
}

abbrev digit : ℕ → Str
digit n = (48 + n) ∷ []

write-get_example :
    (get_previous_isc (write_metadata digit 9 (codes "dir") (codes "d") (first_item ∷ []))
      ≡ ok (codes "d", isc_path digit (codes "dir") 1))
    × ((i : Item) × (currents (write_metadata digit 9 (codes "dir") (codes "d") (first_item ∷ []))
          ≡ i ∷ [])
        × (i.imagesetconfig ≡ isc_path digit (codes "dir") 1))
    × (length (write_metadata digit 9 (codes "dir") (codes "d") (first_item ∷ [])) ≡ 2)
write-get_example = write-get digit 9 (codes "dir") (codes "d") (first_item ∷ [])

custom_image_parser-parts_example :
    (custom_image_parser (codes "quay.io/a/b")
      ≡ ok (record { repository = codes "quay.io"; namespace = codes "a"; component = codes "b" }))
    × (custom_image_parser (codes "quay.io/a/b@sha256:1")
        ≡ ok
            (record { repository = codes "quay.io"; namespace = codes "a"; component = codes "b" }))
custom_image_parser-parts_example =
    custom_image_parser-parts (codes "quay.io") (codes "a") (codes "b") (codes "sha256:1")
      (refl, (refl, (refl, (refl, (refl, (refl, (refl, tt))))))) (refl, tt) (refl, tt) (refl, tt)
      (refl, (refl, (refl, (refl, (refl, (refl, (refl, (refl, (refl, (refl, tt))))))))))

marshal-unmarshal_example :
    (IsImageType type_cincinnati_graph
      × (validate_type type_cincinnati_graph ≡ ok tt)
      × ((s : Str) × (marshal_type type_cincinnati_graph ≡ ok s)
          × (unmarshal_type s ≡ type_cincinnati_graph)))
    ⊎ (¬ IsImageType type_cincinnati_graph
        × (validate_type type_cincinnati_graph ≡ err invalid_image_type)
        × (marshal_type type_cincinnati_graph ≡ err invalid_image_type))
marshal-unmarshal_example = marshal-unmarshal type_cincinnati_graph

complete_mode-returns_example :
    ((is_local (codes "dir://out://x") ≡ true)
      × ((part : Str) × Between (codes "://") (codes "dir://out://x") part
          × (complete_mode (codes "dir://out://x")
              ≡ ok (mirror_to_disk, codes "working-dir/" ++ part))))
    ⊎ ((is_local (codes "dir://out://x") ≡ false)
        × (complete_mode (codes "dir://out://x") ≡ ok (disk_to_mirror, codes "working-dir")))
complete_mode-returns_example = complete_mode-returns (codes "dir://out://x")

parse_creds-parts_example :
    (parse_creds (codes "me") ≡ ok (codes "me", []))
    × (parse_creds (codes "me:a:b") ≡ ok (codes "me", codes "a:b"))
    × (parse_creds (codes ":a:b") ≡ err empty_username)
    × (parse_creds [] ≡ err empty_credentials)
parse_creds-parts_example = parse_creds-parts 109 (codes "e") (codes "a:b") (refl, (refl, tt))
