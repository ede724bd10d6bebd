-- ===== src/Tests/Collectors.antt =====
-- The theorems on batches and collectors at concrete inputs.
use golang_fb_mirror.Base.{
  arith, ap, subst, ==_iff, Bool-cases, inl, inr, ◌≡◌, ◌⊎◌, refl, Bool, true, false, none, some,
  List, [], ◌∷◌, ok, if◌then◌else◌, ◌==◌, ℕ_eq, List_eq, not,
}
use golang_fb_mirror.Base.Text.{Str, codes}
use golang_fb_mirror.Base.Action.{resume}
use golang_fb_mirror.Api.{Operator, RelatedImage, ImageRef}
use golang_fb_mirror.Batch.{CopyImage, done, failed, any_failed, worker}
use golang_fb_mirror.Batch.Race.{
  failing, copied, Run, begin, next, here, there, fail, succeed, AllFit, Written, Run-invariant,
}
use golang_fb_mirror.Batch.Copies.Reference.{worker-any_failed}
use golang_fb_mirror.Names.{custom_image_parser}
use golang_fb_mirror.Collect.Files.{Files, mirror_to_disk}
use golang_fb_mirror.Collect.Interfaces.{ManifestInterface, OciSchema, OciManifest, Copier, Tree}
use golang_fb_mirror.Collect.Operators.{compare_operators, convert_bundles, convert_images}
use golang_fb_mirror.Collect.Operators.Steps.{Makes}
use golang_fb_mirror.Collect.Operators.Cached.{Converted, convert_images-Converted}
use golang_fb_mirror.Collect.Operators.Again.{convert_images-again}
use golang_fb_mirror.Collect.Operators.Twin.{convert_images-twin}
use golang_fb_mirror.Collect.Catalogs.{read_catalog, read_catalogs, operator_image_collector}
use golang_fb_mirror.Collect.Catalogs.Last.{operator_image_collector-last}
use golang_fb_mirror.Collect.Releases.Loop.{visit_components}
use golang_fb_mirror.Collect.Releases.Walk.{Walked, visit_components-Walked}

abbrev copy_named : Str → CopyImage
copy_named s = record { source = s; destination = s }

-- Only the image `x` cannot be copied.
abbrev copies : CopyImage → Bool
copies c = not (c.source == codes "x")

abbrev pair : List CopyImage
pair = copy_named (codes "x") ∷ copy_named (codes "y") ∷ []

-- One goroutine has failed and the other one is done.
half_done :
    Run copies pair [] ((copy_named (codes "x"), failing) ∷ (copy_named (codes "y"), copied) ∷ [])
half_done = next (next begin (here (fail refl))) (there (here (succeed refl)))

Run-invariant_example :
    AllFit copies [] ((copy_named (codes "x"), failing) ∷ (copy_named (codes "y"), copied) ∷ [])
    × Written copies [] ((copy_named (codes "x"), failing) ∷ (copy_named (codes "y"), copied) ∷ [])
    × (pair ≡ pair)
Run-invariant_example =
    Run-invariant copies pair []
      ((copy_named (codes "x"), failing) ∷ (copy_named (codes "y"), copied) ∷ []) half_done

worker-any_failed_example :
    (worker copies 2 pair).0 ≡ (if any_failed copies pair then failed else done)
worker-any_failed_example = worker-any_failed copies 0 pair

-- A disk as the list of its directories.
abbrev has_dir : Str → List Str → Bool
has_dir d [] = false
has_dir d (e ∷ dirs) = if e == d then true else has_dir d dirs

abbrev files : Files
files = record {
  State = List Str;
  missing = λ dirs d. not (has_dir d dirs);
  mkdir_all = λ dirs d. some (d ∷ dirs);
  index_dirs = λ dirs d r. [];
}

has_dir_self : (d : Str) (dirs : List Str) → has_dir d (d ∷ dirs) ≡ true
has_dir_self d dirs = let h : (d == d) ≡ true = ground (arith, ==_iff d d) in rw h refl

has_dir-more : (d e : Str) (dirs : List Str) → has_dir d dirs ≡ true → has_dir d (e ∷ dirs) ≡ true
has_dir-more d e dirs h = elim (Bool-cases (e == d)) [ inl q ↦ rw q refl | inr q ↦ rw (q, h) refl ]

not-false : (b : Bool) → not b ≡ false → b ≡ true
not-false true h = refl
not-false false h = absurd (ground (arith, h))

some-inj : (s t : List Str) → some s ≡ some t → s ≡ t
some-inj s t h = ground (arith, h)

files-Makes : Makes files
files-Makes = record {
  made = λ s s' d h.
      subst (λ t. not (has_dir d t) ≡ false) (some-inj (d ∷ s) s' h) (ap not (has_dir_self d s));
  kept = λ s s' d e h m.
      subst (λ t. not (has_dir e t) ≡ false) (some-inj (d ∷ s) s' h)
        (ap not (has_dir-more e d s (not-false (has_dir e s) m)));
}

abbrev related : Str → Str → RelatedImage
related name image = record { name = name; image = image }

abbrev ref_of : Str → Str → Str → ImageRef
ref_of repository namespace component = record {
  repository = repository;
  namespace = namespace;
  component = component;
}

convert_images-twin_example :
    convert_images files
      (codes "abcdef")
      (codes "dir")
      (codes "op.v1")
      (related (codes "a") (codes "quay.io/ns/a") ∷ related (codes "b") (codes "quay.io/ns/b") ∷ [])
      []
      []
    ≡ convert_images files
        (codes "abcdef")
        (codes "dir")
        (codes "op.v1")
        (related (codes "a") (codes "quay.io/ns/a") ∷ [])
        []
        []
convert_images-twin_example =
    convert_images-twin files (codes "abcdef") files-Makes (codes "dir") (codes "op.v1")
      (related (codes "a") (codes "quay.io/ns/a")) (related (codes "b") (codes "quay.io/ns/b")) []
      (ref_of (codes "quay.io") (codes "ns") (codes "a"))
      (ref_of (codes "quay.io") (codes "ns") (codes "b")) [] [] (unfold custom_image_parser in refl)
      (unfold custom_image_parser in refl) refl

abbrev copied_image : CopyImage
copied_image = record {
  source = codes "docker://quay.io/ns/a";
  destination = codes "dir:dir/op.v1/ns/a";
}

convert_images-Converted_example :
    Converted files
      (codes "abcdef")
      files-Makes
      (codes "dir")
      (codes "op.v1")
      (related (codes "a") (codes "quay.io/ns/a") ∷ [])
      []
      []
      (copied_image ∷ [])
      (codes "dir/op.v1/ns" ∷ [])
convert_images-Converted_example =
    convert_images-Converted files (codes "abcdef") files-Makes (codes "dir") (codes "op.v1")
      (related (codes "a") (codes "quay.io/ns/a") ∷ []) [] [] (copied_image ∷ [])
      (codes "dir/op.v1/ns" ∷ []) (unfold convert_images in refl)

abbrev blob : OciManifest
blob = record { media_type = []; digest = codes "sha256:1"; size = 1 }

abbrev oci : OciSchema
oci = record {
  schema_version = 2;
  media_type = [];
  manifests = blob ∷ [];
  config = blob;
  layers = [];
}

-- Every catalog has one bundle with one image.
abbrev manifests : ManifestInterface (List Str)
manifests = record {
  get_image_index = λ dir s. ok (some oci);
  get_image_manifest = λ file s. ok (some oci);
  get_operator_config = λ file s. ok (some (codes "configs"));
  get_related_images_from_catalog =
      λ path label s. ok ((path, related (codes "a") (codes "quay.io/ns/a") ∷ []) ∷ []);
  get_related_images_from_catalog_by_filter = λ path label packages mp s. ok [];
  extract_layers_oci = λ from to label o s. (ok tt, s);
  get_release_schema = λ path s. ok [];
}

abbrev copier : Copier (List Str)
copier source destination s = (ok tt, s)

abbrev tree : Tree (List Str)
tree = record { walk = λ s dir. []; matches = λ r path. true; dir_of = λ path. path }

abbrev catalog : Str → Operator
catalog name = record {
  packages = [];
  catalog = name;
  target_name = [];
  target_tag = [];
  full = false;
  skip_dependencies = false;
  original_ref = [];
}

operator_image_collector-last_example :
    operator_image_collector files manifests copier
      (codes "wd")
      tree
      (codes "dir://o")
      (codes "abcdef")
      mirror_to_disk
      (catalog (codes "r/one:v1") ∷ catalog (codes "r/two:v1") ∷ [])
      []
    ≡ resume
        (read_catalogs files manifests copier
          (codes "wd")
          []
          (catalog (codes "r/one:v1") ∷ [])
          ([], [])
          [])
        (λ _ s.
          resume
            (read_catalog files manifests copier (codes "wd") [] (catalog (codes "r/two:v1")) s)
            (λ found. convert_bundles files (codes "abcdef") found.0 found.1 []))
unfolding compare_operators
operator_image_collector-last_example =
    operator_image_collector-last files manifests copier (codes "wd") tree (codes "dir://o")
      (codes "abcdef") (catalog (codes "r/one:v1") ∷ []) (catalog (codes "r/two:v1")) []

visit_components-Walked_example :
    ((found : List CopyImage) × (visit_components files manifests copier
          (codes "wd")
          tree
          (codes "docker://reg")
          (related (codes "a") (codes "quay.io/ns/a") ∷ [])
          (some (codes "images/a") ∷ none ∷ [])
          []
        ≡ ok found)
      × Walked files manifests copier
          (codes "wd")
          tree
          (codes "docker://reg")
          (related (codes "a") (codes "quay.io/ns/a") ∷ [])
          (some (codes "images/a") ∷ none ∷ [])
          found)
    ⊎ (Unit {0}
        × (visit_components files manifests copier
              (codes "wd")
              tree
              (codes "docker://reg")
              (related (codes "a") (codes "quay.io/ns/a") ∷ [])
              (some (codes "images/a") ∷ none ∷ [])
              []
            ≡ ok []))
visit_components-Walked_example =
    visit_components-Walked files manifests copier (codes "wd") tree (codes "docker://reg")
      (related (codes "a") (codes "quay.io/ns/a") ∷ []) (some (codes "images/a") ∷ none ∷ [])

convert_images-again_example :
    convert_images files
      (codes "abcdef")
      (codes "dir")
      (codes "op.v1")
      (related (codes "a") (codes "quay.io/ns/a") ∷ [])
      []
      (codes "dir/op.v1/ns" ∷ [])
    ≡ (ok [], codes "dir/op.v1/ns" ∷ [])
convert_images-again_example =
    convert_images-again files (codes "abcdef") files-Makes (codes "dir") (codes "op.v1")
      (related (codes "a") (codes "quay.io/ns/a") ∷ []) (copied_image ∷ []) []
      (codes "dir/op.v1/ns" ∷ []) (unfold convert_images in refl)
