-- ===== src/Tests/Records.antt =====
-- The theorems on signatures and metadata at concrete inputs.
use golang_fb_mirror.Base.{◌↔◌, ℕ, suc, ◌≡◌, refl, true, false, some, List, [], ◌∷◌, ok}
use golang_fb_mirror.Base.Text.{Str, codes}
use golang_fb_mirror.Api.{Mirror}
use golang_fb_mirror.Batch.{CopyImage}
use golang_fb_mirror.Release.Signatures.{Verifier}
use golang_fb_mirror.Release.Signatures.Fetch.{generate_release_signatures}
use golang_fb_mirror.Release.Signatures.Checks.{Signed, generate_release_signatures-Signed}
use golang_fb_mirror.Release.Signatures.Unverified.{trusting, generate_release_signatures-trusting}
use golang_fb_mirror.Diff.Sequence.{Item, write_metadata}
use golang_fb_mirror.Diff.Changes.{DeepEqual, DiffEntry, previous, to_delete}
use golang_fb_mirror.Diff.Changes.Deleted.{Deleted, to_delete_iff-Deleted}
use golang_fb_mirror.Diff.Delete.{
  SequenceSchema, Store, get_all_metadata, write_metadata_file, delete_images,
}
use golang_fb_mirror.Diff.Delete.History.{
  History, no_runs, one_more, AreNumbered, LastIsCurrent, History-AreNumbered,
}
use golang_fb_mirror.Diff.Delete.Effect.{delete_images-writes}

-- A server with one message, whose signature does not verify; the state counts the files written.
abbrev verifier : Verifier
verifier = record {
  State = ℕ;
  read_file = λ s path. [];
  get = λ url s. (some (true, codes "signature"), s);
  read_message = λ bytes. some (record {
    is_signed = true;
    unverified_body = codes "body";
    signature_error = true;
    has_signed_by = true;
    has_signature_v3 = true;
  });
  decode_content = λ body. some (some (codes "quay.io/release:1"));
  write_file = λ path bytes s. suc s;
}

abbrev unsigned : CopyImage
unsigned = record { source = codes "quay.io/release@sha256:ab"; destination = [] }

abbrev named : CopyImage
named = record { source = codes "quay.io/release:1"; destination = [] }

generate_release_signatures-Signed_example : Signed verifier (unsigned ∷ []) (named ∷ [])
generate_release_signatures-Signed_example =
    generate_release_signatures-Signed verifier (codes "wd") (unsigned ∷ []) (named ∷ []) 0 1
      (unfold generate_release_signatures in refl)

generate_release_signatures-trusting_example :
    generate_release_signatures (trusting verifier) (codes "wd") (unsigned ∷ []) [] 0
    ≡ generate_release_signatures verifier (codes "wd") (unsigned ∷ []) [] 0
generate_release_signatures-trusting_example =
    generate_release_signatures-trusting verifier (codes "wd") (unsigned ∷ []) [] 0

abbrev show : ℕ → Str
show n = codes "n"

abbrev one_item : List Item
one_item =
    record {
      value = 0;
      timestamp = 5;
      imagesetconfig = codes "wd/.imagesetconfig-n.yaml";
      current = true;
      destination = codes "oci:a";
    }
    ∷ []

one_run : History show (codes "wd") one_item
unfolding write_metadata
one_run = one_more 5 (codes "oci:a") no_runs

History-AreNumbered_example :
    AreNumbered show (codes "wd") 0 one_item × LastIsCurrent show (codes "wd") one_item
History-AreNumbered_example = History-AreNumbered show (codes "wd") one_item one_run

abbrev empty_config : Mirror
empty_config = record {
  platform = record { graph = false; channels = []; architectures = []; release = [] };
  operators = [];
  additional_images = [];
  helm = record { repositories = []; local = [] };
  blocked_images = [];
  samples = [];
}

abbrev last_config : Mirror
last_config = record empty_config {
  additional_images = record { name = codes "quay.io/ns/a" } ∷ [];
}

abbrev metadata : SequenceSchema
metadata = record { title = []; owner = []; items = one_item }

-- The state counts the files written; the last configuration has an image more.
abbrev store : Store
store = record {
  State = ℕ;
  decode_file = λ path s. ok metadata;
  encode_file = λ path sch s. (ok tt, suc s);
  read_config = λ path s. ok last_config;
  read_file = λ path s. ok [];
  write_file = λ path text s. (ok tt, suc s);
  same_config = λ c d. false;
  now = λ s. 7;
}

abbrev never_same : DeepEqual
never_same = record {
  channels = λ a b. false;
  operators = λ a b. false;
  packages = λ a b. false;
  images = λ a b. false;
}

delete_images-writes_example :
    (found : SequenceSchema) × (prev : Mirror) × (get_all_metadata store show never_same
        (codes "wd")
        0
      ≡ (ok (found, prev), 0))
    × (write_metadata_file store show never_same
          (codes "isc.yaml")
          (codes "wd")
          (codes "oci:a")
          found
          0
        ≡ (ok tt, 2))
delete_images-writes_example =
    delete_images-writes store show never_same false (codes "isc.yaml") (codes "wd") (codes "oci:a")
      empty_config 0 2 (unfold delete_images in refl)

-- An image and a channel of the last configuration alone.
abbrev gone_entry : DiffEntry
gone_entry = record { from = previous; found = false }

to_delete_iff-Deleted_example :
    (to_delete
        (codes "docker://r/")
        ((codes "quay.io/ns/a", gone_entry) ∷ (codes "stable-4.1", gone_entry) ∷ [])
      ≡ ok (codes "docker://r/ns/a" ∷ []))
    ↔ Deleted
        (codes "docker://r/")
        ((codes "quay.io/ns/a", gone_entry) ∷ (codes "stable-4.1", gone_entry) ∷ [])
        (codes "docker://r/ns/a" ∷ [])
to_delete_iff-Deleted_example =
    to_delete_iff-Deleted (codes "docker://r/")
      ((codes "quay.io/ns/a", gone_entry) ∷ (codes "stable-4.1", gone_entry) ∷ [])
      (codes "docker://r/ns/a" ∷ [])
