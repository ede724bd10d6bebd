-- ===== src/Mirror.antt =====
-- Copies of images (pkg/mirror/mirror.go): what `copy` checks before it starts. The packages of
-- containers/image and of the operating system are parameters.
pub mod Reexec
pub mod Copy
pub mod Session
use golang_fb_mirror.Base.{
  ℕ, Bool, true, false, Option, none, some, List, [], ◌∷◌, ◌==◌, List_eq, ℕ_eq, ltb, not, ◌&&◌,
  if◌then◌else◌, Result, ok, err, panic, out_of_fuel, Error, ◌>>=◌, bad_source_name,
  bad_destination_name, bad_sign_identity, all_and_multi_arch, encrypt_and_decrypt, two_signers,
  failed_before_teardown, teardown_failed,
}
use golang_fb_mirror.Base.Text.{Str}
use golang_fb_mirror.Options.{
  MediaType, Selection, system_image, all_images, parse_manifest_format, parse_multi_arch,
}
use golang_fb_mirror.Options.System.{GlobalOptions, ImageOptions, SystemContext, new_system_context}

-- `CopyOptions`, by the fields that `copy` and `delete` read; `none` is a nil pointer.
pub record CopyOptions : Type 0 where
  pub global : GlobalOptions
  pub deprecated_tls_verify : Option (Option Bool)
  pub src_image : ImageOptions
  pub dest_image : ImageOptions
  pub max_retry : ℕ
  pub sign_by_fingerprint : Str
  pub sign_by_sigstore_private_key : Str
  pub sign_passphrase_file : Str
  pub sign_identity : Str
  pub digest_file : Str
  pub format : Str
  pub all : Bool
  pub multi_arch : Str
  pub preserve_digests : Bool
  pub encryption_keys : List Str
  pub decryption_keys : List Str

-- What the packages outside offer: their state, references to images and signature policies.
pub record Outside : Type 1 where
  pub World : Type 0
  pub Ref : Type 0
  pub Named : Type 0
  pub Policy : Type 0
  pub PolicyContext : Type 0
  -- alltransports.ParseImageName and reference.ParseNamed, `none` for an error
  pub parse_image_name : World → Str → Option Ref
  pub parse_named : Str → Option Named
  -- cli.ReadPassphraseFile
  pub read_passphrase_file : World → Str → Result Str
  -- signature.NewPRInsecureAcceptAnything, DefaultPolicy and NewPolicyFromFile
  pub accept_anything : Policy
  pub default_policy : World → Result Policy
  pub policy_from_file : World → Str → Result Policy
  pub new_policy_context : Policy → World → Result PolicyContext × World
  pub destroy : PolicyContext → World → Result (Unit {0}) × World
  -- manifest.Digest and os.WriteFile
  pub digest : Str → Result Str
  pub write_file : Str → Str → World → Result (Unit {0}) × World

-- `copy.Options`, by the fields that are set; the report writer is left out.
pub record Settings (out : Outside) : Type 0 where
  pub remove_signatures : Bool
  pub sign_by : Str
  pub sign_passphrase : Str
  pub sign_by_sigstore_private_key_file : Str
  pub sign_sigstore_private_key_passphrase : Str
  pub sign_identity : Option out.Named
  pub source_ctx : SystemContext
  pub destination_ctx : SystemContext
  pub force_manifest_mime_type : Option MediaType
  pub image_list_selection : Selection
  pub preserve_digests : Bool

-- The arguments of `CopyImage`; the deadline of the context is `none` for no timeout.
pub record Plan (out : Outside) : Type 0 where
  pub deadline : Option ℕ
  pub dest_ref : out.Ref
  pub src_ref : out.Ref
  pub settings : Settings out

-- `NoteCloseFailure`
unfoldable pub note_close_failure : Option Error → Error → Error
note_close_failure none close_err = teardown_failed close_err
note_close_failure (some e) close_err = failed_before_teardown e close_err

-- `CommandTimeoutContext`
unfoldable pub command_timeout_context : GlobalOptions → Option ℕ
command_timeout_context g = if ltb 0 g.command_timeout then some g.command_timeout else none

-- `len(s) > 0` and `s != ""`
abbrev pub given : Str → Bool
given s = not (s == [])

abbrev pub given_keys : List Str → Bool
given_keys [] = false
given_keys (k ∷ ks) = true

abbrev pub or_error {ℓ} : {A : Type ℓ} → Option A → Error → Result A
or_error none e = err e
or_error (some a) e = ok a

abbrev pub check : Bool → Error → Result (Unit {0})
check bad e = if bad then err e else ok tt

-- The manifest type that `--format` asks for.
unfoldable pub manifest_type_of : Str → Result (Option MediaType)
unfolding parse_manifest_format
manifest_type_of format =
    if given format then (parse_manifest_format format >>= λ t. ok (some t)) else ok none

-- The images of a list that `--multi-arch` and `--all` select.
unfoldable pub selection_of : Str → Bool → Result Selection
unfolding parse_multi_arch
selection_of multi_arch all = check (given multi_arch && all) all_and_multi_arch >>= λ _.
    (if given multi_arch then parse_multi_arch multi_arch else ok system_image) >>= λ selection.
    ok (if all then all_images else selection)

module _ (out : Outside) (w : out.World) where
  unfoldable pub passphrase_of : CopyOptions → Result Str
  passphrase_of o =
      check
        (given o.sign_passphrase_file
          && (given o.sign_by_fingerprint && given o.sign_by_sigstore_private_key))
        two_signers
      >>= λ _.
          if given o.sign_passphrase_file
          then out.read_passphrase_file w o.sign_passphrase_file
          else ok []

  unfoldable pub sign_identity_of : Str → Result (Option out.Named)
  sign_identity_of identity =
      if given identity
      then (or_error (out.parse_named identity) bad_sign_identity >>= λ n. ok (some n))
      else ok none

  -- `copy` from the names of the images to `copy.Options`
  unfoldable pub prepare : Str → Str → CopyOptions → Result (Plan out)
  unfolding manifest_type_of selection_of passphrase_of sign_identity_of command_timeout_context
      new_system_context
  prepare src dest o = do
    src_ref ← or_error (out.parse_image_name w src) bad_source_name
    dest_ref ← or_error (out.parse_image_name w dest) bad_destination_name
    source_ctx ← new_system_context o.src_image
    destination_ctx ← new_system_context o.dest_image
    manifest_type ← manifest_type_of o.format
    selection ← selection_of o.multi_arch o.all
    _ ← check (given_keys o.encryption_keys && given_keys o.decryption_keys) encrypt_and_decrypt
    passphrase ← passphrase_of o
    identity ← sign_identity_of o.sign_identity
    ok (record {
      deadline = command_timeout_context o.global;
      dest_ref = dest_ref;
      src_ref = src_ref;
      settings = record {
        remove_signatures = true;
        sign_by = o.sign_by_fingerprint;
        sign_passphrase = passphrase;
        sign_by_sigstore_private_key_file = o.sign_by_sigstore_private_key;
        sign_sigstore_private_key_passphrase = passphrase;
        sign_identity = identity;
        source_ctx = source_ctx;
        destination_ctx = destination_ctx;
        force_manifest_mime_type = manifest_type;
        image_list_selection = selection;
        preserve_digests = o.preserve_digests;
      };
    })
