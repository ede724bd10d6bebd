-- ===== src/Base/Outcome.antt =====
-- What a Go function returns: a value, an error, or a run-time panic (an index out of range). A
-- loop that is modelled on fuel may also run out of it.
-- The text of an error is not modelled: an error names the return statement that made it.
use Prim.Native.Nat.{ℕ, zero, suc}
use mathlib.Core.Path.{◌≡◌, refl}
use mathlib.Core.List.{List, [], ◌∷◌}
use native.Mathlib.Omega.{arith}

pub data Error : Type 0 where
  -- an error of code outside the repository, by a number that the caller cannot read
  foreign : ℕ → Error
  -- release/core-cincinnati.go
  api_request : Error → Error
  version_not_found no_versions_found invalid_version_filter invalid_channel_name : Error
  invalid_request remote_failed response_failed response_invalid bad_edge : Error
  channel_info : Error → Error
  no_previous_release : Error
  -- release/cincinnati.go
  no_signature signature_content_invalid : Error
  -- manifest/oci-manifest.go
  bad_bundle_name bad_digest : Error
  -- api/v1alpha2/type_image.go
  invalid_image_type invalid_association : Error
  -- config
  duplicate_catalog duplicate_channel unknown_kind : Error
  invalid_configuration : Error → Error
  -- the parsers of image names
  bad_image_url : Error
  -- mirror/options.go and mirror.go
  empty_credentials empty_username unknown_format unknown_multi_arch : Error
  credentials_conflict password_missing username_missing : Error
  bad_trust_policy bad_source_name bad_destination_name bad_sign_identity : Error
  all_and_multi_arch encrypt_and_decrypt two_signers digest_not_written : Error
  -- an error of `Destroy`, and one after the error of the copy
  teardown_failed : Error → Error
  failed_before_teardown : Error → Error → Error
  -- mirror/unshare_linux.go
  no_capabilities : Error
  -- cli/executor.go
  no_config no_release_field no_dir_prefix bad_destination : Error
  -- operator/collector.go and release/collector.go
  no_manifests digest_without_sha256 index_not_found : Error
  release_error : Error → Error
  -- diff/diff.go
  no_current_isc : Error
  metadata_error check_diff_error : Error → Error

pub data Result {ℓ} (A : Type ℓ) : Type ℓ where
  ok : A → Result A
  err : Error → Result A
  panic : Result A
  -- the fuel of a loop of the model ran out
  out_of_fuel : Result A

infixl 5 ◌>>=◌ ◌>>◌
-- The rest of a function after a call that may end it.
abbrev pub ◌>>=◌ {κ ℓ} : {B : Type κ} {A : Type ℓ} → Result A → (A → Result B) → Result B
out_of_fuel >>= k = out_of_fuel
panic >>= k = panic
err e >>= k = err e
ok a >>= k = k a

abbrev pub ◌>>◌ {ℓ} : {B : Type ℓ} → Result (Unit {0}) → Result B → Result B
r >> rest = r >>= (λ u. rest)

-- `xs[i]`
unfoldable pub index {ℓ} : {A : Type ℓ} → List A → ℕ → Result A
index [] i = panic
index (x ∷ xs) zero = ok x
index (x ∷ xs) (suc i) = index xs i

pub ok-inj {ℓ} : {A : Type ℓ} {a b : A} → ok a ≡ ok b → a ≡ b
ok-inj h = ground arith

-- If a chain of two calls succeeds, both do.
pub bind-eq-ok {ℓ κ} :
    {A : Type ℓ} {B : Type κ} {b : B} (r : Result A) (k : A → Result B)
    → (r >>= k) ≡ ok b
    → (x : A) × (r ≡ ok x) × (k x ≡ ok b)
bind-eq-ok out_of_fuel k h = ground arith
bind-eq-ok panic k h = ground arith
bind-eq-ok (err e) k h = ground arith
bind-eq-ok (ok x) k h = (x, refl, h)

-- To split on a computed result and keep the equation.
pub data Outcome {ℓ} {A : Type ℓ} (r : Result A) : Type ℓ where
  is_value : (a : A) → r ≡ ok a → Outcome r
  is_error : (e : Error) → r ≡ err e → Outcome r
  is_panic : r ≡ panic → Outcome r
  is_out_of_fuel : r ≡ out_of_fuel → Outcome r

pub Result-cases {ℓ} : {A : Type ℓ} (r : Result A) → Outcome r
Result-cases (ok a) = is_value a refl
Result-cases (err e) = is_error e refl
Result-cases panic = is_panic refl
Result-cases out_of_fuel = is_out_of_fuel refl
