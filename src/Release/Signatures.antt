-- ===== src/Release/Signatures.antt =====
-- What `GenerateReleaseSignatures` (pkg/release/cincinnati.go) reads of a signature.
pub mod Fetch
pub mod Checks
pub mod Unverified
use golang_fb_mirror.Base.{
  Bool, true, false, Option, none, some, Result, ok, err, panic, ◌>>=◌, signature_content_invalid,
}
use golang_fb_mirror.Base.Text.{Str}

-- `openpgp.MessageDetails`, by what the program reads: flags, the body, and whether the pointers are
-- not nil.
pub record Message : Type 0 where
  pub is_signed : Bool
  pub unverified_body : Str
  pub signature_error : Bool
  pub has_signed_by : Bool
  pub has_signature_v3 : Bool

-- The cache of signatures, the server, OpenPGP and JSON. The state is abstract.
pub record Verifier : Type 1 where
  pub State : Type 0
  -- os.ReadFile, an empty list for an error
  pub read_file : State → Str → Str
  -- httpClient.Do for a URL: `none` for an error, else whether the status is 200, and the body
  pub get : Str → State → Option (Bool × Str) × State
  -- openpgp.ReadMessage with the keys of the program, `none` for an error and a nil pointer
  pub read_message : Str → Option Message
  -- the `docker-reference` of a `SignatureContentSchema`, `some none` for the JSON `null`
  pub decode_content : Str → Option (Option Str)
  -- os.WriteFile, whose error is only logged
  pub write_file : Str → Str → State → State

abbrev pub deref {ℓ} : {A : Type ℓ} → Option A → Result A
deref none = panic
deref (some a) = ok a

abbrev pub decoded : Option (Option Str) → Result Str
decoded none = err signature_content_invalid
decoded (some reference) = deref reference

-- A read through a pointer, by whether it is not nil
abbrev pub not_nil : Bool → Result (Unit {0})
not_nil true = ok tt
not_nil false = panic

-- The image that the bytes of a signature name. Only nil pointers and the JSON end the reading: an
-- error of the signature is logged.
unfoldable pub reference_of : Verifier → Str → Result Str
reference_of v bytes = do
  md ← deref (v.read_message bytes)
  _ ← not_nil md.has_signature_v3
  reference ← decoded (v.decode_content md.unverified_body)
  _ ← not_nil md.has_signed_by
  ok reference
