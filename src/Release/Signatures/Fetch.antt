-- ===== src/Release/Signatures/Fetch.antt =====
-- `GenerateReleaseSignatures` (pkg/release/cincinnati.go): the image of a release is replaced by
-- the one that its signature names.
use golang_fb_mirror.Base.{
  true, false, none, some, List, [], ◌∷◌, ◌++◌, ◌==◌, List_eq, ℕ_eq, if◌then◌else◌, Result, ok, err,
  panic, out_of_fuel, Error, index, no_signature,
}
use golang_fb_mirror.Base.Text.{Str, codes, split}
use golang_fb_mirror.Base.Action.{Action, ◌>>=◌, lift}
use golang_fb_mirror.Batch.{CopyImage}
use golang_fb_mirror.Release.Signatures.{Verifier, reference_of}

module _ (v : Verifier) (global_dir : Str) where
  abbrev pub signature_file : Str → Str
  signature_file digest = global_dir ++ (codes "/signatures/" ++ digest)

  abbrev pub signature_url : Str → Str
  signature_url digest =
      codes "https://mirror.openshift.com/pub/openshift-v4/signatures/openshift/release/"
      ++ (codes "sha256=" ++ (digest ++ codes "/signature-1"))

  -- The signature from the server; without a response the program reads through a nil pointer.
  unfoldable pub download : Str → Action v.State Str
  download digest s =
      let (reply, s') = v.get (signature_url digest) s in
      elim reply [
        | none ↦ (panic, s')
        | some (status_ok, body) ↦ (ok (if status_ok then body else []), s')
      ]

  -- The bytes of a signature, from the cache or the server.
  unfoldable pub signature_data : Str → Action v.State Str
  unfolding download
  signature_data digest s =
      let bytes = v.read_file s (signature_file digest) in
      elim (bytes == []) [ true ↦ download digest s | false ↦ (ok bytes, s) ]

  -- The reference of bytes that are not empty, which go to the cache.
  unfoldable pub store : Str → Str → Action v.State Str
  unfolding reference_of
  store digest bytes = elim (bytes == []) [
    | true ↦ lift (err no_signature)
    | false ↦ lift (reference_of v bytes) >>= λ reference s.
        (ok reference, v.write_file (signature_file digest) bytes s)
  ]

  -- The source of a release's image, by its digest
  unfoldable pub signed_source : Str → Action v.State Str
  unfolding signature_data store split index
  signed_source source = lift (index (split source (codes ":")) 1) >>= λ digest.
      signature_data digest >>= λ bytes. store digest bytes

  -- `GenerateReleaseSignatures`
  unfoldable pub generate_release_signatures :
      List CopyImage → List CopyImage → Action v.State (List CopyImage)
  unfolding signed_source
  generate_release_signatures [] imgs = lift (ok imgs)
  generate_release_signatures (image ∷ rd) imgs = signed_source image.source >>= λ reference.
      generate_release_signatures rd
        (imgs ++ record { source = reference; destination = image.destination } ∷ [])

  -- The end of `GetReleaseReferenceImages`, behind its loops: the errors are logged, and without
  -- signatures for all images there are no images.
  unfoldable pub signed_images :
      Result (List CopyImage × List Error) → Action v.State (List CopyImage)
  unfolding generate_release_signatures
  signed_images found = lift found >>= λ (all : List CopyImage × List Error) s.
      let (r, s') = generate_release_signatures all.0 [] s in
      elim r [
        | ok imgs ↦ (ok imgs, s')
        | err e ↦ (ok [], s')
        | panic ↦ (panic, s')
        | out_of_fuel ↦ (out_of_fuel, s')
      ]
