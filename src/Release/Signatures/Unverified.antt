-- ===== src/Release/Signatures/Unverified.antt =====
-- What the signatures of a release are not checked for.
use golang_fb_mirror.Base.{
  ◌≡◌, refl, sym, ap, ◌∙◌, true, false, Option, none, some, List, [], ◌∷◌, ◌++◌, ◌==◌, List_eq,
  ℕ_eq, ok, ◌>>=◌, index, Bool-cases, inl, inr,
}
use golang_fb_mirror.Base.Text.{Str, codes, split}
use golang_fb_mirror.Base.Action.{resume, resume-ext}
use golang_fb_mirror.Batch.{CopyImage}
use golang_fb_mirror.Release.Signatures.{Message, Verifier, reference_of, deref, decoded, not_nil}
use golang_fb_mirror.Release.Signatures.Fetch.{
  signed_source, signature_data, download, store, generate_release_signatures, signature_file,
}
use golang_fb_mirror.Release.Signatures.Checks.{store-empty, store-full}

-- A message without an error of its signature, and marked as signed.
abbrev pub trust : Option Message → Option Message
trust none = none
trust (some md) = some (record md { signature_error = false; is_signed = true })

-- The same packages, but with every message trusted.
abbrev pub trusting : Verifier → Verifier
trusting v = record v { read_message = λ bytes. trust (v.read_message bytes) }

module _ (v : Verifier) where
  reference_of-trusting : (bytes : Str) → reference_of (trusting v) bytes ≡ reference_of v bytes
  unfolding reference_of
  reference_of-trusting bytes = same (v.read_message bytes)
    where
      same :
          (o : Option Message)
          → (deref (trust o) >>= λ md. not_nil md.has_signature_v3 >>= λ _.
              decoded (v.decode_content md.unverified_body) >>= λ reference.
              not_nil md.has_signed_by >>= λ _. ok reference)
            ≡ (deref o >>= λ md. not_nil md.has_signature_v3 >>= λ _.
                decoded (v.decode_content md.unverified_body) >>= λ reference.
                not_nil md.has_signed_by >>= λ _. ok reference)
      same none = refl
      same (some md) = refl

  module _ (global_dir : Str) where
    store-trusting :
        (digest bytes : Str) (s : v.State)
        → store (trusting v) global_dir digest bytes s ≡ store v global_dir digest bytes s
    store-trusting digest bytes s = elim (Bool-cases (bytes == [])) [
      | inl n ↦
          store-empty (trusting v) global_dir digest bytes s n
          ∙ sym (store-empty v global_dir digest bytes s n)
      | inr n ↦
          store-full (trusting v) global_dir digest bytes s n
          ∙ ap
              (λ r.
                resume (r, s)
                  (λ reference s'.
                    (ok reference, v.write_file (signature_file v global_dir digest) bytes s')))
              (reference_of-trusting bytes)
          ∙ sym (store-full v global_dir digest bytes s n)
    ]

    signed_source-trusting :
        (source : Str) (s : v.State)
        → signed_source (trusting v) global_dir source s ≡ signed_source v global_dir source s
    unfolding signed_source signature_data download
    signed_source-trusting source s =
        resume-ext (index (split source (codes ":")) 1, s) _ _
          (λ digest s1.
            resume-ext (signature_data v global_dir digest s1) _ _
              (λ bytes s2. store-trusting digest bytes s2))

    -- If no message has an error of its signature, and all count as signed,
    -- `GenerateReleaseSignatures` does the same as with the messages as they are: it does not refuse
    -- a release whose signature does not verify.
    pub generate_release_signatures-trusting :
        (rd result : List CopyImage) (s : v.State)
        → generate_release_signatures (trusting v) global_dir rd result s
          ≡ generate_release_signatures v global_dir rd result s
    unfolding generate_release_signatures
    generate_release_signatures-trusting [] result s = refl
    generate_release_signatures-trusting (image ∷ rd) result s =
        ap
          (λ x. resume x (λ reference.
            generate_release_signatures (trusting v) global_dir rd
              (result ++ record { source = reference; destination = image.destination } ∷ [])))
          (signed_source-trusting image.source s)
        ∙ resume-ext (signed_source v global_dir image.source s) _ _ (λ reference s1.
          generate_release_signatures-trusting rd
            (result ++ record { source = reference; destination = image.destination } ∷ []) s1)
