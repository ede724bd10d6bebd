-- ===== src/Release/Signatures/Checks.antt =====
-- What the signatures of a release are checked for.
use golang_fb_mirror.Base.{
  ◌≡◌, refl, sym, ap, ◌∙◌, subst, Bool, true, false, Option, none, some, List, [], ◌∷◌, ◌++◌, ◌==◌,
  List_eq, ℕ_eq, Result, ok, err, index, bind-eq-ok, ok-inj, Bool-cases, inl, inr, arith,
  no_signature,
}
use mathlib.Core.List.{append_assoc}
use golang_fb_mirror.Base.Text.{Str, codes, split}
use golang_fb_mirror.Base.Action.{resume, resume-eq-ok}
use golang_fb_mirror.Base.Action.Logs.{append_nil}
use golang_fb_mirror.Batch.{CopyImage}
use golang_fb_mirror.Release.Signatures.{Message, Verifier, reference_of, deref, decoded, not_nil}
use golang_fb_mirror.Release.Signatures.Fetch.{
  signed_source, signature_data, store, generate_release_signatures, signature_file,
}

-- The images with the references of messages that were found for their digests.
module _ (v : Verifier) where
  pub data Signed : List CopyImage → List CopyImage → Type 0 where
    all_signed : Signed [] []
    signed :
        {image : CopyImage} {rd imgs : List CopyImage} {reference : Str} (digest bytes : Str)
        (md : Message)
        → index (split image.source (codes ":")) 1 ≡ ok digest
        → (bytes == []) ≡ false
        → v.read_message bytes ≡ some md
        → md.has_signature_v3 ≡ true
        → md.has_signed_by ≡ true
        → v.decode_content md.unverified_body ≡ some (some reference)
        → Signed rd imgs
        → Signed
            (image ∷ rd)
            (record { source = reference; destination = image.destination } ∷ imgs)

  deref-some : {A : Type 0} (o : Option A) (a : A) → deref o ≡ ok a → o ≡ some a
  deref-some none a h = absurd (ground arith)
  deref-some (some b) a h = ap some (ok-inj h)

  decoded-some : (o : Option (Option Str)) (r : Str) → decoded o ≡ ok r → o ≡ some (some r)
  decoded-some none r h = absurd (ground arith)
  decoded-some (some o) r h = ap some (deref-some o r h)

  not_nil-true : (b : Bool) (u : Unit {0}) → not_nil b ≡ ok u → b ≡ true
  not_nil-true true u h = refl
  not_nil-true false u h = absurd (ground arith)

  -- What is known of bytes that give a reference.
  abbrev pub Readable : Str → Str → Type 0
  Readable bytes reference =
      (md : Message) × (v.read_message bytes ≡ some md)
      × (md.has_signature_v3 ≡ true)
      × (md.has_signed_by ≡ true)
      × (v.decode_content md.unverified_body ≡ some (some reference))

  reference_of-Readable :
      (bytes reference : Str) → reference_of v bytes ≡ ok reference → Readable bytes reference
  unfolding reference_of
  reference_of-Readable bytes reference h =
      let (md, h1, k1) = bind-eq-ok (deref (v.read_message bytes)) _ h in
      let (u, h2, k2) = bind-eq-ok (not_nil md.has_signature_v3) _ k1 in
      let (r, h3, k3) = bind-eq-ok (decoded (v.decode_content md.unverified_body)) _ k2 in
      let (u', h4, k4) = bind-eq-ok (not_nil md.has_signed_by) _ k3 in
      (
        md,
        deref-some (v.read_message bytes) md h1,
        not_nil-true md.has_signature_v3 u h2,
        not_nil-true md.has_signed_by u' h4,
        decoded-some (v.decode_content md.unverified_body) reference (h3 ∙ k4),
      )

  module _ (global_dir : Str) where
    pub store-empty :
        (digest bytes : Str) (s : v.State)
        → (bytes == []) ≡ true
        → store v global_dir digest bytes s ≡ (err no_signature, s)
    unfolding store
    store-empty digest bytes s n = rw (store, n) refl

    pub store-full :
        (digest bytes : Str) (s : v.State)
        → (bytes == []) ≡ false
        → store v global_dir digest bytes s
          ≡ resume
              (reference_of v bytes, s)
              (λ reference s'.
                (ok reference, v.write_file (signature_file v global_dir digest) bytes s'))
    unfolding store
    store-full digest bytes s n = rw (store, n) refl

    store-Readable :
        (digest bytes reference : Str) (s s' : v.State)
        → store v global_dir digest bytes s ≡ (ok reference, s')
        → ((bytes == []) ≡ false) × Readable bytes reference
    store-Readable digest bytes reference s s' h = elim (Bool-cases (bytes == [])) [
      | inl n ↦
          let e = ap (λ (x : Result Str × v.State). x.0) (sym (store-empty digest bytes s n) ∙ h) in
          absurd (ground (arith, e))
      | inr n ↦
          let (r, s1, e1, k1) =
            resume-eq-ok (reference_of v bytes, s) _ (sym (store-full digest bytes s n) ∙ h) in
          (
            n,
            reference_of-Readable bytes reference (
                ap (λ (x : Result Str × v.State). x.0) e1
                ∙ ap (λ (x : Result Str × v.State). x.0) k1),
          )
    ]

    signed_source-Readable :
        (source reference : Str) (s s' : v.State)
        → signed_source v global_dir source s ≡ (ok reference, s')
        → (digest : Str) × (bytes : Str) × (index (split source (codes ":")) 1 ≡ ok digest)
          × ((bytes == []) ≡ false)
          × Readable bytes reference
    unfolding signed_source
    signed_source-Readable source reference s s' h =
        let (digest, s1, e1, k1) = resume-eq-ok (index (split source (codes ":")) 1, s) _ h in
        let (bytes, s2, e2, k2) = resume-eq-ok (signature_data v global_dir digest s1) _ k1 in
        let (nonempty, r) = store-Readable digest bytes reference s2 s' k2 in
        (digest, bytes, ap (λ (x : Result Str × v.State). x.0) e1, nonempty, r)

    generate-Signed :
        (rd result imgs : List CopyImage) (s s' : v.State)
        → generate_release_signatures v global_dir rd result s ≡ (ok imgs, s')
        → (new : List CopyImage) × (imgs ≡ result ++ new) × Signed rd new
    unfolding generate_release_signatures
    generate-Signed [] result imgs s s' h = (
      [],
      sym (ok-inj (ap (λ (x : Result (List CopyImage) × v.State). x.0) h)) ∙ append_nil result,
      all_signed,
    )
    generate-Signed (image ∷ rd) result imgs s s' h =
        let (reference, s1, e1, k1) =
          resume-eq-ok (signed_source v global_dir image.source s) _ h in
        let (digest, bytes, d, n, (md, m, v3, by, c)) =
          signed_source-Readable image.source reference s s1 e1 in
        let img : CopyImage = record { source = reference; destination = image.destination } in
        let (new, e, sg) = generate-Signed rd (result ++ img ∷ []) imgs s1 s' k1 in
        (img ∷ new, e ∙ append_assoc result (img ∷ []) new, signed digest bytes md d n m v3 by c sg)

    -- If `GenerateReleaseSignatures` returns without an error, it gives one image for each release,
    -- in their order: the reference that the body of an OpenPGP message names, where the message
    -- has a signature of version 3 and a key of the program as its signer. That the signature is
    -- valid, or that the body is about the digest, is not part of it.
    pub generate_release_signatures-Signed :
        (rd imgs : List CopyImage) (s s' : v.State)
        → generate_release_signatures v global_dir rd [] s ≡ (ok imgs, s')
        → Signed rd imgs
    generate_release_signatures-Signed rd imgs s s' h =
        let (new, e, sg) = generate-Signed rd [] imgs s s' h in subst (Signed rd) (sym e) sg
