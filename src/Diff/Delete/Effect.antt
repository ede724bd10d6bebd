-- ===== src/Diff/Delete/Effect.antt =====
-- What a run of `DeleteImages` changes.
use golang_fb_mirror.Base.{
  ℕ, ◌≡◌, refl, sym, ap, ◌∙◌, Bool, true, false, List, [], ◌∷◌, Result, ok, err, ◌++◌,
  metadata_error, check_diff_error, Bool-cases, inl, inr, ◌&&◌, not, arith, panic, out_of_fuel,
  Error,
}
use golang_fb_mirror.Base.Text.{Str, codes}
use golang_fb_mirror.Base.Action.{Action, resume, resume-eq-ok}
use golang_fb_mirror.Api.{Mirror}
use golang_fb_mirror.Diff.Sequence.{get_previous_isc}
use golang_fb_mirror.Diff.Changes.{DeepEqual, calculate_diff, to_delete}
use golang_fb_mirror.Diff.Delete.{
  Store, SequenceSchema, as_error, get_all_metadata, check_diff, delete_changed, delete_all,
  delete_image, write_metadata_file, delete_images, read_meta_data,
}

module _ (st : Store) (show : ℕ → Str) (same : DeepEqual) where
  delete_all-nop :
      (images : List Str) (s : st.State) → delete_all st show same images s ≡ (ok tt, s)
  unfolding delete_all delete_image
  delete_all-nop [] s = refl
  delete_all-nop (image ∷ images) s = delete_all-nop images s

  delete_changed-yes :
      (force : Bool) (dest : Str) (prev cfg : Mirror) (changed : Bool) (s : st.State)
      → (changed && not force) ≡ true
      → delete_changed st show same force dest prev cfg changed s
        ≡ resume (to_delete dest (calculate_diff same prev cfg), s) (delete_all st show same)
  unfolding delete_changed
  delete_changed-yes force dest prev cfg changed s c = rw (delete_changed, c) refl

  delete_changed-no :
      (force : Bool) (dest : Str) (prev cfg : Mirror) (changed : Bool) (s : st.State)
      → (changed && not force) ≡ false
      → delete_changed st show same force dest prev cfg changed s ≡ (ok tt, s)
  unfolding delete_changed
  delete_changed-no force dest prev cfg changed s c = rw (delete_changed, c) refl

  delete_changed-nop :
      (force : Bool) (dest : Str) (prev cfg : Mirror) (changed : Bool) (u : Unit {0})
      (s s' : st.State)
      → delete_changed st show same force dest prev cfg changed s ≡ (ok u, s')
      → s ≡ s'
  delete_changed-nop force dest prev cfg changed u s s' h =
      elim (Bool-cases (changed && not force)) [
        | inr c ↦
            ap (λ (x : Result (Unit {0}) × st.State). x.1)
              (sym (delete_changed-no force dest prev cfg changed s c) ∙ h)
        | inl c ↦
            let (images, s1, e1, k1) =
              resume-eq-ok (to_delete dest (calculate_diff same prev cfg), s)
                (delete_all st show same)
                (sym (delete_changed-yes force dest prev cfg changed s c) ∙ h) in
            ap (λ (x : Result (List Str) × st.State). x.1) e1
            ∙ ap (λ (x : Result (Unit {0}) × st.State). x.1) (sym (delete_all-nop images s1) ∙ k1)
      ]

  resume-look :
      {A B : Type 0} (r : Result A) (k : A → Action st.State B) (s : st.State)
      → ((a : A) → (k a s).1 ≡ s)
      → (resume (r, s) k).1 ≡ s
  resume-look (ok a) k s h = h a
  resume-look (err e) k s h = refl
  resume-look panic k s h = refl
  resume-look out_of_fuel k s h = refl

  get_all_metadata-state : (dir : Str) (s : st.State) → (get_all_metadata st show same dir s).1 ≡ s
  unfolding get_all_metadata read_meta_data
  get_all_metadata-state dir s =
      resume-look (st.decode_file (dir ++ codes "/.metadata.toml") s) _ s (λ metadata.
        resume-look (get_previous_isc metadata.items) _ s
          (λ found. resume-look (st.read_config found.1 s) _ s (λ prev. refl)))

  as_error-ok :
      {A : Type 0} (f : Error → Error) (r : Result A) (a : A) → as_error f r ≡ ok a → r ≡ ok a
  as_error-ok f (ok b) a h = h
  as_error-ok f (err e) a h = absurd (ground arith)
  as_error-ok f panic a h = absurd (ground arith)
  as_error-ok f out_of_fuel a h = absurd (ground arith)

  -- If `DeleteImages` returns without an error, all that it has done is to read the metadata and
  -- the last configuration, and `WriteMetadata`: whatever the difference of the configurations, no
  -- image has been deleted.
  pub delete_images-writes :
      (force : Bool) (config_path dir dest : Str) (cfg : Mirror) (s s' : st.State)
      → delete_images st show same force config_path dir dest cfg s ≡ (ok tt, s')
      → (metadata : SequenceSchema) × (prev : Mirror) × (get_all_metadata st show same dir s
          ≡ (ok (metadata, prev), s))
        × (write_metadata_file st show same config_path dir dest metadata s ≡ (ok tt, s'))
  unfolding delete_images
  delete_images-writes force config_path dir dest cfg s s' h =
      let x = get_all_metadata st show same dir s in
      let (found, s1, e1, k1) = resume-eq-ok (as_error metadata_error x.0, x.1) _ h in
      let write : Action st.State (Unit {0}) =
        write_metadata_file st show same config_path dir dest found.0 in
      let diff = as_error check_diff_error (check_diff st show same cfg found.1) in
      let (changed, s2, e2, k2) =
        resume-eq-ok (diff, s1)
          (λ c t. resume (delete_changed st show same force dest found.1 cfg c t) (λ _. write))
          k1 in
      let (u, s3, e3, k3) =
        resume-eq-ok (delete_changed st show same force dest found.1 cfg changed s2) (λ _. write)
          k2 in
      let r : x.0 ≡ ok found =
        as_error-ok metadata_error x.0 found
          (ap (λ (y : Result (SequenceSchema × Mirror) × st.State). y.0) e1) in
      let kept = get_all_metadata-state dir s in
      let at : s ≡ s3 =
        sym kept
        ∙ ap (λ (y : Result (SequenceSchema × Mirror) × st.State). y.1) e1
        ∙ ap (λ (y : Result Bool × st.State). y.1) e2
        ∙ delete_changed-nop force dest found.1 cfg changed u s2 s3 e3 in
      (found.0, found.1, λ i. (r i, kept i), ap write at ∙ k3)
