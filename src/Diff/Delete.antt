-- ===== src/Diff/Delete.antt =====
-- `DeleteImages` (pkg/diff/diff.go): the images that the last configuration had and the new one
-- has not, and the metadata file with one more item.
pub mod History
pub mod Effect
use golang_fb_mirror.Base.{
  ℕ, Bool, true, false, not, ◌&&◌, List, [], ◌∷◌, ◌++◌, length, if◌then◌else◌, Result, ok, err,
  panic, out_of_fuel, Error, metadata_error, check_diff_error,
}
use golang_fb_mirror.Base.Text.{Str, codes}
use golang_fb_mirror.Base.Action.{Action, ◌>>=◌, ◌>>◌, lift, ask}
use golang_fb_mirror.Api.{Mirror}
use golang_fb_mirror.Diff.Sequence.{Item, write_metadata, get_previous_isc}
use golang_fb_mirror.Diff.Sequence.Current.{isc_path}
use golang_fb_mirror.Diff.Changes.{DeepEqual, calculate_diff, to_delete}

-- `SequenceSchema`, with the items of its `Sequence`
pub record SequenceSchema : Type 0 where
  pub title : Str
  pub owner : Str
  pub items : List Item

-- Files, TOML, `config.ReadConfig`, `reflect.DeepEqual` of two configurations, and the clock.
pub record Store : Type 1 where
  pub State : Type 0
  pub decode_file : Str → State → Result SequenceSchema
  pub encode_file : Str → SequenceSchema → State → Result (Unit {0}) × State
  pub read_config : Str → State → Result Mirror
  pub read_file : Str → State → Result Str
  pub write_file : Str → Str → State → Result (Unit {0}) × State
  pub same_config : Mirror → Mirror → Bool
  pub now : State → ℕ

-- The error of a step under another message
abbrev pub as_error {ℓ} : {A : Type ℓ} → (Error → Error) → Result A → Result A
as_error f (err e) = err (f e)
as_error f r = r

module _ (st : Store) (show : ℕ → Str) (same : DeepEqual) where
  -- `readMetaData`
  unfoldable pub read_meta_data : Str → Action st.State SequenceSchema
  read_meta_data dir = ask (st.decode_file (dir ++ codes "/.metadata.toml"))

  -- `GetAllMetadata`
  unfoldable pub get_all_metadata : Str → Action st.State (SequenceSchema × Mirror)
  unfolding read_meta_data get_previous_isc
  get_all_metadata dir = do
    metadata ← read_meta_data dir
    found ← lift (get_previous_isc metadata.items)
    prev ← ask (st.read_config found.1)
    lift (ok (metadata, prev))

  -- `CheckDiff`
  unfoldable pub check_diff : Mirror → Mirror → Result Bool
  check_diff cfg prev = ok (not (st.same_config cfg prev))

  -- `WriteMetadata`: the metadata file, and then a copy of the configuration.
  unfoldable pub write_metadata_file : Str → Str → Str → SequenceSchema → Action st.State (Unit {0})
  unfolding write_metadata
  write_metadata_file config_path dir dest sch s =
      let items = write_metadata show (st.now s) dir dest sch.items in
      (st.encode_file (dir ++ codes "/.metadata.toml") (record sch { items = items }) >>= λ _.
      ask (st.read_file config_path) >>= λ text.
      st.write_file (isc_path show dir (length sch.items)) text)
        s

  -- `DeleteImage` of `MirrorDelete` returns nil.
  unfoldable pub delete_image : Str → Action st.State (Unit {0})
  delete_image image = lift (ok tt)

  unfoldable pub delete_all : List Str → Action st.State (Unit {0})
  unfolding delete_image
  delete_all [] = lift (ok tt)
  delete_all (image ∷ images) = delete_image image >>= λ _. delete_all images

  -- The images that are no longer named, if the configuration has changed and nothing is forced.
  unfoldable pub delete_changed : Bool → Str → Mirror → Mirror → Bool → Action st.State (Unit {0})
  unfolding calculate_diff to_delete delete_all
  delete_changed force dest prev cfg changed =
      if changed && not force
      then (lift (to_delete dest (calculate_diff same prev cfg)) >>= delete_all)
      else lift (ok tt)

  -- `DeleteImages`
  unfoldable pub delete_images : Bool → Str → Str → Str → Mirror → Action st.State (Unit {0})
  unfolding get_all_metadata check_diff delete_changed write_metadata_file
  delete_images force config_path dir dest cfg = do
    found ← (λ s. let (r, s') = get_all_metadata dir s in (as_error metadata_error r, s'))
    changed ← lift (as_error check_diff_error (check_diff cfg found.1))
    _ ← delete_changed force dest found.1 cfg changed
    write_metadata_file config_path dir dest found.0
