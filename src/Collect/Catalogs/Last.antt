-- ===== src/Collect/Catalogs/Last.antt =====
-- Which catalogs the images to copy come from.
use golang_fb_mirror.Base.{◌≡◌, sym, ap, ◌∙◌, List, [], ◌∷◌, ◌++◌}
use golang_fb_mirror.Base.Text.{Str}
use golang_fb_mirror.Base.Maps.{Map}
use golang_fb_mirror.Base.Action.{Action, resume, resume_assoc, resume-ext, resume-ok}
use golang_fb_mirror.Api.{Operator, IscPackage, RelatedImage}
use golang_fb_mirror.Batch.{CopyImage}
use golang_fb_mirror.Collect.Files.{Files, mirror_to_disk}
use golang_fb_mirror.Collect.Interfaces.{ManifestInterface, Copier, Tree}
use golang_fb_mirror.Collect.Operators.{compare_operators, convert_bundles}
use golang_fb_mirror.Collect.Catalogs.{read_catalog, read_catalogs, operator_image_collector}

module _ (files : Files) (mfi : ManifestInterface files.State) (copier : Copier files.State)
    (global_dir : Str) where
  read_catalogs-snoc :
      (compare : Map Str IscPackage) (before : List Operator) (op : Operator)
      (found : Str × Map Str (List RelatedImage)) (s : files.State)
      → read_catalogs files mfi copier global_dir compare (before ++ op ∷ []) found s
        ≡ resume
            (read_catalogs files mfi copier global_dir compare before found s)
            (λ _. read_catalog files mfi copier global_dir compare op)
  unfolding read_catalogs
  read_catalogs-snoc compare [] op found s =
      resume-ok (read_catalog files mfi copier global_dir compare op s)
  read_catalogs-snoc compare (o ∷ before) op found s =
      let x = read_catalog files mfi copier global_dir compare o s in
      let all = read_catalogs files mfi copier global_dir compare in
      let last : Action files.State (Str × Map Str (List RelatedImage)) =
        read_catalog files mfi copier global_dir compare op in
      resume-ext x (all (before ++ op ∷ [])) (λ f s'. resume (all before f s') (λ _. last))
        (read_catalogs-snoc compare before op)
      ∙ sym (resume_assoc x (all before) (λ _. last))

  -- In mirrorToDisk the collector reads every catalog, and an error of one ends it; but the images
  -- that it then copies are those of the last catalog alone, whatever the ones before it gave.
  pub operator_image_collector-last :
      (tree : Tree files.State) (destination fresh_name : Str) (before : List Operator)
      (op : Operator) (s : files.State)
      → operator_image_collector files mfi copier global_dir tree destination fresh_name
          mirror_to_disk
          (before ++ op ∷ [])
          s
        ≡ (let compare = compare_operators (before ++ op ∷ []) [] in
            resume (read_catalogs files mfi copier global_dir compare before ([], []) s) (λ _ s'.
              resume
                (read_catalog files mfi copier global_dir compare op s')
                (λ found. convert_bundles files fresh_name found.0 found.1 [])))
  unfolding operator_image_collector
  operator_image_collector-last tree destination fresh_name before op s =
      let compare = compare_operators (before ++ op ∷ []) [] in
      let x = read_catalogs files mfi copier global_dir compare before ([], []) s in
      let last : Action files.State (Str × Map Str (List RelatedImage)) =
        read_catalog files mfi copier global_dir compare op in
      let convert : Str × Map Str (List RelatedImage) → Action files.State (List CopyImage) =
        λ found. convert_bundles files fresh_name found.0 found.1 [] in
      ap (λ y. resume y convert) (read_catalogs-snoc compare before op ([], []) s)
      ∙ resume_assoc x (λ _. last) convert
