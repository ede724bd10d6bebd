-- ===== src/Collect/Additional.antt =====
-- `AdditionalImagesCollector` (pkg/additional/collector.go).
use golang_fb_mirror.Base.{
  true, false, none, some, List, [], ◌∷◌, ◌++◌, List_eq, ℕ_eq, Result, ok, err, panic, out_of_fuel,
  ◌>>=◌, index,
}
use golang_fb_mirror.Base.Text.{Str, codes, join, split, replace_one}
use golang_fb_mirror.Api.{Image, ImageRef}
use golang_fb_mirror.Batch.{CopyImage}
use golang_fb_mirror.Names.{additional_image_parser}
use golang_fb_mirror.Collect.Files.{Files, Mode, mirror_to_disk, disk_to_mirror, other_mode}

-- `strings.Split(o.Opts.Destination, "://")[0] + ":"`
unfoldable pub transport_of : Str → Result Str
unfolding split index
transport_of destination = do t ← index (split destination (codes "://")) 0; ok (t ++ codes ":")

-- What `filepath.Walk` does for the directory of an index file: the part behind the directory of
-- additional images is appended to the destination.
unfoldable pub copy_of_dir : Str → Str → Result CopyImage
unfolding split index
copy_of_dir destination dir = do
  part ← index (split dir (codes "additional-images")) 1
  ok (record { source = codes "oci:" ++ dir; destination = destination ++ part })

unfoldable pub copies_of_dirs : Str → List Str → Result (List CopyImage)
unfolding copy_of_dir
copies_of_dirs destination [] = ok []
copies_of_dirs destination (dir ∷ dirs) = do
  c ← copy_of_dir destination dir
  cs ← copies_of_dirs destination dirs
  ok (c ∷ cs)

module _ (files : Files) (global_dir destination : Str) where
  open files use {State, missing, mkdir_all, index_dirs}

  abbrev pub cache_dir : ImageRef → Str
  cache_dir irs =
      join (global_dir ∷ codes "additional-images" ∷ irs.namespace ∷ irs.component ∷ []) (codes "/")

  -- The loop of `mirrorToDisk`: an error of `MkdirAll` ends it with no images and no error.
  unfoldable pub to_disk : List Image → List CopyImage → State → Result (List CopyImage) × State
  unfolding additional_image_parser transport_of join
  to_disk [] result s = (ok result, s)
  to_disk (img ∷ images) result s = elim (additional_image_parser img.name) [
    | err e ↦ (err e, s)
    | panic ↦ (panic, s)
    | out_of_fuel ↦ (out_of_fuel, s)
    | ok irs ↦ elim (missing s (cache_dir irs)) [
      | false ↦ to_disk images result s
      | true ↦ elim (mkdir_all s (cache_dir irs)) [
        | none ↦ (ok [], s)
        | some s' ↦ elim (transport_of destination) [
          | err e ↦ (err e, s')
          | panic ↦ (panic, s')
          | out_of_fuel ↦ (out_of_fuel, s')
          | ok transport ↦
              to_disk images
                (result
                  ++ record {
                    source = codes "docker://" ++ img.name;
                    destination = transport ++ cache_dir irs;
                  }
                    ∷ [])
                s'
        ]
      ]
    ]
  ]

  -- The loop of `diskToMirror`: the callback of `filepath.Walk` never returns an error.
  unfoldable pub to_mirror : State → List Image → Result (List CopyImage)
  unfolding copies_of_dirs replace_one
  to_mirror s [] = ok []
  to_mirror s (img ∷ images) = do
    cs ←
        copies_of_dirs destination
          (index_dirs s (replace_one img.name (codes "dir://") []) (codes "index.json"))
    rest ← to_mirror s images
    ok (cs ++ rest)

  -- `AdditionalImagesCollector`
  unfoldable pub additional_images_collector :
      Mode → List Image → State → Result (List CopyImage) × State
  unfolding to_disk to_mirror
  additional_images_collector mirror_to_disk images s = to_disk images [] s
  additional_images_collector disk_to_mirror images s = (to_mirror s images, s)
  additional_images_collector other_mode images s = (ok [], s)
