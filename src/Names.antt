-- ===== src/Names.antt =====
-- `customImageParser` of the collectors and of the diff: the registry, the namespace and the
-- component of an image's name.
pub mod Parts
pub mod Cuts
use golang_fb_mirror.Base.{
  Bool, true, false, List, [], ◌∷◌, if◌then◌else◌, Result, ok, err, ◌>>=◌, index, bad_image_url,
}
use golang_fb_mirror.Base.Text.{Str, codes, contains, split}
use golang_fb_mirror.Api.{ImageRef}

-- `strings.Split(part, sep)[0]` if the part contains the separator
unfoldable pub before_sep : Str → Str → Str → Result Str
unfolding contains split index
before_sep part sep component = if contains part sep then index (split part sep) 0 else ok component

-- The parser of operator/collector.go and of diff/diff.go, on the parts between slashes.
unfoldable pub ref_of_parts : List Str → Result ImageRef
unfolding before_sep
ref_of_parts (repository ∷ namespace ∷ part ∷ _) = do
  component ← before_sep part (codes "@") part
  ok (record { repository = repository; namespace = namespace; component = component })
ref_of_parts _ = err bad_image_url

unfoldable pub custom_image_parser : Str → Result ImageRef
unfolding split ref_of_parts
custom_image_parser image = ref_of_parts (split image (codes "/"))

-- The parser of additional/collector.go, which drops a tag, too.
unfoldable pub tagged_ref_of_parts : List Str → Result ImageRef
unfolding before_sep
tagged_ref_of_parts (repository ∷ namespace ∷ part ∷ _) = do
  digestless ← before_sep part (codes "@") part
  component ← before_sep part (codes ":") digestless
  ok (record { repository = repository; namespace = namespace; component = component })
tagged_ref_of_parts _ = err bad_image_url

unfoldable pub additional_image_parser : Str → Result ImageRef
unfolding split tagged_ref_of_parts
additional_image_parser image = tagged_ref_of_parts (split image (codes "/"))
