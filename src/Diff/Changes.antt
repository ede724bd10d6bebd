-- ===== src/Diff/Changes.antt =====
-- `calculateDiff` and `batchWorkerConverter` (pkg/diff/diff.go).
pub mod Gone
pub mod Deleted
use golang_fb_mirror.Base.{
  ℕ, Bool, true, false, ◌&&◌, not, List, [], ◌∷◌, ◌++◌, ◌==◌, List_eq, ℕ_eq, if◌then◌else◌, Result,
  ok, err, ◌>>=◌,
}
use golang_fb_mirror.Base.Text.{Str, codes}
use golang_fb_mirror.Base.Maps.{Map, put}
use golang_fb_mirror.Api.{Image, ReleaseChannel, Operator, IncludePackage, Mirror, ImageRef}
use golang_fb_mirror.Names.{custom_image_parser}

-- The field `from` of `DiffSchema`
pub data From : Type 0 where
  previous current both : From

pub record DiffEntry : Type 0 where
  pub from : From
  pub found : Bool

abbrev pub Images : Type 0
Images = Map Str DiffEntry

unfoldable pub mark_previous : Str → Images → Images
unfolding put
mark_previous k images = put k (record { from = previous; found = false }) images

unfoldable pub mark_current : Str → Images → Images
unfolding put
mark_current k images = put k (record { from = current; found = false }) images

unfoldable pub mark_both : Str → Images → Images
unfolding put
mark_both k images = put k (record { from = both; found = true }) images

-- The two nested loops over the channels, the packages of two operators and the additional
-- images: `name` reads the key of an object, and `same` is `reflect.DeepEqual`.
module _ {A : Type 0} (name : A → Str) (same : A → A → Bool) where
  unfoldable pub compare_all : A → List A → Images → Images
  unfolding mark_current mark_both
  compare_all p [] images = images
  compare_all p (c ∷ cs) images =
      let images' = mark_current (name c) images in
      compare_all p cs (if same c p then mark_both (name p) images' else images')

  unfoldable pub compare_lists : List A → List A → Images → Images
  unfolding mark_previous compare_all
  compare_lists [] cs images = images
  compare_lists (p ∷ ps) cs images =
      compare_lists ps cs (compare_all p cs (mark_previous (name p) images))

-- `reflect.DeepEqual` at the types that the program compares.
pub record DeepEqual : Type 0 where
  pub channels : ReleaseChannel → ReleaseChannel → Bool
  pub operators : Operator → Operator → Bool
  pub packages : IncludePackage → IncludePackage → Bool
  pub images : Image → Image → Bool

module _ (same : DeepEqual) where
  -- The loop over the operators of the configuration, for one of the previous one.
  unfoldable pub compare_operators : Operator → List Operator → Images → Images
  unfolding mark_current mark_both compare_lists
  compare_operators p [] images = images
  compare_operators p (o ∷ os) images =
      let images' =
        compare_lists (λ k. k.name) same.packages p.packages o.packages
          (mark_current o.catalog images) in
      compare_operators p os (if same.operators o p then mark_both p.catalog images' else images')

  unfoldable pub compare_catalogs : List Operator → List Operator → Images → Images
  unfolding mark_previous compare_operators
  compare_catalogs [] os images = images
  compare_catalogs (p ∷ ps) os images =
      compare_catalogs ps os (compare_operators p os (mark_previous p.catalog images))

  -- `calculateDiff`
  unfoldable pub calculate_diff : Mirror → Mirror → Images
  unfolding compare_lists compare_catalogs
  calculate_diff prev cfg =
      let channels =
        compare_lists (λ c. c.name) same.channels prev.platform.channels cfg.platform.channels [] in
      let catalogs = compare_catalogs prev.operators cfg.operators channels in
      compare_lists (λ i. i.name) same.images prev.additional_images cfg.additional_images catalogs

unfoldable pub is_gone : DiffEntry → Bool
is_gone e = not e.found && (elim e.from [ previous ↦ true | _ ↦ false ])

-- `batchWorkerConverter`: what to delete. Go visits the keys of the map in any order; here they
-- come in the order in which they were first put.
unfoldable pub to_delete : Str → Images → Result (List Str)
unfolding custom_image_parser is_gone
to_delete destination [] = ok []
to_delete destination ((k, e) ∷ images) =
    if is_gone e
    then (custom_image_parser k >>= λ i. to_delete destination images >>= λ rest.
        ok ((destination ++ (i.namespace ++ (codes "/" ++ i.component))) ∷ rest))
    else to_delete destination images
