-- ===== src/Api/ImageTypes.antt =====
-- Image types, their names and the check of an association (pkg/api/v1alpha2/type_image.go).
use golang_fb_mirror.Base.{
  ℕ, Option, none, some, List, [], ◌∷◌, ◌≡◌, ◌⊎◌, inl, inr, refl, ◌==◌, ℕ_eq, List_eq,
  if◌then◌else◌, length, ltb, ◌&&◌, Result, ok, err, invalid_image_type, invalid_association,
}
use golang_fb_mirror.Base.Text.{Str, codes}
use golang_fb_mirror.Base.Maps.{Map, lookup}

-- `type ImageType int`: the eight constants and the integers that are none of them.
pub data ImageType : Type 0 where
  type_invalid type_ocp_release type_ocp_release_content type_cincinnati_graph : ImageType
  type_operator_catalog type_operator_bundle type_operator_related_image type_generic : ImageType
  unknown_type : ℕ → ImageType

-- `imageTypeStrings`
unfoldable pub type_name : ImageType → Option Str
type_name type_invalid = none
type_name type_ocp_release = some (codes "ocpRelease")
type_name type_ocp_release_content = some (codes "ocpReleaseContent")
type_name type_cincinnati_graph = some (codes "cincinnatiGraph")
type_name type_operator_catalog = some (codes "operatorCatalog")
type_name type_operator_bundle = some (codes "operatorBundle")
type_name type_operator_related_image = some (codes "operatorRelatedImage")
type_name type_generic = some (codes "generic")
type_name (unknown_type n) = none

-- `imageStringsType`
unfoldable pub image_strings_type : Map Str ImageType
image_strings_type =
    (codes "ocpReleaseContent", type_ocp_release_content)
    ∷ (codes "cincinnatiGraph", type_cincinnati_graph)
    ∷ (codes "ocpRelease", type_ocp_release)
    ∷ (codes "operatorCatalog", type_operator_catalog)
    ∷ (codes "operatorBundle", type_operator_bundle)
    ∷ (codes "operatorRelatedImage", type_operator_related_image)
    ∷ (codes "generic", type_generic)
    ∷ []

-- `(it ImageType) validate()`
unfoldable pub validate_type : ImageType → Result (Unit {0})
unfolding type_name
validate_type t = elim (type_name t) [ none ↦ err invalid_image_type | some _ ↦ ok tt ]

-- `(it ImageType) MarshalJSON()`, without the JSON quotes
unfoldable pub marshal_type : ImageType → Result Str
unfolding type_name
marshal_type t = elim (type_name t) [ none ↦ err invalid_image_type | some s ↦ ok s ]

-- `(it *ImageType) UnmarshalJSON`, on the string: a missing key gives the zero value.
unfoldable pub unmarshal_type : Str → ImageType
unfolding image_strings_type lookup
unmarshal_type s = elim (lookup s image_strings_type) [ none ↦ type_invalid | some t ↦ t ]

pub record Association : Type 0 where
  pub name : Str
  pub path : Str
  pub id : Str
  pub tag_symlink : Str
  pub image_type : ImageType
  pub manifest_digests : List Str
  pub layer_digests : List Str

-- `(a Association) Validate()`
unfoldable pub validate_association : Association → Result (Unit {0})
unfolding validate_type
validate_association a =
    if ltb 0 (length a.manifest_digests) && ltb 0 (length a.layer_digests)
    then err invalid_association
    else if (length a.manifest_digests == 0) && (length a.layer_digests == 0)
    then err invalid_association
    else if (a.id == []) && (a.tag_symlink == [])
    then err invalid_association
    else validate_type a.image_type

-- The seven types of images.
abbrev pub IsImageType : ImageType → Type 0
IsImageType type_invalid = ⊥
IsImageType (unknown_type n) = ⊥
IsImageType t = Unit

-- The seven types are valid, and each of them is written as a string that is read back as the same
-- type. Every other type is invalid and is not written.
pub marshal-unmarshal :
    (t : ImageType)
    → (IsImageType t
        × (validate_type t ≡ ok tt)
        × ((s : Str) × (marshal_type t ≡ ok s) × (unmarshal_type s ≡ t)))
      ⊎ (¬ IsImageType t
          × (validate_type t ≡ err invalid_image_type)
          × (marshal_type t ≡ err invalid_image_type))
unfolding marshal_type unmarshal_type validate_type
marshal-unmarshal type_invalid = inr ((λ h. h), refl, refl)
marshal-unmarshal type_ocp_release = inl (tt, refl, (_, refl, refl))
marshal-unmarshal type_ocp_release_content = inl (tt, refl, (_, refl, refl))
marshal-unmarshal type_cincinnati_graph = inl (tt, refl, (_, refl, refl))
marshal-unmarshal type_operator_catalog = inl (tt, refl, (_, refl, refl))
marshal-unmarshal type_operator_bundle = inl (tt, refl, (_, refl, refl))
marshal-unmarshal type_operator_related_image = inl (tt, refl, (_, refl, refl))
marshal-unmarshal type_generic = inl (tt, refl, (_, refl, refl))
marshal-unmarshal (unknown_type n) = inr ((λ h. h), refl, refl)
