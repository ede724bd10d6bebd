-- ===== src/Api.antt =====
-- The types of pkg/api/v1alpha2 and pkg/api/v1alpha3 that the packages exchange, without the
-- fields that only Kubernetes' type metadata uses.
pub mod ImageTypes
use golang_fb_mirror.Base.{ℕ, Bool, not, List}
use golang_fb_mirror.Base.Text.{Str, codes, has_prefix}
use golang_fb_mirror.Release.Client.{Platform}

pub record Image : Type 0 where
  pub name : Str

pub record ReleaseChannel : Type 0 where
  pub name : Str
  pub platform_type : Platform
  pub min_version : Str
  pub max_version : Str
  pub shortest_path : Bool
  pub full : Bool

-- The struct `Platform` of a configuration
pub record PlatformConfig : Type 0 where
  pub graph : Bool
  pub channels : List ReleaseChannel
  pub architectures : List Str
  pub release : Str

pub record IncludeBundle : Type 0 where
  pub min_version : Str
  pub max_version : Str
  pub min_bundle : Str

pub record IncludeChannel : Type 0 where
  pub name : Str
  pub bundle : IncludeBundle

pub record IncludePackage : Type 0 where
  pub name : Str
  pub channels : List IncludeChannel
  pub bundle : IncludeBundle

pub record Operator : Type 0 where
  pub packages : List IncludePackage
  pub catalog : Str
  pub target_name : Str
  pub target_tag : Str
  pub full : Bool
  pub skip_dependencies : Bool
  pub original_ref : Str

pub record Chart : Type 0 where
  pub name : Str
  pub version : Str
  pub path : Str
  pub image_paths : List Str

pub record Repository : Type 0 where
  pub url : Str
  pub name : Str
  pub charts : List Chart

pub record Helm : Type 0 where
  pub repositories : List Repository
  pub local : List Chart

pub record Mirror : Type 0 where
  pub platform : PlatformConfig
  pub operators : List Operator
  pub additional_images : List Image
  pub helm : Helm
  pub blocked_images : List Image
  pub samples : List Image

-- `v1alpha3.RelatedImage`
pub record RelatedImage : Type 0 where
  pub name : Str
  pub image : Str

-- `v1alpha3.ChannelEntry`, of which the program reads the name
pub record ChannelEntry : Type 0 where
  pub name : Str

-- `v1alpha3.DeclarativeConfig`, one object of a catalog
pub record DeclarativeConfig : Type 0 where
  pub schema : Str
  pub name : Str
  pub default_channel : Str
  pub entries : List ChannelEntry
  pub related_images : List RelatedImage

-- `v1alpha3.ISCPackage`
pub record IscPackage : Type 0 where
  pub channel : Str
  pub min_version : Str
  pub max_version : Str
  pub full : Bool

-- `v1alpha3.ImageRefSchema`
pub record ImageRef : Type 0 where
  pub repository : Str
  pub namespace : Str
  pub component : Str

-- `(r ReleaseChannel) IsHeadsOnly()`
unfoldable pub is_channel_heads_only : ReleaseChannel → Bool
is_channel_heads_only r = not r.full

-- `(o Operator) IsHeadsOnly()`
unfoldable pub is_heads_only : Operator → Bool
is_heads_only o = not o.full

-- `(o Operator) IsFBCOCI()`
unfoldable pub is_fbc_oci : Operator → Bool
unfolding has_prefix
is_fbc_oci o = has_prefix o.catalog (codes "oci:")
