-- ===== src/Api/Model.antt =====
-- The structures of other modules that the resource types are made of, as far as the program
-- reads or writes their fields: Kubernetes' object metadata and time, smooth-operator's model, and
-- `net/url`, whose URL is a parameter with the operations that the program calls.
use atom_operator.Prelude.{String, Option, none, some, List, []}
use atom_operator.Prelude.Int.{ℤ}
use atom_operator.Prelude.Result.{Result}

-- smooth-operator's `model.URL`, an embedded `*url.URL`.
pub record UrlOps (URL : Type 0) : Type 0 where
  pub path : URL → String
  pub hostname : URL → String
  pub string : URL → String
  pub join_path : URL → List String → URL
  pub parse : String → Result URL

-- A `map[string]string`; at most one pair for a key.
abbrev pub StringMap : Type 0
StringMap = List (String × String)

-- `metav1.Time`: an instant, in nanoseconds since 1970, and the offset of its zone in seconds.
pub record Time : Type 0 where
  pub instant : ℤ
  pub offset : ℤ

pub record TypeMeta : Type 0 where
  pub api_version : String
  pub kind : String

pub record ObjectMeta : Type 0 where
  pub name : String
  pub namespace : String
  pub uid : String
  pub labels : StringMap
  pub annotations : StringMap
  pub creation_timestamp : Time

pub record Author : Type 0 where
  pub name : String
  pub email : String

pub record BBox : Type 0 where
  pub min_x : String
  pub max_x : String
  pub min_y : String
  pub max_y : String

pub record Lifecycle : Type 0 where
  pub ttl_in_days : Option ℤ

pub record IngressRouteUrl (URL : Type 0) : Type 0 where
  pub url : URL

-- One entry of `MetadataUrls`.
pub record MetadataUrl : Type 0 where
  pub href_template : String

pub record MetadataUrls : Type 0 where
  pub csw : Option MetadataUrl
  pub open_search : Option MetadataUrl
  pub html : Option MetadataUrl

-- `OwnerInfo.Spec.Atom`
pub record OwnerAtom (URL : Type 0) : Type 0 where
  pub author : Author
  pub default_stylesheet : Option URL

pub record OwnerInfo (URL : Type 0) : Type 0 where
  pub name : String
  pub metadata_urls : Option MetadataUrls
  pub atom : Option (OwnerAtom URL)

-- A slice in a `range`; a nil slice has no items.
abbrev pub items {ℓ} : {A : Type ℓ} → Option (List A) → List A
items none = []
items (some xs) = xs
