-- ===== src/Api/V3.antt =====
-- api/v3/atom_types.go: the v3 resource and its methods. A pointer is an `Option`; a slice that
-- the program compares with nil is an optional list.
pub mod Blob
pub mod InMemory
pub mod DeepCopy
pub mod Validation
pub mod OwnerCheck
pub mod Admission
use atom_operator.Prelude.{ℕ, suc, String, Option, none, some, List, [], ◌∷◌, ◌++◌}
use atom_operator.Prelude.Result.{Result, ok, panic, slice_bounds}
use atom_operator.Text.{last_index, take, drop, trim_suffix}
use atom_operator.Api.Model.{Time, TypeMeta, ObjectMeta, Author, BBox, Lifecycle, IngressRouteUrl}

pub record MetadataLink : Type 0 where
  pub metadata_identifier : String
  pub templates : List String

pub record Link (URL : Type 0) : Type 0 where
  pub href : URL
  pub rel : String
  pub content_type : String
  pub hreflang : Option String
  pub title : Option String

pub record DownloadLink : Type 0 where
  -- The field `Data`.
  pub blob_path : String
  pub rel : Option String
  pub time : Option String
  pub bbox : Option BBox

pub record Polygon : Type 0 where
  pub bbox : BBox

pub record Srs (URL : Type 0) : Type 0 where
  pub uri : URL
  pub name : String

pub record Entry (URL : Type 0) : Type 0 where
  pub technical_name : String
  pub title : Option String
  pub content : Option String
  pub download_links : List DownloadLink
  pub updated : Time
  pub polygon : Polygon
  pub srs : Srs URL

pub record DatasetFeed (URL : Type 0) : Type 0 where
  pub technical_name : String
  pub title : String
  pub subtitle : String
  pub dataset_metadata_links : Option MetadataLink
  pub links : List (Link URL)
  pub author : Author
  pub spatial_dataset_identifier_code : Option String
  pub spatial_dataset_identifier_namespace : Option String
  pub entries : List (Entry URL)

pub record Service (URL : Type 0) : Type 0 where
  pub base_url : URL
  pub lang : String
  pub stylesheet : Option URL
  pub title : String
  pub subtitle : String
  pub owner_info_ref : String
  pub service_metadata_links : Option MetadataLink
  pub links : List (Link URL)
  pub rights : String
  pub dataset_feeds : List (DatasetFeed URL)

pub record AtomSpec (URL : Type 0) : Type 0 where
  pub lifecycle : Option Lifecycle
  pub ingress_route_urls : Option (List (IngressRouteUrl URL))
  pub service : Service URL

pub record Atom (URL : Type 0) : Type 0 where
  pub type_meta : TypeMeta
  pub meta : ObjectMeta
  pub spec : AtomSpec URL

-- The package's variables, set by `main` from the flags.
pub record Globals : Type 0 where
  pub base_url : String
  pub blob_endpoint : String

unfoldable pub set_base_url : String → Globals → Globals
set_base_url atom_base_url g = record g { base_url = trim_suffix atom_base_url "/" }

unfoldable pub get_base_url : Globals → String
get_base_url g = g.base_url

unfoldable pub set_blob_endpoint : String → Globals → Globals
set_blob_endpoint atom_blob_endpoint g = record g { blob_endpoint = atom_blob_endpoint }

unfoldable pub get_blob_endpoint : Globals → String
get_blob_endpoint g = g.blob_endpoint

module _ {URL : Type 0} where
  -- The inner loop of `GetDownloadLinks`.
  append_entries : List DownloadLink → List (Entry URL) → List DownloadLink
  append_entries acc [] = acc
  append_entries acc (e ∷ es) = append_entries (acc ++ e.download_links) es

  append_feeds : List DownloadLink → List (DatasetFeed URL) → List DownloadLink
  append_feeds acc [] = acc
  append_feeds acc (f ∷ fs) = append_feeds (append_entries acc f.entries) fs

  unfoldable pub get_download_links : Atom URL → List DownloadLink
  unfolding append_feeds append_entries
  get_download_links a = append_feeds [] a.spec.service.dataset_feeds

-- `dl.Data[:index]` with index -1 panics.
unfoldable pub get_blob_prefix : DownloadLink → Result String
get_blob_prefix dl = elim (last_index b'/' dl.blob_path) [
  | none ↦ panic slice_bounds
  | some index ↦ ok (take index dl.blob_path)
]

-- `dl.Data[index:]`, where index is 0 if there is no slash.
unfoldable pub get_blob_name : DownloadLink → String
get_blob_name dl = elim (last_index b'/' dl.blob_path) [
  | none ↦ dl.blob_path
  | some index ↦ drop (suc index) dl.blob_path
]
