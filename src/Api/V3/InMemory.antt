-- ===== src/Api/V3/InMemory.antt =====
-- api/v3/atom_types.go: the structures as they stand in memory. `Data` of a download link is
-- blob_path, `Type` of a link content_type.
use atom_operator.Prelude.{String}
use atom_operator.Api.Model.{TypeMeta, Author, BBox}
use atom_operator.Memory.{Pointer, Slice, Alloc}

-- What the structures hold of other modules, and how it is copied.
pub record Imports : Type 1 where
  pub Url : Type 0
  pub Time : Type 0
  pub Lifecycle : Type 0
  pub IngressRouteUrl : Type 0
  pub ObjectMeta : Type 0
  pub ListMeta : Type 0
  pub OperatorStatus : Type 0
  -- `DeepCopyInto` of smooth-operator and of Kubernetes.
  pub url_deep_copy_into : Url → Alloc Url
  pub time_deep_copy_into : Time → Alloc Time
  pub lifecycle_deep_copy_into : Lifecycle → Alloc Lifecycle
  pub ingress_route_url_deep_copy_into : IngressRouteUrl → Alloc IngressRouteUrl
  pub object_meta_deep_copy_into : ObjectMeta → Alloc ObjectMeta
  pub list_meta_deep_copy_into : ListMeta → Alloc ListMeta
  pub operator_status_deep_copy_into : OperatorStatus → Alloc OperatorStatus
  -- `DeepCopy` of a pointer to a URL.
  pub url_deep_copy : Pointer Url → Alloc (Pointer Url)

pub record MetadataLink : Type 0 where
  pub metadata_identifier : String
  pub templates : Slice String

pub record DownloadLink : Type 0 where
  pub blob_path : String
  pub rel : Pointer String
  pub time : Pointer String
  pub bbox : Pointer BBox

pub record Polygon : Type 0 where
  pub bbox : BBox

pub record Link (i : Imports) : Type 0 where
  pub href : i.Url
  pub rel : String
  pub content_type : String
  pub hreflang : Pointer String
  pub title : Pointer String

pub record Srs (i : Imports) : Type 0 where
  pub uri : i.Url
  pub name : String

pub record Entry (i : Imports) : Type 0 where
  pub technical_name : String
  pub title : Pointer String
  pub content : Pointer String
  pub download_links : Slice DownloadLink
  pub updated : i.Time
  pub polygon : Polygon
  pub srs : Srs i

pub record DatasetFeed (i : Imports) : Type 0 where
  pub technical_name : String
  pub title : String
  pub subtitle : String
  pub dataset_metadata_links : Pointer MetadataLink
  pub links : Slice (Link i)
  pub author : Author
  pub spatial_dataset_identifier_code : Pointer String
  pub spatial_dataset_identifier_namespace : Pointer String
  pub entries : Slice (Entry i)

pub record Service (i : Imports) : Type 0 where
  pub base_url : i.Url
  pub lang : String
  pub stylesheet : Pointer i.Url
  pub title : String
  pub subtitle : String
  pub owner_info_ref : String
  pub service_metadata_links : Pointer MetadataLink
  pub links : Slice (Link i)
  pub rights : String
  pub dataset_feeds : Slice (DatasetFeed i)

pub record AtomSpec (i : Imports) : Type 0 where
  pub lifecycle : Pointer i.Lifecycle
  pub ingress_route_urls : Slice i.IngressRouteUrl
  pub service : Service i

pub record Atom (i : Imports) : Type 0 where
  pub type_meta : TypeMeta
  pub meta : i.ObjectMeta
  pub spec : AtomSpec i
  pub status : i.OperatorStatus

pub record AtomList (i : Imports) : Type 0 where
  pub type_meta : TypeMeta
  pub meta : i.ListMeta
  pub items : Slice (Atom i)
