-- ===== src/Api/V2beta1.antt =====
-- api/v2beta1/atom_types.go and types.go: the v2beta1 resource, with the fields that its conversion
-- reads or writes. A float32 is a type that is a parameter.
pub mod InMemory
pub mod DeepCopy
pub mod Context
pub mod ToV3
pub mod FromV3
pub mod Conversion
use atom_operator.Prelude.{String, Option, List}
use atom_operator.Prelude.Int.{ℤ}
use atom_operator.Api.Model.{TypeMeta, ObjectMeta, Author}

pub record General : Type 0 where
  pub dataset : String
  pub theme : Option String
  pub dataset_owner : String
  pub service_version : Option String
  pub data_version : Option String

pub record Lifecycle : Type 0 where
  pub ttl_in_days : Option ℤ

pub record Kubernetes : Type 0 where
  pub lifecycle : Option Lifecycle

pub record Bbox (F : Type 0) : Type 0 where
  pub min_x : F
  pub max_x : F
  pub min_y : F
  pub max_y : F

pub record Link (F : Type 0) : Type 0 where
  pub blob_key : Option String
  pub updated : Option String
  pub version : Option String
  pub bbox : Option (Bbox F)
  pub rel : Option String

pub record OtherLink : Type 0 where
  pub link_type : String
  pub uri : String
  pub content_type : Option String
  pub language : Option String

pub record Srs : Type 0 where
  pub uri : String
  pub code : String

pub record Download (F : Type 0) : Type 0 where
  pub name : String
  pub title : Option String
  pub updated : Option String
  pub content : Option String
  pub links : List (Link F)
  pub srs : Srs

pub record Dataset (F : Type 0) : Type 0 where
  pub name : String
  pub title : String
  pub subtitle : String
  pub metadata_identifier : String
  pub source_identifier : String
  pub links : List OtherLink
  pub downloads : List (Download F)
  pub bbox : Bbox F

pub record AtomService (F : Type 0) : Type 0 where
  pub title : String
  pub subtitle : String
  pub metadata_identifier : String
  pub rights : String
  pub updated : Option String
  pub author : Author
  pub datasets : List (Dataset F)

pub record AtomSpec (F : Type 0) : Type 0 where
  pub general : General
  pub service : AtomService F
  pub kubernetes : Option Kubernetes

pub record Atom (F : Type 0) : Type 0 where
  pub type_meta : TypeMeta
  pub meta : ObjectMeta
  pub spec : AtomSpec F
