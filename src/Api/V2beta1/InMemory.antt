-- ===== src/Api/V2beta1/InMemory.antt =====
-- api/v2beta1/atom_types.go and types.go: the structures as they stand in memory. `Type` of a
-- condition is condition_type, of a link link_type.
use atom_operator.Prelude.{String}
use atom_operator.Prelude.Int.{ℤ}
use atom_operator.Api.Model.{TypeMeta}
use atom_operator.Memory.{Pointer, Slice, Alloc}

-- What the structures hold of other modules, and how it is copied.
pub record Imports : Type 1 where
  pub Time : Type 0
  pub ResourceRequirements : Type 0
  pub ObjectMeta : Type 0
  pub ListMeta : Type 0
  pub Float32 : Type 0
  -- `DeepCopyInto` of Kubernetes.
  pub time_deep_copy_into : Time → Alloc Time
  pub resource_requirements_deep_copy_into : ResourceRequirements → Alloc ResourceRequirements
  pub object_meta_deep_copy_into : ObjectMeta → Alloc ObjectMeta
  pub list_meta_deep_copy_into : ListMeta → Alloc ListMeta

pub record ResultAnsible : Type 0 where
  pub ok : ℤ
  pub changed : ℤ
  pub skipped : ℤ
  pub failures : ℤ
  pub time_of_completion : String

pub record Resources : Type 0 where
  pub api_version : Pointer String
  pub kind : Pointer String
  pub name : Pointer String

pub record General : Type 0 where
  pub dataset : String
  pub theme : Pointer String
  pub dataset_owner : String
  pub service_version : Pointer String
  pub data_version : Pointer String

pub record Autoscaling : Type 0 where
  pub average_cpu_utilization : Pointer ℤ
  pub min_replicas : Pointer ℤ
  pub max_replicas : Pointer ℤ

pub record HealthCheck : Type 0 where
  pub querystring : Pointer String
  pub mimetype : Pointer String
  pub boundingbox : Pointer String

pub record Lifecycle : Type 0 where
  pub ttl_in_days : Pointer ℤ

pub record Author : Type 0 where
  pub name : String
  pub email : String

pub record Srs : Type 0 where
  pub uri : String
  pub code : String

pub record OtherLink : Type 0 where
  pub link_type : String
  pub uri : String
  pub content_type : Pointer String
  pub language : Pointer String

pub record AtomStatus : Type 0 where

pub record Condition (i : Imports) : Type 0 where
  pub condition_type : String
  pub status : String
  pub last_transition_time : i.Time
  pub ansible_result : Pointer ResultAnsible
  pub reason : String
  pub message : String

pub record Status (i : Imports) : Type 0 where
  pub conditions : Slice (Condition i)
  pub deployment : Pointer String
  pub resources : Slice Resources

pub record Kubernetes (i : Imports) : Type 0 where
  pub autoscaling : Pointer Autoscaling
  pub health_check : Pointer HealthCheck
  pub resources : Pointer i.ResourceRequirements
  pub lifecycle : Pointer Lifecycle

pub record Bbox (i : Imports) : Type 0 where
  pub min_x : i.Float32
  pub max_x : i.Float32
  pub min_y : i.Float32
  pub max_y : i.Float32

pub record Link (i : Imports) : Type 0 where
  pub blob_key : Pointer String
  pub updated : Pointer String
  pub version : Pointer String
  pub bbox : Pointer (Bbox i)
  pub rel : Pointer String

pub record Download (i : Imports) : Type 0 where
  pub name : String
  pub title : Pointer String
  pub updated : Pointer String
  pub content : Pointer String
  pub links : Slice (Link i)
  pub srs : Srs

pub record Dataset (i : Imports) : Type 0 where
  pub name : String
  pub title : String
  pub subtitle : String
  pub metadata_identifier : String
  pub source_identifier : String
  pub links : Slice OtherLink
  pub downloads : Slice (Download i)
  pub bbox : Bbox i

pub record AtomService (i : Imports) : Type 0 where
  pub title : String
  pub subtitle : String
  pub metadata_identifier : String
  pub rights : String
  pub updated : Pointer String
  pub author : Author
  pub datasets : Slice (Dataset i)

pub record AtomSpec (i : Imports) : Type 0 where
  pub general : General
  pub service : AtomService i
  pub kubernetes : Pointer (Kubernetes i)

pub record Atom (i : Imports) : Type 0 where
  pub type_meta : TypeMeta
  pub meta : i.ObjectMeta
  pub spec : AtomSpec i
  pub status : AtomStatus

pub record AtomList (i : Imports) : Type 0 where
  pub type_meta : TypeMeta
  pub meta : i.ListMeta
  pub items : Slice (Atom i)
