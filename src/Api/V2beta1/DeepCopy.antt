-- ===== src/Api/V2beta1/DeepCopy.antt =====
-- api/v2beta1/zz_generated.deepcopy.go. `DeepCopyInto` returns what it leaves in `out`: a copy of
-- the structure (`*out = *in`) whose fields with pointers and slices are replaced.
pub mod Fields
pub mod Shapes
pub mod Laws
use atom_operator.Memory.{Pointer, Alloc, pure, ◌>>=◌, as_object, copy_pointer, copy_slice}
use atom_operator.Api.V2beta1.InMemory.{
  Imports, ResultAnsible, Condition, Resources, Status, General, Autoscaling, HealthCheck,
  Lifecycle, Kubernetes, Author, Srs, OtherLink, Bbox, Link, Download, Dataset, AtomService,
  AtomSpec, AtomStatus, Atom, AtomList,
}

unfoldable pub result_ansible_deep_copy_into : ResultAnsible → Alloc ResultAnsible
result_ansible_deep_copy_into x = pure x

unfoldable pub result_ansible_deep_copy : Pointer ResultAnsible → Alloc (Pointer ResultAnsible)
result_ansible_deep_copy = copy_pointer result_ansible_deep_copy_into

unfoldable pub resources_deep_copy_into : Resources → Alloc Resources
resources_deep_copy_into x = do
  api_version ← copy_pointer pure x.api_version
  kind ← copy_pointer pure x.kind
  name ← copy_pointer pure x.name
  pure (record x { api_version = api_version; kind = kind; name = name })

unfoldable pub resources_deep_copy : Pointer Resources → Alloc (Pointer Resources)
resources_deep_copy = copy_pointer resources_deep_copy_into

unfoldable pub general_deep_copy_into : General → Alloc General
general_deep_copy_into x = do
  theme ← copy_pointer pure x.theme
  service_version ← copy_pointer pure x.service_version
  data_version ← copy_pointer pure x.data_version
  pure (record x { theme = theme; service_version = service_version; data_version = data_version })

unfoldable pub general_deep_copy : Pointer General → Alloc (Pointer General)
general_deep_copy = copy_pointer general_deep_copy_into

unfoldable pub autoscaling_deep_copy_into : Autoscaling → Alloc Autoscaling
autoscaling_deep_copy_into x = do
  average_cpu_utilization ← copy_pointer pure x.average_cpu_utilization
  min_replicas ← copy_pointer pure x.min_replicas
  max_replicas ← copy_pointer pure x.max_replicas
  pure (record x {
    average_cpu_utilization = average_cpu_utilization;
    min_replicas = min_replicas;
    max_replicas = max_replicas;
  })

unfoldable pub autoscaling_deep_copy : Pointer Autoscaling → Alloc (Pointer Autoscaling)
autoscaling_deep_copy = copy_pointer autoscaling_deep_copy_into

unfoldable pub health_check_deep_copy_into : HealthCheck → Alloc HealthCheck
health_check_deep_copy_into x = do
  querystring ← copy_pointer pure x.querystring
  mimetype ← copy_pointer pure x.mimetype
  boundingbox ← copy_pointer pure x.boundingbox
  pure (record x { querystring = querystring; mimetype = mimetype; boundingbox = boundingbox })

unfoldable pub health_check_deep_copy : Pointer HealthCheck → Alloc (Pointer HealthCheck)
health_check_deep_copy = copy_pointer health_check_deep_copy_into

unfoldable pub lifecycle_deep_copy_into : Lifecycle → Alloc Lifecycle
lifecycle_deep_copy_into x = do
  ttl_in_days ← copy_pointer pure x.ttl_in_days
  pure (record x { ttl_in_days = ttl_in_days })

unfoldable pub lifecycle_deep_copy : Pointer Lifecycle → Alloc (Pointer Lifecycle)
lifecycle_deep_copy = copy_pointer lifecycle_deep_copy_into

unfoldable pub author_deep_copy_into : Author → Alloc Author
author_deep_copy_into x = pure x

unfoldable pub author_deep_copy : Pointer Author → Alloc (Pointer Author)
author_deep_copy = copy_pointer author_deep_copy_into

unfoldable pub srs_deep_copy_into : Srs → Alloc Srs
srs_deep_copy_into x = pure x

unfoldable pub srs_deep_copy : Pointer Srs → Alloc (Pointer Srs)
srs_deep_copy = copy_pointer srs_deep_copy_into

unfoldable pub other_link_deep_copy_into : OtherLink → Alloc OtherLink
other_link_deep_copy_into x = do
  content_type ← copy_pointer pure x.content_type
  language ← copy_pointer pure x.language
  pure (record x { content_type = content_type; language = language })

unfoldable pub other_link_deep_copy : Pointer OtherLink → Alloc (Pointer OtherLink)
other_link_deep_copy = copy_pointer other_link_deep_copy_into

unfoldable pub atom_status_deep_copy_into : AtomStatus → Alloc AtomStatus
atom_status_deep_copy_into x = pure x

unfoldable pub atom_status_deep_copy : Pointer AtomStatus → Alloc (Pointer AtomStatus)
atom_status_deep_copy = copy_pointer atom_status_deep_copy_into

module _ (i : Imports) where
  unfoldable pub condition_deep_copy_into : Condition i → Alloc (Condition i)
  condition_deep_copy_into x = do
    last_transition_time ← i.time_deep_copy_into x.last_transition_time
    ansible_result ← copy_pointer pure x.ansible_result
    pure (record x { last_transition_time = last_transition_time; ansible_result = ansible_result })

  unfoldable pub condition_deep_copy : Pointer (Condition i) → Alloc (Pointer (Condition i))
  condition_deep_copy = copy_pointer condition_deep_copy_into

  unfoldable pub status_deep_copy_into : Status i → Alloc (Status i)
  status_deep_copy_into x = do
    conditions ← copy_slice condition_deep_copy_into x.conditions
    deployment ← copy_pointer pure x.deployment
    resources ← copy_slice resources_deep_copy_into x.resources
    pure (record x { conditions = conditions; deployment = deployment; resources = resources })

  unfoldable pub status_deep_copy : Pointer (Status i) → Alloc (Pointer (Status i))
  status_deep_copy = copy_pointer status_deep_copy_into

  unfoldable pub kubernetes_deep_copy_into : Kubernetes i → Alloc (Kubernetes i)
  kubernetes_deep_copy_into x = do
    autoscaling ← copy_pointer autoscaling_deep_copy_into x.autoscaling
    health_check ← copy_pointer health_check_deep_copy_into x.health_check
    resources ← copy_pointer i.resource_requirements_deep_copy_into x.resources
    lifecycle ← copy_pointer lifecycle_deep_copy_into x.lifecycle
    pure (record x {
      autoscaling = autoscaling;
      health_check = health_check;
      resources = resources;
      lifecycle = lifecycle;
    })

  unfoldable pub kubernetes_deep_copy : Pointer (Kubernetes i) → Alloc (Pointer (Kubernetes i))
  kubernetes_deep_copy = copy_pointer kubernetes_deep_copy_into

  unfoldable pub bbox_deep_copy_into : Bbox i → Alloc (Bbox i)
  bbox_deep_copy_into x = pure x

  unfoldable pub bbox_deep_copy : Pointer (Bbox i) → Alloc (Pointer (Bbox i))
  bbox_deep_copy = copy_pointer bbox_deep_copy_into

  unfoldable pub link_deep_copy_into : Link i → Alloc (Link i)
  link_deep_copy_into x = do
    blob_key ← copy_pointer pure x.blob_key
    updated ← copy_pointer pure x.updated
    version ← copy_pointer pure x.version
    bbox ← copy_pointer pure x.bbox
    rel ← copy_pointer pure x.rel
    pure (record x {
      blob_key = blob_key;
      updated = updated;
      version = version;
      bbox = bbox;
      rel = rel;
    })

  unfoldable pub link_deep_copy : Pointer (Link i) → Alloc (Pointer (Link i))
  link_deep_copy = copy_pointer link_deep_copy_into

  unfoldable pub download_deep_copy_into : Download i → Alloc (Download i)
  download_deep_copy_into x = do
    title ← copy_pointer pure x.title
    updated ← copy_pointer pure x.updated
    content ← copy_pointer pure x.content
    links ← copy_slice link_deep_copy_into x.links
    pure (record x { title = title; updated = updated; content = content; links = links })

  unfoldable pub download_deep_copy : Pointer (Download i) → Alloc (Pointer (Download i))
  download_deep_copy = copy_pointer download_deep_copy_into

  unfoldable pub dataset_deep_copy_into : Dataset i → Alloc (Dataset i)
  dataset_deep_copy_into x = do
    links ← copy_slice other_link_deep_copy_into x.links
    downloads ← copy_slice download_deep_copy_into x.downloads
    pure (record x { links = links; downloads = downloads })

  unfoldable pub dataset_deep_copy : Pointer (Dataset i) → Alloc (Pointer (Dataset i))
  dataset_deep_copy = copy_pointer dataset_deep_copy_into

  unfoldable pub atom_service_deep_copy_into : AtomService i → Alloc (AtomService i)
  atom_service_deep_copy_into x = do
    updated ← copy_pointer pure x.updated
    datasets ← copy_slice dataset_deep_copy_into x.datasets
    pure (record x { updated = updated; datasets = datasets })

  unfoldable pub atom_service_deep_copy : Pointer (AtomService i) → Alloc (Pointer (AtomService i))
  atom_service_deep_copy = copy_pointer atom_service_deep_copy_into

  unfoldable pub atom_spec_deep_copy_into : AtomSpec i → Alloc (AtomSpec i)
  atom_spec_deep_copy_into x = do
    general ← general_deep_copy_into x.general
    service ← atom_service_deep_copy_into x.service
    kubernetes ← copy_pointer kubernetes_deep_copy_into x.kubernetes
    pure (record x { general = general; service = service; kubernetes = kubernetes })

  unfoldable pub atom_spec_deep_copy : Pointer (AtomSpec i) → Alloc (Pointer (AtomSpec i))
  atom_spec_deep_copy = copy_pointer atom_spec_deep_copy_into

  unfoldable pub atom_deep_copy_into : Atom i → Alloc (Atom i)
  atom_deep_copy_into x = do
    meta ← i.object_meta_deep_copy_into x.meta
    spec ← atom_spec_deep_copy_into x.spec
    pure (record x { meta = meta; spec = spec })

  unfoldable pub atom_deep_copy : Pointer (Atom i) → Alloc (Pointer (Atom i))
  atom_deep_copy = copy_pointer atom_deep_copy_into

  unfoldable pub atom_deep_copy_object : Pointer (Atom i) → Alloc (Pointer (Atom i))
  atom_deep_copy_object p = do c ← atom_deep_copy p; pure (as_object c)

  unfoldable pub atom_list_deep_copy_into : AtomList i → Alloc (AtomList i)
  atom_list_deep_copy_into x = do
    meta ← i.list_meta_deep_copy_into x.meta
    items ← copy_slice atom_deep_copy_into x.items
    pure (record x { meta = meta; items = items })

  unfoldable pub atom_list_deep_copy : Pointer (AtomList i) → Alloc (Pointer (AtomList i))
  atom_list_deep_copy = copy_pointer atom_list_deep_copy_into

  unfoldable pub atom_list_deep_copy_object : Pointer (AtomList i) → Alloc (Pointer (AtomList i))
  atom_list_deep_copy_object p = do c ← atom_list_deep_copy p; pure (as_object c)
