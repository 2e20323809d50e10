-- ===== src/Api/V2beta1/DeepCopy/Shapes.antt =====
-- What the structures of api/v2beta1 consist of: one shape for each, made of the
-- shapes of all its fields, which their types fix.
use atom_operator.Memory.{Shape, plain, text, integer, pointer, slice, pair, structure}
use atom_operator.Api.V2beta1.InMemory.{
  Imports, ResultAnsible, Resources, General, Autoscaling, HealthCheck, Lifecycle, Author, Srs,
  OtherLink, AtomStatus, Condition, Status, Kubernetes, Bbox, Link, Download, Dataset, AtomService,
  AtomSpec, Atom, AtomList,
}
use atom_operator.Api.V2beta1.DeepCopy.Fields.{
  result_ansible_fields, resources_fields, general_fields, autoscaling_fields, health_check_fields,
  lifecycle_fields, author_fields, srs_fields, other_link_fields, condition_fields, status_fields,
  kubernetes_fields, bbox_fields, link_fields, download_fields, dataset_fields, atom_service_fields,
  atom_spec_fields, atom_fields, atom_list_fields,
}

-- The shapes of the imported structures.
pub record ImportShapes (i : Imports) : Type 0 where
  pub time : Shape i.Time
  pub resource_requirements : Shape i.ResourceRequirements
  pub object_meta : Shape i.ObjectMeta
  pub list_meta : Shape i.ListMeta

unfoldable pub result_ansible_shape : Shape ResultAnsible
result_ansible_shape =
    structure result_ansible_fields
      (pair (integer) (pair (integer) (pair (integer) (pair (integer) (text)))))

unfoldable pub resources_shape : Shape Resources
resources_shape =
    structure resources_fields (pair (pointer (text)) (pair (pointer (text)) (pointer (text))))

unfoldable pub general_shape : Shape General
general_shape =
    structure general_fields
      (pair (text) (pair (pointer (text)) (pair (text) (pair (pointer (text)) (pointer (text))))))

unfoldable pub autoscaling_shape : Shape Autoscaling
autoscaling_shape =
    structure autoscaling_fields
      (pair (pointer (integer)) (pair (pointer (integer)) (pointer (integer))))

unfoldable pub health_check_shape : Shape HealthCheck
health_check_shape =
    structure health_check_fields (pair (pointer (text)) (pair (pointer (text)) (pointer (text))))

unfoldable pub lifecycle_shape : Shape Lifecycle
lifecycle_shape = structure lifecycle_fields (pointer (integer))

unfoldable pub author_shape : Shape Author
author_shape = structure author_fields (pair (text) (text))

unfoldable pub srs_shape : Shape Srs
srs_shape = structure srs_fields (pair (text) (text))

unfoldable pub other_link_shape : Shape OtherLink
other_link_shape =
    structure other_link_fields (pair (text) (pair (text) (pair (pointer (text)) (pointer (text)))))

unfoldable pub atom_status_shape : Shape AtomStatus
atom_status_shape = plain

module _ {i : Imports} (s : ImportShapes i) where
  unfoldable pub condition_shape : Shape (Condition i)
  condition_shape = structure condition_fields (
      pair (text)
        (pair (text) (pair (s.time) (pair (pointer (result_ansible_shape)) (pair (text) (text))))))

  unfoldable pub status_shape : Shape (Status i)
  status_shape =
      structure status_fields
        (pair (slice (condition_shape)) (pair (pointer (text)) (slice (resources_shape))))

  unfoldable pub kubernetes_shape : Shape (Kubernetes i)
  kubernetes_shape = structure kubernetes_fields (
      pair (pointer (autoscaling_shape)) (
        pair (pointer (health_check_shape))
          (pair (pointer (s.resource_requirements)) (pointer (lifecycle_shape)))))

  unfoldable pub bbox_shape : Shape (Bbox i)
  bbox_shape = structure bbox_fields (pair (plain) (pair (plain) (pair (plain) (plain))))

  unfoldable pub link_shape : Shape (Link i)
  link_shape = structure link_fields (
      pair (pointer (text)) (
        pair (pointer (text))
          (pair (pointer (text)) (pair (pointer (bbox_shape)) (pointer (text))))))

  unfoldable pub download_shape : Shape (Download i)
  download_shape = structure download_fields (
      pair (text) (
        pair (pointer (text))
          (pair (pointer (text)) (pair (pointer (text)) (pair (slice (link_shape)) (srs_shape))))))

  unfoldable pub dataset_shape : Shape (Dataset i)
  dataset_shape = structure dataset_fields (
      pair (text) (
        pair (text) (
          pair (text) (
            pair (text) (
              pair (text)
                (pair (slice (other_link_shape)) (pair (slice (download_shape)) (bbox_shape))))))))

  unfoldable pub atom_service_shape : Shape (AtomService i)
  atom_service_shape = structure atom_service_fields (
      pair (text) (
        pair (text) (
          pair (text)
            (pair (text) (pair (pointer (text)) (pair (author_shape) (slice (dataset_shape))))))))

  unfoldable pub atom_spec_shape : Shape (AtomSpec i)
  atom_spec_shape =
      structure atom_spec_fields
        (pair (general_shape) (pair (atom_service_shape) (pointer (kubernetes_shape))))

  unfoldable pub atom_shape : Shape (Atom i)
  atom_shape =
      structure atom_fields
        (pair (plain) (pair (s.object_meta) (pair (atom_spec_shape) (atom_status_shape))))

  unfoldable pub atom_list_shape : Shape (AtomList i)
  atom_list_shape =
      structure atom_list_fields (pair (plain) (pair (s.list_meta) (slice (atom_shape))))
