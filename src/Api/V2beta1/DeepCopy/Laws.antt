-- ===== src/Api/V2beta1/DeepCopy/Laws.antt =====
-- What the copies of api/v2beta1 hold.
use atom_operator.Prelude.{ℕ, ◌<◌, All}
use atom_operator.Memory.{Pointer, pure, pointer, pointer_addresses}
use atom_operator.Memory.Copies.{IsSeparateCopy}
use atom_operator.Memory.Deep.{
  Deep, plain_deep, pointer_deep, slice_deep, pair_deep, structure_deep, object-IsSeparateCopy,
}
use atom_operator.Api.V2beta1.InMemory.{Imports, Atom, AtomList}
use atom_operator.Api.V2beta1.DeepCopy.{
  result_ansible_deep_copy_into, resources_deep_copy_into, general_deep_copy_into,
  autoscaling_deep_copy_into, health_check_deep_copy_into, lifecycle_deep_copy_into,
  author_deep_copy_into, srs_deep_copy_into, other_link_deep_copy_into, condition_deep_copy_into,
  status_deep_copy_into, kubernetes_deep_copy_into, bbox_deep_copy_into, link_deep_copy_into,
  download_deep_copy_into, dataset_deep_copy_into, atom_service_deep_copy_into,
  atom_spec_deep_copy_into, atom_deep_copy_into, atom_list_deep_copy_into, atom_deep_copy_object,
  atom_list_deep_copy_object, atom_deep_copy, atom_list_deep_copy,
}
use atom_operator.Api.V2beta1.DeepCopy.Fields.{
  result_ansible_fields, resources_fields, general_fields, autoscaling_fields, health_check_fields,
  lifecycle_fields, author_fields, srs_fields, other_link_fields, condition_fields, status_fields,
  kubernetes_fields, bbox_fields, link_fields, download_fields, dataset_fields, atom_service_fields,
  atom_spec_fields, atom_fields, atom_list_fields,
}
use atom_operator.Api.V2beta1.DeepCopy.Shapes.{
  ImportShapes, result_ansible_shape, resources_shape, general_shape, autoscaling_shape,
  health_check_shape, lifecycle_shape, author_shape, srs_shape, other_link_shape, atom_status_shape,
  condition_shape, status_shape, kubernetes_shape, bbox_shape, link_shape, download_shape,
  dataset_shape, atom_service_shape, atom_spec_shape, atom_shape, atom_list_shape,
}

-- The imported copies are deep.
pub record DeepImports (i : Imports) (s : ImportShapes i) : Type 0 where
  pub time : Deep s.time i.time_deep_copy_into
  pub resource_requirements : Deep s.resource_requirements i.resource_requirements_deep_copy_into
  pub object_meta : Deep s.object_meta i.object_meta_deep_copy_into
  pub list_meta : Deep s.list_meta i.list_meta_deep_copy_into

pub result_ansible_deep : Deep result_ansible_shape result_ansible_deep_copy_into
unfolding result_ansible_shape result_ansible_deep_copy_into
result_ansible_deep = structure_deep result_ansible_fields (
    pair_deep (plain_deep)
      (pair_deep (plain_deep) (pair_deep (plain_deep) (pair_deep (plain_deep) (plain_deep)))))

pub resources_deep : Deep resources_shape resources_deep_copy_into
unfolding resources_shape resources_deep_copy_into
resources_deep = structure_deep resources_fields (
    pair_deep (pointer_deep (plain_deep))
      (pair_deep (pointer_deep (plain_deep)) (pointer_deep (plain_deep))))

pub general_deep : Deep general_shape general_deep_copy_into
unfolding general_shape general_deep_copy_into
general_deep = structure_deep general_fields (
    pair_deep (plain_deep) (
      pair_deep (pointer_deep (plain_deep)) (
        pair_deep (plain_deep)
          (pair_deep (pointer_deep (plain_deep)) (pointer_deep (plain_deep))))))

pub autoscaling_deep : Deep autoscaling_shape autoscaling_deep_copy_into
unfolding autoscaling_shape autoscaling_deep_copy_into
autoscaling_deep = structure_deep autoscaling_fields (
    pair_deep (pointer_deep (plain_deep))
      (pair_deep (pointer_deep (plain_deep)) (pointer_deep (plain_deep))))

pub health_check_deep : Deep health_check_shape health_check_deep_copy_into
unfolding health_check_shape health_check_deep_copy_into
health_check_deep = structure_deep health_check_fields (
    pair_deep (pointer_deep (plain_deep))
      (pair_deep (pointer_deep (plain_deep)) (pointer_deep (plain_deep))))

pub lifecycle_deep : Deep lifecycle_shape lifecycle_deep_copy_into
unfolding lifecycle_shape lifecycle_deep_copy_into
lifecycle_deep = structure_deep lifecycle_fields (pointer_deep (plain_deep))

pub author_deep : Deep author_shape author_deep_copy_into
unfolding author_shape author_deep_copy_into
author_deep = structure_deep author_fields (pair_deep (plain_deep) (plain_deep))

pub srs_deep : Deep srs_shape srs_deep_copy_into
unfolding srs_shape srs_deep_copy_into
srs_deep = structure_deep srs_fields (pair_deep (plain_deep) (plain_deep))

pub other_link_deep : Deep other_link_shape other_link_deep_copy_into
unfolding other_link_shape other_link_deep_copy_into
other_link_deep = structure_deep other_link_fields (
    pair_deep (plain_deep)
      (pair_deep (plain_deep) (pair_deep (pointer_deep (plain_deep)) (pointer_deep (plain_deep)))))

pub atom_status_deep : Deep atom_status_shape pure
unfolding atom_status_shape
atom_status_deep = plain_deep

module _ {i : Imports} {s : ImportShapes i} (d : DeepImports i s) where
  pub condition_deep : Deep (condition_shape s) (condition_deep_copy_into i)
  unfolding condition_shape condition_deep_copy_into result_ansible_deep_copy_into
  condition_deep = structure_deep condition_fields (
      pair_deep (plain_deep) (
        pair_deep (plain_deep) (
          pair_deep (d.time) (
            pair_deep (pointer_deep (result_ansible_deep)) (pair_deep (plain_deep) (plain_deep))))))

  pub status_deep : Deep (status_shape s) (status_deep_copy_into i)
  unfolding status_shape status_deep_copy_into
  status_deep = structure_deep status_fields (
      pair_deep (slice_deep (condition_deep))
        (pair_deep (pointer_deep (plain_deep)) (slice_deep (resources_deep))))

  pub kubernetes_deep : Deep (kubernetes_shape s) (kubernetes_deep_copy_into i)
  unfolding kubernetes_shape kubernetes_deep_copy_into
  kubernetes_deep = structure_deep kubernetes_fields (
      pair_deep (pointer_deep (autoscaling_deep)) (
        pair_deep (pointer_deep (health_check_deep))
          (pair_deep (pointer_deep (d.resource_requirements)) (pointer_deep (lifecycle_deep)))))

  pub bbox_deep : Deep (bbox_shape s) (bbox_deep_copy_into i)
  unfolding bbox_shape bbox_deep_copy_into
  bbox_deep =
      structure_deep bbox_fields
        (pair_deep (plain_deep) (pair_deep (plain_deep) (pair_deep (plain_deep) (plain_deep))))

  pub link_deep : Deep (link_shape s) (link_deep_copy_into i)
  unfolding link_shape link_deep_copy_into bbox_deep_copy_into
  link_deep = structure_deep link_fields (
      pair_deep (pointer_deep (plain_deep)) (
        pair_deep (pointer_deep (plain_deep)) (
          pair_deep (pointer_deep (plain_deep))
            (pair_deep (pointer_deep (bbox_deep)) (pointer_deep (plain_deep))))))

  pub download_deep : Deep (download_shape s) (download_deep_copy_into i)
  unfolding download_shape download_deep_copy_into srs_deep_copy_into
  download_deep = structure_deep download_fields (
      pair_deep (plain_deep) (
        pair_deep (pointer_deep (plain_deep)) (
          pair_deep (pointer_deep (plain_deep)) (
            pair_deep (pointer_deep (plain_deep))
              (pair_deep (slice_deep (link_deep)) (srs_deep))))))

  pub dataset_deep : Deep (dataset_shape s) (dataset_deep_copy_into i)
  unfolding dataset_shape dataset_deep_copy_into bbox_deep_copy_into
  dataset_deep = structure_deep dataset_fields (
      pair_deep (plain_deep) (
        pair_deep (plain_deep) (
          pair_deep (plain_deep) (
            pair_deep (plain_deep) (
              pair_deep (plain_deep) (
                pair_deep (slice_deep (other_link_deep))
                  (pair_deep (slice_deep (download_deep)) (bbox_deep))))))))

  pub atom_service_deep : Deep (atom_service_shape s) (atom_service_deep_copy_into i)
  unfolding atom_service_shape atom_service_deep_copy_into author_deep_copy_into
  atom_service_deep = structure_deep atom_service_fields (
      pair_deep (plain_deep) (
        pair_deep (plain_deep) (
          pair_deep (plain_deep) (
            pair_deep (plain_deep) (
              pair_deep (pointer_deep (plain_deep))
                (pair_deep (author_deep) (slice_deep (dataset_deep))))))))

  pub atom_spec_deep : Deep (atom_spec_shape s) (atom_spec_deep_copy_into i)
  unfolding atom_spec_shape atom_spec_deep_copy_into
  atom_spec_deep =
      structure_deep atom_spec_fields
        (pair_deep (general_deep) (pair_deep (atom_service_deep) (pointer_deep (kubernetes_deep))))

  pub atom_deep : Deep (atom_shape s) (atom_deep_copy_into i)
  unfolding atom_shape atom_deep_copy_into
  atom_deep = structure_deep atom_fields (
      pair_deep (plain_deep)
        (pair_deep (d.object_meta) (pair_deep (atom_spec_deep) (atom_status_deep))))

  pub atom_list_deep : Deep (atom_list_shape s) (atom_list_deep_copy_into i)
  unfolding atom_list_shape atom_list_deep_copy_into
  atom_list_deep =
      structure_deep atom_list_fields
        (pair_deep (plain_deep) (pair_deep (d.list_meta) (slice_deep (atom_deep))))

  -- Where the copies of imported structures are deep and all addresses of a resource and of a list
  -- were handed out before: `DeepCopyObject` returns a copy that says the same, and none of its
  -- addresses, in all its structures, pointers and slices, is one of the original, so a write through
  -- one is not seen through the other.
  pub v2beta1_deep_copy_object-IsSeparateCopy :
      (p : Pointer (Atom i)) (q : Pointer (AtomList i)) (n : ℕ)
      → All (λ a. a < n) (pointer_addresses (atom_shape s) p)
      → All (λ a. a < n) (pointer_addresses (atom_list_shape s) q)
      → IsSeparateCopy (pointer (atom_shape s)) p (atom_deep_copy_object i p n).0
        × IsSeparateCopy (pointer (atom_list_shape s)) q (atom_list_deep_copy_object i q n).0
  unfolding atom_deep_copy_object atom_deep_copy atom_list_deep_copy_object atom_list_deep_copy
  v2beta1_deep_copy_object-IsSeparateCopy p q n hp hq =
      (object-IsSeparateCopy atom_deep p n hp, object-IsSeparateCopy atom_list_deep q n hq)
