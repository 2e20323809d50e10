-- ===== src/Api/V3/DeepCopy/Laws.antt =====
-- What the copies of api/v3 hold.
use atom_operator.Prelude.{ℕ, ◌<◌, All}
use atom_operator.Memory.{Pointer, pointer, pointer_addresses}
use atom_operator.Memory.Copies.{IsSeparateCopy}
use atom_operator.Memory.Deep.{
  Deep, plain_deep, pointer_deep, slice_deep, pair_deep, structure_deep, object-IsSeparateCopy,
}
use atom_operator.Api.V3.InMemory.{Imports, Atom, AtomList}
use atom_operator.Api.V3.DeepCopy.{
  metadata_link_deep_copy_into, download_link_deep_copy_into, polygon_deep_copy_into,
  link_deep_copy_into, srs_deep_copy_into, entry_deep_copy_into, dataset_feed_deep_copy_into,
  service_deep_copy_into, atom_spec_deep_copy_into, atom_deep_copy_into, atom_list_deep_copy_into,
  atom_deep_copy_object, atom_list_deep_copy_object, atom_deep_copy, atom_list_deep_copy,
}
use atom_operator.Api.V3.DeepCopy.Fields.{
  metadata_link_fields, download_link_fields, polygon_fields, link_fields, srs_fields, entry_fields,
  dataset_feed_fields, service_fields, atom_spec_fields, atom_fields, atom_list_fields,
}
use atom_operator.Api.V3.DeepCopy.Shapes.{
  ImportShapes, metadata_link_shape, download_link_shape, polygon_shape, link_shape, srs_shape,
  entry_shape, dataset_feed_shape, service_shape, atom_spec_shape, atom_shape, atom_list_shape,
}

-- The imported copies are deep.
pub record DeepImports (i : Imports) (s : ImportShapes i) : Type 0 where
  pub url : Deep s.url i.url_deep_copy_into
  pub time : Deep s.time i.time_deep_copy_into
  pub lifecycle : Deep s.lifecycle i.lifecycle_deep_copy_into
  pub ingress_route_url : Deep s.ingress_route_url i.ingress_route_url_deep_copy_into
  pub object_meta : Deep s.object_meta i.object_meta_deep_copy_into
  pub list_meta : Deep s.list_meta i.list_meta_deep_copy_into
  pub operator_status : Deep s.operator_status i.operator_status_deep_copy_into
  pub url_deep_copy : Deep (pointer s.url) i.url_deep_copy

pub metadata_link_deep : Deep metadata_link_shape metadata_link_deep_copy_into
unfolding metadata_link_shape metadata_link_deep_copy_into
metadata_link_deep =
    structure_deep metadata_link_fields (pair_deep (plain_deep) (slice_deep (plain_deep)))

pub download_link_deep : Deep download_link_shape download_link_deep_copy_into
unfolding download_link_shape download_link_deep_copy_into
download_link_deep = structure_deep download_link_fields (
    pair_deep (plain_deep) (
      pair_deep (pointer_deep (plain_deep))
        (pair_deep (pointer_deep (plain_deep)) (pointer_deep (plain_deep)))))

pub polygon_deep : Deep polygon_shape polygon_deep_copy_into
unfolding polygon_shape polygon_deep_copy_into
polygon_deep = structure_deep polygon_fields (plain_deep)

module _ {i : Imports} {s : ImportShapes i} (d : DeepImports i s) where
  pub link_deep : Deep (link_shape s) (link_deep_copy_into i)
  unfolding link_shape link_deep_copy_into
  link_deep = structure_deep link_fields (
      pair_deep (d.url) (
        pair_deep (plain_deep) (
          pair_deep (plain_deep)
            (pair_deep (pointer_deep (plain_deep)) (pointer_deep (plain_deep))))))

  pub srs_deep : Deep (srs_shape s) (srs_deep_copy_into i)
  unfolding srs_shape srs_deep_copy_into
  srs_deep = structure_deep srs_fields (pair_deep (d.url) (plain_deep))

  pub entry_deep : Deep (entry_shape s) (entry_deep_copy_into i)
  unfolding entry_shape entry_deep_copy_into polygon_deep_copy_into
  entry_deep = structure_deep entry_fields (
      pair_deep (plain_deep) (
        pair_deep (pointer_deep (plain_deep)) (
          pair_deep (pointer_deep (plain_deep)) (
            pair_deep (slice_deep (download_link_deep))
              (pair_deep (d.time) (pair_deep (polygon_deep) (srs_deep)))))))

  pub dataset_feed_deep : Deep (dataset_feed_shape s) (dataset_feed_deep_copy_into i)
  unfolding dataset_feed_shape dataset_feed_deep_copy_into
  dataset_feed_deep = structure_deep dataset_feed_fields (
      pair_deep (plain_deep) (
        pair_deep (plain_deep) (
          pair_deep (plain_deep) (
            pair_deep (pointer_deep (metadata_link_deep)) (
              pair_deep (slice_deep (link_deep)) (
                pair_deep (plain_deep) (
                  pair_deep (pointer_deep (plain_deep))
                    (pair_deep (pointer_deep (plain_deep)) (slice_deep (entry_deep))))))))))

  pub service_deep : Deep (service_shape s) (service_deep_copy_into i)
  unfolding service_shape service_deep_copy_into
  service_deep = structure_deep service_fields (
      pair_deep (d.url) (
        pair_deep (plain_deep) (
          pair_deep (d.url_deep_copy) (
            pair_deep (plain_deep) (
              pair_deep (plain_deep) (
                pair_deep (plain_deep) (
                  pair_deep (pointer_deep (metadata_link_deep)) (
                    pair_deep (slice_deep (link_deep))
                      (pair_deep (plain_deep) (slice_deep (dataset_feed_deep)))))))))))

  pub atom_spec_deep : Deep (atom_spec_shape s) (atom_spec_deep_copy_into i)
  unfolding atom_spec_shape atom_spec_deep_copy_into
  atom_spec_deep = structure_deep atom_spec_fields (
      pair_deep (pointer_deep (d.lifecycle))
        (pair_deep (slice_deep (d.ingress_route_url)) (service_deep)))

  pub atom_deep : Deep (atom_shape s) (atom_deep_copy_into i)
  unfolding atom_shape atom_deep_copy_into
  atom_deep = structure_deep atom_fields (
      pair_deep (plain_deep)
        (pair_deep (d.object_meta) (pair_deep (atom_spec_deep) (d.operator_status))))

  pub atom_list_deep : Deep (atom_list_shape s) (atom_list_deep_copy_into i)
  unfolding atom_list_shape atom_list_deep_copy_into
  atom_list_deep =
      structure_deep atom_list_fields
        (pair_deep (plain_deep) (pair_deep (d.list_meta) (slice_deep (atom_deep))))

  -- Where the copies of imported structures are deep and all addresses of a resource and of a list
  -- were handed out before: `DeepCopyObject` returns a copy that says the same, and none of its
  -- addresses, in all its structures, pointers and slices, is one of the original, so a write through
  -- one is not seen through the other.
  pub deep_copy_object-IsSeparateCopy :
      (p : Pointer (Atom i)) (q : Pointer (AtomList i)) (n : ℕ)
      → All (λ a. a < n) (pointer_addresses (atom_shape s) p)
      → All (λ a. a < n) (pointer_addresses (atom_list_shape s) q)
      → IsSeparateCopy (pointer (atom_shape s)) p (atom_deep_copy_object i p n).0
        × IsSeparateCopy (pointer (atom_list_shape s)) q (atom_list_deep_copy_object i q n).0
  unfolding atom_deep_copy_object atom_deep_copy atom_list_deep_copy_object atom_list_deep_copy
  deep_copy_object-IsSeparateCopy p q n hp hq =
      (object-IsSeparateCopy atom_deep p n hp, object-IsSeparateCopy atom_list_deep q n hq)
