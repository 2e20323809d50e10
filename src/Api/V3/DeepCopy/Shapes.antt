-- ===== src/Api/V3/DeepCopy/Shapes.antt =====
-- What the structures of api/v3 consist of: one shape for each, made of the
-- shapes of all its fields, which their types fix.
use atom_operator.Memory.{Shape, plain, text, pointer, slice, pair, structure}
use atom_operator.Api.V3.InMemory.{
  Imports, MetadataLink, DownloadLink, Polygon, Link, Srs, Entry, DatasetFeed, Service, AtomSpec,
  Atom, AtomList,
}
use atom_operator.Api.V3.DeepCopy.Fields.{
  metadata_link_fields, download_link_fields, polygon_fields, link_fields, srs_fields, entry_fields,
  dataset_feed_fields, service_fields, atom_spec_fields, atom_fields, atom_list_fields,
}

-- The shapes of the imported structures.
pub record ImportShapes (i : Imports) : Type 0 where
  pub url : Shape i.Url
  pub time : Shape i.Time
  pub lifecycle : Shape i.Lifecycle
  pub ingress_route_url : Shape i.IngressRouteUrl
  pub object_meta : Shape i.ObjectMeta
  pub list_meta : Shape i.ListMeta
  pub operator_status : Shape i.OperatorStatus

unfoldable pub metadata_link_shape : Shape MetadataLink
metadata_link_shape = structure metadata_link_fields (pair (text) (slice (text)))

unfoldable pub download_link_shape : Shape DownloadLink
download_link_shape =
    structure download_link_fields
      (pair (text) (pair (pointer (text)) (pair (pointer (text)) (pointer (plain)))))

unfoldable pub polygon_shape : Shape Polygon
polygon_shape = structure polygon_fields (plain)

module _ {i : Imports} (s : ImportShapes i) where
  unfoldable pub link_shape : Shape (Link i)
  link_shape =
      structure link_fields
        (pair (s.url) (pair (text) (pair (text) (pair (pointer (text)) (pointer (text))))))

  unfoldable pub srs_shape : Shape (Srs i)
  srs_shape = structure srs_fields (pair (s.url) (text))

  unfoldable pub entry_shape : Shape (Entry i)
  entry_shape = structure entry_fields (
      pair (text) (
        pair (pointer (text)) (
          pair (pointer (text)) (
            pair (slice (download_link_shape))
              (pair (s.time) (pair (polygon_shape) (srs_shape)))))))

  unfoldable pub dataset_feed_shape : Shape (DatasetFeed i)
  dataset_feed_shape = structure dataset_feed_fields (
      pair (text) (
        pair (text) (
          pair (text) (
            pair (pointer (metadata_link_shape)) (
              pair (slice (link_shape)) (
                pair (plain)
                  (pair (pointer (text)) (pair (pointer (text)) (slice (entry_shape))))))))))

  unfoldable pub service_shape : Shape (Service i)
  service_shape = structure service_fields (
      pair (s.url) (
        pair (text) (
          pair (pointer (s.url)) (
            pair (text) (
              pair (text) (
                pair (text) (
                  pair (pointer (metadata_link_shape))
                    (pair (slice (link_shape)) (pair (text) (slice (dataset_feed_shape)))))))))))

  unfoldable pub atom_spec_shape : Shape (AtomSpec i)
  atom_spec_shape =
      structure atom_spec_fields
        (pair (pointer (s.lifecycle)) (pair (slice (s.ingress_route_url)) (service_shape)))

  unfoldable pub atom_shape : Shape (Atom i)
  atom_shape =
      structure atom_fields
        (pair (plain) (pair (s.object_meta) (pair (atom_spec_shape) (s.operator_status))))

  unfoldable pub atom_list_shape : Shape (AtomList i)
  atom_list_shape =
      structure atom_list_fields (pair (plain) (pair (s.list_meta) (slice (atom_shape))))
