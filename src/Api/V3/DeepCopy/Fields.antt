-- ===== src/Api/V3/DeepCopy/Fields.antt =====
-- The fields of the structures of api/v3: each structure is the tuple of all of them.
use atom_operator.Prelude.{refl, String}
use atom_operator.Api.Model.{TypeMeta, Author, BBox}
use atom_operator.Memory.{Pointer, Slice, Fields}
use atom_operator.Api.V3.InMemory.{
  Imports, MetadataLink, DownloadLink, Polygon, Link, Srs, Entry, DatasetFeed, Service, AtomSpec,
  Atom, AtomList,
}

abbrev pub metadata_link_fields : Fields MetadataLink (String × Slice String)
metadata_link_fields = record {
  to = (λ x. (x.metadata_identifier, x.templates));
  from = (λ p. record { metadata_identifier = p.0; templates = p.1 });
  whole = λ x. refl;
  parts = λ p. refl;
}

abbrev pub download_link_fields :
    Fields DownloadLink (String × (Pointer String × (Pointer String × Pointer BBox)))
download_link_fields = record {
  to = (λ x. (x.blob_path, (x.rel, (x.time, x.bbox))));
  from = (λ p. record { blob_path = p.0; rel = p.1.0; time = p.1.1.0; bbox = p.1.1.1 });
  whole = λ x. refl;
  parts = λ p. refl;
}

abbrev pub polygon_fields : Fields Polygon (BBox)
polygon_fields = record {
  to = (λ x. x.bbox);
  from = (λ p. record { bbox = p });
  whole = λ x. refl;
  parts = λ p. refl;
}

module _ {i : Imports} where
  abbrev pub link_fields :
      Fields (Link i) (i.Url × (String × (String × (Pointer String × Pointer String))))
  link_fields = record {
    to = (λ x. (x.href, (x.rel, (x.content_type, (x.hreflang, x.title)))));
    from = (λ p. record {
      href = p.0;
      rel = p.1.0;
      content_type = p.1.1.0;
      hreflang = p.1.1.1.0;
      title = p.1.1.1.1;
    });
    whole = λ x. refl;
    parts = λ p. refl;
  }

  abbrev pub srs_fields : Fields (Srs i) (i.Url × String)
  srs_fields = record {
    to = (λ x. (x.uri, x.name));
    from = (λ p. record { uri = p.0; name = p.1 });
    whole = λ x. refl;
    parts = λ p. refl;
  }

  abbrev pub entry_fields : Fields (Entry i) (
      String
      × (Pointer String × (Pointer String × (Slice DownloadLink × (i.Time × (Polygon × Srs i))))))
  entry_fields = record {
    to = (λ x. (
      x.technical_name,
      (x.title, (x.content, (x.download_links, (x.updated, (x.polygon, x.srs))))),
    ));
    from = (λ p. record {
      technical_name = p.0;
      title = p.1.0;
      content = p.1.1.0;
      download_links = p.1.1.1.0;
      updated = p.1.1.1.1.0;
      polygon = p.1.1.1.1.1.0;
      srs = p.1.1.1.1.1.1;
    });
    whole = λ x. refl;
    parts = λ p. refl;
  }

  abbrev pub dataset_feed_fields : Fields (DatasetFeed i) (
      String
      × (String
          × (String
              × (Pointer MetadataLink
                  × (Slice (Link i)
                      × (Author × (Pointer String × (Pointer String × Slice (Entry i)))))))))
  dataset_feed_fields = record {
    to = (λ x. (
      x.technical_name,
      (
        x.title,
        (
          x.subtitle,
          (
            x.dataset_metadata_links,
            (
              x.links,
              (
                x.author,
                (
                  x.spatial_dataset_identifier_code,
                  (x.spatial_dataset_identifier_namespace, x.entries),
                ),
              ),
            ),
          ),
        ),
      ),
    ));
    from = (λ p. record {
      technical_name = p.0;
      title = p.1.0;
      subtitle = p.1.1.0;
      dataset_metadata_links = p.1.1.1.0;
      links = p.1.1.1.1.0;
      author = p.1.1.1.1.1.0;
      spatial_dataset_identifier_code = p.1.1.1.1.1.1.0;
      spatial_dataset_identifier_namespace = p.1.1.1.1.1.1.1.0;
      entries = p.1.1.1.1.1.1.1.1;
    });
    whole = λ x. refl;
    parts = λ p. refl;
  }

  abbrev pub service_fields : Fields (Service i) (
      i.Url
      × (String
          × (Pointer i.Url
              × (String
                  × (String
                      × (String
                          × (Pointer MetadataLink
                              × (Slice (Link i) × (String × Slice (DatasetFeed i))))))))))
  service_fields = record {
    to = (λ x. (
      x.base_url,
      (
        x.lang,
        (
          x.stylesheet,
          (
            x.title,
            (
              x.subtitle,
              (
                x.owner_info_ref,
                (x.service_metadata_links, (x.links, (x.rights, x.dataset_feeds))),
              ),
            ),
          ),
        ),
      ),
    ));
    from = (λ p. record {
      base_url = p.0;
      lang = p.1.0;
      stylesheet = p.1.1.0;
      title = p.1.1.1.0;
      subtitle = p.1.1.1.1.0;
      owner_info_ref = p.1.1.1.1.1.0;
      service_metadata_links = p.1.1.1.1.1.1.0;
      links = p.1.1.1.1.1.1.1.0;
      rights = p.1.1.1.1.1.1.1.1.0;
      dataset_feeds = p.1.1.1.1.1.1.1.1.1;
    });
    whole = λ x. refl;
    parts = λ p. refl;
  }

  abbrev pub atom_spec_fields :
      Fields (AtomSpec i) (Pointer i.Lifecycle × (Slice i.IngressRouteUrl × Service i))
  atom_spec_fields = record {
    to = (λ x. (x.lifecycle, (x.ingress_route_urls, x.service)));
    from = (λ p. record { lifecycle = p.0; ingress_route_urls = p.1.0; service = p.1.1 });
    whole = λ x. refl;
    parts = λ p. refl;
  }

  abbrev pub atom_fields :
      Fields (Atom i) (TypeMeta × (i.ObjectMeta × (AtomSpec i × i.OperatorStatus)))
  atom_fields = record {
    to = (λ x. (x.type_meta, (x.meta, (x.spec, x.status))));
    from = (λ p. record { type_meta = p.0; meta = p.1.0; spec = p.1.1.0; status = p.1.1.1 });
    whole = λ x. refl;
    parts = λ p. refl;
  }

  abbrev pub atom_list_fields : Fields (AtomList i) (TypeMeta × (i.ListMeta × Slice (Atom i)))
  atom_list_fields = record {
    to = (λ x. (x.type_meta, (x.meta, x.items)));
    from = (λ p. record { type_meta = p.0; meta = p.1.0; items = p.1.1 });
    whole = λ x. refl;
    parts = λ p. refl;
  }
