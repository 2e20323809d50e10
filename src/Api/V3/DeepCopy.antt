-- ===== src/Api/V3/DeepCopy.antt =====
-- api/v3/zz_generated.deepcopy.go. `DeepCopyInto` returns what it leaves in `out`: a copy of the
-- structure (`*out = *in`) whose fields with pointers and slices are replaced.
pub mod Fields
pub mod Shapes
pub mod Laws
use atom_operator.Memory.{Pointer, Alloc, pure, ◌>>=◌, as_object, copy_pointer, copy_slice}
use atom_operator.Api.V3.InMemory.{
  Imports, MetadataLink, DownloadLink, Polygon, Link, Srs, Entry, DatasetFeed, Service, AtomSpec,
  Atom, AtomList,
}

unfoldable pub metadata_link_deep_copy_into : MetadataLink → Alloc MetadataLink
metadata_link_deep_copy_into x = do
  templates ← copy_slice pure x.templates
  pure (record x { templates = templates })

unfoldable pub metadata_link_deep_copy : Pointer MetadataLink → Alloc (Pointer MetadataLink)
metadata_link_deep_copy = copy_pointer metadata_link_deep_copy_into

unfoldable pub download_link_deep_copy_into : DownloadLink → Alloc DownloadLink
download_link_deep_copy_into x = do
  rel ← copy_pointer pure x.rel
  time ← copy_pointer pure x.time
  bbox ← copy_pointer pure x.bbox
  pure (record x { rel = rel; time = time; bbox = bbox })

unfoldable pub download_link_deep_copy : Pointer DownloadLink → Alloc (Pointer DownloadLink)
download_link_deep_copy = copy_pointer download_link_deep_copy_into

unfoldable pub polygon_deep_copy_into : Polygon → Alloc Polygon
polygon_deep_copy_into x = pure x

unfoldable pub polygon_deep_copy : Pointer Polygon → Alloc (Pointer Polygon)
polygon_deep_copy = copy_pointer polygon_deep_copy_into

module _ (i : Imports) where
  unfoldable pub link_deep_copy_into : Link i → Alloc (Link i)
  link_deep_copy_into x = do
    href ← i.url_deep_copy_into x.href
    hreflang ← copy_pointer pure x.hreflang
    title ← copy_pointer pure x.title
    pure (record x { href = href; hreflang = hreflang; title = title })

  unfoldable pub link_deep_copy : Pointer (Link i) → Alloc (Pointer (Link i))
  link_deep_copy = copy_pointer link_deep_copy_into

  unfoldable pub srs_deep_copy_into : Srs i → Alloc (Srs i)
  srs_deep_copy_into x = do uri ← i.url_deep_copy_into x.uri; pure (record x { uri = uri })

  unfoldable pub srs_deep_copy : Pointer (Srs i) → Alloc (Pointer (Srs i))
  srs_deep_copy = copy_pointer srs_deep_copy_into

  unfoldable pub entry_deep_copy_into : Entry i → Alloc (Entry i)
  entry_deep_copy_into x = do
    title ← copy_pointer pure x.title
    content ← copy_pointer pure x.content
    download_links ← copy_slice download_link_deep_copy_into x.download_links
    updated ← i.time_deep_copy_into x.updated
    srs ← srs_deep_copy_into x.srs
    pure (record x {
      title = title;
      content = content;
      download_links = download_links;
      updated = updated;
      srs = srs;
    })

  unfoldable pub entry_deep_copy : Pointer (Entry i) → Alloc (Pointer (Entry i))
  entry_deep_copy = copy_pointer entry_deep_copy_into

  unfoldable pub dataset_feed_deep_copy_into : DatasetFeed i → Alloc (DatasetFeed i)
  dataset_feed_deep_copy_into x = do
    dataset_metadata_links ← copy_pointer metadata_link_deep_copy_into x.dataset_metadata_links
    links ← copy_slice link_deep_copy_into x.links
    spatial_dataset_identifier_code ← copy_pointer pure x.spatial_dataset_identifier_code
    spatial_dataset_identifier_namespace ← copy_pointer pure x.spatial_dataset_identifier_namespace
    entries ← copy_slice entry_deep_copy_into x.entries
    pure (record x {
      dataset_metadata_links = dataset_metadata_links;
      links = links;
      spatial_dataset_identifier_code = spatial_dataset_identifier_code;
      spatial_dataset_identifier_namespace = spatial_dataset_identifier_namespace;
      entries = entries;
    })

  unfoldable pub dataset_feed_deep_copy : Pointer (DatasetFeed i) → Alloc (Pointer (DatasetFeed i))
  dataset_feed_deep_copy = copy_pointer dataset_feed_deep_copy_into

  unfoldable pub service_deep_copy_into : Service i → Alloc (Service i)
  service_deep_copy_into x = do
    base_url ← i.url_deep_copy_into x.base_url
    stylesheet ← i.url_deep_copy x.stylesheet
    service_metadata_links ← copy_pointer metadata_link_deep_copy_into x.service_metadata_links
    links ← copy_slice link_deep_copy_into x.links
    dataset_feeds ← copy_slice dataset_feed_deep_copy_into x.dataset_feeds
    pure (record x {
      base_url = base_url;
      stylesheet = stylesheet;
      service_metadata_links = service_metadata_links;
      links = links;
      dataset_feeds = dataset_feeds;
    })

  unfoldable pub service_deep_copy : Pointer (Service i) → Alloc (Pointer (Service i))
  service_deep_copy = copy_pointer service_deep_copy_into

  unfoldable pub atom_spec_deep_copy_into : AtomSpec i → Alloc (AtomSpec i)
  atom_spec_deep_copy_into x = do
    lifecycle ← copy_pointer i.lifecycle_deep_copy_into x.lifecycle
    ingress_route_urls ← copy_slice i.ingress_route_url_deep_copy_into x.ingress_route_urls
    service ← service_deep_copy_into x.service
    pure (record x {
      lifecycle = lifecycle;
      ingress_route_urls = ingress_route_urls;
      service = service;
    })

  unfoldable pub atom_spec_deep_copy : Pointer (AtomSpec i) → Alloc (Pointer (AtomSpec i))
  atom_spec_deep_copy = copy_pointer atom_spec_deep_copy_into

  unfoldable pub atom_deep_copy_into : Atom i → Alloc (Atom i)
  atom_deep_copy_into x = do
    meta ← i.object_meta_deep_copy_into x.meta
    spec ← atom_spec_deep_copy_into x.spec
    status ← i.operator_status_deep_copy_into x.status
    pure (record x { meta = meta; spec = spec; status = status })

  unfoldable pub atom_deep_copy : Pointer (Atom i) → Alloc (Pointer (Atom i))
  atom_deep_copy = copy_pointer atom_deep_copy_into

  unfoldable pub atom_deep_copy_object : Pointer (Atom i) → Alloc (Pointer (Atom i))
  atom_deep_copy_object p = do c ← atom_deep_copy p; pure (as_object c)

  unfoldable pub atom_list_deep_copy_into : AtomList i → Alloc (AtomList i)
  atom_list_deep_copy_into x = do
    meta ← i.list_meta_deep_copy_into x.meta
    items ← copy_slice atom_deep_copy_into x.items
    pure (record x { meta = meta; items = items })

  unfoldable pub atom_list_deep_copy : Pointer (AtomList i) → Alloc (Pointer (AtomList i))
  atom_list_deep_copy = copy_pointer atom_list_deep_copy_into

  unfoldable pub atom_list_deep_copy_object : Pointer (AtomList i) → Alloc (Pointer (AtomList i))
  atom_list_deep_copy_object p = do c ← atom_list_deep_copy p; pure (as_object c)
