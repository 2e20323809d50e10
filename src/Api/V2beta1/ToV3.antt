-- ===== src/Api/V2beta1/ToV3.antt =====
-- `ToV3` and `createBaseURL` of api/v2beta1/atom_conversion.go. A conversion takes the object that it
-- writes to and returns it; on an error the caller drops the object.
use atom_operator.Prelude.{◌-◌, ◌%◌, String, Option, none, some, [], ◌∷◌, map, ltb, if◌then◌else◌}
use atom_operator.Prelude.Int.{ℤ, pos, negsuc}
use atom_operator.Prelude.Result.{Result, ok, each, ◌>>=◌}
use atom_operator.Api.Model
use atom_operator.Api.Model.{UrlOps, Time}
use atom_operator.Api.V3
use atom_operator.Api.V3.{Globals, get_base_url}
use atom_operator.Api.V2beta1.{
  General, Kubernetes, Bbox, Link, OtherLink, Download, Dataset, AtomService, Atom,
}
use atom_operator.Api.V2beta1.Context.{Conversions, get_float32_as_string, text_or_empty}

-- `int32(…)` in two's complement.
unfoldable pub wrap32 : ℤ → ℤ
wrap32 (pos n) =
    let m = n % 4294967296 in if ltb m 2147483648 then pos m else negsuc (4294967295 - m)
wrap32 (negsuc n) =
    let m = n % 4294967296 in if ltb m 2147483648 then negsuc m else pos (4294967295 - m)

-- The tests for nil pointers at the TTL.
unfoldable pub ttl_of : Option Kubernetes → Option ℤ
ttl_of none = none
ttl_of (some k) = elim k.lifecycle [ none ↦ none | some l ↦ l.ttl_in_days ]

-- The lifecycle that is set, or the one that is there.
unfoldable pub set_lifecycle : Option ℤ → Option Model.Lifecycle → Option Model.Lifecycle
unfolding wrap32
set_lifecycle none old = old
set_lifecycle (some days) old = some (record { ttl_in_days = some (wrap32 days) })

-- `if srcDownload.Updated != nil { … } else if a.Spec.Service.Updated != nil { … }`
unfoldable pub first_updated : Option String → Option String → String
first_updated none service_updated = text_or_empty service_updated
first_updated (some updated) service_updated = updated

module _ {F URL : Type 0} (cv : Conversions F URL) where
  unfoldable pub join_optional : URL → Option String → URL
  join_optional url none = url
  join_optional url (some part) = cv.urls.join_path url (part ∷ [])

  unfoldable pub create_base_url : String → General → Result URL
  unfolding join_optional
  create_base_url host general = do
    url ← cv.urls.parse host
    let owned = cv.urls.join_path url (general.dataset_owner ∷ general.dataset ∷ [])
    let atom_url = cv.urls.join_path (join_optional owned general.theme) ("atom" ∷ [])
    ok (join_optional atom_url general.service_version)

  unfoldable pub bbox_to_v3 : Bbox F → Model.BBox
  unfolding get_float32_as_string
  bbox_to_v3 b = record {
    min_x = get_float32_as_string cv b.min_x;
    max_x = get_float32_as_string cv b.max_x;
    min_y = get_float32_as_string cv b.min_y;
    max_y = get_float32_as_string cv b.max_y;
  }

  unfoldable pub link_to_v3 : OtherLink → Result (V3.Link URL)
  link_to_v3 src_link = do
    href ← cv.parse_url src_link.uri
    ok (record {
      href = href;
      rel = "describedby";
      content_type = text_or_empty src_link.content_type;
      hreflang = src_link.language;
      title = some src_link.link_type;
    })

  unfoldable pub download_link_to_v3 : Link F → V3.DownloadLink
  unfolding bbox_to_v3
  download_link_to_v3 src_link = record {
    blob_path = text_or_empty src_link.blob_key;
    rel = src_link.rel;
    time = src_link.updated;
    bbox = elim src_link.bbox [ none ↦ none | some b ↦ some (bbox_to_v3 b) ];
  }

  -- `time.Parse`, and the present where it fails.
  unfoldable pub updated_time : String → Time
  updated_time updated = elim (cv.parse_rfc3339 updated) [ none ↦ cv.now | some t ↦ t ]

  unfoldable pub download_to_v3 : Option String → Bbox F → Download F → Result (V3.Entry URL)
  unfolding bbox_to_v3 download_link_to_v3 updated_time first_updated
  download_to_v3 service_updated bbox src_download = do
    uri ← cv.parse_url src_download.srs.uri
    ok (record {
      technical_name = src_download.name;
      title = src_download.title;
      content = src_download.content;
      download_links = map download_link_to_v3 src_download.links;
      updated = updated_time (first_updated src_download.updated service_updated);
      polygon = record { bbox = bbox_to_v3 bbox };
      srs = record { uri = uri; name = src_download.srs.code };
    })

  unfoldable pub dataset_to_v3 : AtomService F → Dataset F → Result (V3.DatasetFeed URL)
  unfolding each link_to_v3 download_to_v3
  dataset_to_v3 service src_dataset = do
    links ← each link_to_v3 src_dataset.links
    entries ← each (download_to_v3 service.updated src_dataset.bbox) src_dataset.downloads
    ok (record {
      technical_name = src_dataset.name;
      title = src_dataset.title;
      subtitle = src_dataset.subtitle;
      dataset_metadata_links = some (record {
        metadata_identifier = src_dataset.metadata_identifier;
        templates = "csw" ∷ "html" ∷ [];
      });
      links = links;
      author = service.author;
      spatial_dataset_identifier_code = some src_dataset.source_identifier;
      spatial_dataset_identifier_namespace = some "http://www.pdok.nl";
      entries = entries;
    })

  unfoldable pub to_v3 : Atom F → V3.Atom URL → Result (V3.Atom URL)
  unfolding create_base_url each dataset_to_v3 ttl_of set_lifecycle
  to_v3 a dst = do
    base_url ← create_base_url (get_base_url cv.globals) a.spec.general
    dataset_feeds ← each (dataset_to_v3 a.spec.service) a.spec.service.datasets
    ok (record {
      type_meta = dst.type_meta;
      meta = a.meta;
      spec = record {
        lifecycle = set_lifecycle (ttl_of a.spec.kubernetes) dst.spec.lifecycle;
        ingress_route_urls = dst.spec.ingress_route_urls;
        service = record {
          base_url = base_url;
          lang = "nl";
          stylesheet = none;
          title = a.spec.service.title;
          subtitle = a.spec.service.subtitle;
          owner_info_ref = "pdok";
          service_metadata_links = some (record {
            metadata_identifier = a.spec.service.metadata_identifier;
            templates = "csw" ∷ "opensearch" ∷ "html" ∷ [];
          });
          links = [];
          rights = a.spec.service.rights;
          dataset_feeds = dataset_feeds;
        };
      };
    })

  -- `ConvertTo`: the hub version is the v3 resource, the only type that the cast accepts.
  unfoldable convert_to : Atom F → V3.Atom URL → Result (V3.Atom URL)
  convert_to a dst_raw = to_v3 a dst_raw
