-- ===== src/Api/V2beta1/FromV3.antt =====
-- `ConvertFrom` of api/v2beta1/atom_conversion.go.
use atom_operator.Prelude.{String, Option, none, some, List, [], ◌∷◌, map, str_eq, if◌then◌else◌}
use atom_operator.Prelude.Int.{ℤ}
use atom_operator.Prelude.Dict.{lookup}
use atom_operator.Prelude.Result.{Result, ok, deref, each, ◌>>=◌}
use atom_operator.Api.Model
use atom_operator.Api.Model.{UrlOps, Time}
use atom_operator.Api.V3
use atom_operator.Api.V3.{Globals, get_base_url}
use atom_operator.Api.V2beta1.{General, Bbox, Link, OtherLink, Download, Dataset, Atom}
use atom_operator.Api.V2beta1.Context.{Conversions, get_string_as_float32, text_or_empty}

module _ {F URL : Type 0} (cv : Conversions F URL) where
  unfoldable pub bbox_from_v3 : Model.BBox → Bbox F
  unfolding get_string_as_float32
  bbox_from_v3 b = record {
    min_x = get_string_as_float32 cv b.min_x;
    max_x = get_string_as_float32 cv b.max_x;
    min_y = get_string_as_float32 cv b.min_y;
    max_y = get_string_as_float32 cv b.max_y;
  }

  -- `if len(srcDatasetFeed.Entries) > 0`, and the zero value.
  unfoldable pub first_bbox : List (V3.Entry URL) → Bbox F
  unfolding bbox_from_v3
  first_bbox [] = let z = cv.zero_float in record { min_x = z; max_x = z; min_y = z; max_y = z }
  first_bbox (e ∷ es) = bbox_from_v3 e.polygon.bbox

  unfoldable pub link_from_v3 : V3.Link URL → OtherLink
  link_from_v3 src_link = record {
    link_type = text_or_empty src_link.title;
    uri = cv.urls.string src_link.href;
    content_type = some src_link.content_type;
    language = src_link.hreflang;
  }

  -- `if srcDownloadLink.Rel != nil && *srcDownloadLink.Rel != ""`
  unfoldable pub rel_from_v3 : Option String → Option String
  rel_from_v3 none = none
  rel_from_v3 (some rel) = if str_eq rel "" then none else some rel

  unfoldable pub download_link_from_v3 : V3.DownloadLink → Link F
  unfolding rel_from_v3 bbox_from_v3
  download_link_from_v3 src_link = record {
    blob_key = some src_link.blob_path;
    updated = src_link.time;
    version = none;
    bbox = elim src_link.bbox [ none ↦ none | some b ↦ some (bbox_from_v3 b) ];
    rel = rel_from_v3 src_link.rel;
  }

  unfoldable pub download_from_v3 : V3.Entry URL → Download F
  unfolding download_link_from_v3
  download_from_v3 src_entry = record {
    name = src_entry.technical_name;
    title = src_entry.title;
    updated = some (cv.format_rfc3339 src_entry.updated);
    content = src_entry.content;
    links = map download_link_from_v3 src_entry.download_links;
    srs = record { uri = cv.urls.string src_entry.srs.uri; code = src_entry.srs.name };
  }

  unfoldable pub dataset_from_v3 : V3.DatasetFeed URL → Result (Dataset F)
  unfolding link_from_v3 first_bbox download_from_v3
  dataset_from_v3 src_feed = do
    metadata_links ← deref src_feed.dataset_metadata_links
    ok (record {
      name = src_feed.technical_name;
      title = src_feed.title;
      subtitle = src_feed.subtitle;
      metadata_identifier = metadata_links.metadata_identifier;
      source_identifier = text_or_empty src_feed.spatial_dataset_identifier_code;
      links = map link_from_v3 src_feed.links;
      downloads = map download_from_v3 src_feed.entries;
      bbox = first_bbox src_feed.entries;
    })

  unfoldable pub general_from_v3 : Model.StringMap → General
  unfolding lookup
  general_from_v3 labels = record {
    dataset = text_or_empty (lookup "dataset" labels);
    theme = lookup "theme" labels;
    dataset_owner = text_or_empty (lookup "dataset-owner" labels);
    service_version = lookup "service-version" labels;
    data_version = none;
  }

  unfoldable pub ttl_from_v3 : Option Model.Lifecycle → Option ℤ
  ttl_from_v3 none = none
  ttl_from_v3 (some l) = l.ttl_in_days

  unfoldable pub convert_from : V3.Atom URL → Atom F → Result (Atom F)
  unfolding each dataset_from_v3 general_from_v3 ttl_from_v3
  convert_from src a = do
    metadata_links ← deref src.spec.service.service_metadata_links
    datasets ← each dataset_from_v3 src.spec.service.dataset_feeds
    ok (record {
      type_meta = a.type_meta;
      meta = src.meta;
      spec = record {
        general = general_from_v3 src.meta.labels;
        service = record {
          title = src.spec.service.title;
          subtitle = src.spec.service.subtitle;
          metadata_identifier = metadata_links.metadata_identifier;
          rights = src.spec.service.rights;
          updated = none;
          author = record { name = "PDOK Beheer"; email = "beheerPDOK@kadaster.nl" };
          datasets = datasets;
        };
        kubernetes =
            some (record {
              lifecycle = some (record { ttl_in_days = ttl_from_v3 src.spec.lifecycle });
            });
      };
    })
