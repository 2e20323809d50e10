-- ===== src/Tests/Sample.antt =====
-- A resource with two datasets, its OwnerInfo, and concrete functions for what the program calls
-- of other modules. A URL is its text.
use atom_operator.Prelude.{String, inl, Option, none, some, List, [], ◌∷◌}
use atom_operator.Prelude.Int.{pos}
use atom_operator.Prelude.Result.{ok}
use atom_operator.Text.{◌+s◌, join}
use atom_operator.Api.Model.{UrlOps, Time, Author, BBox, OwnerInfo}
use atom_operator.Api.V3.{Atom, DatasetFeed, Entry, DownloadLink, MetadataLink}
use atom_operator.Api.V3.Validation.{Checks, Client}
use atom_operator.Generator.Links.{Env}

abbrev pub urls : UrlOps String
urls = record {
  path = λ u. u;
  hostname = λ u. "service.pdok.nl";
  string = λ u. u;
  join_path = λ u parts. u +s "/" +s join parts "/";
  parse = λ s. ok s;
}

abbrev pub env : Env String
env = record {
  urls = urls;
  render = λ template data_map. ok template;
  to_polygon = λ b. b.min_x;
  to_extent = λ b. b.max_x;
  format_rfc3339 = λ t. "2025-01-01T00:00:00Z";
  globals = record { base_url = "https://service.pdok.nl"; blob_endpoint = "http://localhost" };
}

-- Checks of another module that find nothing.
abbrev pub checks : Checks String
checks = record {
  urls = urls;
  path_string = λ p. "";
  validate_labels_on_create = λ labels. none;
  validate_labels_on_update = λ old new. [];
  check_url_immutability = λ old new p. [];
  validate_ingress_route_urls_contains_base_url = λ us u. none;
  validate_ingress_route_urls_not_removed = λ old new. [];
  add_warning = λ p w t n. w;
}

abbrev pub bbox : BBox
bbox = record { min_x = "1"; max_x = "2"; min_y = "3"; max_y = "4" }

abbrev pub time : Time
time = record { instant = pos 1000; offset = pos 3600 }

abbrev pub download : String → Option String → DownloadLink
download path rel = record { blob_path = path; rel = rel; time = none; bbox = none }

abbrev pub metadata_link : String → List String → MetadataLink
metadata_link id templates = record { metadata_identifier = id; templates = templates }

abbrev pub entry : String → List DownloadLink → Entry String
entry name links = record {
  technical_name = name;
  title = none;
  content = some "parts";
  download_links = links;
  updated = time;
  polygon = record { bbox = bbox };
  srs = record { uri = "http://www.opengis.net/def/crs/EPSG/0/28992"; name = "RD" };
}

abbrev pub author : Author
author = record { name = "PDOK"; email = "pdok@example.org" }

abbrev pub feed : String → String → List String → List (Entry String) → DatasetFeed String
feed name id templates entries = record {
  technical_name = name;
  title = "The \"best\" dataset";
  subtitle = "";
  dataset_metadata_links = some (metadata_link id templates);
  links = [];
  author = author;
  spatial_dataset_identifier_code = some id;
  spatial_dataset_identifier_namespace = some "https://www.pdok.nl";
  entries = entries;
}

abbrev pub links : List DownloadLink
links = download "blobs/a.zip" none ∷ download "other/b.zip" none ∷ download "blobs/c.zip" none ∷ []

abbrev pub feeds : List (DatasetFeed String)
feeds =
    feed "one" "id-1" ("csw" ∷ "html" ∷ []) (entry "e1" links ∷ entry "e2" [] ∷ [])
    ∷ feed "two" "id-2" [] []
    ∷ []

abbrev pub atom : Atom String
atom = record {
  type_meta = record { api_version = "pdok.nl/v3"; kind = "Atom" };
  meta = record {
    name = "sample";
    namespace = "services";
    uid = "u";
    labels = [];
    annotations = [];
    creation_timestamp = time;
  };
  spec = record {
    lifecycle = none;
    ingress_route_urls = none;
    service = record {
      base_url = "/owner/dataset/atom";
      lang = "nl";
      stylesheet = none;
      title = "Sample";
      subtitle = "";
      owner_info_ref = "owner";
      service_metadata_links = some (metadata_link "id-0" ("csw" ∷ []));
      links = [];
      rights = "CC0";
      dataset_feeds = feeds;
    };
  };
}

abbrev pub owner_info : OwnerInfo String
owner_info = record {
  name = "owner";
  metadata_urls = some (record {
    csw = some (record { href_template = "https://csw/{{identifier}}" });
    open_search = none;
    html = some (record { href_template = "https://html/{{identifier}}" });
  });
  atom = some (record { author = author; default_stylesheet = none });
}

abbrev pub client : Client String
client namespace name = inl owner_info
