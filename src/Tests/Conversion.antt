-- ===== src/Tests/Conversion.antt =====
-- The theorems on the conversion between the versions, at small resources. A float is its text.
use atom_operator.Prelude.{String, ◌≡◌, ◌≢◌, refl, none, some, [], ◌∷◌, All, Forall₂}
use atom_operator.Prelude.Int.{pos}
use atom_operator.Prelude.Result.{ok, Returns}
use atom_operator.Api.V2beta1.{Atom}
use atom_operator.Api.V2beta1.Context.{Conversions}
use atom_operator.Api.V2beta1.ToV3.{to_v3}
use atom_operator.Api.V2beta1.FromV3.{convert_from}
use atom_operator.Api.V2beta1.Conversion.Laws.{IsBack, convert_from-Returns_iff, to_v3-IsBack}
use atom_operator.Api.V2beta1.Conversion.Errors.{ParsesAll, to_v3-Returns_iff}
use atom_operator.Api.V2beta1.Conversion.Floats.{IsExact}
use atom_operator.Api.V2beta1.Conversion.Datasets.{IsDatasetBack, datasets-IsDatasetBack}
use atom_operator.Api.Model.{OwnerInfo}
use atom_operator.Api.V3.{get_base_url}
use atom_operator.Generator.Mapper.{map_atom_v3_to_atom_generator_config}
use atom_operator.Generator.Converted.{HasAll, converted-Returns_iff}
use atom_operator.Tests.Generator.{renders}
use atom_operator.Tests.Sample
use atom_operator.Tests.Sample.{urls, env, time, author, owner_info}

abbrev conversions : Conversions String String
conversions = record {
  urls = urls;
  parse_url = λ s. ok s;
  parse_rfc3339 = λ s. some time;
  format_rfc3339 = λ t. "2025-01-01T00:00:00Z";
  now = time;
  Float64 = String;
  to_float64 = λ x. x;
  to_float32 = λ x. x;
  format_float = λ x format precision bits. x;
  parse_float = λ s bits. (s, none);
  zero_float = "0";
  globals = env.globals;
}

abbrev old_atom : Atom String
old_atom = record {
  type_meta = record { api_version = "pdok.nl/v2beta1"; kind = "Atom" };
  meta = Sample.atom.meta;
  spec = record {
    general = record {
      dataset = "dataset";
      theme = none;
      dataset_owner = "owner";
      service_version = some "v1_0";
      data_version = none;
    };
    service = record {
      title = "Sample";
      subtitle = "";
      metadata_identifier = "id-0";
      rights = "CC0";
      updated = none;
      author = author;
      datasets =
          record {
            name = "one";
            title = "One";
            subtitle = "";
            metadata_identifier = "id-1";
            source_identifier = "code-1";
            links =
                record {
                  link_type = "page";
                  uri = "https://www.pdok.nl";
                  content_type = none;
                  language = none;
                }
                ∷ [];
            downloads =
                record {
                  name = "parts";
                  title = none;
                  updated = none;
                  content = some "parts";
                  links =
                      record {
                        blob_key = some "blobs/a.zip";
                        updated = none;
                        version = some "1";
                        bbox = none;
                        rel = some "";
                      }
                      ∷ [];
                  srs = record { uri = "http://www.opengis.net/def/crs/EPSG/0/28992"; code = "RD" };
                }
                ∷ [];
            bbox = record { min_x = "1"; max_x = "2"; min_y = "3"; max_y = "4" };
          }
          ∷ [];
    };
    kubernetes = some (record { lifecycle = some (record { ttl_in_days = some (pos 30) }) });
  };
}

convertible : Returns (convert_from conversions Sample.atom old_atom)
unfolding convert_from
convertible = (_, refl)

from_v3_example :
    (Sample.atom.spec.service.service_metadata_links ≢ none)
    × All (λ f. f.dataset_metadata_links ≢ none) Sample.feeds
from_v3_example = (convert_from-Returns_iff conversions Sample.atom old_atom).0 convertible

converted : Returns (to_v3 conversions old_atom Sample.atom)
unfolding to_v3
converted = (_, refl)

round_trip_example :
    (b : Atom String) × (convert_from conversions converted.0 old_atom ≡ ok b)
    × IsBack conversions old_atom b
round_trip_example = to_v3-IsBack conversions old_atom old_atom Sample.atom converted.0 converted.1

to_v3_example :
    Returns (conversions.urls.parse (get_base_url env.globals))
    × All (ParsesAll conversions) old_atom.spec.service.datasets
to_v3_example = (to_v3-Returns_iff conversions old_atom Sample.atom).0 converted

-- An OwnerInfo with all three metadata URLs.
abbrev complete : OwnerInfo String
complete =
    let o = owner_info in
    record o {
      metadata_urls = some (record {
        csw = some (record { href_template = "https://csw/{{identifier}}" });
        open_search = some (record { href_template = "https://search/{{identifier}}" });
        html = some (record { href_template = "https://html/{{identifier}}" });
      });
    }

all_urls : HasAll complete
all_urls = ((_, _, refl, refl), (_, _, refl, refl), (_, _, refl, refl))

configured_example : Returns (map_atom_v3_to_atom_generator_config env converted.0 complete)
configured_example =
    (converted-Returns_iff conversions env old_atom Sample.atom converted.0 complete converted.1
        (renders complete)).1
      (refl, all_urls)

exact : IsExact conversions
exact = record { reads_back = λ x. refl; holds = λ x. refl }

back : Returns (convert_from conversions converted.0 old_atom)
back =
    let (b, e, _) =
      to_v3-IsBack conversions old_atom old_atom Sample.atom converted.0 converted.1 in
    (b, e)

datasets_example : Forall₂ IsDatasetBack old_atom.spec.service.datasets back.0.spec.service.datasets
datasets_example =
    datasets-IsDatasetBack conversions exact old_atom old_atom back.0 Sample.atom converted.0
      converted.1 back.1
