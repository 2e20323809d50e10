-- ===== src/Tests/Copies.antt =====
-- Copies of small resources in memory.
use atom_operator.Prelude.{ℕ, ◌<◌, String, some, none, [], ◌∷◌, All, arith}
use atom_operator.Memory.{
  Pointer, pure, copy_pointer, pointer_addresses, item_addresses, slice_addresses, pointer, text,
  plain,
}
use atom_operator.Memory.Copies.{IsSeparateCopy}
use atom_operator.Memory.Deep.{plain_deep, pointer_deep}
use atom_operator.Api.V3.InMemory.{Imports, DownloadLink, Entry, DatasetFeed, Atom, AtomList}
use atom_operator.Api.V3.DeepCopy.{atom_deep_copy_object, atom_list_deep_copy_object}
use atom_operator.Api.V3.DeepCopy.Shapes.{
  ImportShapes, metadata_link_shape, download_link_shape, polygon_shape, link_shape, srs_shape,
  entry_shape, dataset_feed_shape, service_shape, atom_spec_shape, atom_shape, atom_list_shape,
}
use atom_operator.Api.V3.DeepCopy.Laws.{DeepImports, deep_copy_object-IsSeparateCopy}

-- A URL is a pointer, as `*url.URL` is; the others hold none.
abbrev imports : Imports
imports = record {
  Url = Pointer String;
  Time = ℕ;
  Lifecycle = Pointer ℕ;
  IngressRouteUrl = Pointer String;
  ObjectMeta = String;
  ListMeta = String;
  OperatorStatus = String;
  url_deep_copy_into = copy_pointer pure;
  time_deep_copy_into = pure;
  lifecycle_deep_copy_into = copy_pointer pure;
  ingress_route_url_deep_copy_into = copy_pointer pure;
  object_meta_deep_copy_into = pure;
  list_meta_deep_copy_into = pure;
  operator_status_deep_copy_into = pure;
  url_deep_copy = copy_pointer (copy_pointer pure);
}

abbrev shapes : ImportShapes imports
shapes = record {
  url = pointer text;
  time = plain;
  lifecycle = pointer plain;
  ingress_route_url = pointer text;
  object_meta = text;
  list_meta = text;
  operator_status = text;
}

deep_imports : DeepImports imports shapes
deep_imports = record {
  url = pointer_deep plain_deep;
  time = plain_deep;
  lifecycle = pointer_deep plain_deep;
  ingress_route_url = pointer_deep plain_deep;
  object_meta = plain_deep;
  list_meta = plain_deep;
  operator_status = plain_deep;
  url_deep_copy = pointer_deep (pointer_deep plain_deep);
}

abbrev text_at : ℕ → String → Pointer String
text_at n s = some (record { address = n; target = s })

abbrev download : DownloadLink
download = record { blob_path = "a/b.gml"; rel = none; time = text_at 1 "2026"; bbox = none }

abbrev entry : Entry imports
entry = record {
  technical_name = "e";
  title = text_at 2 "E";
  content = none;
  download_links = some (record { address = 3; target = download ∷ [] });
  updated = 0;
  polygon = record { bbox = record { min_x = "0"; max_x = "1"; min_y = "0"; max_y = "1" } };
  srs = record { uri = text_at 4 "http://srs"; name = "RD" };
}

abbrev feed : DatasetFeed imports
feed = record {
  technical_name = "f";
  title = "F";
  subtitle = "";
  dataset_metadata_links = none;
  links = none;
  author = record { name = "n"; email = "e" };
  spatial_dataset_identifier_code = none;
  spatial_dataset_identifier_namespace = none;
  entries = some (record { address = 5; target = entry ∷ [] });
}

abbrev atom : Atom imports
atom = record {
  type_meta = record { api_version = "pdok.nl/v3"; kind = "Atom" };
  meta = "sample";
  spec = record {
    lifecycle = some (record { address = 6; target = some (record { address = 7; target = 30 }) });
    ingress_route_urls = none;
    service = record {
      base_url = text_at 8 "http://base";
      lang = "nl";
      stylesheet = none;
      title = "S";
      subtitle = "";
      owner_info_ref = "pdok";
      service_metadata_links =
          some (record {
            address = 9;
            target = record { metadata_identifier = "m"; templates = none };
          });
      links = none;
      rights = "";
      dataset_feeds = some (record { address = 10; target = feed ∷ [] });
    };
  };
  status = "";
}

abbrev atoms : Pointer (AtomList imports)
atoms = some (record {
  address = 12;
  target = record {
    type_meta = record { api_version = "pdok.nl/v3"; kind = "AtomList" };
    meta = "";
    items = some (record { address = 11; target = atom ∷ [] });
  };
})

abbrev atom_at : Pointer (Atom imports)
atom_at = some (record { address = 12; target = atom })

atom_below : All (λ a. a < 20) (pointer_addresses (atom_shape shapes) atom_at)
unfolding pointer_addresses slice_addresses item_addresses metadata_link_shape download_link_shape
    polygon_shape link_shape srs_shape entry_shape dataset_feed_shape service_shape atom_spec_shape
    atom_shape atom_list_shape
atom_below = omega arith

atoms_below : All (λ a. a < 20) (pointer_addresses (atom_list_shape shapes) atoms)
unfolding pointer_addresses slice_addresses item_addresses metadata_link_shape download_link_shape
    polygon_shape link_shape srs_shape entry_shape dataset_feed_shape service_shape atom_spec_shape
    atom_shape atom_list_shape
atoms_below = omega arith

copies_example :
    IsSeparateCopy
      (pointer (atom_shape shapes))
      atom_at
      (atom_deep_copy_object imports atom_at 20).0
    × IsSeparateCopy
        (pointer (atom_list_shape shapes))
        atoms
        (atom_list_deep_copy_object imports atoms 20).0
copies_example =
    deep_copy_object-IsSeparateCopy deep_imports atom_at atoms 20 atom_below atoms_below
