-- ===== src/Tests/OldCopies.antt =====
-- Copies of a small v2beta1 resource in memory.
use atom_operator.Prelude.{ℕ, ◌<◌, String, some, none, [], ◌∷◌, All, arith}
use atom_operator.Prelude.Int.{pos}
use atom_operator.Memory.{
  Pointer, pure, pointer_addresses, item_addresses, slice_addresses, pointer, text, plain,
}
use atom_operator.Memory.Copies.{IsSeparateCopy}
use atom_operator.Memory.Deep.{plain_deep}
use atom_operator.Api.V2beta1.InMemory.{Imports, Link, Download, Dataset, Atom, AtomList}
use atom_operator.Api.V2beta1.DeepCopy.{atom_deep_copy_object, atom_list_deep_copy_object}
use atom_operator.Api.V2beta1.DeepCopy.Shapes.{
  ImportShapes, result_ansible_shape, resources_shape, general_shape, autoscaling_shape,
  health_check_shape, lifecycle_shape, author_shape, srs_shape, other_link_shape, atom_status_shape,
  condition_shape, status_shape, kubernetes_shape, bbox_shape, link_shape, download_shape,
  dataset_shape, atom_service_shape, atom_spec_shape, atom_shape, atom_list_shape,
}
use atom_operator.Api.V2beta1.DeepCopy.Laws.{DeepImports, v2beta1_deep_copy_object-IsSeparateCopy}

abbrev imports : Imports
imports = record {
  Time = ℕ;
  ResourceRequirements = String;
  ObjectMeta = String;
  ListMeta = String;
  Float32 = ℕ;
  time_deep_copy_into = pure;
  resource_requirements_deep_copy_into = pure;
  object_meta_deep_copy_into = pure;
  list_meta_deep_copy_into = pure;
}

abbrev shapes : ImportShapes imports
shapes = record { time = plain; resource_requirements = text; object_meta = text; list_meta = text }

deep_imports : DeepImports imports shapes
deep_imports = record {
  time = plain_deep;
  resource_requirements = plain_deep;
  object_meta = plain_deep;
  list_meta = plain_deep;
}

abbrev text_at : ℕ → String → Pointer String
text_at n s = some (record { address = n; target = s })

abbrev link : Link imports
link = record {
  blob_key = text_at 1 "a/b.gml";
  updated = none;
  version = none;
  bbox =
      some (record { address = 2; target = record { min_x = 0; max_x = 1; min_y = 0; max_y = 1 } });
  rel = none;
}

abbrev download : Download imports
download = record {
  name = "d";
  title = text_at 3 "D";
  updated = none;
  content = none;
  links = some (record { address = 4; target = link ∷ [] });
  srs = record { uri = "http://srs"; code = "RD" };
}

abbrev dataset : Dataset imports
dataset = record {
  name = "s";
  title = "S";
  subtitle = "";
  metadata_identifier = "m";
  source_identifier = "i";
  links = none;
  downloads = some (record { address = 5; target = download ∷ [] });
  bbox = record { min_x = 0; max_x = 1; min_y = 0; max_y = 1 };
}

abbrev atom : Atom imports
atom = record {
  type_meta = record { api_version = "pdok.nl/v2beta1"; kind = "Atom" };
  meta = "sample";
  spec = record {
    general = record {
      dataset = "d";
      theme = text_at 6 "t";
      dataset_owner = "o";
      service_version = none;
      data_version = none;
    };
    service = record {
      title = "S";
      subtitle = "";
      metadata_identifier = "m";
      rights = "";
      updated = none;
      author = record { name = "n"; email = "e" };
      datasets = some (record { address = 7; target = dataset ∷ [] });
    };
    kubernetes = some (record {
      address = 8;
      target = record {
        autoscaling = none;
        health_check = none;
        resources = none;
        lifecycle = some (record {
          address = 9;
          target = record { ttl_in_days = some (record { address = 10; target = pos 30 }) };
        });
      };
    });
  };
  status = record {};
}

abbrev atom_at : Pointer (Atom imports)
atom_at = some (record { address = 11; target = atom })

abbrev atoms : Pointer (AtomList imports)
atoms = some (record {
  address = 12;
  target = record {
    type_meta = record { api_version = "pdok.nl/v2beta1"; kind = "AtomList" };
    meta = "";
    items = some (record { address = 13; target = atom ∷ [] });
  };
})

atom_below : All (λ a. a < 20) (pointer_addresses (atom_shape shapes) atom_at)
unfolding pointer_addresses slice_addresses item_addresses result_ansible_shape resources_shape
    general_shape autoscaling_shape health_check_shape lifecycle_shape author_shape srs_shape
    other_link_shape atom_status_shape condition_shape status_shape kubernetes_shape bbox_shape
    link_shape download_shape dataset_shape atom_service_shape atom_spec_shape atom_shape
    atom_list_shape
atom_below = omega arith

atoms_below : All (λ a. a < 20) (pointer_addresses (atom_list_shape shapes) atoms)
unfolding pointer_addresses slice_addresses item_addresses result_ansible_shape resources_shape
    general_shape autoscaling_shape health_check_shape lifecycle_shape author_shape srs_shape
    other_link_shape atom_status_shape condition_shape status_shape kubernetes_shape bbox_shape
    link_shape download_shape dataset_shape atom_service_shape atom_spec_shape atom_shape
    atom_list_shape
atoms_below = omega arith

old_copies_example :
    IsSeparateCopy
      (pointer (atom_shape shapes))
      atom_at
      (atom_deep_copy_object imports atom_at 20).0
    × IsSeparateCopy
        (pointer (atom_list_shape shapes))
        atoms
        (atom_list_deep_copy_object imports atoms 20).0
old_copies_example =
    v2beta1_deep_copy_object-IsSeparateCopy deep_imports atom_at atoms 20 atom_below atoms_below
