-- ===== src/Controller/Labels.antt =====
-- The constants and the labels of internal/controller/atom_controller.go.
use atom_operator.Prelude.{ℕ, String, [], ◌∷◌}
use atom_operator.Prelude.Result.{Result, ◌>>=◌}
use atom_operator.Api.Model.{StringMap}
use atom_operator.Api.V3.{Atom}
use atom_operator.Controller.Objects.{Head, Reconciler}

abbrev pub app_label_key : String
app_label_key = "pdok.nl/app"

abbrev pub app_name : String
app_name = "atom-service"

abbrev pub config_file_name : String
config_file_name = "values.yaml"

abbrev pub atom_port_name : String
atom_port_name = "atom-service"

abbrev pub atom_port_nr : ℕ
atom_port_nr = 80

abbrev pub strip_prefix_suffix : String
strip_prefix_suffix = "-atom-prefixstrip"

abbrev pub headers_suffix : String
headers_suffix = "-atom-headers"

abbrev pub downloads_suffix : String
downloads_suffix = "-atom-downloads-"

abbrev pub name_suffix : String
name_suffix = "-atom"

abbrev pub generator_suffix : String
generator_suffix = "-atom-generator"

abbrev pub srv_dir : String
srv_dir = "/srv"

abbrev pub default_labels : StringMap
default_labels = (app_label_key, app_name) ∷ []

module _ {URL : Type 0} (r : Reconciler URL) where
  -- `MatchLabels` of the selector.
  unfoldable pub get_label_selector : Atom URL → StringMap
  get_label_selector atom = r.combine_labels (atom.meta.labels ∷ default_labels ∷ [])

  unfoldable pub get_object_labels : Atom URL → StringMap → StringMap
  get_object_labels atom obj_labels =
      r.combine_labels (obj_labels ∷ atom.meta.labels ∷ default_labels ∷ [])

  -- The end of each mutate method: `EnsureSetGVK`, then `SetControllerReference`.
  unfoldable pub set_owner : String → Atom URL → Head → Result Head
  set_owner kind atom head = do
    head ← r.ensure_set_gvk kind head
    r.set_controller_reference atom.meta head
