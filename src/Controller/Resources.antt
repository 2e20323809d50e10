-- ===== src/Controller/Resources.antt =====
-- internal/controller/service.go, poddisruptionbudget.go and atom_generator_configmap.go.
use atom_operator.Prelude.{String, true, none, some, [], ◌∷◌}
use atom_operator.Prelude.Result.{wrapf, Result, ok, err, panic, ◌>>=◌}
use atom_operator.Text.{◌+s◌}
use atom_operator.Api.Model.{StringMap, OwnerInfo}
use atom_operator.Api.V3.{Atom}
use atom_operator.Generator.Links.{Env}
use atom_operator.Generator.Mapper.{map_atom_v3_to_atom_generator_config}
use atom_operator.Controller.Objects.{
  Object, bare, int, ConfigMapSpec, ServiceSpec, PodDisruptionBudgetSpec, Reconciler,
}
use atom_operator.Controller.Labels.{
  name_suffix, app_name, generator_suffix, atom_port_name, atom_port_nr, config_file_name,
  get_label_selector, get_object_labels, set_owner,
}

-- `fmt.Errorf("…: %w", err)`
unfoldable pub with_context {ℓ} : {A : Type ℓ} → String → Result A → Result A
with_context text (ok a) = ok a
with_context text (err e) = err (wrapf text e)
with_context text (panic v) = panic v

module _ {URL : Type 0} where
  unfoldable pub get_bare_service : Atom URL → Object ServiceSpec
  get_bare_service obj = record {
    head = bare (obj.meta.name +s name_suffix) obj.meta.namespace;
    spec = record { ports = []; selector = [] };
  }

  unfoldable pub get_bare_pod_disruption_budget : Atom URL → Object PodDisruptionBudgetSpec
  get_bare_pod_disruption_budget obj = record {
    head = bare (obj.meta.name +s "-" +s app_name) obj.meta.namespace;
    spec = record { max_unavailable = none; selector = [] };
  }

  unfoldable pub get_bare_config_map : Atom URL → Object ConfigMapSpec
  get_bare_config_map obj = record {
    head = bare (obj.meta.name +s generator_suffix) obj.meta.namespace;
    spec = record { contents = []; immutable = none };
  }

module _ {URL : Type 0} (r : Reconciler URL) where
  unfoldable pub mutate_service : Atom URL → Object ServiceSpec → Result (Object ServiceSpec)
  unfolding get_object_labels get_label_selector set_owner
  mutate_service atom service = do
    let head = service.head
    head ←
        set_owner r "Service" atom
          (record head { labels = get_object_labels r atom service.head.labels })
    ok (record {
      head = head;
      spec = record {
        ports = record { name = atom_port_name; port = atom_port_nr; protocol = "TCP" } ∷ [];
        selector = get_label_selector r atom;
      };
    })

  unfoldable pub mutate_pod_disruption_budget :
      Atom URL → Object PodDisruptionBudgetSpec → Result (Object PodDisruptionBudgetSpec)
  unfolding get_object_labels get_label_selector set_owner
  mutate_pod_disruption_budget atom pod_disruption_budget = do
    let head = pod_disruption_budget.head
    head ←
        set_owner r "PodDisruptionBudget" atom
          (record head { labels = get_object_labels r atom pod_disruption_budget.head.labels })
    ok (record {
      head = head;
      spec = record { max_unavailable = some (int 1); selector = get_label_selector r atom };
    })

module _ {URL : Type 0} (r : Reconciler URL) (env : Env URL) where
  unfoldable pub get_generator_config : Atom URL → OwnerInfo URL → Result String
  unfolding map_atom_v3_to_atom_generator_config with_context
  get_generator_config atom owner_info = do
    config ←
        with_context "failed to map the V3 atom to generator config"
          (map_atom_v3_to_atom_generator_config env atom owner_info)
    with_context "failed to marshal the generator config to yaml" (r.marshal config)

  -- `if len(configMap.Data) == 0`
  unfoldable pub config_map_contents : Atom URL → OwnerInfo URL → StringMap → Result StringMap
  unfolding get_generator_config
  config_map_contents atom owner_info [] = do
    generator_config ← get_generator_config atom owner_info
    ok ((config_file_name, generator_config) ∷ [])
  config_map_contents atom owner_info (c ∷ cs) = ok (c ∷ cs)

  unfoldable pub mutate_atom_generator_config_map :
      Atom URL → OwnerInfo URL → Object ConfigMapSpec → Result (Object ConfigMapSpec)
  unfolding get_object_labels config_map_contents set_owner
  mutate_atom_generator_config_map atom owner_info config_map = do
    let head = config_map.head
    let labels = get_object_labels r atom config_map.head.labels
    contents ← config_map_contents atom owner_info config_map.spec.contents
    head ← set_owner r "ConfigMap" atom (record head { labels = labels })
    r.add_hash_suffix
        (record { head = head; spec = record { contents = contents; immutable = some true } })
