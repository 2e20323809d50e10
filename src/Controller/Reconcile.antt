-- ===== src/Controller/Reconcile.antt =====
-- `Reconcile` and `createOrUpdateAllForAtom` of internal/controller/atom_controller.go.
pub mod Steps
pub mod Errors
pub mod Present
pub mod Served
pub mod Routes
pub mod Ends
pub mod Calm
pub mod Frame
pub mod Runs
use atom_operator.Prelude.{
  ℕ, String, Bool, true, false, ◌⊎◌, inl, inr, Option, none, some, List, [], ◌∷◌, if◌then◌else◌,
}
use atom_operator.Prelude.Dict.{Dict, insert}
use atom_operator.Prelude.Result.{GoError, wrapf, Result, ok, err, panic, deref}
use atom_operator.Text
use atom_operator.Text.{◌+s◌}
use atom_operator.Api.Model.{OwnerInfo}
use atom_operator.Api.V3.{Atom, get_download_links}
use atom_operator.Generator.Links.{Env}
use atom_operator.Controller.Objects.{Head, Object, Reconciler}
use atom_operator.Controller.Run.{Run, after, pure, ◌>>=◌}
use atom_operator.Controller.Cluster.{
  OperationResult, Answer, answer, panicked, Cluster, error_text, is_not_found,
  recovered_panic_to_error,
}
use atom_operator.Controller.Ttl.{ttl_expired}
use atom_operator.Controller.Groups.{Group, get_download_link_groups}
use atom_operator.Controller.Resources.{
  get_bare_service, mutate_service, get_bare_pod_disruption_budget, mutate_pod_disruption_budget,
  get_bare_config_map, mutate_atom_generator_config_map,
}
use atom_operator.Controller.Deployment.{get_bare_deployment, mutate_deployment}
use atom_operator.Controller.Middleware.{
  get_bare_strip_prefix_middleware, mutate_strip_prefix_middleware, get_bare_headers_middleware,
  mutate_headers_middleware, get_bare_download_link_middleware, mutate_download_link_middleware,
}
use atom_operator.Controller.Ingress.{get_bare_ingress_route, mutate_ingress_route}

abbrev pub Results : Type 0
Results = Dict OperationResult

abbrev conflict : String
conflict =
    "the object has been modified; please apply your changes to the latest version and try again"

abbrev pub unable : String
unable = "unable to create/update resource "

abbrev pub could_not : String
could_not = "could not create or update resource "

-- Which errors of a call the caller passes over.
abbrev pub none_ignored : GoError → Bool
none_ignored e = false

unfoldable pub is_conflict : GoError → Bool
is_conflict e = Text.contains (error_text e) conflict

module _ {URL W : Type 0} (c : Cluster URL W) where
  -- The end of a call of `CreateOrUpdate`: the result is stored at its key; an error ends the
  -- function with its context unless it is passed over.
  unfoldable pub settle :
      {S : Type 0}
      → String
      → String
      → String
      → (GoError → Bool)
      → Results
      → W × Answer S
      → W × Result (Results × Object S)
  settle kind key context ignored results (w, answer op o none) = (w, ok (insert key op results, o))
  settle kind key context ignored results (w, answer op o (some e)) =
      if ignored e
      then (w, ok (insert key op results, o))
      else (w, err (wrapf (context +s c.get_object_full_name kind o.head) e))
  settle kind key context ignored results (w, panicked v) = (w, panic v)

  unfoldable pub submit :
      {S : Type 0}
      → String
      → String
      → (GoError → Bool)
      → Object S
      → (Object S → Result (Object S))
      → Results
      → Run W (Results × Object S)
  unfolding settle
  submit kind context ignored object mutate results w =
      settle kind (c.get_object_full_name kind object.head) context ignored results
        (c.create_or_update kind object mutate w)

  module _ (r : Reconciler URL) (env : Env URL) where
    -- The loop over the groups.
    unfoldable pub submit_groups : Atom URL → Results → List (String × Group) → Run W Results
    unfolding submit get_bare_download_link_middleware mutate_download_link_middleware
    submit_groups atom results [] = pure (ok results)
    submit_groups atom results ((prefix, group) ∷ groups) = do
      index ← pure (deref group.index)
      done ←
          submit "Middleware" unable none_ignored (get_bare_download_link_middleware atom index)
            (mutate_download_link_middleware r atom prefix group.files) results
      submit_groups atom done.0 groups

    -- The part of `createOrUpdateAllForAtom` from the loop over the groups on. The orders are those
    -- of the two loops that `range` over the groups, here and in `mutateIngressRoute`.
    unfoldable pub submit_routes :
        (Dict Group → List (String × Group))
        → (Dict Group → List (String × Group))
        → Atom URL
        → Results
        → Run W Results
    unfolding get_download_links get_download_link_groups get_bare_ingress_route
        mutate_ingress_route get_bare_pod_disruption_budget mutate_pod_disruption_budget submit
        submit_groups
    submit_routes order order_of_routes atom results = do
      groups ← pure (get_download_link_groups (get_download_links atom))
      results ← submit_groups atom results (order groups)
      route ←
          submit "IngressRoute" unable none_ignored (get_bare_ingress_route atom)
            (mutate_ingress_route r order_of_routes atom) results
      budget ←
          submit "PodDisruptionBudget" unable none_ignored (get_bare_pod_disruption_budget atom)
            (mutate_pod_disruption_budget r atom) route.0
      pure (ok budget.0)

    unfoldable pub create_or_update_all_for_atom :
        (Dict Group → List (String × Group))
        → (Dict Group → List (String × Group))
        → Atom URL
        → OwnerInfo URL
        → Run W Results
    unfolding get_bare_config_map mutate_atom_generator_config_map get_bare_deployment
        mutate_deployment get_bare_service mutate_service get_bare_strip_prefix_middleware
        mutate_strip_prefix_middleware get_bare_headers_middleware mutate_headers_middleware settle
        submit submit_routes is_conflict
    create_or_update_all_for_atom order order_of_routes atom owner_info = do
      config_map ←
          pure (mutate_atom_generator_config_map r env atom owner_info (get_bare_config_map atom))
      config_map ← λ w. settle "ConfigMap" (c.get_atom_full_name atom) unable none_ignored [] (
          c.create_or_update "ConfigMap" config_map
            (mutate_atom_generator_config_map r env atom owner_info) w)
      deployment ←
          submit "Deployment" unable is_conflict (get_bare_deployment atom)
            (λ d. mutate_deployment r atom d config_map.1.head.name) config_map.0
      service ←
          submit "Service" unable none_ignored (get_bare_service atom) (mutate_service r atom)
            deployment.0
      strip ←
          submit "Middleware" could_not none_ignored (get_bare_strip_prefix_middleware atom)
            (mutate_strip_prefix_middleware r atom) service.0
      cors ←
          submit "Middleware" could_not none_ignored (get_bare_headers_middleware atom)
            (λ m. mutate_headers_middleware r atom m r.csp) strip.0
      submit_routes order order_of_routes atom cors.0

    -- `client.IgnoreNotFound`
    ignore_not_found : GoError → Option GoError
    unfolding is_not_found
    ignore_not_found e = if is_not_found e then none else some e

    -- What follows the call of `createOrUpdateAllForAtom`, with the deferred function.
    unfoldable pub report : Atom URL → W × Result Results → W × Option GoError
    unfolding recovered_panic_to_error
    report atom (w, ok results) = (c.update_status_finished atom results w, none)
    report atom (w, err e) = (c.update_status_error atom e w, some e)
    report atom (w, panic v) =
        let e = recovered_panic_to_error v in (c.update_status_error atom e w, some e)

    -- From the check of the TTL on.
    unfoldable pub reconcile_atom :
        (Dict Group → List (String × Group))
        → (Dict Group → List (String × Group))
        → Atom URL
        → OwnerInfo URL
        → W
        → W × Option GoError
    unfolding ttl_expired create_or_update_all_for_atom report
    reconcile_atom order order_of_routes atom owner_info w =
        if ttl_expired (c.now w) atom
        then c.delete_atom atom w
        else report atom (create_or_update_all_for_atom order order_of_routes atom owner_info w)

    unfoldable pub with_owner_info :
        (Dict Group → List (String × Group))
        → (Dict Group → List (String × Group))
        → Atom URL
        → OwnerInfo URL ⊎ GoError
        → W
        → W × Option GoError
    unfolding reconcile_atom ignore_not_found
    with_owner_info order order_of_routes atom (inr e) w = (w, ignore_not_found e)
    with_owner_info order order_of_routes atom (inl owner_info) w =
        reconcile_atom order order_of_routes atom owner_info w

    unfoldable pub with_atom :
        (Dict Group → List (String × Group))
        → (Dict Group → List (String × Group))
        → Atom URL ⊎ GoError
        → W
        → W × Option GoError
    unfolding with_owner_info ignore_not_found
    with_atom order order_of_routes (inr e) w = (w, ignore_not_found e)
    with_atom order order_of_routes (inl atom) w =
        with_owner_info order order_of_routes atom
          (c.get_owner_info w atom.meta.namespace atom.spec.service.owner_info_ref) w

    -- The cluster after the call, and the error; `ctrl.Result` stays zero.
    unfoldable pub reconcile :
        (Dict Group → List (String × Group))
        → (Dict Group → List (String × Group))
        → String × String
        → W
        → W × Option GoError
    unfolding with_atom
    reconcile order order_of_routes (namespace, name) w =
        with_atom order order_of_routes (c.get_atom w namespace name) w
