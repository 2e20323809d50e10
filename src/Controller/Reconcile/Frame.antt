-- ===== src/Controller/Reconcile/Frame.antt =====
-- What a call of `Reconcile` can change: objects of the kinds that `SetupWithManager` owns, in the
-- namespace of the resource.
use atom_operator.Prelude.{
  String, Bool, true, false, ◌≡◌, refl, sym, ◌∙◌, subst, inl, List, [], ◌∷◌, map, contains,
}
use atom_operator.Prelude.Dict.{Dict}
use atom_operator.Prelude.Result.{GoError, Result, ok, err, panic, deref, >>=-eq-ok}
use atom_operator.Api.Model.{ObjectMeta, OwnerInfo}
use atom_operator.Api.V3.{Atom, get_download_links}
use atom_operator.Generator.Links.{Env}
use atom_operator.Controller.Objects.{Head, Object, ConfigMapSpec, Reconciler}
use atom_operator.Controller.Labels.{set_owner}
use atom_operator.Controller.Run.{Run, ◌>>=◌}
use atom_operator.Controller.Kept.{Kept, Kept-pure, Kept-bind, Kept-pure-bind}
use atom_operator.Controller.Setup.{AtomReconciler, Owned, setup_with_manager}
use atom_operator.Controller.Cluster.{Cluster}
use atom_operator.Controller.Ttl.{ttl_expired}
use atom_operator.Controller.Groups.{Group, get_download_link_groups}
use atom_operator.Controller.Resources.{
  config_map_contents, get_bare_service, mutate_service, get_bare_pod_disruption_budget,
  mutate_pod_disruption_budget, get_bare_config_map, mutate_atom_generator_config_map,
}
use atom_operator.Controller.Deployment.{get_bare_deployment, mutate_deployment}
use atom_operator.Controller.Middleware.{
  get_bare_strip_prefix_middleware, mutate_strip_prefix_middleware, get_bare_headers_middleware,
  mutate_headers_middleware, get_bare_download_link_middleware, mutate_download_link_middleware,
}
use atom_operator.Controller.Ingress.{get_bare_ingress_route, mutate_ingress_route}
use atom_operator.Controller.Reconcile.{
  Results, none_ignored, unable, could_not, is_conflict, settle, submit, submit_groups,
  submit_routes, create_or_update_all_for_atom, report, reconcile_atom, with_owner_info, with_atom,
  reconcile,
}
use atom_operator.Controller.Reconcile.Steps.{settle-world}

-- The calls that set the owner and the hash suffix leave an object in its namespace.
pub record KeepsNamespace {URL : Type 0} (r : Reconciler URL) : Type 0 where
  pub ensures :
      (kind : String) (head : Head) {out : Head}
      → r.ensure_set_gvk kind head ≡ ok out
      → out.namespace ≡ head.namespace
  pub controls :
      (owner : ObjectMeta) (head : Head) {out : Head}
      → r.set_controller_reference owner head ≡ ok out
      → out.namespace ≡ head.namespace
  pub hashes :
      (o : Object ConfigMapSpec) {out : Object ConfigMapSpec}
      → r.add_hash_suffix o ≡ ok out
      → out.head.namespace ≡ o.head.namespace

-- The kinds that the controller owns.
abbrev pub owned_kinds : AtomReconciler → List String
owned_kinds setup = map (λ (o : Owned). o.kind) (setup_with_manager setup).owns

-- `P` of the cluster outlives a call for an object of an owned kind in the namespace of the
-- resource, and the updates of the status of the resource.
pub record IsFramed {URL W : Type 0} (c : Cluster URL W) (setup : AtomReconciler) (atom : Atom URL)
    (P : W → Type 0) : Type 1 where
  pub calls :
      {S : Type 0} (kind : String) (object : Object S) (mutate : Object S → Result (Object S))
      (w : W)
      → contains (owned_kinds setup) kind ≡ true
      → object.head.namespace ≡ atom.meta.namespace
      → P w
      → P (c.create_or_update kind object mutate w).0
  pub finishes : (results : Results) (w : W) → P w → P (c.update_status_finished atom results w)
  pub fails : (e : GoError) (w : W) → P w → P (c.update_status_error atom e w)

module _ {URL : Type 0} (r : Reconciler URL) (stays : KeepsNamespace r) (env : Env URL)
    (o : OwnerInfo URL) (atom : Atom URL) where
  set_owner-namespace :
      (kind : String) (head : Head) {out : Head}
      → set_owner r kind atom head ≡ ok out
      → out.namespace ≡ head.namespace
  unfolding set_owner
  set_owner-namespace kind head h =
      let (between, e, h') = >>=-eq-ok (r.ensure_set_gvk kind head) _ h in
      stays.controls atom.meta between h' ∙ stays.ensures kind head e

  config_map-namespace :
      (cm : Object ConfigMapSpec)
      → mutate_atom_generator_config_map r env atom o (get_bare_config_map atom) ≡ ok cm
      → cm.head.namespace ≡ atom.meta.namespace
  unfolding mutate_atom_generator_config_map get_bare_config_map
  config_map-namespace cm h =
      let (contents, _, h₁) = >>=-eq-ok (config_map_contents r env atom o []) _ h in
      let (head, e, h₂) = >>=-eq-ok (set_owner r "ConfigMap" atom _) _ h₁ in
      stays.hashes _ h₂ ∙ set_owner-namespace "ConfigMap" _ e

module _ {URL W : Type 0} (c : Cluster URL W) (setup : AtomReconciler) (P : W → Type 0)
    (atom : Atom URL) (framed : IsFramed c setup atom P) where
  call-Kept :
      {S : Type 0} (kind key context : String) (ignored : GoError → Bool) (object : Object S)
      (mutate : Object S → Result (Object S)) (results : Results)
      → contains (owned_kinds setup) kind ≡ true
      → object.head.namespace ≡ atom.meta.namespace
      → Kept P
          (λ w. settle c kind key context ignored results (c.create_or_update kind object mutate w))
  call-Kept kind key context ignored object mutate results is_owned here w h =
      subst P (sym (settle-world c kind key context ignored results _))
        (framed.calls kind object mutate w is_owned here h)

  submit-Kept :
      {S : Type 0} (kind context : String) (ignored : GoError → Bool) (object : Object S)
      (mutate : Object S → Result (Object S)) (results : Results)
      → contains (owned_kinds setup) kind ≡ true
      → object.head.namespace ≡ atom.meta.namespace
      → Kept P (submit c kind context ignored object mutate results)
  unfolding submit
  submit-Kept kind context ignored object mutate results is_owned here =
      call-Kept kind _ context ignored object mutate results is_owned here

  module _ (r : Reconciler URL) (stays : KeepsNamespace r) (env : Env URL) where
    groups-Kept :
        (gs : List (String × Group)) (results : Results)
        → Kept P (submit_groups c r env atom results gs)
    unfolding submit_groups setup_with_manager get_bare_download_link_middleware
    groups-Kept [] results = Kept-pure P (ok results)
    groups-Kept ((prefix, group) ∷ gs) results = Kept-pure-bind P (deref group.index) _ λ index _.
        Kept-bind P
          (submit c "Middleware" unable none_ignored (get_bare_download_link_middleware atom index)
            (mutate_download_link_middleware r atom prefix group.files) results)
          _
          (submit-Kept "Middleware" unable none_ignored
            (get_bare_download_link_middleware atom index)
            (mutate_download_link_middleware r atom prefix group.files) results refl refl)
          (λ done. groups-Kept gs done.0)

    -- One call and the calls behind it.
    step-Kept :
        {S B : Type 0} (kind context : String) (ignored : GoError → Bool) (object : Object S)
        (mutate : Object S → Result (Object S)) (results : Results)
        (f : Results × Object S → Run W B)
        → contains (owned_kinds setup) kind ≡ true
        → object.head.namespace ≡ atom.meta.namespace
        → ((done : Results × Object S) → Kept P (f done))
        → Kept P (submit c kind context ignored object mutate results >>= f)
    step-Kept kind context ignored object mutate results f is_owned here =
        Kept-bind P (submit c kind context ignored object mutate results) f
          (submit-Kept kind context ignored object mutate results is_owned here)

    module _ (order order_of_routes : Dict Group → List (String × Group)) where
      routes-Kept :
          (results : Results) → Kept P (submit_routes c r env order order_of_routes atom results)
      unfolding submit_routes setup_with_manager get_bare_ingress_route
          get_bare_pod_disruption_budget
      routes-Kept results =
          Kept-pure-bind P (get_download_link_groups (get_download_links atom)) _ λ m _.
            Kept-bind P (submit_groups c r env atom results (order m)) _
              (groups-Kept (order m) results)
              λ done.
                step-Kept "IngressRoute" unable none_ignored (get_bare_ingress_route atom)
                  (mutate_ingress_route r order_of_routes atom) done _ refl refl
                  λ route.
                    step-Kept "PodDisruptionBudget" unable none_ignored
                      (get_bare_pod_disruption_budget atom) (mutate_pod_disruption_budget r atom)
                      route.0 _ refl refl (λ budget. Kept-pure P (ok budget.0))

      pub create-Kept :
          (o : OwnerInfo URL)
          → Kept P (create_or_update_all_for_atom c r env order order_of_routes atom o)
      unfolding create_or_update_all_for_atom setup_with_manager get_bare_deployment
          get_bare_service get_bare_strip_prefix_middleware get_bare_headers_middleware
      create-Kept o =
          let mutate = mutate_atom_generator_config_map r env atom o in
          Kept-pure-bind P (mutate (get_bare_config_map atom)) _ λ cm made.
            Kept-bind P
              (λ w.
                settle c "ConfigMap" (c.get_atom_full_name atom) unable none_ignored []
                  (c.create_or_update "ConfigMap" cm mutate w))
              _
              (call-Kept "ConfigMap" (c.get_atom_full_name atom) unable none_ignored cm mutate []
                refl (config_map-namespace r stays env o atom cm made))
              λ d₁.
                step-Kept "Deployment" unable is_conflict (get_bare_deployment atom)
                  (λ d. mutate_deployment r atom d d₁.1.head.name) d₁.0 _ refl refl
                  λ d₂.
                    step-Kept "Service" unable none_ignored (get_bare_service atom)
                      (mutate_service r atom) d₂.0 _ refl refl
                      λ d₃.
                        step-Kept "Middleware" could_not none_ignored
                          (get_bare_strip_prefix_middleware atom)
                          (mutate_strip_prefix_middleware r atom) d₃.0 _ refl refl
                          λ d₄.
                            step-Kept "Middleware" could_not none_ignored
                              (get_bare_headers_middleware atom)
                              (λ m. mutate_headers_middleware r atom m r.csp) d₄.0 _ refl refl
                              (λ d₅. routes-Kept d₅.0)

      pub report-Kept : (p : W × Result Results) → P p.0 → P (report c r env atom p).0
      unfolding report
      report-Kept (w, ok results) h = framed.finishes results w h
      report-Kept (w, err e) h = framed.fails e w h
      report-Kept (w, panic v) h = framed.fails _ w h

      -- What holds of the cluster before a call of `Reconcile` for a resource that is not expired
      -- holds after it, whatever the call ends in, if it outlives the updates of the status of that
      -- resource and the calls of `CreateOrUpdate` for objects of the kinds that `SetupWithManager`
      -- owns, in the namespace of the resource: nothing else is changed.
      pub reconcile-frame :
          (o : OwnerInfo URL) (w : W)
          → c.get_atom w atom.meta.namespace atom.meta.name ≡ inl atom
          → c.get_owner_info w atom.meta.namespace atom.spec.service.owner_info_ref ≡ inl o
          → ttl_expired (c.now w) atom ≡ false
          → P w
          → P (reconcile c r env order order_of_routes (atom.meta.namespace, atom.meta.name) w).0
      unfolding reconcile with_atom with_owner_info reconcile_atom
      reconcile-frame o w found owner live h =
          rw (found, owner, live) (report-Kept _ (create-Kept o w h))
