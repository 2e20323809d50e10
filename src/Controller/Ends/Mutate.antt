-- ===== src/Controller/Ends/Mutate.antt =====
-- How the mutate functions end.
use mathlib.Core.List.{Permᴰ}
use atom_operator.Prelude.{String, true, ◌≡◌, refl, List, [], ◌∷◌, All, contains}
use atom_operator.Prelude.Dict.{Dict}
use atom_operator.Prelude.Result.{GoError, wrapf, Result, ok, err, panic, ◌>>=◌, >>=-eq-ok, Returns}
use atom_operator.Api.Model.{StringMap, OwnerInfo}
use atom_operator.Api.V3.{Atom, get_download_links, get_blob_prefix}
use atom_operator.Generator.Links.{Env}
use atom_operator.Generator.Mapper.{map_atom_v3_to_atom_generator_config}
use atom_operator.Controller.Objects.{
  Head, Object, MiddlewareSpec, ConfigMapSpec, ServiceSpec, PodDisruptionBudgetSpec, DeploymentSpec,
  IngressRouteSpec, Reconciler,
}
use atom_operator.Controller.Labels.{set_owner}
use atom_operator.Controller.Groups.{Group}
use atom_operator.Controller.Groups.Laws.{groups-Returns_iff}
use atom_operator.Controller.Ingress.{mutate_ingress_route}
use atom_operator.Controller.Ingress.Order.{download_middlewares_lem}
use atom_operator.Controller.Middleware.{
  mutate_strip_prefix_middleware, mutate_headers_middleware, mutate_download_link_middleware,
}
use atom_operator.Controller.Resources.{
  with_context, get_generator_config, config_map_contents, mutate_service,
  mutate_pod_disruption_budget, mutate_atom_generator_config_map,
}
use atom_operator.Controller.Deployment.{mutate_deployment}
use atom_operator.Controller.Ends.{
  Ends, Ends-Returns, Ends-bind, made_kinds, FitFor, Fits, CallsEnd,
}

-- A kind of errors that stays one when an error is wrapped.
module _ (E : GoError → Type 0) (Fit : FitFor)
    (closed : (text : String) (e : GoError) → E e → E (wrapf text e)) where
  with_context-Ends {ℓ} :
      {A : Type ℓ} (text : String) (r : Result A) → Ends E r → Ends E (with_context text r)
  unfolding with_context
  with_context-Ends text (ok a) h = tt
  with_context-Ends text (err e) h = closed text e h
  with_context-Ends text (panic v) h = h

  module _ {URL : Type 0} (r : Reconciler URL) (calls : CallsEnd E Fit r) (atom : Atom URL) where
    set_owner-Ends :
        (kind : String) (head : Head)
        → contains made_kinds kind ≡ true
        → Fits E Fit atom.meta head
        → Ends E (set_owner r kind atom head)
    unfolding set_owner
    set_owner-Ends kind head known fits =
        Ends-bind E _ _ (calls.ensures kind head known)
          (λ h e. calls.controls atom.meta h (calls.ensures_fits kind atom.meta head e fits))

    set_owner-Fits :
        (kind : String) (head : Head) {out : Head}
        → set_owner r kind atom head ≡ ok out
        → Fits E Fit atom.meta head
        → Fits E Fit atom.meta out
    unfolding set_owner
    set_owner-Fits kind head h fits =
        let (between, e, h') = >>=-eq-ok (r.ensure_set_gvk kind head) _ h in
        calls.controls_fits atom.meta between h' (calls.ensures_fits kind atom.meta head e fits)

    -- A mutate function that sets the owner, and then only makes the object.
    owned-Ends :
        {S : Type 0} (kind : String) (head : Head) (f : Head → Object S)
        → contains made_kinds kind ≡ true
        → Fits E Fit atom.meta head
        → Ends E (set_owner r kind atom head >>= λ h. ok (f h))
    owned-Ends kind head f known fits =
        Ends-bind E _ _ (set_owner-Ends kind head known fits) (λ h _. tt)

    pub strip_prefix-Ends :
        (m : Object MiddlewareSpec)
        → Fits E Fit atom.meta m.head
        → Ends E (mutate_strip_prefix_middleware r atom m)
    unfolding mutate_strip_prefix_middleware
    strip_prefix-Ends m fits = owned-Ends "Middleware" _ _ refl fits

    pub headers-Ends :
        (m : Object MiddlewareSpec) (csp : String)
        → Fits E Fit atom.meta m.head
        → Ends E (mutate_headers_middleware r atom m csp)
    unfolding mutate_headers_middleware
    headers-Ends m csp fits = owned-Ends "Middleware" _ _ refl fits

    pub download_link-Ends :
        (prefix : String) (files : List String) (m : Object MiddlewareSpec)
        → Fits E Fit atom.meta m.head
        → Ends E (mutate_download_link_middleware r atom prefix files m)
    unfolding mutate_download_link_middleware
    download_link-Ends prefix files m fits = owned-Ends "Middleware" _ _ refl fits

    pub service-Ends :
        (s : Object ServiceSpec) → Fits E Fit atom.meta s.head → Ends E (mutate_service r atom s)
    unfolding mutate_service
    service-Ends s fits = owned-Ends "Service" _ _ refl fits

    pub budget-Ends :
        (b : Object PodDisruptionBudgetSpec)
        → Fits E Fit atom.meta b.head
        → Ends E (mutate_pod_disruption_budget r atom b)
    unfolding mutate_pod_disruption_budget
    budget-Ends b fits = owned-Ends "PodDisruptionBudget" _ _ refl fits

    pub deployment-Ends :
        (d : Object DeploymentSpec) (config_map_name : String)
        → Fits E Fit atom.meta d.head
        → Ends E (mutate_deployment r atom d config_map_name)
    unfolding mutate_deployment
    deployment-Ends d config_map_name fits = owned-Ends "Deployment" _ _ refl fits

    pub ingress_route-Ends :
        (order : Dict Group → List (String × Group))
        → ((m : Dict Group) → Permᴰ m (order m))
        → All (λ l. Returns (get_blob_prefix l)) (get_download_links atom)
        → (i : Object IngressRouteSpec) → Fits E Fit atom.meta i.head
        → Ends E (mutate_ingress_route r order atom i)
    unfolding mutate_ingress_route
    ingress_route-Ends order any links i fits =
        let (m, grouped) = (groups-Returns_iff (get_download_links atom)).1 links in
        Ends-bind E _ _ (Ends-Returns E _ (_, download_middlewares_lem atom order any grouped))
          (λ refs _. owned-Ends "IngressRoute" _ _ refl fits)

    module _ (env : Env URL) (o : OwnerInfo URL)
        (mapped : Returns (map_atom_v3_to_atom_generator_config env atom o)) where
      contents-Ends : (c : StringMap) → Ends E (config_map_contents r env atom o c)
      unfolding config_map_contents get_generator_config
      contents-Ends [] =
          Ends-bind E _ _
            (Ends-bind E _ _ (with_context-Ends _ _ (Ends-Returns E _ mapped))
              (λ config _. with_context-Ends _ _ (calls.marshals config)))
            (λ text _. tt)
      contents-Ends (c ∷ cs) = tt

      pub config_map-Ends :
          (c : Object ConfigMapSpec)
          → Fits E Fit atom.meta c.head
          → Ends E (mutate_atom_generator_config_map r env atom o c)
      unfolding mutate_atom_generator_config_map
      config_map-Ends c fits = Ends-bind E _ _ (contents-Ends c.spec.contents) (λ contents _.
          Ends-bind E _ _ (set_owner-Ends "ConfigMap" _ refl fits) (λ head _. calls.hashes _))

      pub config_map-Fits :
          (c : Object ConfigMapSpec) {cm : Object ConfigMapSpec}
          → mutate_atom_generator_config_map r env atom o c ≡ ok cm
          → Fits E Fit atom.meta c.head
          → Fits E Fit atom.meta cm.head
      unfolding mutate_atom_generator_config_map
      config_map-Fits c h fits =
          let (contents, _, h₁) =
            >>=-eq-ok (config_map_contents r env atom o c.spec.contents) _ h in
          let (head, e, h₂) = >>=-eq-ok (set_owner r "ConfigMap" atom _) _ h₁ in
          calls.hashes_fits atom.meta _ h₂ (set_owner-Fits "ConfigMap" _ e fits)
