-- ===== src/Controller/Reconcile/Present.antt =====
-- What is in the cluster once a resource is reconciled.
use atom_operator.Prelude.{String, false, ◌≡◌, refl, ap, subst, inl, none, List, [], All, All-map}
use atom_operator.Prelude.Dict.{Dict}
use atom_operator.Prelude.Result.{Result, ok, err, panic}
use atom_operator.Api.Model.{OwnerInfo}
use atom_operator.Api.V3.{Atom, get_download_links}
use atom_operator.Generator.Links.{Env}
use atom_operator.Controller.Objects.{Object, Reconciler}
use atom_operator.Controller.Labels.{name_suffix, headers_suffix, strip_prefix_suffix, app_name}
use atom_operator.Controller.Objects.{ConfigMapSpec, DeploymentSpec}
use atom_operator.Controller.Resources.{
  get_bare_service, mutate_service, get_bare_pod_disruption_budget, mutate_pod_disruption_budget,
  get_bare_config_map, mutate_atom_generator_config_map,
}
use atom_operator.Controller.Deployment.{get_bare_deployment, mutate_deployment}
use atom_operator.Controller.Ingress.{get_bare_ingress_route, mutate_ingress_route}
use atom_operator.Text.{◌+s◌}
use atom_operator.Controller.Run.{◌>>=◌, bind-eq-ok, pure-eq-ok}
use atom_operator.Controller.Cluster.{Cluster}
use atom_operator.Controller.Ttl.{ttl_expired}
use atom_operator.Controller.Groups.{Group, get_download_link_groups}
use atom_operator.Controller.Middleware.{
  get_bare_strip_prefix_middleware, mutate_strip_prefix_middleware, get_bare_headers_middleware,
  mutate_headers_middleware,
}
use atom_operator.Controller.Reconcile.{
  Results, none_ignored, unable, could_not, is_conflict, settle, submit, submit_groups,
  submit_routes, create_or_update_all_for_atom, report, reconcile_atom, with_owner_info, with_atom,
  reconcile,
}
use atom_operator.Controller.Reconcile.Steps.{
  Keeps, Later, settle-eq-ok, submit-Later, submit_step, HasMiddleware, submit_groups-Has,
}

module _ {URL W : Type 0} (c : Cluster URL W) (Has : String → String → String → W → Type 0)
    (k : Keeps c Has) (r : Reconciler URL) (env : Env URL) (atom : Atom URL) where
  module _ (order order_of_routes : Dict Group → List (String × Group)) (o : OwnerInfo URL) where
    -- The objects that belong to the routes.
    pub record Routed (w : W) : Type 0 where
      pub groups : Dict Group
      pub grouped : get_download_link_groups (get_download_links atom) ≡ ok groups
      pub downloads : All (HasMiddleware c Has k r env atom w) (order groups)
      pub route : Has "IngressRoute" atom.meta.namespace (atom.meta.name +s name_suffix) w
      pub budget :
          Has "PodDisruptionBudget" atom.meta.namespace (atom.meta.name +s "-" +s app_name) w

    -- The objects of the resource. The deployment is not among them: a conflict on it is passed
    -- over.
    pub record Present (w : W) : Type 0 where
      pub config_map : Object ConfigMapSpec
      pub made :
          mutate_atom_generator_config_map r env atom o (get_bare_config_map atom) ≡ ok config_map
      pub configured : Has "ConfigMap" config_map.head.namespace config_map.head.name w
      pub service : Has "Service" atom.meta.namespace (atom.meta.name +s name_suffix) w
      pub strip : Has "Middleware" atom.meta.namespace (atom.meta.name +s strip_prefix_suffix) w
      pub headers : Has "Middleware" atom.meta.namespace (atom.meta.name +s headers_suffix) w
      pub routed : Routed w

    Routed-Later : (w w' : W) → Later c Has w w' → Routed w → Routed w'
    Routed-Later w w' later p = record {
      groups = p.groups;
      grouped = p.grouped;
      downloads = All-map (λ g has i e. later _ _ _ (has i e)) (order p.groups) p.downloads;
      route = later _ _ _ p.route;
      budget = later _ _ _ p.budget;
    }

    Present-Later : (w w' : W) → Later c Has w w' → Present w → Present w'
    Present-Later w w' later p = record {
      config_map = p.config_map;
      made = p.made;
      configured = later _ _ _ p.configured;
      service = later _ _ _ p.service;
      strip = later _ _ _ p.strip;
      headers = later _ _ _ p.headers;
      routed = Routed-Later w w' later p.routed;
    }

    routes-Routed :
        (results : Results) (w : W) {w' : W} {out : Results}
        → submit_routes c r env order order_of_routes atom results w ≡ (w', ok out)
        → Later c Has w w' × Routed w'
    unfolding submit_routes get_bare_ingress_route get_bare_pod_disruption_budget
    routes-Routed results w {w'} h =
        let (groups, grouped, h₇) =
          pure-eq-ok (get_download_link_groups (get_download_links atom)) w _ h in
        let (w₆, d₆, e₆, h₈) =
          bind-eq-ok (submit_groups c r env atom results (order groups)) _ w h₇ in
        let (later₆, downloads) =
          submit_groups-Has c Has k r env atom (order groups) results w {w' = w₆} {out = d₆} e₆ in
        let (w₇, d₇, later₇, route, h₉) =
          submit_step c Has k "IngressRoute" unable (get_bare_ingress_route atom)
            (mutate_ingress_route r order_of_routes atom) d₆ _ w₆ h₈ in
        let (w₈, d₈, later₈, budget, end) =
          submit_step c Has k "PodDisruptionBudget" unable (get_bare_pod_disruption_budget atom)
            (mutate_pod_disruption_budget r atom) d₇.0 _ w₇ h₉ in
        let same : w₈ ≡ w' = ap (λ q. q.0) end in
        let from₆ : Later c Has w₆ w₈ = λ a b n has. later₈ a b n (later₇ a b n has) in
        subst (λ v. Later c Has w v × Routed v) same
          (
            λ a b n has. from₆ a b n (later₆ a b n has),
            record {
              groups = groups;
              grouped = grouped;
              downloads = All-map (λ g has i e. from₆ _ _ _ (has i e)) (order groups) downloads;
              route = later₈ _ _ _ route;
              budget = budget;
            },
          )

    -- What the calls behind the one for the deployment leave.
    pub after_deployment :
        (results : Results) (w : W) {w' : W} {out : Results}
        → (submit c "Service" unable none_ignored
                (get_bare_service atom)
                (mutate_service r atom)
                results
              >>= λ service.
                  submit c "Middleware" could_not none_ignored
                    (get_bare_strip_prefix_middleware atom)
                    (mutate_strip_prefix_middleware r atom)
                    service.0
                  >>= λ strip.
                      submit c "Middleware" could_not none_ignored
                        (get_bare_headers_middleware atom)
                        (λ m. mutate_headers_middleware r atom m r.csp)
                        strip.0
                      >>= λ cors. submit_routes c r env order order_of_routes atom cors.0)
            w
          ≡ (w', ok out)
        → Later c Has w w'
          × Has "Service" atom.meta.namespace (atom.meta.name +s name_suffix) w'
          × Has "Middleware" atom.meta.namespace (atom.meta.name +s strip_prefix_suffix) w'
          × Has "Middleware" atom.meta.namespace (atom.meta.name +s headers_suffix) w'
          × Routed w'
    unfolding get_bare_service get_bare_strip_prefix_middleware get_bare_headers_middleware
    after_deployment results w {w'} {out} h =
        let (w₃, d₃, later₃, service, h₄) =
          submit_step c Has k "Service" unable (get_bare_service atom) (mutate_service r atom)
            results _ w h in
        let (w₄, d₄, later₄, strip, h₅) =
          submit_step c Has k "Middleware" could_not (get_bare_strip_prefix_middleware atom)
            (mutate_strip_prefix_middleware r atom) d₃.0 _ w₃ h₄ in
        let (w₅, d₅, later₅, headers, h₆) =
          submit_step c Has k "Middleware" could_not (get_bare_headers_middleware atom)
            (λ m. mutate_headers_middleware r atom m r.csp) d₄.0 _ w₄ h₅ in
        let (from₅, routed) = routes-Routed d₅.0 w₅ {w' = w'} {out = out} h₆ in
        let from₄ : Later c Has w₄ w' = λ a b n has. from₅ a b n (later₅ a b n has) in
        let from₃ : Later c Has w₃ w' = λ a b n has. from₄ a b n (later₄ a b n has) in
        (
          λ a b n has. from₃ a b n (later₃ a b n has),
          from₃ _ _ _ service,
          from₄ _ _ _ strip,
          from₅ _ _ _ headers,
          routed,
        )

    create-Present :
        (w : W) (w' : W) (out : Results)
        → create_or_update_all_for_atom c r env order order_of_routes atom o w ≡ (w', ok out)
        → Present w'
    unfolding create_or_update_all_for_atom
    create-Present w w' out h =
        let mutate_cm = mutate_atom_generator_config_map r env atom o in
        let (cm, made, h₁) = pure-eq-ok (mutate_cm (get_bare_config_map atom)) w _ h in
        let (w₁, d₁, e₁, h₂) =
          bind-eq-ok
            (λ v.
              settle c "ConfigMap" (c.get_atom_full_name atom) unable none_ignored []
                (c.create_or_update "ConfigMap" cm mutate_cm v))
            _ w h₁ in
        let (op, _, call) =
          settle-eq-ok c Has "ConfigMap" (c.get_atom_full_name atom) unable []
            (c.create_or_update "ConfigMap" cm mutate_cm w) e₁ in
        let deploy = λ (d : Object DeploymentSpec). mutate_deployment r atom d d₁.1.head.name in
        let (w₂, d₂, e₂, h₃) =
          bind-eq-ok
            (submit c "Deployment" unable is_conflict (get_bare_deployment atom) deploy d₁.0) _ w₁
            h₂ in
        let (from₂, service, strip, headers, routed) =
          after_deployment d₂.0 w₂ {w' = w'} {out = out} h₃ in
        let later₂ : Later c Has w₁ w₂ =
          submit-Later c Has k "Deployment" unable is_conflict (get_bare_deployment atom) deploy
            d₁.0 w₁ e₂ in
        let from₁ : Later c Has w₁ w' = λ a b n has. from₂ a b n (later₂ a b n has) in
        record {
          config_map = cm;
          made = made;
          configured = from₁ _ _ _ (k.creates "ConfigMap" cm mutate_cm w call);
          service = service;
          strip = strip;
          headers = headers;
          routed = routed;
        }

    report-Present :
        (p : W × Result Results)
        → ((w' : W) (out : Results) → p ≡ (w', ok out) → Present w')
        → (report c r env atom p).1 ≡ none
        → Present (report c r env atom p).0
    unfolding report
    report-Present (w, ok results) present h =
        Present-Later w _ (k.status_keeps atom results w) (present w results refl)
    report-Present (w, err e) present h = absurd (cc h)
    report-Present (w, panic v) present h = absurd (cc h)

    -- Where the resource and its OwnerInfo are found and the resource is not expired, a call of
    -- `Reconcile` that ends without an error leaves these in the cluster, if `CreateOrUpdate`
    -- keeps its promise: the config map that was made, the service, the two fixed middlewares,
    -- the middleware of each group of download links, the ingress route and the disruption
    -- budget.
    pub reconcile-Present :
        (w : W)
        → c.get_atom w atom.meta.namespace atom.meta.name ≡ inl atom
        → c.get_owner_info w atom.meta.namespace atom.spec.service.owner_info_ref ≡ inl o
        → ttl_expired (c.now w) atom ≡ false
        → (reconcile c r env order order_of_routes (atom.meta.namespace, atom.meta.name) w).1 ≡ none
        → Present
            (reconcile c r env order order_of_routes (atom.meta.namespace, atom.meta.name) w).0
    unfolding reconcile with_atom with_owner_info reconcile_atom
    reconcile-Present w found owner live =
        rw (found, owner, live) (report-Present _ (create-Present w))
