-- ===== src/Controller/Steady.antt =====
-- A second call of a mutate function.
pub mod Owned
use atom_operator.Prelude.{String, ◌≡◌, refl, sym, ap, ap₂, subst, ◌∙◌, some, List, [], ◌∷◌}
use atom_operator.Prelude.Dict.{Dict, lookup, insert, lookup-insert, insert_same}
use atom_operator.Prelude.Result.{Result, ok, err, panic, ◌>>=◌, >>=-eq-ok, ok_injective}
use atom_operator.Api.Model.{StringMap, ObjectMeta}
use atom_operator.Text.{◌+s◌}
use atom_operator.Api.V3.{Atom}
use atom_operator.Controller.Objects.{
  Head, Object, int, MiddlewareSpec, ServiceSpec, PodDisruptionBudgetSpec, DeploymentSpec,
  IngressRouteSpec, Reconciler,
}
use atom_operator.Controller.Labels.{
  name_suffix, atom_port_name, atom_port_nr, get_label_selector, get_object_labels, set_owner,
}
use atom_operator.Controller.Groups.{Group}
use atom_operator.Controller.Ingress.{
  title_suffix, all_routes, download_middlewares, mutate_ingress_route,
}
use atom_operator.Controller.Middleware.{
  set_middleware, mutate_strip_prefix_middleware, mutate_headers_middleware,
  mutate_download_link_middleware,
}
use atom_operator.Controller.Resources.{mutate_service, mutate_pod_disruption_budget}
use atom_operator.Controller.Deployment.{
  pod_template_annotations, deployment_spec, mutate_deployment,
}
use atom_operator.Controller.Steady.Owned.{IsSteady, owned-again, owned-anew, owned-remade}

-- The three keys stand at values that do not change.
annotations-again :
    (a : StringMap)
    → pod_template_annotations (pod_template_annotations a) ≡ pod_template_annotations a
unfolding pod_template_annotations
annotations-again a =
    let evict = insert "cluster-autoscaler.kubernetes.io/safe-to-evict" "true" a in
    let container = insert "kubectl.kubernetes.io/default-container" "atom-service" evict in
    let made = pod_template_annotations a in
    let third : lookup "priority.version-checker.io/atom-service" made ≡ some "8" =
      lookup-insert "priority.version-checker.io/atom-service" _ "8" container in
    let second : lookup "kubectl.kubernetes.io/default-container" made ≡ some "atom-service" =
      lookup-insert "priority.version-checker.io/atom-service" _ "8" container
      ∙ lookup-insert "kubectl.kubernetes.io/default-container" _ "atom-service" evict in
    let first : lookup "cluster-autoscaler.kubernetes.io/safe-to-evict" made ≡ some "true" =
      lookup-insert "priority.version-checker.io/atom-service" _ "8" container
      ∙ lookup-insert "kubectl.kubernetes.io/default-container" _ "atom-service" evict
      ∙ lookup-insert "cluster-autoscaler.kubernetes.io/safe-to-evict" _ "true" a in
    ap
      (λ m.
        insert "priority.version-checker.io/atom-service" "8"
          (insert "kubectl.kubernetes.io/default-container" "atom-service" m))
      (insert_same _ _ made first)
    ∙ ap (insert "priority.version-checker.io/atom-service" "8") (insert_same _ _ made second)
    ∙ insert_same _ _ made third

-- A second call of a mutate function, for the object that the first one made, makes that object
-- again, or ends in what the first call ended in.
pub record AreSteady {URL : Type 0} (r : Reconciler URL) (atom : Atom URL)
    (order : Dict Group → List (String × Group)) : Type 0 where
  pub service :
      (o : Object ServiceSpec)
      → (mutate_service r atom o >>= mutate_service r atom) ≡ mutate_service r atom o
  pub budget :
      (o : Object PodDisruptionBudgetSpec)
      → (mutate_pod_disruption_budget r atom o >>= mutate_pod_disruption_budget r atom)
        ≡ mutate_pod_disruption_budget r atom o
  pub deployment :
      (config_map_name : String) (o : Object DeploymentSpec)
      → (mutate_deployment r atom o config_map_name >>= λ d.
          mutate_deployment r atom d config_map_name)
        ≡ mutate_deployment r atom o config_map_name
  pub strip_prefix :
      (o : Object MiddlewareSpec)
      → (mutate_strip_prefix_middleware r atom o >>= mutate_strip_prefix_middleware r atom)
        ≡ mutate_strip_prefix_middleware r atom o
  pub headers :
      (csp : String) (o : Object MiddlewareSpec)
      → (mutate_headers_middleware r atom o csp >>= λ m. mutate_headers_middleware r atom m csp)
        ≡ mutate_headers_middleware r atom o csp
  pub download_link :
      (prefix : String) (files : List String) (o : Object MiddlewareSpec)
      → (mutate_download_link_middleware r atom prefix files o
          >>= mutate_download_link_middleware r atom prefix files)
        ≡ mutate_download_link_middleware r atom prefix files o
  pub ingress_route :
      (o : Object IngressRouteSpec)
      → (mutate_ingress_route r order atom o >>= mutate_ingress_route r order atom)
        ≡ mutate_ingress_route r order atom o

-- A function that gives an object that it made back gives, called twice, what it gives once.
twice_lem :
    {A : Type 0} (f : A → Result A) (o : A)
    → ((out : A) → f o ≡ ok out → f out ≡ ok out)
    → (f o >>= f) ≡ f o
twice_lem {A} f o h = go (f o) refl
  where
    go : (r : Result A) → f o ≡ r → (r >>= f) ≡ r
    go (ok out) e = h out e
    go (err x) e = refl
    go (panic v) e = refl

module _ {URL : Type 0} (r : Reconciler URL) (steady : IsSteady r) (atom : Atom URL) where
  middleware-again :
      (spec : MiddlewareSpec) (m : Object MiddlewareSpec) {out : Object MiddlewareSpec}
      → set_middleware r atom spec m ≡ ok out
      → set_middleware r atom spec out ≡ ok out
  unfolding set_middleware
  middleware-again spec m h = owned-remade r steady atom "Middleware" spec m h

  deployment_spec-again :
      (config_map_name : String) (s : DeploymentSpec)
      → deployment_spec r atom config_map_name (deployment_spec r atom config_map_name s)
        ≡ deployment_spec r atom config_map_name s
  unfolding deployment_spec get_object_labels
  deployment_spec-again config_map_name s =
      ap₂
        (λ (l : StringMap) (a : StringMap).
          let made = deployment_spec r atom config_map_name s in
          let template = made.template in
          record made { template = record template { labels = l; annotations = a } })
        (steady.labels_again s.template.labels _) (annotations-again s.template.annotations)

  ingress_route-again :
      (order : Dict Group → List (String × Group)) (i : Object IngressRouteSpec)
      {out : Object IngressRouteSpec}
      → mutate_ingress_route r order atom i ≡ ok out
      → mutate_ingress_route r order atom out ≡ ok out
  unfolding mutate_ingress_route
  ingress_route-again order i h =
      let (refs, e, h') = >>=-eq-ok (download_middlewares order atom) _ h in
      let head_annotations =
        r.get_uptime_annotations atom.meta.annotations (atom.meta.name +s name_suffix)
          (title_suffix atom.spec.service.title)
          (r.urls.string (r.urls.join_path atom.spec.service.base_url ("index.xml" ∷ [])))
          atom.meta.labels in
      let spec : IngressRouteSpec = record {
        routes = all_routes r.urls atom atom.spec.ingress_route_urls refs;
      } in
      rw e (owned-anew r steady atom "IngressRoute" head_annotations spec i h')

  -- Where combining the same labels again, and setting kind and controller again, change nothing:
  -- calling a mutate function again, for the object that it made, makes the same object. So it is
  -- for the service, the disruption budget, the deployment, the three kinds of middleware and the
  -- ingress route.
  pub mutate-AreSteady : (order : Dict Group → List (String × Group)) → AreSteady r atom order
  unfolding mutate_service mutate_pod_disruption_budget mutate_deployment
      mutate_strip_prefix_middleware mutate_headers_middleware mutate_download_link_middleware
  mutate-AreSteady order = record {
    service = λ o. twice_lem (mutate_service r atom) o (λ out.
        owned-remade r steady atom "Service"
          (record {
            ports = record { name = atom_port_name; port = atom_port_nr; protocol = "TCP" } ∷ [];
            selector = get_label_selector r atom;
          })
          o);
    budget = λ o. twice_lem (mutate_pod_disruption_budget r atom) o (λ out.
        owned-remade r steady atom "PodDisruptionBudget"
          (record { max_unavailable = some (int 1); selector = get_label_selector r atom }) o);
    deployment = λ n o.
        twice_lem (λ d. mutate_deployment r atom d n) o
          (λ out.
            owned-again r steady atom "Deployment" (λ a. a) (deployment_spec r atom n) (λ a. refl)
              (deployment_spec-again n) o);
    strip_prefix =
        λ o. twice_lem (mutate_strip_prefix_middleware r atom) o (λ out. middleware-again _ o);
    headers = λ csp o.
        twice_lem (λ m. mutate_headers_middleware r atom m csp) o (λ out. middleware-again _ o);
    download_link = λ prefix files o.
        twice_lem (mutate_download_link_middleware r atom prefix files) o
          (λ out. middleware-again _ o);
    ingress_route =
        λ o. twice_lem (mutate_ingress_route r order atom) o (λ out. ingress_route-again order o);
  }
