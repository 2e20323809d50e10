-- ===== src/Controller/Ingress/Routes.antt =====
-- The routes of an ingress route: for each URL the index, each dataset feed and the downloads.
use mathlib.Core.List.Memᴰ
use mathlib.Core.List.{Memᴰ}
use atom_operator.Prelude.{
  String, false, true, ◌≡◌, refl, sym, ap, subst, Option, none, some, List, [], ◌∷◌, map, All,
  Forall₂,
}
use atom_operator.Prelude.Dict.{Dict}
use atom_operator.Prelude.Result.{ok, >>=-eq-ok, ok_injective}
use atom_operator.Text.{◌+s◌}
use atom_operator.Api.Model.{UrlOps, IngressRouteUrl, OwnerInfo}
use atom_operator.Api.V3.{Atom, DatasetFeed}
use atom_operator.Generator.Feeds.{Feed, Feeds}
use atom_operator.Generator.Links.{Env, service_url}
use atom_operator.Generator.Mapper.{map_atom_v3_to_atom_generator_config}
use atom_operator.Generator.Ids.{IsFeedOf, map-IsConsistent}
use atom_operator.Controller.Objects.{Object, int, Route, IngressRouteSpec, Reconciler}
use atom_operator.Controller.Labels.{atom_port_nr, set_owner}
use atom_operator.Controller.Groups.{Group}
use atom_operator.Controller.Middleware.{get_bare_strip_prefix_middleware}
use atom_operator.Controller.Resources.{get_bare_service}
use atom_operator.Controller.Ingress.{
  service_name, get_default_rule, get_match_rule, feed_route, azure_storage_rule,
  get_routes_for_url, routes_for_urls, all_routes, download_middlewares, mutate_ingress_route,
}

-- The URLs at which the service is reached.
unfoldable pub reached_at :
    {URL : Type 0} → Atom URL → Option (List (IngressRouteUrl URL)) → List URL
reached_at atom none = atom.spec.service.base_url ∷ []
reached_at atom (some []) = atom.spec.service.base_url ∷ []
reached_at atom (some (u ∷ us)) = map (λ (v : IngressRouteUrl _). v.url) (u ∷ us)

abbrev pub route_urls : {URL : Type 0} → Atom URL → List URL
route_urls atom = reached_at atom atom.spec.ingress_route_urls

-- The rule that matches the requests for a URL: for its host or `localhost`, with its path or, for
-- `PathPrefix`, with a path that starts with it.
abbrev pub matches : {URL : Type 0} → UrlOps URL → URL → String → String
matches urls v path_type =
    ("(Host(`localhost`) || Host(`" +s urls.hostname v +s "`))")
    +s " && "
    +s path_type
    +s "(`"
    +s urls.path v
    +s "`)"

pub get_match_rule_lem :
    {URL : Type 0} (urls : UrlOps URL) (v : URL)
    → (get_match_rule urls v false ≡ matches urls v "Path")
      × (get_match_rule urls v true ≡ matches urls v "PathPrefix")
unfolding get_match_rule
get_match_rule_lem urls v = (refl, refl)

-- The route by which the service answers at a URL.
abbrev pub page_route : {URL : Type 0} → UrlOps URL → Atom URL → URL → Route
page_route urls atom v = get_default_rule atom (get_match_rule urls v false)

module _ {URL : Type 0} (urls : UrlOps URL) (atom : Atom URL) (refs : List String) where
  routes_for_urls-mem :
      (us : List (IngressRouteUrl URL)) (u : URL) (route : Route)
      → Memᴰ u (map (λ (v : IngressRouteUrl URL). v.url) us)
      → Memᴰ route (get_routes_for_url urls atom u refs)
      → Memᴰ route (routes_for_urls urls atom us refs)
  unfolding routes_for_urls
  routes_for_urls-mem [] u route m h = absurd (Memᴰ.not-nil m)
  routes_for_urls-mem (v ∷ vs) u route (Memᴰ.head e) h =
      Memᴰ.append_left _ (subst (λ x. Memᴰ route (get_routes_for_url urls atom x refs)) e h)
  routes_for_urls-mem (v ∷ vs) u route (Memᴰ.tail m) h =
      Memᴰ.append_right (get_routes_for_url urls atom v.url refs)
        (routes_for_urls-mem vs u route m h)

  all_routes-mem :
      (given : Option (List (IngressRouteUrl URL))) (u : URL) (route : Route)
      → Memᴰ u (reached_at atom given)
      → Memᴰ route (get_routes_for_url urls atom u refs)
      → Memᴰ route (all_routes urls atom given refs)
  unfolding all_routes reached_at
  all_routes-mem none u route m h =
      subst (λ x. Memᴰ route (get_routes_for_url urls atom x refs)) (Memᴰ.eq_of_singleton m) h
  all_routes-mem (some []) u route m h =
      subst (λ x. Memᴰ route (get_routes_for_url urls atom x refs)) (Memᴰ.eq_of_singleton m) h
  all_routes-mem (some (v ∷ vs)) u route m h = routes_for_urls-mem (v ∷ vs) u route m h

  index-mem :
      (u : URL)
      → Memᴰ
          (page_route urls atom (urls.join_path u ("index.xml" ∷ [])))
          (get_routes_for_url urls atom u refs)
  unfolding get_routes_for_url
  index-mem u = Memᴰ.head refl

  feed-mem :
      (u : URL) (f : DatasetFeed URL)
      → Memᴰ f atom.spec.service.dataset_feeds
      → Memᴰ
          (page_route urls atom (urls.join_path u ((f.technical_name +s ".xml") ∷ [])))
          (get_routes_for_url urls atom u refs)
  unfolding get_routes_for_url feed_route
  feed-mem u f m = Memᴰ.tail (Memᴰ.append_left _ (Memᴰ.map (feed_route urls atom u) m))

  pub storage-mem :
      (u : URL) → Memᴰ (azure_storage_rule urls atom u refs) (get_routes_for_url urls atom u refs)
  unfolding get_routes_for_url
  storage-mem u = Memᴰ.append_right (_ ∷ map _ _) (Memᴰ.head refl)

module _ {URL : Type 0} (r : Reconciler URL) (order : Dict Group → List (String × Group))
    (atom : Atom URL) where
  -- The routes of an ingress route that was made, and the references of its storage routes.
  mutate_inverse :
      (i : Object IngressRouteSpec) {route : Object IngressRouteSpec}
      → mutate_ingress_route r order atom i ≡ ok route
      → (refs : List String) × (download_middlewares order atom ≡ ok refs)
        × (route.spec.routes ≡ all_routes r.urls atom atom.spec.ingress_route_urls refs)
  unfolding mutate_ingress_route
  mutate_inverse i h =
      let (refs, e, h₁) = >>=-eq-ok (download_middlewares order atom) _ h in
      let (head, _, h₂) = >>=-eq-ok (set_owner r "IngressRoute" atom _) _ h₁ in
      (refs, e, ap (λ (o : Object IngressRouteSpec). o.spec.routes) (sym (ok_injective h₂)))

  pub routed :
      (i : Object IngressRouteSpec) {route : Object IngressRouteSpec}
      → mutate_ingress_route r order atom i ≡ ok route
      → (u : URL) → Memᴰ u (route_urls atom)
      → (one : List String → Route)
      → ((refs : List String) → Memᴰ (one refs) (get_routes_for_url r.urls atom u refs))
      → (refs : List String) × (download_middlewares order atom ≡ ok refs)
        × Memᴰ (one refs) route.spec.routes
  routed i h u m one there =
      let (refs, e, same) = mutate_inverse i h in
      (
        refs,
        e,
        subst (λ rs. Memᴰ (one refs) rs) (sym same)
            (all_routes-mem r.urls atom refs atom.spec.ingress_route_urls u (one refs) m
              (there refs)),
      )

-- The route sends what it matches to the service of the resource, through the middleware that
-- strips the path of the service.
abbrev pub SendsToService : {URL : Type 0} → Atom URL → Route → Type 0
SendsToService atom route =
    (route.services
      ≡ record {
        name = (get_bare_service atom).head.name;
        kind = "Service";
        port = int atom_port_nr;
        pass_host_header = none;
      }
        ∷ [])
    × Memᴰ (get_bare_strip_prefix_middleware atom).head.name route.middlewares

page_route-SendsToService :
    {URL : Type 0} (urls : UrlOps URL) (atom : Atom URL) (v : URL)
    → ((page_route urls atom v).match_rule ≡ matches urls v "Path")
      × SendsToService atom (page_route urls atom v)
unfolding get_default_rule service_name get_bare_service get_bare_strip_prefix_middleware
page_route-SendsToService urls atom v =
    ((get_match_rule_lem urls v).0, (refl, Memᴰ.tail (Memᴰ.head refl)))

-- A feed of the configuration is named by the text of a URL, and a route for the host and the path
-- of that URL leads to the service.
abbrev pub HasRoute : {URL : Type 0} → Env URL → Atom URL → List Route → Feed → Type 0
HasRoute {URL} env atom routes feed =
    (v : URL) × (feed.id ≡ env.urls.string v)
    × (route : Route) × Memᴰ route routes
    × (route.match_rule ≡ matches env.urls v "Path")
    × SendsToService atom route

module _ {URL : Type 0} (r : Reconciler URL) (env : Env URL) (same : r.urls ≡ env.urls)
    (order : Dict Group → List (String × Group)) (atom : Atom URL) where
  index_feed-HasRoute :
      (i : Object IngressRouteSpec) {route : Object IngressRouteSpec}
      → mutate_ingress_route r order atom i ≡ ok route
      → Memᴰ atom.spec.service.base_url (route_urls atom)
      → (feed : Feed) → feed.id ≡ service_url env atom "index.xml"
      → HasRoute env atom route.spec.routes feed
  unfolding service_url
  index_feed-HasRoute i h base feed e =
      let u = atom.spec.service.base_url in
      let v = env.urls.join_path u ("index.xml" ∷ []) in
      let (_, _, m) =
        routed r order atom i h u base (λ refs. page_route env.urls atom v)
          (λ refs.
            subst (λ urls. Memᴰ (page_route env.urls atom v) (get_routes_for_url urls atom u refs))
              (sym same) (index-mem env.urls atom refs u)) in
      let (rule, sends) = page_route-SendsToService env.urls atom v in
      (v, e, page_route env.urls atom v, m, rule, sends)

  dataset_feed-HasRoute :
      (i : Object IngressRouteSpec) {route : Object IngressRouteSpec}
      → mutate_ingress_route r order atom i ≡ ok route
      → Memᴰ atom.spec.service.base_url (route_urls atom)
      → {f : DatasetFeed URL} → Memᴰ f atom.spec.service.dataset_feeds
      → (o : OwnerInfo URL) {feed : Feed} → IsFeedOf env o atom f feed
      → HasRoute env atom route.spec.routes feed
  unfolding service_url
  dataset_feed-HasRoute i h base {f} m o is_feed =
      let u = atom.spec.service.base_url in
      let v = env.urls.join_path u ((f.technical_name +s ".xml") ∷ []) in
      let (_, _, m) =
        routed r order atom i h u base (λ refs. page_route env.urls atom v)
          (λ refs.
            subst (λ urls. Memᴰ (page_route env.urls atom v) (get_routes_for_url urls atom u refs))
              (sym same) (feed-mem env.urls atom refs u f m)) in
      let (rule, sends) = page_route-SendsToService env.urls atom v in
      (v, is_feed.named, page_route env.urls atom v, m, rule, sends)

  dataset_feeds-HasRoute :
      (o : OwnerInfo URL) (i : Object IngressRouteSpec) {route : Object IngressRouteSpec}
      → mutate_ingress_route r order atom i ≡ ok route
      → Memᴰ atom.spec.service.base_url (route_urls atom)
      → {fs : List (DatasetFeed URL)} {feeds : List Feed} → Forall₂ (IsFeedOf env o atom) fs feeds
      → ((f : DatasetFeed URL) → Memᴰ f fs → Memᴰ f atom.spec.service.dataset_feeds)
      → All (HasRoute env atom route.spec.routes) feeds
  dataset_feeds-HasRoute o i h base Forall₂.nil within = tt
  dataset_feeds-HasRoute o i h base (Forall₂.cons e es) within = (
    dataset_feed-HasRoute i h base (within _ (Memᴰ.head refl)) o e,
    dataset_feeds-HasRoute o i h base es (λ f m. within f (Memᴰ.tail m)),
  )

  -- Where the base URL is among the URLs of a resource, or no URLs are given: each feed of the
  -- generator's configuration is named by the text of a URL, and a route with the rule for the host
  -- (or `localhost`) and the path of that URL leads to the service, through the middleware that strips
  -- the path.
  pub feeds-HasRoute :
      (o : OwnerInfo URL) {config : Feeds} (i : Object IngressRouteSpec)
      {route : Object IngressRouteSpec}
      → map_atom_v3_to_atom_generator_config env atom o ≡ ok config
      → mutate_ingress_route r order atom i ≡ ok route
      → Memᴰ atom.spec.service.base_url (route_urls atom)
      → All (HasRoute env atom route.spec.routes) config.feeds
  feeds-HasRoute o i mapped h base =
      let c = map-IsConsistent env o atom _ mapped in
      subst (All (HasRoute env atom _)) (sym c.all_feeds) (
        index_feed-HasRoute i h base c.service c.named,
        dataset_feeds-HasRoute o i h base c.dataset_feeds (λ f m. m),
      )
