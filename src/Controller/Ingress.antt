-- ===== src/Controller/Ingress.antt =====
-- internal/controller/ingressroute.go and service.go's name: the routes of an Atom.
pub mod Sorting
pub mod Order
pub mod Routes
pub mod Downloads
pub mod Names
use atom_operator.Prelude.{
  ℕ, String, Bool, true, false, Option, none, some, List, [], ◌∷◌, ◌++◌, map, if◌then◌else◌,
}
use atom_operator.Prelude.Dict.{Dict}
use atom_operator.Prelude.Result.{Result, ok, deref, each, ◌>>=◌}
use atom_operator.Text.{◌+s◌, has_suffix, text_ltb}
use atom_operator.Api.Model.{UrlOps, IngressRouteUrl}
use atom_operator.Api.V3.{Atom, DatasetFeed, get_download_links}
use atom_operator.Controller.Objects.{
  Object, bare, IntOrString, int, str, LoadBalancer, Route, IngressRouteSpec, Reconciler,
}
use atom_operator.Controller.Labels.{
  name_suffix, headers_suffix, strip_prefix_suffix, atom_port_nr, get_object_labels, set_owner,
}
use atom_operator.Controller.Groups.{Group, get_download_link_groups}
use atom_operator.Controller.Middleware.{download_link_name}

-- `sort.Slice` by name. The references hold a name alone, so any sorting algorithm gives this list.
unfoldable pub insert_name : String → List String → List String
insert_name x [] = x ∷ []
insert_name x (y ∷ ys) = if text_ltb y x then y ∷ insert_name x ys else x ∷ y ∷ ys

unfoldable pub sort_names : List String → List String
unfolding insert_name
sort_names [] = []
sort_names (x ∷ xs) = insert_name x (sort_names xs)

-- `if !strings.HasSuffix(title, "ATOM")`
pub title_suffix : String → String
title_suffix title = if has_suffix title "ATOM" then title else title +s " ATOM"

module _ {URL : Type 0} where
  unfoldable pub get_bare_ingress_route : Atom URL → Object IngressRouteSpec
  get_bare_ingress_route obj = record {
    head = bare (obj.meta.name +s name_suffix) obj.meta.namespace;
    spec = record { routes = [] };
  }

  -- `getBareService(atom).GetName()`
  service_name : Atom URL → String
  service_name obj = obj.meta.name +s name_suffix

  unfoldable pub get_default_rule : Atom URL → String → Route
  unfolding service_name
  get_default_rule atom match_rule = record {
    kind = "Rule";
    match_rule = match_rule;
    services =
        record {
          name = service_name atom;
          kind = "Service";
          port = int atom_port_nr;
          pass_host_header = none;
        }
        ∷ [];
    middlewares = (atom.meta.name +s headers_suffix) ∷ (atom.meta.name +s strip_prefix_suffix) ∷ [];
  }

  -- The reference that the loop of `mutateIngressRoute` makes for one group.
  unfoldable pub group_ref : Atom URL → String × Group → Result String
  unfolding download_link_name
  group_ref atom (prefix, group) = do index ← deref group.index; ok (download_link_name atom index)

  -- `order` is the order in which `range` goes through the map.
  unfoldable pub download_middlewares :
      (Dict Group → List (String × Group)) → Atom URL → Result (List String)
  unfolding get_download_links get_download_link_groups each group_ref sort_names
  download_middlewares order atom = do
    groups ← get_download_link_groups (get_download_links atom)
    refs ← each (group_ref atom) (order groups)
    ok (sort_names refs)

module _ {URL : Type 0} (urls : UrlOps URL) where
  unfoldable pub get_match_rule : URL → Bool → String
  get_match_rule url path_prefix =
      let host = "(Host(`localhost`) || Host(`" +s urls.hostname url +s "`))" in
      let path_type : String = if path_prefix then "PathPrefix" else "Path" in
      let path = path_type +s "(`" +s urls.path url +s "`)" in host +s " && " +s path

  -- The route for one dataset feed.
  feed_route : Atom URL → URL → DatasetFeed URL → Route
  unfolding get_default_rule get_match_rule
  feed_route atom url dataset_feed =
      get_default_rule atom
        (get_match_rule (urls.join_path url ((dataset_feed.technical_name +s ".xml") ∷ [])) false)

  unfoldable pub azure_storage_rule : Atom URL → URL → List String → Route
  unfolding get_match_rule
  azure_storage_rule atom url download_middlewares = record {
    kind = "Rule";
    match_rule = get_match_rule (urls.join_path url ("downloads/" ∷ [])) true;
    services =
        record {
          name = "azure-storage";
          port = str "azure-storage";
          pass_host_header = some false;
          kind = "Service";
        }
        ∷ [];
    middlewares = (atom.meta.name +s headers_suffix) ∷ download_middlewares;
  }

  unfoldable pub get_routes_for_url : Atom URL → URL → List String → List Route
  unfolding feed_route azure_storage_rule
  get_routes_for_url atom url download_middlewares =
      (get_default_rule atom (get_match_rule (urls.join_path url ("index.xml" ∷ [])) false)
        ∷ map (feed_route atom url) atom.spec.service.dataset_feeds)
      ++ azure_storage_rule atom url download_middlewares ∷ []

  -- The loop over the ingress route URLs.
  routes_for_urls : Atom URL → List (IngressRouteUrl URL) → List String → List Route
  routes_for_urls atom [] download_middlewares = []
  routes_for_urls atom (u ∷ us) download_middlewares =
      get_routes_for_url atom u.url download_middlewares
      ++ routes_for_urls atom us download_middlewares

  pub all_routes : Atom URL → Option (List (IngressRouteUrl URL)) → List String → List Route
  unfolding routes_for_urls get_routes_for_url
  all_routes atom (some (u ∷ us)) download_middlewares =
      routes_for_urls atom (u ∷ us) download_middlewares
  all_routes atom _ download_middlewares =
      get_routes_for_url atom atom.spec.service.base_url download_middlewares

module _ {URL : Type 0} (r : Reconciler URL) where
  unfoldable pub mutate_ingress_route :
      (Dict Group → List (String × Group))
      → Atom URL
      → Object IngressRouteSpec
      → Result (Object IngressRouteSpec)
  unfolding get_object_labels title_suffix download_middlewares all_routes set_owner
  mutate_ingress_route order atom ingress_route = do
    let head = ingress_route.head
    let base_url = atom.spec.service.base_url
    refs ← download_middlewares order atom
    head ← set_owner r "IngressRoute" atom (record head {
      labels = get_object_labels r atom ingress_route.head.labels;
      annotations =
          r.get_uptime_annotations atom.meta.annotations (atom.meta.name +s name_suffix)
            (title_suffix atom.spec.service.title)
            (r.urls.string (r.urls.join_path base_url ("index.xml" ∷ []))) atom.meta.labels;
    })
    ok (record {
      head = head;
      spec = record { routes = all_routes r.urls atom atom.spec.ingress_route_urls refs };
    })
