-- ===== src/Controller/Middleware.antt =====
-- internal/controller/middleware.go: the Traefik middlewares.
use atom_operator.Prelude.{ℕ, String, true, some, List, [], ◌∷◌, map}
use atom_operator.Prelude.Result.{Result, ok, ◌>>=◌}
use atom_operator.Text.{◌+s◌, itoa, join}
use atom_operator.Api.Model.{IngressRouteUrl, items}
use atom_operator.Api.V3.{Atom}
use atom_operator.Controller.Objects.{Object, bare, MiddlewareSpec, no_middleware, Reconciler}
use atom_operator.Controller.Labels.{
  strip_prefix_suffix, headers_suffix, downloads_suffix, get_object_labels, set_owner,
}

abbrev Middleware : Type 0
Middleware = Object MiddlewareSpec

module _ {URL : Type 0} where
  unfoldable pub get_bare_strip_prefix_middleware : Atom URL → Object MiddlewareSpec
  get_bare_strip_prefix_middleware obj = record {
    head = bare (obj.meta.name +s strip_prefix_suffix) obj.meta.namespace;
    spec = no_middleware;
  }

  unfoldable pub get_bare_headers_middleware : Atom URL → Object MiddlewareSpec
  get_bare_headers_middleware obj =
      let head = bare (obj.meta.name +s headers_suffix) obj.meta.namespace in
      record { head = record head { uid = obj.meta.uid }; spec = no_middleware }

  unfoldable pub download_link_name : Atom URL → ℕ → String
  download_link_name obj index = obj.meta.name +s downloads_suffix +s itoa index

  unfoldable pub get_bare_download_link_middleware : Atom URL → ℕ → Object MiddlewareSpec
  unfolding download_link_name
  get_bare_download_link_middleware obj index = record {
    head = bare (download_link_name obj index) obj.meta.namespace;
    spec = no_middleware;
  }

  -- `if len(ingressRouteURLs) == 0`
  unfoldable pub urls_or_base : List (IngressRouteUrl URL) → Atom URL → List (IngressRouteUrl URL)
  urls_or_base [] atom = record { url = atom.spec.service.base_url } ∷ []
  urls_or_base (u ∷ us) atom = u ∷ us

module _ {URL : Type 0} (r : Reconciler URL) where
  -- The labels, the spec and the owner of a middleware.
  unfoldable pub set_middleware :
      Atom URL → MiddlewareSpec → Object MiddlewareSpec → Result (Object MiddlewareSpec)
  unfolding get_object_labels set_owner
  set_middleware atom spec middleware = do
    let head = middleware.head
    head ←
        set_owner r "Middleware" atom
          (record head { labels = get_object_labels r atom middleware.head.labels })
    ok (record { head = head; spec = spec })

  unfoldable pub mutate_strip_prefix_middleware :
      Atom URL → Object MiddlewareSpec → Result (Object MiddlewareSpec)
  unfolding set_middleware
  mutate_strip_prefix_middleware atom = set_middleware atom (record no_middleware {
    strip_prefix = some (record {
      prefixes =
          (r.urls.path atom.spec.service.base_url +s "/")
          ∷ map (λ u. r.urls.path u.url +s "/") (items atom.spec.ingress_route_urls);
    });
  })

  unfoldable pub mutate_headers_middleware :
      Atom URL → Object MiddlewareSpec → String → Result (Object MiddlewareSpec)
  unfolding set_middleware
  mutate_headers_middleware atom middleware csp =
      set_middleware atom
        (record no_middleware {
          headers = some (record {
            content_security_policy = csp;
            frame_deny = true;
            custom_response_headers =
                ("Access-Control-Allow-Headers", "Content-Type")
                ∷ ("Access-Control-Allow-Method", "GET, OPTIONS, HEAD")
                ∷ ("Access-Control-Allow-Origin", "*")
                ∷ [];
          });
        })
        middleware

  unfoldable pub get_download_link_regex : List (IngressRouteUrl URL) → List String → String
  get_download_link_regex ingress_route_urls files =
      let paths = map (λ (u : IngressRouteUrl URL). r.urls.path u.url) ingress_route_urls in
      "^(" +s join paths "|" +s ")/downloads/" +s "(" +s join files "|" +s ")"

  unfoldable pub mutate_download_link_middleware :
      Atom URL → String → List String → Object MiddlewareSpec → Result (Object MiddlewareSpec)
  unfolding set_middleware urls_or_base get_download_link_regex
  mutate_download_link_middleware atom prefix files = set_middleware atom (record no_middleware {
    replace_path_regex = some (record {
      regex =
          get_download_link_regex (urls_or_base (items atom.spec.ingress_route_urls) atom) files;
      replacement = "/" +s prefix +s "/$2";
    });
  })
