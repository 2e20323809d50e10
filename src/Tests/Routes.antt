-- ===== src/Tests/Routes.antt =====
-- The ingress route of the sample resource.
use mathlib.Core.List.Permᴰ
use mathlib.Core.List.{Memᴰ}
use atom_operator.Prelude.{refl, none, All}
use atom_operator.Prelude.Dict.{lookup, insert}
use atom_operator.Prelude.Result.{Returns}
use atom_operator.Text.{last_index, take}
use atom_operator.Api.V3.{get_download_links, get_blob_prefix}
use atom_operator.Controller.Groups.{get_download_link_groups}
use atom_operator.Controller.Ingress.{get_bare_ingress_route, mutate_ingress_route}
use atom_operator.Controller.Ingress.Routes.{reached_at, route_urls, HasRoute, feeds-HasRoute}
use atom_operator.Controller.Ingress.Downloads.{IsRouted, links-IsRouted}
use atom_operator.Tests.Sample.{env, atom, owner_info, download}
use atom_operator.Tests.Generator.{config}
use atom_operator.Tests.Cluster.{reconciler, in_order}

made : Returns (mutate_ingress_route reconciler in_order atom (get_bare_ingress_route atom))
unfolding mutate_ingress_route get_bare_ingress_route get_blob_prefix last_index lookup take insert
made = (_, refl)

groups : Returns (get_download_link_groups (get_download_links atom))
unfolding get_download_link_groups get_download_links get_blob_prefix last_index lookup take insert
groups = (_, refl)

base_reached : Memᴰ atom.spec.service.base_url (route_urls atom)
unfolding reached_at
base_reached = Memᴰ.head refl

routes_example : All (HasRoute env atom made.0.spec.routes) config.0.feeds
routes_example =
    feeds-HasRoute reconciler env refl in_order atom owner_info (get_bare_ingress_route atom)
      config.1 made.1 base_reached

second : Memᴰ (download "other/b.zip" none) (get_download_links atom)
unfolding get_download_links
second = Memᴰ.tail (Memᴰ.head refl)

downloads_example :
    IsRouted reconciler atom made.0.spec.routes groups.0 (download "other/b.zip" none)
downloads_example =
    links-IsRouted reconciler in_order (λ m. Permᴰ.refl m) atom (get_bare_ingress_route atom) made.1
      groups.1 (download "other/b.zip" none) second
