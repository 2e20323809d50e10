-- ===== src/Tests/Controller.antt =====
-- The theorems on the controller's objects, at the sample resource.
use mathlib.Core.List.Permᴰ
use mathlib.Core.List.{Permᴰ, reverse}
use atom_operator.Prelude.{
  ℕ, ◌≡◌, refl, arith, true, false, none, some, List, [], ◌∷◌, String, Distinct, length,
}
use atom_operator.Prelude.Int.{pos, ◌+ℤ◌}
use atom_operator.Text.{last_index}
use atom_operator.Api.V3.{Atom, get_download_links}
use atom_operator.Controller.Middleware.{
  get_bare_strip_prefix_middleware, get_bare_headers_middleware,
}
use atom_operator.Controller.Ingress.Names.{middleware_names-Distinct}
use atom_operator.Controller.Ingress.{sort_names, download_middlewares}
use atom_operator.Controller.Ingress.Sorting.{IsSorted, sort_names_lem}
use atom_operator.Controller.Ingress.Order.{names_from, download_middlewares_lem}
use atom_operator.Controller.Ttl.{lifetime, ttl_expired}
use atom_operator.Controller.Ttl.Laws.{ttl_expired-none, ttl_expired-small, ttl_expired-overflow}
use atom_operator.Tests.Sample.{atom}
use atom_operator.Prelude.Dict.{keys}
use atom_operator.Prelude.Result.{ok, Returns}
use atom_operator.Api.V3.{get_blob_prefix}
use atom_operator.Controller.Groups.{get_download_link_groups}
use atom_operator.Controller.Groups.Numbers.{Numbered}
use atom_operator.Controller.Groups.Files.{files_at, files_with}
use atom_operator.Controller.Groups.Laws.{groups_lem}
use atom_operator.Tests.Sample.{links}

grouped : Returns (get_download_link_groups links)
unfolding get_download_link_groups get_blob_prefix last_index
grouped = (_, refl)

grouped_atom : get_download_link_groups (get_download_links atom) ≡ ok grouped.0
unfolding get_download_links
grouped_atom = grouped.1

no_lifetime : lifetime atom.spec.lifecycle ≡ none
unfolding lifetime
no_lifetime = refl

groups_example :
    Numbered 0 grouped.0
    × Distinct (keys grouped.0)
    × ((p : String) → files_at p grouped.0 ≡ files_with p links)
groups_example = groups_lem links grouped.1

names_example :
    (IsSorted (sort_names ("b" ∷ "a" ∷ [])) × Permᴰ ("b" ∷ "a" ∷ []) (sort_names ("b" ∷ "a" ∷ [])))
    × ((ys : List String)
        → Permᴰ ("b" ∷ "a" ∷ []) ys
        → IsSorted ys
        → sort_names ("b" ∷ "a" ∷ []) ≡ ys)
names_example = sort_names_lem ("b" ∷ "a" ∷ [])

refs_example :
    download_middlewares reverse atom ≡ ok (sort_names (names_from atom 0 (length grouped.0)))
refs_example =
    download_middlewares_lem atom reverse (λ m. Permᴰ.symm (Permᴰ.reverse m)) grouped_atom

ttl_none_example : ttl_expired (pos 5000) atom ≡ false
ttl_none_example = ttl_expired-none (pos 5000) atom no_lifetime

abbrev with_ttl : ℕ → Atom String
with_ttl days =
    let spec = atom.spec in
    record atom {
      spec = record spec { lifecycle = some (record { ttl_in_days = some (pos days) }) };
    }

lifetime_of : (days : ℕ) → lifetime (with_ttl days).spec.lifecycle ≡ some (pos days)
unfolding lifetime
lifetime_of days = refl

ttl_small_example : ttl_expired (pos 5000) (with_ttl 30) ≡ false
unfolding ◌+ℤ◌
ttl_small_example = ttl_expired-small (pos 5000) (with_ttl 30) 30 (lifetime_of 30) (omega arith)

ttl_overflow_example : ttl_expired (pos 5000) (with_ttl 106752) ≡ true
ttl_overflow_example =
    ttl_expired-overflow (pos 5000) (with_ttl 106752) 106752 (lifetime_of 106752) (omega arith)
      (omega arith) (omega arith)

distinct_example : Distinct (
    (get_bare_strip_prefix_middleware atom).head.name
    ∷ (get_bare_headers_middleware atom).head.name
    ∷ names_from atom 0 3)
distinct_example = middleware_names-Distinct atom 3
