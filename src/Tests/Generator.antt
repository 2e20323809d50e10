-- ===== src/Tests/Generator.antt =====
-- The theorems on the generator's configuration, at the sample resource.
use atom_operator.Prelude.{◌≡◌, ◌≤◌, refl, false, arith, none, some, [], ◌∷◌, String, Distinct, All}
use atom_operator.Prelude.Result.{Returns}
use atom_operator.Api.Model.{OwnerInfo}
use atom_operator.Api.V3.OwnerCheck.Laws.{HasAsked}
use atom_operator.Api.V3.Admission.{validate_create, validate_update}
use atom_operator.Generator.Feeds.{Category}
use atom_operator.Generator.Links.{replace_mustache_template, escape_quotes, csw_link, html_link}
use atom_operator.Generator.Entries.{get_empty_rel_count, collect_categories, contains_category}
use atom_operator.Generator.Mapper.{map_atom_v3_to_atom_generator_config}
use atom_operator.Generator.Templates.{Renders}
use atom_operator.Generator.Safety.{map-Returns_iff}
use atom_operator.Generator.Admitted.{
  HasConfig, validate_create-HasConfig, validate_update-HasConfig,
}
use atom_operator.Generator.Ids.{IsConsistent, map-IsConsistent}
use atom_operator.Generator.Categories.{categories, collect_categories_lem}
use atom_operator.Generator.Downloads.{RelOk, alternates, download_link_rels}
use atom_operator.Generator.Quotes.{escape_quotes_lem}
use atom_operator.Text.{◌+s◌}
use atom_operator.Text.Escape.{HasNoBackslash, read_quoted}
use atom_operator.Tests.Sample.{env, checks, atom, owner_info, client, links, entry}

pub renders : (o : OwnerInfo String) → Renders env o
renders o = record {
  csw = λ urls u identifier _ _. unfold replace_mustache_template in (u.href_template, refl);
  open_search =
      λ urls u identifier _ _. unfold replace_mustache_template in (u.href_template, refl);
  html = λ urls u identifier _ _. unfold replace_mustache_template in (u.href_template, refl);
}

pub created : (validate_create checks client atom).error ≡ none
unfolding validate_create
created = refl

create-HasConfig_example : HasConfig checks env client atom
create-HasConfig_example =
    validate_create-HasConfig checks env client atom (λ o _. renders o) created

updated : (validate_update checks client atom atom).error ≡ none
unfolding validate_update
updated = refl

update-HasConfig_example : HasConfig checks env client atom
update-HasConfig_example =
    validate_update-HasConfig checks env client atom atom (λ o _. renders o) updated

pub config : Returns (map_atom_v3_to_atom_generator_config env atom owner_info)
unfolding map_atom_v3_to_atom_generator_config csw_link html_link
config = (_, refl)

map-Returns_example : HasAsked atom owner_info
map-Returns_example = ((map-Returns_iff env owner_info atom (renders owner_info)).0 config).1

mapped_example : IsConsistent env owner_info atom config.0
mapped_example = map-IsConsistent env owner_info atom config.0 config.1

categories_example :
    Distinct (collect_categories env [] (entry "e1" links ∷ entry "e2" [] ∷ []))
    × ((c : Category)
        → contains_category (collect_categories env [] (entry "e1" links ∷ entry "e2" [] ∷ [])) c
          ≡ contains_category (categories env (entry "e1" links ∷ entry "e2" [] ∷ [])) c)
categories_example = collect_categories_lem env (entry "e1" links ∷ entry "e2" [] ∷ [])

rels_example :
    All (RelOk (get_empty_rel_count links)) links
    × (alternates (get_empty_rel_count links) links ≤ 1)
rels_example = download_link_rels links

no_backslash : HasNoBackslash "The \"best\""
no_backslash = omega arith

quotes_example :
    read_quoted false (escape_quotes "The \"best\"" +s "\"" +s ", 1") ≡ some ("The \"best\"", ", 1")
quotes_example = escape_quotes_lem "The \"best\"" ", 1" no_backslash
