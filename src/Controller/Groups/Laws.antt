-- ===== src/Controller/Groups/Laws.antt =====
-- The groups: one for each prefix, numbered in the order of first appearance, with the files of
-- its prefix in order.
use atom_operator.Prelude.{String, ◌≡◌, ◌↔◌, refl, ◌∙◌, List, [], ◌∷◌, All, Distinct}
use atom_operator.Prelude.Dict.{Dict, lookup, keys}
use atom_operator.Prelude.Result.{ok, >>=-eq-ok, Returns}
use atom_operator.Api.V3.{DownloadLink, get_blob_prefix, get_blob_name}
use atom_operator.Controller.Groups.{
  Group, Numbering, add_file, groups_from, get_download_link_groups,
}
use atom_operator.Controller.Groups.Numbers.{Numbered, groups_from-IsNumbering}
use atom_operator.Controller.Groups.Files.{files_at, files_with, groups_from-files}

groups_from-Returns_iff :
    (links : List DownloadLink) (s : Numbering)
    → Returns (groups_from links s) ↔ All (λ l. Returns (get_blob_prefix l)) links
unfolding groups_from
groups_from-Returns_iff [] s = (λ _. tt, λ _. (s.result, refl))
groups_from-Returns_iff (l ∷ ls) s = (
  λ (m, e).
      let (p, here, rest) = >>=-eq-ok (get_blob_prefix l) _ e in
      ((p, here), (groups_from-Returns_iff ls (add_file p (get_blob_name l) s)).0 (m, rest)),
  λ ((p, here), h).
      let (m, e) = (groups_from-Returns_iff ls (add_file p (get_blob_name l) s)).1 h in
      (m, rw here e),
)

-- Grouping returns exactly when taking the prefix of every link returns.
pub groups-Returns_iff :
    (links : List DownloadLink)
    → Returns (get_download_link_groups links) ↔ All (λ l. Returns (get_blob_prefix l)) links
unfolding get_download_link_groups
groups-Returns_iff links = groups_from-Returns_iff links _

-- Where grouping returns: the groups have distinct prefixes, the indices 0, 1, 2 and so on in the
-- order in which they stand, and at least one file each; and the files at a prefix, none if there
-- is no group, are the names of the links with that prefix, in their order.
pub groups_lem :
    (links : List DownloadLink) {m : Dict Group}
    → get_download_link_groups links ≡ ok m
    → Numbered 0 m × Distinct (keys m) × ((p : String) → files_at p m ≡ files_with p links)
unfolding get_download_link_groups
groups_lem links e =
    let (numbered, distinct) =
      groups_from-IsNumbering links _ e (record { numbered = tt; counted = refl; distinct = tt }) in
    (numbered, distinct, λ p. groups_from-files links _ e p ∙ unfold lookup in refl)
