-- ===== src/Controller/Groups.antt =====
-- `getDownloadLinkGroups` of internal/controller/middleware.go: the download links by the prefix
-- of their blobs. The Go map is a dictionary in the order of first appearance; its `range` has no
-- fixed order, and the callers take the order as a parameter.
pub mod Numbers
pub mod Files
pub mod Laws
use atom_operator.Prelude.{
  ℕ, suc, String, Bool, true, false, Option, none, some, List, [], ◌∷◌, ◌++◌, if◌then◌else◌,
}
use atom_operator.Prelude.Dict.{Dict, lookup, insert}
use atom_operator.Prelude.Result.{Result, ok, ◌>>=◌}
use atom_operator.Api.V3.{DownloadLink, get_blob_prefix, get_blob_name}

pub record Group : Type 0 where
  pub index : Option ℕ
  pub files : List String

-- The variables `counter` and `result`.
pub record Numbering : Type 0 where
  pub counter : ℕ
  pub result : Dict Group

-- `if val.index == nil { … }`
index_or : Option ℕ → ℕ → Option ℕ
index_or none counter = some counter
index_or (some index) counter = some index

next_counter : Option ℕ → ℕ → ℕ
next_counter none counter = suc counter
next_counter (some index) counter = counter

-- The rest of a round, from the value at the prefix.
add_to : Option Group → String → String → Numbering → Numbering
unfolding index_or next_counter
add_to (some val) prefix file s = record {
  counter = next_counter val.index s.counter;
  result =
      insert prefix
        (record { index = index_or val.index s.counter; files = val.files ++ file ∷ [] }) s.result;
}
add_to none prefix file s = record {
  counter = suc s.counter;
  result = insert prefix (record { index = some s.counter; files = file ∷ [] }) s.result;
}

add_file : String → String → Numbering → Numbering
unfolding add_to
add_file prefix file s = add_to (lookup prefix s.result) prefix file s

pub groups_from : List DownloadLink → Numbering → Result (Dict Group)
unfolding add_file
groups_from [] s = ok s.result
groups_from (link ∷ links) s = do
  prefix ← get_blob_prefix link
  groups_from links (add_file prefix (get_blob_name link) s)

unfoldable pub get_download_link_groups : List DownloadLink → Result (Dict Group)
unfolding groups_from
get_download_link_groups links = groups_from links (record { counter = 0; result = [] })
