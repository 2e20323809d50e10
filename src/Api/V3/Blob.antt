-- ===== src/Api/V3/Blob.antt =====
-- The two halves of a download link's path.
use atom_operator.Prelude.{String, ◌≡◌, ◌⊎◌, inl, inr, Option-cases}
use atom_operator.Prelude.Result.{ok, panic, slice_bounds}
use atom_operator.Text.{◌+s◌, last_index, take}
use atom_operator.Text.Split.{Lacks, last_index-none, take-drop_last}
use atom_operator.Api.V3.{DownloadLink, get_blob_prefix, get_blob_name}

-- Where the path has a slash, prefix, slash and name spell the path, and the name has no slash.
-- Where it has none, taking the prefix panics and the name is the whole path.
pub blob_parts :
    (dl : DownloadLink)
    → ((p : String) × (get_blob_prefix dl ≡ ok p)
        × (p +s "/" +s get_blob_name dl ≡ dl.blob_path)
        × Lacks b'/' (get_blob_name dl))
      ⊎ ((get_blob_prefix dl ≡ panic slice_bounds)
          × (get_blob_name dl ≡ dl.blob_path)
          × Lacks b'/' dl.blob_path)
unfolding get_blob_prefix get_blob_name
blob_parts dl = elim (Option-cases (last_index b'/' dl.blob_path)) [
  | inl e ↦ inr (rw (e, get_blob_prefix), rw (e, get_blob_name), last_index-none _ _ e)
  | inr (i, e) ↦
      let (spelled, lacks) = take-drop_last dl.blob_path i e in
      inl (
        take i dl.blob_path,
        rw (e, get_blob_prefix),
        rw (e, get_blob_name) spelled,
        rw (e, get_blob_name) lacks,
      )
]
