-- ===== src/Generator/Entries.antt =====
-- The entries of the feeds: `getServiceEntries` and `getDatasetEntries` of mapper.go with their
-- helpers.
use atom_operator.Prelude.{
  ℕ, suc, String, Bool, true, false, ◌&&◌, ◌||◌, Option, none, some, List, [], ◌∷◌, ◌++◌, map,
  str_eq, ltb, if◌then◌else◌,
}
use atom_operator.Prelude.Int.{pos}
use atom_operator.Prelude.Result.{Result, ok, each, ◌>>=◌}
use atom_operator.Text.{◌+s◌}
use atom_operator.Api.Model.{Time, OwnerInfo}
use atom_operator.Api.V3.{Atom, DatasetFeed, Entry, DownloadLink, get_blob_endpoint, get_blob_name}
use atom_operator.Generator.Feeds.{Link, no_link, Category, FeedEntry, no_entry}
use atom_operator.Generator.Links.{
  Env, escape_quotes, service_url, get_category, add_optional_metadata_links,
}

-- `==` on categories, and `slices.Contains`.
unfoldable pub same_category : Category → Category → Bool
same_category a b = str_eq a.term b.term && str_eq a.label b.label

unfoldable pub contains_category : List Category → Category → Bool
unfolding same_category
contains_category [] c = false
contains_category (d ∷ ds) c = same_category d c || contains_category ds c

unfoldable pub add_category : List Category → Category → List Category
unfolding contains_category
add_category cs c = if contains_category cs c then cs else cs ++ c ∷ []

unfoldable pub is_empty : Option String → Bool
is_empty none = true
is_empty (some rel) = str_eq rel ""

-- `downloadLink.Rel == nil || *downloadLink.Rel == ""`
unfoldable pub is_empty_rel : DownloadLink → Bool
unfolding is_empty
is_empty_rel dl = is_empty dl.rel

-- `getEmptyRelCount`
unfoldable pub get_empty_rel_count : List DownloadLink → ℕ
unfolding is_empty_rel
get_empty_rel_count [] = 0
get_empty_rel_count (dl ∷ dls) =
    let rest = get_empty_rel_count dls in if is_empty_rel dl then suc rest else rest

-- The second and third case of `getDownloadLinkRel`.
unfoldable pub default_rel : ℕ → String
default_rel empty_rel_count = if ltb 1 empty_rel_count then "section" else "alternate"

unfoldable pub rel_or_default : Option String → ℕ → String
unfolding default_rel
rel_or_default none empty_rel_count = default_rel empty_rel_count
rel_or_default (some rel) empty_rel_count =
    if str_eq rel "" then default_rel empty_rel_count else rel

unfoldable pub get_download_link_rel : DownloadLink → ℕ → String
unfolding rel_or_default
get_download_link_rel dl empty_rel_count = rel_or_default dl.rel empty_rel_count

title_or : Option String → String → String
title_or none feed_title = escape_quotes feed_title
title_or (some title) feed_title = if str_eq title "" then escape_quotes feed_title else title

module _ {URL : Type 0} (env : Env URL) where
  -- The loop that collects the categories of a dataset.
  unfoldable pub collect_categories : List Category → List (Entry URL) → List Category
  unfolding add_category
  collect_categories cs [] = cs
  collect_categories cs (e ∷ es) = collect_categories (add_category cs (get_category env e.srs)) es

  -- `if len(datasetFeed.Entries) > 0`
  unfoldable pub first_polygon : List (Entry URL) → String
  first_polygon [] = ""
  first_polygon (e ∷ es) = env.to_polygon e.polygon.bbox

  -- The round of `getServiceEntries` for one dataset feed.
  unfoldable pub service_entry : Atom URL → OwnerInfo URL → DatasetFeed URL → Result FeedEntry
  unfolding service_url escape_quotes add_optional_metadata_links collect_categories first_polygon
  service_entry atom owner_info dataset_feed = do
    let id = service_url env atom (dataset_feed.technical_name +s ".xml")
    links ←
        add_optional_metadata_links env dataset_feed.dataset_metadata_links owner_info [] "" true
    let alternate_link = record no_link {
      rel = "alternate";
      href = id;
      content_type = "application/atom+xml";
      title = escape_quotes dataset_feed.title;
    }
    ok (record no_entry {
      id = id;
      title = escape_quotes dataset_feed.title;
      spatial_dataset_identifier_code = dataset_feed.spatial_dataset_identifier_code;
      spatial_dataset_identifier_namespace = dataset_feed.spatial_dataset_identifier_namespace;
      link = links ++ alternate_link ∷ [];
      summary = escape_quotes dataset_feed.subtitle;
      polygon = first_polygon dataset_feed.entries;
      category = collect_categories [] dataset_feed.entries;
    })

  unfoldable pub get_service_entries : Atom URL → OwnerInfo URL → Result (List FeedEntry)
  unfolding each service_entry
  get_service_entries atom owner_info =
      each (service_entry atom owner_info) atom.spec.service.dataset_feeds

  unfoldable pub get_download_link_href : DownloadLink → Atom URL → String
  get_download_link_href dl atom =
      env.urls.string
        (env.urls.join_path atom.spec.service.base_url ("downloads" ∷ get_blob_name dl ∷ []))

  unfoldable pub get_download_link_data : DownloadLink → Option String
  get_download_link_data dl = some (get_blob_endpoint env.globals +s "/" +s dl.blob_path)

  unfoldable pub get_download_link_title : DatasetFeed URL → Entry URL → DownloadLink → String
  unfolding title_or escape_quotes
  get_download_link_title dataset_feed entry dl =
      title_or entry.title dataset_feed.title +s " - " +s get_blob_name dl

  -- The round of `getDatasetEntries` for one download link.
  unfoldable pub download_link : Atom URL → DatasetFeed URL → Entry URL → ℕ → DownloadLink → Link
  unfolding get_download_link_rel get_download_link_href get_download_link_data
      get_download_link_title
  download_link atom dataset_feed entry empty_rel_count dl = record no_link {
    rel = get_download_link_rel dl empty_rel_count;
    href = get_download_link_href dl atom;
    data_href = get_download_link_data dl;
    title = get_download_link_title dataset_feed entry dl;
    time = dl.time;
    bbox = elim dl.bbox [ none ↦ none | some b ↦ some (env.to_extent b) ];
  }

  -- `entry.Updated.In(time.FixedZone("UTC", 0))`
  in_utc : Time → Time
  in_utc t = record t { offset = pos 0 }

  -- The round of `getDatasetEntries` for one entry.
  unfoldable pub dataset_entry : Atom URL → DatasetFeed URL → Entry URL → FeedEntry
  unfolding service_url escape_quotes get_empty_rel_count download_link in_utc get_category
  dataset_entry atom dataset_feed entry =
      let empty_rel_count = get_empty_rel_count entry.download_links in
      record no_entry {
        id = service_url env atom (entry.technical_name +s ".xml");
        title = elim entry.title [
          | none ↦ escape_quotes dataset_feed.title
          | some title ↦ escape_quotes title
        ];
        content = elim entry.content [ none ↦ "" | some content ↦ content ];
        rights = atom.spec.service.rights;
        updated = some (env.format_rfc3339 (in_utc entry.updated));
        polygon = env.to_polygon entry.polygon.bbox;
        link = map (download_link atom dataset_feed entry empty_rel_count) entry.download_links;
        category = get_category env entry.srs ∷ [];
      }

  unfoldable pub get_dataset_entries : Atom URL → DatasetFeed URL → List FeedEntry
  unfolding dataset_entry
  get_dataset_entries atom dataset_feed = map (dataset_entry atom dataset_feed) dataset_feed.entries
