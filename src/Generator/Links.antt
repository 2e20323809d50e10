-- ===== src/Generator/Links.antt =====
-- The links of the feeds: mapper.go from `getSelfLink` to `getDatasetLinks`, and the small helpers.
use atom_operator.Prelude.{
  String, Bool, true, false, ◌&&◌, Option, none, some, List, [], ◌∷◌, ◌++◌, map, str_eq,
  if◌then◌else◌,
}
use atom_operator.Prelude.Result.{Result, ok, deref, ◌>>=◌}
use atom_operator.Text.{◌+s◌, replace_all}
use atom_operator.Api.Model.{
  UrlOps, StringMap, Time, Author, BBox, MetadataUrl, MetadataUrls, OwnerInfo,
}
use atom_operator.Api.V3
use atom_operator.Api.V3.{Atom, MetadataLink, DatasetFeed, Globals}
use atom_operator.Generator.Feeds.{Link, no_link, Category, FeedAuthor}

-- What the mapper calls of other modules: `net/url`, `mustache.Render`, the two texts of a
-- smooth-operator `BBox`, and `time.Time.Format(time.RFC3339)`; and the package variables of api/v3.
pub record Env (URL : Type 0) : Type 0 where
  pub urls : UrlOps URL
  pub render : String → StringMap → Result String
  pub to_polygon : BBox → String
  pub to_extent : BBox → String
  pub format_rfc3339 : Time → String
  pub globals : Globals

unfoldable pub escape_quotes : String → String
escape_quotes s = replace_all b'"' "\\\"" s

unfoldable pub get_author : Author → FeedAuthor
get_author author = record { name = author.name; email = author.email }

-- `if template == name { …; *links = append(*links, link) }`
unfoldable pub append_if : Bool → Result Link → List Link → Result (List Link)
append_if false link links = ok links
append_if true link links = do l ← link; ok (links ++ l ∷ [])

module _ {URL : Type 0} (env : Env URL) where
  -- `atom.Spec.Service.BaseURL.JoinPath(file).String()`
  unfoldable pub service_url : Atom URL → String → String
  service_url atom file =
      env.urls.string (env.urls.join_path atom.spec.service.base_url (file ∷ []))

  unfoldable pub get_category : V3.Srs URL → Category
  get_category srs = record { term = env.urls.string srs.uri; label = srs.name }

  unfoldable pub get_self_link : Atom URL → Link
  unfolding service_url escape_quotes
  get_self_link atom = record no_link {
    rel = "self";
    href = service_url atom "index.xml";
    title = escape_quotes atom.spec.service.title;
    content_type = "application/atom+xml";
  }

  unfoldable pub replace_mustache_template : String → String → Result String
  replace_mustache_template href_template identifier =
      env.render href_template (("identifier", identifier) ∷ [])

  -- `ownerInfo.Spec.MetadataUrls.X.HrefTemplate`, and the link of the template.
  unfoldable pub metadata_href :
      (MetadataUrls → Option MetadataUrl) → MetadataLink → OwnerInfo URL → Result String
  unfolding replace_mustache_template
  metadata_href select metadata_links owner_info = do
    urls ← deref owner_info.metadata_urls
    url ← deref (select urls)
    replace_mustache_template url.href_template metadata_links.metadata_identifier

  unfoldable pub csw_link : MetadataLink → OwnerInfo URL → Result Link
  unfolding metadata_href
  csw_link metadata_links owner_info = do
    href ← metadata_href (λ u. u.csw) metadata_links owner_info
    ok (record no_link { rel = "describedby"; href = href; content_type = "application/xml" })

  unfoldable pub open_search_link : MetadataLink → OwnerInfo URL → Result Link
  unfolding metadata_href
  open_search_link metadata_links owner_info = do
    href ← metadata_href (λ u. u.open_search) metadata_links owner_info
    ok (record no_link {
      rel = "search";
      href = href;
      title = "Open Search document voor INSPIRE Download service PDOK";
      content_type = "application/opensearchdescription+xml";
    })

  unfoldable pub html_link : String → MetadataLink → OwnerInfo URL → Result Link
  unfolding metadata_href
  html_link html_title metadata_links owner_info = do
    href ← metadata_href (λ u. u.html) metadata_links owner_info
    ok (record no_link {
      rel = "describedby";
      href = href;
      title = html_title;
      content_type = "text/html";
    })

  -- The second and third test of a round.
  unfoldable pub add_others :
      MetadataLink → OwnerInfo URL → String → String → List Link → Result (List Link)
  unfolding append_if
  add_others m o html_title template links = do
    links ← append_if (str_eq template "opensearch") (open_search_link m o) links
    append_if (str_eq template "html") (html_link html_title m o) links

  -- The loop over the templates; with `only_csw` it returns behind the first "csw".
  unfoldable pub add_templates :
      MetadataLink → OwnerInfo URL → String → Bool → List String → List Link → Result (List Link)
  unfolding append_if add_others
  add_templates m o html_title only_csw [] links = ok links
  add_templates m o html_title only_csw (template ∷ templates) links = do
    links ← append_if (str_eq template "csw") (csw_link m o) links
    let rest = λ (ls : List Link). add_templates m o html_title only_csw templates ls
    if str_eq template "csw" && only_csw
        then ok links
        else do links ← add_others m o html_title template links; rest links

  -- `addMetadataLinks`; the links so far come in and the links with the new ones come out.
  unfoldable pub add_metadata_links :
      MetadataLink → OwnerInfo URL → List Link → String → Bool → Result (List Link)
  unfolding add_templates
  add_metadata_links metadata_links owner_info links html_title only_csw =
      add_templates metadata_links owner_info html_title only_csw metadata_links.templates links

  -- The call under `if … != nil`.
  unfoldable pub add_optional_metadata_links :
      Option MetadataLink → OwnerInfo URL → List Link → String → Bool → Result (List Link)
  unfolding add_metadata_links
  add_optional_metadata_links none owner_info links html_title only_csw = ok links
  add_optional_metadata_links (some m) owner_info links html_title only_csw =
      add_metadata_links m owner_info links html_title only_csw

  -- The round of `getDatasetLinks` for one additional link.
  unfoldable pub additional_link : V3.Link URL → Link
  unfolding escape_quotes
  additional_link link = record no_link {
    rel = link.rel;
    href = env.urls.string link.href;
    title = elim link.title [ none ↦ "" | some title ↦ escape_quotes title ];
    content_type = link.content_type;
    hreflang = link.hreflang;
  }

  unfoldable pub get_dataset_links : Atom URL → OwnerInfo URL → DatasetFeed URL → Result (List Link)
  unfolding service_url add_optional_metadata_links additional_link
  get_dataset_links atom owner_info dataset_feed = do
    let self_link = record no_link {
      rel = "self";
      href = service_url atom (dataset_feed.technical_name +s ".xml");
    }
    let up_link = record no_link {
      rel = "up";
      href = service_url atom "index.xml";
      title = "Top Atom Download Service Feed";
      content_type = "application/atom+xml";
    }
    links ←
        add_optional_metadata_links dataset_feed.dataset_metadata_links owner_info
          (self_link ∷ up_link ∷ []) "NGR pagina voor deze dataset" false
    ok (links ++ map additional_link dataset_feed.links)
