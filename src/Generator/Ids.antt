-- ===== src/Generator/Ids.antt =====
-- The feeds of a configuration point to one another by their identifiers.
use atom_operator.Prelude.{
  String, ◌≡◌, refl, sym, ap, ◌∙◌, subst, Bool, true, false, Option, none, some, List, [], ◌∷◌,
  ◌++◌, map, append_assoc, append-nil, Forall₂, Forall₂-map, length, length-map, str_eq,
  if_and-false,
}
use atom_operator.Prelude.Result.{Result, ok, >>=-eq-ok, each, each-Forall₂, ok_injective}
use atom_operator.Text.{◌+s◌}
use atom_operator.Api.Model.{OwnerInfo, OwnerAtom}
use atom_operator.Api.V3.{Atom, DatasetFeed, MetadataLink}
use atom_operator.Generator.Feeds.{Link, Feed, FeedEntry, Feeds}
use atom_operator.Generator.Links.{
  Env, service_url, append_if, add_others, add_templates, add_optional_metadata_links,
  get_self_link, csw_link, open_search_link, html_link, get_dataset_links, additional_link,
}
use atom_operator.Generator.Entries.{service_entry, get_service_entries, get_dataset_entries}
use atom_operator.Generator.Mapper.{
  service_feed, dataset_feed_of, map_with_owner, map_with, map_atom_v3_to_atom_generator_config,
}

-- `out` has the links of `links` first.
abbrev Extends : List Link → List Link → Type 0
Extends links out = (more : List Link) × (out ≡ links ++ more)

Extends-trans : (xs ys zs : List Link) → Extends xs ys → Extends ys zs → Extends xs zs
Extends-trans xs ys zs (more, e) (rest, f) =
    (more ++ rest, f ∙ ap (λ l. l ++ rest) e ∙ append_assoc xs more rest)

append_if-Extends :
    (b : Bool) (link : Result Link) (links : List Link) {out : List Link}
    → append_if b link links ≡ ok out
    → Extends links out
unfolding append_if
append_if-Extends false link links h = ([], sym (ok_injective h) ∙ sym (append-nil links))
append_if-Extends true link links h =
    let (l, _, e) = >>=-eq-ok link _ h in (l ∷ [], sym (ok_injective e))

module _ {URL : Type 0} (env : Env URL) (o : OwnerInfo URL) where
  add_others-Extends :
      (m : MetadataLink) (title t : String) (links : List Link) {out : List Link}
      → add_others env m o title t links ≡ ok out
      → Extends links out
  unfolding add_others
  add_others-Extends m title t links h =
      let (ls, e, h') =
        >>=-eq-ok (append_if (str_eq t "opensearch") (open_search_link env m o) links)
          (append_if (str_eq t "html") (html_link env title m o)) h in
      Extends-trans _ _ _ (append_if-Extends _ _ links e) (append_if-Extends _ _ ls h')

  add_templates-Extends :
      (m : MetadataLink) (title : String) (ts : List String) (links : List Link) {out : List Link}
      → add_templates env m o title false ts links ≡ ok out
      → Extends links out
  unfolding add_templates
  add_templates-Extends m title [] links h = ([], sym (ok_injective h) ∙ sym (append-nil links))
  add_templates-Extends m title (t ∷ ts) links h =
      let (ls, e, h₁) = >>=-eq-ok (append_if (str_eq t "csw") (csw_link env m o) links) _ h in
      let (ls', e', h₂) =
        >>=-eq-ok (add_others env m o title t ls) (add_templates env m o title false ts)
          (sym (if_and-false (str_eq t "csw") _ _) ∙ h₁) in
      Extends-trans _ _ _ (append_if-Extends _ _ links e) (
        Extends-trans _ _ _ (add_others-Extends m title t ls e')
          (add_templates-Extends m title ts ls' h₂))

  optional-Extends :
      (m : Option MetadataLink) (links : List Link) (title : String) {out : List Link}
      → add_optional_metadata_links env m o links title false ≡ ok out
      → Extends links out
  unfolding add_optional_metadata_links
  optional-Extends none links title h = ([], sym (ok_injective h) ∙ sym (append-nil links))
  optional-Extends (some m) links title h = add_templates-Extends m title m.templates links h

  module _ (atom : Atom URL) where
    abbrev feed_url : DatasetFeed URL → String
    feed_url f = service_url env atom (f.technical_name +s ".xml")

    -- The entry of the service feed for a dataset: named by the URL of the dataset's feed, to which
    -- its last link is the alternate.
    pub record IsEntryOf (f : DatasetFeed URL) (e : FeedEntry) : Type 0 where
      pub named : e.id ≡ feed_url f
      pub metadata : List Link
      pub alternate : Link
      pub linked : e.link ≡ metadata ++ alternate ∷ []
      pub relation : alternate.rel ≡ "alternate"
      pub target : alternate.href ≡ feed_url f

    -- The feed of a dataset: named by its URL, which is its self link; its up link is the index.
    pub record IsFeedOf (f : DatasetFeed URL) (d : Feed) : Type 0 where
      pub named : d.id ≡ feed_url f
      pub self : Link
      pub up : Link
      pub others : List Link
      pub linked : d.link ≡ self ∷ up ∷ others
      pub self_target : (self.rel ≡ "self") × (self.href ≡ feed_url f)
      pub up_target : (up.rel ≡ "up") × (up.href ≡ service_url env atom "index.xml")
      pub entries : length d.entry ≡ length f.entries

    service_entry-IsEntryOf :
        (f : DatasetFeed URL) (e : FeedEntry) → service_entry env atom o f ≡ ok e → IsEntryOf f e
    unfolding service_entry
    service_entry-IsEntryOf f e h =
        let (ls, _, k) =
          >>=-eq-ok (add_optional_metadata_links env f.dataset_metadata_links o [] "" true) _ h in
        subst (IsEntryOf f) (ok_injective k) (record {
          named = refl;
          metadata = ls;
          alternate = _;
          linked = refl;
          relation = refl;
          target = refl;
        })

    dataset_feed-IsFeedOf :
        (owner : OwnerAtom URL) (f : DatasetFeed URL) (d : Feed)
        → dataset_feed_of env atom o owner f ≡ ok d
        → IsFeedOf f d
    unfolding dataset_feed_of get_dataset_links get_dataset_entries
    dataset_feed-IsFeedOf owner f d h =
        let (links, e, k) = >>=-eq-ok (get_dataset_links env atom o f) _ h in
        let (ls, e', k') =
          >>=-eq-ok (add_optional_metadata_links env f.dataset_metadata_links o _ _ false) _ e in
        let (more, shape) = optional-Extends f.dataset_metadata_links _ _ e' in
        subst (IsFeedOf f) (ok_injective k) (record {
          named = refl;
          self = _;
          up = _;
          others = more ++ map (additional_link env) f.links;
          linked = sym (ok_injective k') ∙ ap (λ l. l ++ map (additional_link env) f.links) shape;
          self_target = (refl, refl);
          up_target = (refl, refl);
          entries = length-map f.entries _;
        })

    -- A configuration: the service feed, which has one entry for each dataset, and then one feed for
    -- each dataset, all in the resource's order.
    pub record IsConsistent (config : Feeds) : Type 0 where
      pub service : Feed
      pub datasets : List Feed
      pub all_feeds : config.feeds ≡ service ∷ datasets
      pub named : service.id ≡ service_url env atom "index.xml"
      pub service_entries : Forall₂ IsEntryOf atom.spec.service.dataset_feeds service.entry
      pub dataset_feeds : Forall₂ IsFeedOf atom.spec.service.dataset_feeds datasets

    map_with_owner-IsConsistent :
        (owner : OwnerAtom URL) (config : Feeds)
        → map_with_owner env atom o owner ≡ ok config
        → IsConsistent config
    unfolding map_with_owner get_service_entries service_feed
    map_with_owner-IsConsistent owner config h =
        let feeds = atom.spec.service.dataset_feeds in
        let (links, _, h₁) =
          >>=-eq-ok
            (add_optional_metadata_links env atom.spec.service.service_metadata_links o
              (get_self_link env atom ∷ []) "NGR pagina voor deze download service" false)
            _ h in
        let (entries, e, h₂) = >>=-eq-ok (each (service_entry env atom o) feeds) _ h₁ in
        let (fs, e', h₃) = >>=-eq-ok (each (dataset_feed_of env atom o owner) feeds) _ h₂ in
        subst IsConsistent (ok_injective h₃) (record {
          service = service_feed env atom owner links entries;
          datasets = fs;
          all_feeds = refl;
          named = refl;
          service_entries = Forall₂-map service_entry-IsEntryOf (each-Forall₂ _ feeds e);
          dataset_feeds = Forall₂-map (dataset_feed-IsFeedOf owner) (each-Forall₂ _ feeds e');
        })

    map_with-IsConsistent :
        (a : Option (OwnerAtom URL)) (config : Feeds)
        → map_with env atom o a ≡ ok config
        → IsConsistent config
    unfolding map_with
    map_with-IsConsistent none config h = absurd (cc)
    map_with-IsConsistent (some owner) config h = map_with_owner-IsConsistent owner config h

    -- In a configuration that the mapper returns, the first feed is the service's, named by the URL
    -- of the index; its entries and the other feeds stand for the dataset feeds one to one and in
    -- their order; an entry and its last, alternate link name the URL that names the dataset's feed
    -- and its self link; each dataset's feed has an up link to the index and an entry for each entry.
    pub map-IsConsistent :
        (config : Feeds)
        → map_atom_v3_to_atom_generator_config env atom o ≡ ok config
        → IsConsistent config
    unfolding map_atom_v3_to_atom_generator_config
    map-IsConsistent config h = map_with-IsConsistent o.atom config h
