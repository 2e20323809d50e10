-- ===== src/Generator/Mapper.antt =====
-- `MapAtomV3ToAtomGeneratorConfig` of mapper.go.
use atom_operator.Prelude.{String, Option, none, some, List, [], ◌∷◌, false}
use atom_operator.Prelude.Result.{Result, ok, err, errorf, each, ◌>>=◌}
use atom_operator.Text.{◌+s◌}
use atom_operator.Api.Model.{OwnerAtom, OwnerInfo}
use atom_operator.Api.V3.{Atom, DatasetFeed}
use atom_operator.Generator.Feeds.{Link, FeedEntry, Feed, Feeds}
use atom_operator.Generator.Links.{
  Env, escape_quotes, get_author, service_url, get_self_link, add_optional_metadata_links,
  get_dataset_links,
}
use atom_operator.Generator.Entries.{get_service_entries, get_dataset_entries}

module _ {URL : Type 0} (env : Env URL) where
  or_default : Option URL → Option URL → Option URL
  or_default none default_stylesheet = default_stylesheet
  or_default (some stylesheet) default_stylesheet = some stylesheet

  -- `xmlStylesheet`
  unfoldable pub stylesheet_text : Atom URL → OwnerAtom URL → Option String
  unfolding or_default
  stylesheet_text atom owner =
      elim (or_default atom.spec.service.stylesheet owner.default_stylesheet) [
        | none ↦ none
        | some stylesheet ↦ some (env.urls.string stylesheet)
      ]

  unfoldable pub service_feed : Atom URL → OwnerAtom URL → List Link → List FeedEntry → Feed
  unfolding stylesheet_text service_url escape_quotes get_author
  service_feed atom owner links entries = record {
    xml_stylesheet = stylesheet_text atom owner;
    xmlns = "http://www.w3.org/2005/Atom";
    georss = "http://www.georss.org/georss";
    inspire_dls = "http://inspire.ec.europa.eu/schemas/inspire_dls/1.0";
    lang = some atom.spec.service.lang;
    id = service_url env atom "index.xml";
    title = escape_quotes atom.spec.service.title;
    subtitle = escape_quotes atom.spec.service.subtitle;
    link = links;
    rights = atom.spec.service.rights;
    author = get_author owner.author;
    entry = entries;
  }

  -- The round of the loop over the dataset feeds.
  unfoldable pub dataset_feed_of :
      Atom URL → OwnerInfo URL → OwnerAtom URL → DatasetFeed URL → Result Feed
  unfolding get_dataset_links stylesheet_text service_url escape_quotes get_author
      get_dataset_entries
  dataset_feed_of atom owner_info owner dataset_feed = do
    links ← get_dataset_links env atom owner_info dataset_feed
    ok (record {
      xml_stylesheet = stylesheet_text atom owner;
      xmlns = "";
      georss = "";
      inspire_dls = "";
      lang = some atom.spec.service.lang;
      id = service_url env atom (dataset_feed.technical_name +s ".xml");
      title = escape_quotes dataset_feed.title;
      subtitle = escape_quotes dataset_feed.subtitle;
      link = links;
      rights = atom.spec.service.rights;
      author = get_author dataset_feed.author;
      entry = get_dataset_entries env atom dataset_feed;
    })

  unfoldable pub map_with_owner : Atom URL → OwnerInfo URL → OwnerAtom URL → Result Feeds
  unfolding get_self_link add_optional_metadata_links get_service_entries service_feed each
      dataset_feed_of
  map_with_owner atom owner_info owner = do
    links ←
        add_optional_metadata_links env atom.spec.service.service_metadata_links owner_info
          (get_self_link env atom ∷ []) "NGR pagina voor deze download service" false
    entries ← get_service_entries env atom owner_info
    dataset_feeds ← each (dataset_feed_of atom owner_info owner) atom.spec.service.dataset_feeds
    ok (record { feeds = service_feed atom owner links entries ∷ dataset_feeds })

  unfoldable pub map_with : Atom URL → OwnerInfo URL → Option (OwnerAtom URL) → Result Feeds
  unfolding map_with_owner
  map_with atom owner_info none = err (errorf "ownerInfo has no Atom information defined")
  map_with atom owner_info (some owner) = map_with_owner atom owner_info owner

  unfoldable pub map_atom_v3_to_atom_generator_config : Atom URL → OwnerInfo URL → Result Feeds
  unfolding map_with
  map_atom_v3_to_atom_generator_config atom owner_info = map_with atom owner_info owner_info.atom
