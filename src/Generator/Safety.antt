-- ===== src/Generator/Safety.antt =====
-- When the mapper returns a configuration: exactly for the OwnerInfos that the admission check
-- accepts, if the templates of the OwnerInfo can be rendered.
use atom_operator.Prelude.{
  String, Bool, true, false, ◌≡◌, ◌↔◌, refl, Option, none, some, List, [], ◌∷◌, All-map,
}
use atom_operator.Prelude.Result.{
  >>=-eq-ok, Returns, Returns-bind, each, each-Returns, each_inverse,
}
use atom_operator.Api.Model.{OwnerInfo, OwnerAtom}
use atom_operator.Api.V3.{Atom, MetadataLink, DatasetFeed}
use atom_operator.Api.V3.Validation.{is_nil}
use atom_operator.Api.V3.OwnerCheck.{templates_of}
use atom_operator.Api.V3.OwnerCheck.Laws.{HasUrls, FeedHasUrls, HasAsked}
use atom_operator.Generator.Feeds.{Link}
use atom_operator.Generator.Links.{
  Env, add_optional_metadata_links, get_self_link, get_dataset_links,
}
use atom_operator.Generator.Entries.{service_entry, get_service_entries}
use atom_operator.Generator.Mapper.{
  dataset_feed_of, map_with_owner, map_with, map_atom_v3_to_atom_generator_config,
}
use atom_operator.Generator.Templates.{Renders, add_templates-Returns, add_templates_inverse}

module _ {URL : Type 0} (env : Env URL) (o : OwnerInfo URL) where
  optional-Returns :
      Renders env o
      → (m : Option MetadataLink) (links : List Link) (title : String) (only_csw : Bool)
      → HasUrls (templates_of m) o
      → Returns (add_optional_metadata_links env m o links title only_csw)
  unfolding add_optional_metadata_links
  optional-Returns r none links title only_csw h = (links, refl)
  optional-Returns r (some m) links title only_csw h =
      add_templates-Returns env o r m title only_csw m.templates links h

  optional_inverse :
      (m : Option MetadataLink) (links : List Link) (title : String)
      → Returns (add_optional_metadata_links env m o links title false)
      → HasUrls (templates_of m) o
  unfolding add_optional_metadata_links
  optional_inverse none links title h = record {
    csw = λ e. cc;
    html = λ e. cc;
    open_search = λ e. cc;
  }
  optional_inverse (some m) links title h = add_templates_inverse env o m title m.templates links h

  module _ (atom : Atom URL) (owner : OwnerAtom URL) where
    service_entry-Returns :
        Renders env o
        → (f : DatasetFeed URL) → FeedHasUrls o f
        → Returns (service_entry env atom o f)
    unfolding service_entry
    service_entry-Returns r f h =
        Returns-bind _ _ (optional-Returns r f.dataset_metadata_links [] "" true h)
          (λ ls _. (_, refl))

    dataset_links-Returns :
        Renders env o
        → (f : DatasetFeed URL) → FeedHasUrls o f
        → Returns (get_dataset_links env atom o f)
    unfolding get_dataset_links
    dataset_links-Returns r f h =
        Returns-bind _ _ (optional-Returns r f.dataset_metadata_links _ _ false h)
          (λ ls _. (_, refl))

    dataset_feed-Returns :
        Renders env o
        → (f : DatasetFeed URL) → FeedHasUrls o f
        → Returns (dataset_feed_of env atom o owner f)
    unfolding dataset_feed_of
    dataset_feed-Returns r f h = Returns-bind _ _ (dataset_links-Returns r f h) (λ ls _. (_, refl))

    dataset_feed_inverse :
        (f : DatasetFeed URL) → Returns (dataset_feed_of env atom o owner f) → FeedHasUrls o f
    unfolding dataset_feed_of get_dataset_links
    dataset_feed_inverse f (feed, h) =
        let (ls, e, _) = >>=-eq-ok (get_dataset_links env atom o f) _ h in
        let (ls', e', _) =
          >>=-eq-ok (add_optional_metadata_links env f.dataset_metadata_links o _ _ false) _ e in
        optional_inverse f.dataset_metadata_links _ _ (ls', e')

    map_with_owner-Returns :
        Renders env o → HasAsked atom o → Returns (map_with_owner env atom o owner)
    unfolding map_with_owner get_service_entries
    map_with_owner-Returns r h =
        let feeds = atom.spec.service.dataset_feeds in
        Returns-bind _ _
          (optional-Returns r atom.spec.service.service_metadata_links _ _ false h.service)
          λ links _.
            Returns-bind _ _
              (each-Returns (service_entry env atom o) feeds
                (All-map (service_entry-Returns r) feeds h.feeds))
              λ entries _.
                Returns-bind _ _
                  (each-Returns (dataset_feed_of env atom o owner) feeds
                    (All-map (dataset_feed-Returns r) feeds h.feeds))
                  (λ fs _. (_, refl))

    map_with_owner_inverse : Returns (map_with_owner env atom o owner) → HasAsked atom o
    unfolding map_with_owner
    map_with_owner_inverse (config, h) =
        let feeds = atom.spec.service.dataset_feeds in
        let (links, e, h₁) =
          >>=-eq-ok
            (add_optional_metadata_links env atom.spec.service.service_metadata_links o
              (get_self_link env atom ∷ []) "NGR pagina voor deze download service" false)
            _ h in
        let (entries, _, h₂) = >>=-eq-ok (get_service_entries env atom o) _ h₁ in
        let (fs, e', _) = >>=-eq-ok (each (dataset_feed_of env atom o owner) feeds) _ h₂ in
        record {
          service = optional_inverse atom.spec.service.service_metadata_links _ _ (links, e);
          feeds = All-map dataset_feed_inverse feeds (each_inverse _ feeds (fs, e'));
        }

  map_with-Returns_iff :
      (atom : Atom URL)
      → Renders env o
      → (a : Option (OwnerAtom URL))
      → Returns (map_with env atom o a) ↔ ((is_nil a ≡ false) × HasAsked atom o)
  unfolding map_with
  map_with-Returns_iff atom r none = (λ (c, h). absurd (cc), λ (h, _). absurd (cc))
  map_with-Returns_iff atom r (some owner) = (
    λ h. (refl, map_with_owner_inverse atom owner h),
    λ (_, h). map_with_owner-Returns atom owner r h,
  )

  -- Where the OwnerInfo's templates can be rendered, the mapper returns a configuration exactly for
  -- the OwnerInfos that have Atom information and each metadata URL that a template of the service
  -- or of a dataset asks for: no error, and no nil pointer.
  pub map-Returns_iff :
      (atom : Atom URL)
      → Renders env o
      → Returns (map_atom_v3_to_atom_generator_config env atom o)
        ↔ ((is_nil o.atom ≡ false) × HasAsked atom o)
  unfolding map_atom_v3_to_atom_generator_config
  map-Returns_iff atom r = map_with-Returns_iff atom r o.atom
