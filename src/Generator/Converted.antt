-- ===== src/Generator/Converted.antt =====
-- The configuration of a resource that was converted to v3.
use atom_operator.Prelude.{false, ◌≡◌, ◌↔◌, refl, sym, subst, List, [], ◌∷◌, All, All-map}
use atom_operator.Prelude.Result.{ok, >>=-eq-ok, each, Returns, ok_injective}
use atom_operator.Api.Model.{OwnerInfo}
use atom_operator.Api.V3
use atom_operator.Api.V3.{MetadataLink, get_base_url}
use atom_operator.Api.V3.Validation.{is_nil}
use atom_operator.Api.V3.OwnerCheck.{templates_of}
use atom_operator.Api.V3.OwnerCheck.Laws.{HasUrl, HasUrls, HasAsked}
use atom_operator.Api.V2beta1.{AtomService, Dataset, Atom}
use atom_operator.Api.V2beta1.Context.{Conversions}
use atom_operator.Api.V2beta1.ToV3.{
  link_to_v3, download_to_v3, dataset_to_v3, to_v3, create_base_url,
}
use atom_operator.Generator.Links.{Env}
use atom_operator.Generator.Mapper.{map_atom_v3_to_atom_generator_config}
use atom_operator.Generator.Templates.{Renders}
use atom_operator.Generator.Safety.{map-Returns_iff}

-- The metadata URLs that a converted resource asks for.
abbrev pub HasAll : {URL : Type 0} → OwnerInfo URL → Type 0
HasAll o = HasUrl (λ u. u.csw) o × HasUrl (λ u. u.open_search) o × HasUrl (λ u. u.html) o

module _ {F URL : Type 0} (cv : Conversions F URL) where
  -- Every feed asks for these.
  AsksTwo : V3.DatasetFeed URL → Type 0
  AsksTwo f = templates_of f.dataset_metadata_links ≡ "csw" ∷ "html" ∷ []

  dataset-AsksTwo :
      (service : AtomService F) (d : Dataset F) (f : V3.DatasetFeed URL)
      → dataset_to_v3 cv service d ≡ ok f
      → AsksTwo f
  unfolding dataset_to_v3 AsksTwo
  dataset-AsksTwo service d f h =
      let (ls, _, h₁) = >>=-eq-ok (each (link_to_v3 cv) d.links) _ h in
      let (es, _, h₂) =
        >>=-eq-ok (each (download_to_v3 cv service.updated d.bbox) d.downloads) _ h₁ in
      subst AsksTwo (ok_injective h₂) refl

  datasets-AsksTwo :
      (service : AtomService F) (ds : List (Dataset F)) (fs : List (V3.DatasetFeed URL))
      → each (dataset_to_v3 cv service) ds ≡ ok fs
      → All AsksTwo fs
  unfolding each
  datasets-AsksTwo service [] fs h = subst (All AsksTwo) (ok_injective h) tt
  datasets-AsksTwo service (d ∷ ds) fs h =
      let (f, e, h₁) = >>=-eq-ok (dataset_to_v3 cv service d) _ h in
      let (rest, e', h₂) = >>=-eq-ok (each (dataset_to_v3 cv service) ds) _ h₁ in
      subst (All AsksTwo) (ok_injective h₂)
        (dataset-AsksTwo service d f e, datasets-AsksTwo service ds rest e')

  to_v3-templates :
      (a : Atom F) (dst v : V3.Atom URL)
      → to_v3 cv a dst ≡ ok v
      → (templates_of v.spec.service.service_metadata_links ≡ "csw" ∷ "opensearch" ∷ "html" ∷ [])
        × All AsksTwo v.spec.service.dataset_feeds
  unfolding to_v3
  to_v3-templates a dst v h =
      let service = a.spec.service in
      let (url, _, h₁) =
        >>=-eq-ok (create_base_url cv (get_base_url cv.globals) a.spec.general) _ h in
      let (fs, e, h₂) = >>=-eq-ok (each (dataset_to_v3 cv service) service.datasets) _ h₁ in
      subst
        (λ (w : V3.Atom URL).
          (templates_of w.spec.service.service_metadata_links ≡ "csw" ∷ "opensearch" ∷ "html" ∷ [])
          × All AsksTwo w.spec.service.dataset_feeds)
        (ok_injective h₂) (refl, datasets-AsksTwo service service.datasets fs e)

  converted-HasUrls_iff :
      (a : Atom F) (dst v : V3.Atom URL) (o : OwnerInfo URL)
      → to_v3 cv a dst ≡ ok v
      → HasAsked v o ↔ HasAll o
  unfolding AsksTwo
  converted-HasUrls_iff a dst v o h =
      let (service, feeds) = to_v3-templates a dst v h in
      (
        λ urls.
            let mine = subst (λ ts. HasUrls ts o) service urls.service in
            (mine.csw refl, mine.open_search refl, mine.html refl),
        λ (csw, open_search, html). record {
          service =
              subst (λ ts. HasUrls ts o) (sym service)
                (record { csw = λ _. csw; html = λ _. html; open_search = λ _. open_search });
          feeds =
              All-map
                (λ f asks.
                  subst (λ ts. HasUrls ts o) (sym asks)
                    (record { csw = λ _. csw; html = λ _. html; open_search = λ e. cc }))
                v.spec.service.dataset_feeds feeds;
        },
      )

  -- For a resource that was converted to v3, where the templates of an OwnerInfo render: the mapper
  -- makes a configuration exactly if the OwnerInfo has Atom information and all three metadata
  -- URLs, whatever datasets the resource has.
  pub converted-Returns_iff :
      (env : Env URL) (a : Atom F) (dst v : V3.Atom URL) (o : OwnerInfo URL)
      → to_v3 cv a dst ≡ ok v
      → Renders env o
      → Returns (map_atom_v3_to_atom_generator_config env v o)
        ↔ ((is_nil o.atom ≡ false) × HasAll o)
  converted-Returns_iff env a dst v o h renders =
      let (from, to) = map-Returns_iff env o v renders in
      let (urls, all) = converted-HasUrls_iff a dst v o h in
      (λ r. let (there, has) = from r in (there, urls has), λ (there, has). to (there, all has))
