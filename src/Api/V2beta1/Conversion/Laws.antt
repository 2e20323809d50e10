-- ===== src/Api/V2beta1/Conversion/Laws.antt =====
-- When a conversion returns, and what a conversion to v3 and back keeps.
use atom_operator.Prelude.{
  String, ◌≡◌, ◌≢◌, ◌↔◌, refl, ap, sym, ◌∙◌, subst, Option, none, some, List, [], ◌∷◌, All, All-map,
  Forall₂, Forall₂-map,
}
use atom_operator.Prelude.Result.{
  ok, deref, each, >>=-eq-ok, Returns, Returns-bind, each-Returns, each_inverse, each-Forall₂,
  ok_injective,
}
use atom_operator.Api.V3
use atom_operator.Api.V3.{get_base_url}
use atom_operator.Api.V2beta1.{AtomService, Dataset, Atom}
use atom_operator.Api.V2beta1.Context.{Conversions}
use atom_operator.Api.V2beta1.ToV3.{
  link_to_v3, download_to_v3, dataset_to_v3, to_v3, create_base_url,
}
use atom_operator.Api.V2beta1.FromV3.{dataset_from_v3, convert_from}

deref_iff {ℓ} : {A : Type ℓ} (o : Option A) → Returns (deref o) ↔ (o ≢ none)
deref_iff none = (λ (a, h). absurd (cc h), λ h. absurd (h refl))
deref_iff (some a) = (λ h k. cc, λ h. (a, refl))

ne_none {ℓ} : {A : Type ℓ} {o : Option A} {a : A} → o ≡ some a → o ≢ none
ne_none h k = cc

module _ {F URL : Type 0} (cv : Conversions F URL) where
  dataset-Returns_iff :
      (f : V3.DatasetFeed URL) → Returns (dataset_from_v3 cv f) ↔ (f.dataset_metadata_links ≢ none)
  unfolding dataset_from_v3
  dataset-Returns_iff f = (
    λ (d, h).
        let (m, e, _) = >>=-eq-ok (deref f.dataset_metadata_links) _ h in
        (deref_iff f.dataset_metadata_links).0 (m, e),
    λ h. Returns-bind _ _ ((deref_iff f.dataset_metadata_links).1 h) (λ m _. (_, refl)),
  )

  -- The conversion from v3 returns exactly when the service and every dataset feed have metadata
  -- links: they may be left out in v3, and a nil pointer is dereferenced then.
  pub convert_from-Returns_iff :
      (src : V3.Atom URL) (a : Atom F)
      → Returns (convert_from cv src a) ↔ (
          (src.spec.service.service_metadata_links ≢ none)
          × All (λ f. f.dataset_metadata_links ≢ none) src.spec.service.dataset_feeds)
  unfolding convert_from
  convert_from-Returns_iff src a =
      let links = src.spec.service.service_metadata_links in
      let feeds = src.spec.service.dataset_feeds in
      (
        λ (b, h).
            let (m, e, h₁) = >>=-eq-ok (deref links) _ h in
            let (ds, e', _) = >>=-eq-ok (each (dataset_from_v3 cv) feeds) _ h₁ in
            (
              (deref_iff links).0 (m, e),
              All-map (λ f. (dataset-Returns_iff f).0) feeds (each_inverse _ feeds (ds, e')),
            ),
        λ (h, hs). Returns-bind _ _ ((deref_iff links).1 h) λ m _.
            Returns-bind _ _
              (each-Returns (dataset_from_v3 cv) feeds
                (All-map (λ f. (dataset-Returns_iff f).1) feeds hs))
              (λ ds _. (_, refl)),
      )

  -- A v3 feed that a dataset became.
  record IsFeedOf (d : Dataset F) (f : V3.DatasetFeed URL) : Type 0 where
    name : f.technical_name ≡ d.name
    title : f.title ≡ d.title
    subtitle : f.subtitle ≡ d.subtitle
    code : f.spatial_dataset_identifier_code ≡ some d.source_identifier
    templates : List String
    metadata :
        f.dataset_metadata_links
        ≡ some (record { metadata_identifier = d.metadata_identifier; templates = templates })

  dataset_to_v3-IsFeedOf :
      (service : AtomService F) (d : Dataset F) (f : V3.DatasetFeed URL)
      → dataset_to_v3 cv service d ≡ ok f
      → IsFeedOf d f
  unfolding dataset_to_v3
  dataset_to_v3-IsFeedOf service d f h =
      let (ls, _, h₁) = >>=-eq-ok (each (link_to_v3 cv) d.links) _ h in
      let (es, _, h₂) =
        >>=-eq-ok (each (download_to_v3 cv service.updated d.bbox) d.downloads) _ h₁ in
      subst (IsFeedOf d) (ok_injective h₂) (record {
        name = refl;
        title = refl;
        subtitle = refl;
        code = refl;
        templates = _;
        metadata = refl;
      })

  -- What of a dataset comes back.
  pub record IsKept (d d' : Dataset F) : Type 0 where
    pub name : d'.name ≡ d.name
    pub title : d'.title ≡ d.title
    pub subtitle : d'.subtitle ≡ d.subtitle
    pub source_identifier : d'.source_identifier ≡ d.source_identifier
    pub metadata_identifier : d'.metadata_identifier ≡ d.metadata_identifier

  dataset-IsKept :
      (d : Dataset F) (f : V3.DatasetFeed URL)
      → IsFeedOf d f
      → (d' : Dataset F) × (dataset_from_v3 cv f ≡ ok d') × IsKept d d'
  unfolding dataset_from_v3
  dataset-IsKept d f p =
      let (d', e) = (dataset-Returns_iff f).1 (ne_none p.metadata) in
      let (m, there, made) = >>=-eq-ok (deref f.dataset_metadata_links) _ e in
      (
        d',
        e,
        subst (IsKept d) (ok_injective made) (record {
          name = p.name;
          title = p.title;
          subtitle = p.subtitle;
          source_identifier = rw p.code;
          metadata_identifier =
              ap (λ x. x.metadata_identifier) (ok_injective (sym there ∙ ap deref p.metadata));
        }),
      )

  datasets-IsKept :
      {ds : List (Dataset F)} {fs : List (V3.DatasetFeed URL)}
      → Forall₂ IsFeedOf ds fs
      → (ds' : List (Dataset F)) × (each (dataset_from_v3 cv) fs ≡ ok ds') × Forall₂ IsKept ds ds'
  unfolding each
  datasets-IsKept Forall₂.nil = ([], refl, Forall₂.nil)
  datasets-IsKept (Forall₂.cons {a = d} {b = f} r rs) =
      let (d', e, k) = dataset-IsKept d f r in
      let (ds', es, ks) = datasets-IsKept rs in (d' ∷ ds', rw (e, es), Forall₂.cons k ks)

  -- What of a resource comes back.
  pub record IsBack (a b : Atom F) : Type 0 where
    pub meta : b.meta ≡ a.meta
    pub title : b.spec.service.title ≡ a.spec.service.title
    pub subtitle : b.spec.service.subtitle ≡ a.spec.service.subtitle
    pub rights : b.spec.service.rights ≡ a.spec.service.rights
    pub metadata_identifier :
        b.spec.service.metadata_identifier ≡ a.spec.service.metadata_identifier
    pub datasets : Forall₂ IsKept a.spec.service.datasets b.spec.service.datasets

  -- A v3 resource that a resource became.
  record IsV3Of (a : Atom F) (v : V3.Atom URL) : Type 0 where
    meta : v.meta ≡ a.meta
    title : v.spec.service.title ≡ a.spec.service.title
    subtitle : v.spec.service.subtitle ≡ a.spec.service.subtitle
    rights : v.spec.service.rights ≡ a.spec.service.rights
    templates : List String
    metadata :
        v.spec.service.service_metadata_links
        ≡ some (record {
          metadata_identifier = a.spec.service.metadata_identifier;
          templates = templates;
        })
    feeds : Forall₂ IsFeedOf a.spec.service.datasets v.spec.service.dataset_feeds

  to_v3-IsV3Of : (a : Atom F) (dst v : V3.Atom URL) → to_v3 cv a dst ≡ ok v → IsV3Of a v
  unfolding to_v3
  to_v3-IsV3Of a dst v h =
      let (url, _, h₁) =
        >>=-eq-ok (create_base_url cv (get_base_url cv.globals) a.spec.general) _ h in
      let datasets = a.spec.service.datasets in
      let (fs, e, h₂) = >>=-eq-ok (each (dataset_to_v3 cv a.spec.service) datasets) _ h₁ in
      subst (IsV3Of a) (ok_injective h₂) (record {
        meta = refl;
        title = refl;
        subtitle = refl;
        rights = refl;
        templates = _;
        metadata = refl;
        feeds = Forall₂-map (dataset_to_v3-IsFeedOf a.spec.service) (each-Forall₂ _ datasets e);
      })

  convert-IsBack :
      (a c : Atom F) (v : V3.Atom URL)
      → IsV3Of a v
      → (b : Atom F) × (convert_from cv v c ≡ ok b) × IsBack a b
  unfolding convert_from
  convert-IsBack a c v p =
      let links = v.spec.service.service_metadata_links in
      let feeds = v.spec.service.dataset_feeds in
      let (ds', es, kept) = datasets-IsKept p.feeds in
      let all : Returns (convert_from cv v c) =
        Returns-bind (deref links) _ ((deref_iff links).1 (ne_none p.metadata))
          (λ m _. Returns-bind (each (dataset_from_v3 cv) feeds) _ (ds', es) (λ ds _. (_, refl))) in
      let (b, e) = all in
      let (m, there, h₁) = >>=-eq-ok (deref links) _ e in
      let (ds, es', made) = >>=-eq-ok (each (dataset_from_v3 cv) feeds) _ h₁ in
      (
        b,
        e,
        subst (IsBack a) (ok_injective made) (record {
          meta = p.meta;
          title = p.title;
          subtitle = p.subtitle;
          rights = p.rights;
          metadata_identifier =
              ap (λ x. x.metadata_identifier) (ok_injective (sym there ∙ ap deref p.metadata));
          datasets =
              subst (Forall₂ IsKept a.spec.service.datasets) (ok_injective (sym es ∙ es')) kept;
        }),
      )

  -- A resource that was converted to v3 can be converted back, with no nil pointer, whatever the
  -- objects written to hold; its metadata, the texts and the identifier of its service, and the
  -- names, texts and identifiers of its datasets, in their order, come back.
  pub to_v3-IsBack :
      (a c : Atom F) (dst v : V3.Atom URL)
      → to_v3 cv a dst ≡ ok v
      → (b : Atom F) × (convert_from cv v c ≡ ok b) × IsBack a b
  to_v3-IsBack a c dst v h = convert-IsBack a c v (to_v3-IsV3Of a dst v h)
