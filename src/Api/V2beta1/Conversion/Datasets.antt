-- ===== src/Api/V2beta1/Conversion/Datasets.antt =====
-- What of links, downloads and bounding boxes a conversion to v3 and back keeps.
use atom_operator.Prelude.{
  String, ◌≡◌, ◌⊎◌, inl, inr, refl, sym, ap, subst, Bool-cases, Option-cases, ◌∙◌, Option, none,
  some, List, [], ◌∷◌, map, Forall₂, Forall₂-map, str_eq, eq_iff,
}
use atom_operator.Prelude.Result.{ok, deref, each, >>=-eq-ok, each-Forall₂, ok_injective}
use atom_operator.Api.V3
use atom_operator.Api.V3.{get_base_url}
use atom_operator.Api.V2beta1.{AtomService, Bbox, Link, OtherLink, Download, Dataset, Atom}
use atom_operator.Api.V2beta1.Context.{Conversions, text_or_empty}
use atom_operator.Api.V2beta1.Conversion.Floats.{IsExact, float32_back}
use atom_operator.Api.V2beta1.ToV3.{
  bbox_to_v3, link_to_v3, download_link_to_v3, download_to_v3, dataset_to_v3, to_v3,
  create_base_url,
}
use atom_operator.Api.V2beta1.FromV3.{
  bbox_from_v3, first_bbox, link_from_v3, rel_from_v3, download_link_from_v3, download_from_v3,
  dataset_from_v3, convert_from,
}

Forall₂-compose {ℓ} :
    {A B C : Type ℓ} {R : A → B → Type ℓ} {S : B → C → Type ℓ} {xs : List A} {ys : List B}
    {zs : List C}
    → Forall₂ R xs ys
    → Forall₂ S ys zs
    → Forall₂ (λ x z. (y : B) × R x y × S y z) xs zs
Forall₂-compose Forall₂.nil Forall₂.nil = Forall₂.nil
Forall₂-compose (Forall₂.cons r rs) (Forall₂.cons s ss) =
    Forall₂.cons (_, r, s) (Forall₂-compose rs ss)

Forall₂-every {ℓ} :
    {A B : Type ℓ} {R : A → B → Type ℓ} (f : A → B)
    → ((x : A) → R x (f x))
    → (xs : List A) → Forall₂ R xs (map f xs)
Forall₂-every f h [] = Forall₂.nil
Forall₂-every f h (x ∷ xs) = Forall₂.cons (h x) (Forall₂-every f h xs)

Forall₂-map_right {ℓ} :
    {A B C : Type ℓ} {R : A → B → Type ℓ} {S : A → C → Type ℓ} (f : B → C)
    → ((x : A) (y : B) → R x y → S x (f y))
    → {xs : List A} {ys : List B} → Forall₂ R xs ys
    → Forall₂ S xs (map f ys)
Forall₂-map_right f h Forall₂.nil = Forall₂.nil
Forall₂-map_right f h (Forall₂.cons r rs) = Forall₂.cons (h _ _ r) (Forall₂-map_right f h rs)

-- A link of a download, and what came back: an empty relation and the version are dropped, and a
-- missing blob key is empty.
pub record IsLinkBack {F : Type 0} (l l' : Link F) : Type 0 where
  pub blob_key : l'.blob_key ≡ some (text_or_empty l.blob_key)
  pub updated : l'.updated ≡ l.updated
  pub bbox : l'.bbox ≡ l.bbox
  pub rel : (l'.rel ≡ l.rel) ⊎ ((l.rel ≡ some "") × (l'.rel ≡ none))

pub record IsDownloadBack {F : Type 0} (s s' : Download F) : Type 0 where
  pub name : s'.name ≡ s.name
  pub title : s'.title ≡ s.title
  pub content : s'.content ≡ s.content
  pub code : s'.srs.code ≡ s.srs.code
  pub links : Forall₂ IsLinkBack s.links s'.links

pub record IsOtherLinkBack (l l' : OtherLink) : Type 0 where
  pub link_type : l'.link_type ≡ l.link_type
  pub content_type : l'.content_type ≡ some (text_or_empty l.content_type)
  pub language : l'.language ≡ l.language

-- A dataset, and what came back; the bounding box of one with no downloads is lost.
pub record IsDatasetBack {F : Type 0} (d d' : Dataset F) : Type 0 where
  pub links : Forall₂ IsOtherLinkBack d.links d'.links
  pub downloads : Forall₂ IsDownloadBack d.downloads d'.downloads
  pub bbox : (d.downloads ≡ []) ⊎ (d'.bbox ≡ d.bbox)

module _ {F URL : Type 0} (cv : Conversions F URL) (exact : IsExact cv) where
  rel_back :
      (rel : Option String)
      → (rel_from_v3 cv rel ≡ rel) ⊎ ((rel ≡ some "") × (rel_from_v3 cv rel ≡ none))
  unfolding rel_from_v3
  rel_back none = inl refl
  rel_back (some rel) = elim (Bool-cases (str_eq rel "")) [
    | inl empty ↦ inr (ap some ((eq_iff rel "").0 empty), rw empty)
    | inr given ↦ inl (rw given)
  ]

  bbox_back : (b : Bbox F) → bbox_from_v3 cv (bbox_to_v3 cv b) ≡ b
  unfolding bbox_from_v3 bbox_to_v3
  bbox_back b = rw (
    float32_back cv exact b.min_x,
    float32_back cv exact b.max_x,
    float32_back cv exact b.min_y,
    float32_back cv exact b.max_y,
  )

  link_bbox_back :
      (l : Link F) → (download_link_from_v3 cv (download_link_to_v3 cv l)).bbox ≡ l.bbox
  unfolding download_link_from_v3 download_link_to_v3
  link_bbox_back l = elim (Option-cases l.bbox) [
    | inl e ↦ rw e
    | inr (b, e) ↦ rw e (ap some (bbox_back b))
  ]

  link_back : (l : Link F) → IsLinkBack l (download_link_from_v3 cv (download_link_to_v3 cv l))
  unfolding download_link_from_v3 download_link_to_v3
  link_back l = record {
    blob_key = refl;
    updated = refl;
    bbox = link_bbox_back l;
    rel = rel_back l.rel;
  }

  -- An entry that a download became.
  record IsEntryOf (bbox : Bbox F) (s : Download F) (e : V3.Entry URL) : Type 0 where
    name : e.technical_name ≡ s.name
    title : e.title ≡ s.title
    content : e.content ≡ s.content
    code : e.srs.name ≡ s.srs.code
    links : e.download_links ≡ map (download_link_to_v3 cv) s.links
    polygon : e.polygon.bbox ≡ bbox_to_v3 cv bbox

  download-IsEntryOf :
      (updated : Option String) (bbox : Bbox F) (s : Download F) (e : V3.Entry URL)
      → download_to_v3 cv updated bbox s ≡ ok e
      → IsEntryOf bbox s e
  unfolding download_to_v3
  download-IsEntryOf updated bbox s e h =
      let (uri, _, h₁) = >>=-eq-ok (cv.parse_url s.srs.uri) _ h in
      subst (IsEntryOf bbox s) (ok_injective h₁) (record {
        name = refl;
        title = refl;
        content = refl;
        code = refl;
        links = refl;
        polygon = refl;
      })

  download_back :
      (bbox : Bbox F) (s : Download F) (e : V3.Entry URL)
      → IsEntryOf bbox s e
      → IsDownloadBack s (download_from_v3 cv e)
  unfolding download_from_v3
  download_back bbox s e h = record {
    name = h.name;
    title = h.title;
    content = h.content;
    code = h.code;
    links = rw h.links (
        Forall₂-map_right (download_link_from_v3 cv)
          (λ l k same. subst (λ x. IsLinkBack l (download_link_from_v3 cv x)) same (link_back l))
          (Forall₂-every {R = λ l k. download_link_to_v3 cv l ≡ k} (download_link_to_v3 cv)
            (λ l. refl) s.links));
  }

  first_bbox_back :
      (bbox : Bbox F) {ss : List (Download F)} {es : List (V3.Entry URL)}
      → Forall₂ (IsEntryOf bbox) ss es
      → (ss ≡ []) ⊎ (first_bbox cv es ≡ bbox)
  unfolding first_bbox
  first_bbox_back bbox Forall₂.nil = inl refl
  first_bbox_back bbox (Forall₂.cons h hs) = inr (ap (bbox_from_v3 cv) h.polygon ∙ bbox_back bbox)

  other_link_back :
      (l : OtherLink) (k : V3.Link URL)
      → link_to_v3 cv l ≡ ok k
      → IsOtherLinkBack l (link_from_v3 cv k)
  unfolding link_to_v3 link_from_v3
  other_link_back l k h =
      let (href, _, h₁) = >>=-eq-ok (cv.parse_url l.uri) _ h in
      subst (λ x. IsOtherLinkBack l (link_from_v3 cv x)) (ok_injective h₁)
        (record { link_type = refl; content_type = refl; language = refl })

  dataset_back :
      (service : AtomService F) (d d' : Dataset F) (f : V3.DatasetFeed URL)
      → dataset_to_v3 cv service d ≡ ok f
      → dataset_from_v3 cv f ≡ ok d'
      → IsDatasetBack d d'
  unfolding dataset_to_v3 dataset_from_v3
  dataset_back service d d' f h k =
      let (ls, links, h₁) = >>=-eq-ok (each (link_to_v3 cv) d.links) _ h in
      let (es, entries, h₂) =
        >>=-eq-ok (each (download_to_v3 cv service.updated d.bbox) d.downloads) _ h₁ in
      let (m, _, k₁) = >>=-eq-ok (deref f.dataset_metadata_links) _ k in
      let same_links : f.links ≡ ls =
        ap (λ (x : V3.DatasetFeed URL). x.links) (sym (ok_injective h₂)) in
      let same_entries : f.entries ≡ es =
        ap (λ (x : V3.DatasetFeed URL). x.entries) (sym (ok_injective h₂)) in
      let all : Forall₂ (IsEntryOf d.bbox) d.downloads f.entries = rw same_entries (
        Forall₂-map (download-IsEntryOf service.updated d.bbox)
          (each-Forall₂ _ d.downloads entries)) in
      subst (IsDatasetBack d) (ok_injective k₁) (record {
        links =
            rw same_links
              (Forall₂-map_right (link_from_v3 cv) other_link_back (each-Forall₂ _ d.links links));
        downloads = Forall₂-map_right (download_from_v3 cv) (download_back d.bbox) all;
        bbox = first_bbox_back d.bbox all;
      })

  -- Where the texts of float32 are exact: a resource that is converted to v3 and back has its
  -- datasets with their links, downloads and download links in their order. Of a download, its name,
  -- title, content and the code of its reference system come back; of a link of it, its blob key (a
  -- missing one is empty), time, bounding box, and its relation unless that is empty; of another
  -- link, its type and language, and its content type (a missing one is empty); and the bounding box
  -- of a dataset that has downloads.
  pub datasets-IsDatasetBack :
      (a c b : Atom F) (dst v : V3.Atom URL)
      → to_v3 cv a dst ≡ ok v
      → convert_from cv v c ≡ ok b
      → Forall₂ IsDatasetBack a.spec.service.datasets b.spec.service.datasets
  unfolding to_v3 convert_from
  datasets-IsDatasetBack a c b dst v h k =
      let service = a.spec.service in
      let (url, _, h₁) =
        >>=-eq-ok (create_base_url cv (get_base_url cv.globals) a.spec.general) _ h in
      let (fs, there, h₂) = >>=-eq-ok (each (dataset_to_v3 cv service) service.datasets) _ h₁ in
      let (m, _, k₁) = >>=-eq-ok (deref v.spec.service.service_metadata_links) _ k in
      let (ds, back, k₂) =
        >>=-eq-ok (each (dataset_from_v3 cv) v.spec.service.dataset_feeds) _ k₁ in
      let same : v.spec.service.dataset_feeds ≡ fs =
        ap (λ (x : V3.Atom URL). x.spec.service.dataset_feeds) (sym (ok_injective h₂)) in
      subst (λ (x : Atom F). Forall₂ IsDatasetBack service.datasets x.spec.service.datasets)
        (ok_injective k₂)
        (Forall₂-map (λ d d' (f, e, e'). dataset_back service d d' f e e')
          (Forall₂-compose (each-Forall₂ _ service.datasets there)
            (each-Forall₂ _ fs (rw same at back))))
