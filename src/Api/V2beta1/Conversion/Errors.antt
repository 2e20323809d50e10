-- ===== src/Api/V2beta1/Conversion/Errors.antt =====
-- When a conversion to v3 returns.
use atom_operator.Prelude.{◌↔◌, refl, List, All, All-map}
use atom_operator.Prelude.Result.{
  ok, each, ◌>>=◌, >>=-eq-ok, Returns, Returns-bind, each-Returns, each_inverse, Result,
}
use atom_operator.Api.V3
use atom_operator.Api.V3.{get_base_url}
use atom_operator.Api.V2beta1.{AtomService, OtherLink, Download, Dataset, Atom}
use atom_operator.Api.V2beta1.Context.{Conversions}
use atom_operator.Api.V2beta1.ToV3.{
  link_to_v3, download_to_v3, dataset_to_v3, to_v3, create_base_url,
}

-- A call whose result is only made into another one.
Returns-map_iff {ℓ κ} :
    {A : Type ℓ} {B : Type κ} (m : Result A) (f : A → B) → Returns (m >>= λ a. ok (f a)) ↔ Returns m
Returns-map_iff m f = (
  λ (b, h). let (a, e, _) = >>=-eq-ok m _ h in (a, e),
  λ h. Returns-bind m _ h (λ a _. (f a, refl)),
)

-- A loop returns exactly if each round does.
each-Returns_iff {ℓ κ μ} :
    {A : Type ℓ} {B : Type κ} (f : A → Result B) (P : A → Type μ)
    → ((a : A) → Returns (f a) ↔ P a)
    → (xs : List A) → Returns (each f xs) ↔ All P xs
each-Returns_iff f P h xs = (
  λ r. All-map (λ a. (h a).0) xs (each_inverse f xs r),
  λ p. each-Returns f xs (All-map (λ a. (h a).1) xs p),
)

module _ {F URL : Type 0} (cv : Conversions F URL) where
  -- The URIs of a dataset can be parsed.
  abbrev pub ParsesAll : Dataset F → Type 0
  ParsesAll d =
      All (λ (l : OtherLink). Returns (cv.parse_url l.uri)) d.links
      × All (λ (s : Download F). Returns (cv.parse_url s.srs.uri)) d.downloads

  link-Returns_iff : (l : OtherLink) → Returns (link_to_v3 cv l) ↔ Returns (cv.parse_url l.uri)
  unfolding link_to_v3
  link-Returns_iff l = Returns-map_iff (cv.parse_url l.uri) _

  dataset-Returns_iff :
      (service : AtomService F) (d : Dataset F) → Returns (dataset_to_v3 cv service d) ↔ ParsesAll d
  unfolding dataset_to_v3 download_to_v3
  dataset-Returns_iff service d =
      let links = each-Returns_iff (link_to_v3 cv) _ link-Returns_iff d.links in
      let downloads =
        each-Returns_iff (download_to_v3 cv service.updated d.bbox)
          (λ (s : Download F). Returns (cv.parse_url s.srs.uri))
          (λ s. Returns-map_iff (cv.parse_url s.srs.uri) _) d.downloads in
      (
        λ (f, h).
            let (ls, e, h₁) = >>=-eq-ok (each (link_to_v3 cv) d.links) _ h in
            (links.0 (ls, e), downloads.0 ((Returns-map_iff _ _).0 (f, h₁))),
        λ (l, s). Returns-bind _ _ (links.1 l) (λ ls _. (Returns-map_iff _ _).1 (downloads.1 s)),
      )

  -- The conversion to v3 returns exactly if the base URL of the program can be parsed, and the URI
  -- of each link and of each download's reference system of each dataset. No other field is looked
  -- at: a time that cannot be parsed, or a missing blob key, is no error.
  pub to_v3-Returns_iff :
      (a : Atom F) (dst : V3.Atom URL)
      → Returns (to_v3 cv a dst) ↔ (
          Returns (cv.urls.parse (get_base_url cv.globals)) × All ParsesAll a.spec.service.datasets)
  unfolding to_v3 create_base_url
  to_v3-Returns_iff a dst =
      let host = cv.urls.parse (get_base_url cv.globals) in
      let service = a.spec.service in
      let datasets =
        each-Returns_iff (dataset_to_v3 cv service) ParsesAll (dataset-Returns_iff service)
          service.datasets in
      (
        λ (v, h).
            let (url, e, h₁) =
              >>=-eq-ok (create_base_url cv (get_base_url cv.globals) a.spec.general) _ h in
            ((Returns-map_iff host _).0 (url, e), datasets.0 ((Returns-map_iff _ _).0 (v, h₁))),
        λ (u, ds).
            Returns-bind _ _ ((Returns-map_iff host _).1 u)
              (λ url _. (Returns-map_iff _ _).1 (datasets.1 ds)),
      )
