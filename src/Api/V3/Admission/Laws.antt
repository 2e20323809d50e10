-- ===== src/Api/V3/Admission/Laws.antt =====
-- Which resources are admitted.
use atom_operator.Prelude.{
  String, Bool, true, false, not, ◌≡◌, ◌≢◌, ◌↔◌, refl, subst, inl, inr, Bool-cases, Option-cases,
  str_eq, eq_iff, if◌then◌else◌, Option, none, some, List, [], ◌∷◌, ◌++◌, append-eq-nil_iff, All,
  Distinct,
}
use atom_operator.Api.Model.{IngressRouteUrl}
use atom_operator.Api.V3.{Atom}
use atom_operator.Api.V3.Validation.{
  Checks, child, spec_service, FieldError, Client, error_of, validate_atom,
}
use atom_operator.Api.V3.Validation.Feeds.{FeedOk, feed_names, validate_dataset_feeds-eq-nil_iff}
use atom_operator.Api.V3.OwnerCheck.Laws.{Accepted, validate_owner_info-eq-nil_iff}
use atom_operator.Api.V3.Admission.{
  owner_info_errors, create_errors, base_url_errors, update_errors, invalid, validate_create,
  validate_update,
}

error_of_iff : (o : Option FieldError) → (error_of o ≡ []) ↔ (o ≡ none)
error_of_iff none = (λ _. refl, λ _. refl)
error_of_iff (some e) = (λ h. cc, λ h. cc)

module _ {URL : Type 0} where
  invalid_iff : (atom : Atom URL) (es : List FieldError) → (invalid atom es ≡ none) ↔ (es ≡ [])
  unfolding invalid
  invalid_iff atom [] = (λ _. refl, λ _. refl)
  invalid_iff atom (e ∷ es) = (λ h. cc, λ h. cc)

module _ {URL : Type 0} (checks : Checks URL) where
  -- What creation and update ask of the resource itself and of its OwnerInfo.
  pub record IsSound (c : Client URL) (atom : Atom URL) : Type 0 where
    pub feeds_ok :
        All (FeedOk atom.spec.service.service_metadata_links) atom.spec.service.dataset_feeds
    pub names_distinct : Distinct (feed_names atom.spec.service.dataset_feeds)
    pub base_url_reachable :
        checks.validate_ingress_route_urls_contains_base_url atom.spec.ingress_route_urls
          atom.spec.service.base_url
        ≡ none
    pub owner_accepted : Accepted atom (c atom.meta.namespace atom.spec.service.owner_info_ref)

  IsSound-iff :
      (c : Client URL) (atom : Atom URL)
      → ((validate_atom checks atom ++ owner_info_errors checks (some c) atom) ≡ [])
        ↔ IsSound c atom
  unfolding validate_atom owner_info_errors
  IsSound-iff c atom = (
    λ h.
        let (own, owner) = (append-eq-nil_iff _ _).0 h in
        let (feeds, url) = (append-eq-nil_iff _ _).0 own in
        let (oks, distinct) = (validate_dataset_feeds-eq-nil_iff checks atom).0 feeds in
        record {
          feeds_ok = oks;
          names_distinct = distinct;
          base_url_reachable = (error_of_iff _).0 url;
          owner_accepted = (validate_owner_info-eq-nil_iff c atom).0 owner;
        },
    λ s. (append-eq-nil_iff _ _).1 (
      (append-eq-nil_iff _ _).1 (
        (validate_dataset_feeds-eq-nil_iff checks atom).1 (s.feeds_ok, s.names_distinct),
        (error_of_iff _).1 s.base_url_reachable,
      ),
      (validate_owner_info-eq-nil_iff c atom).1 s.owner_accepted,
    ),
  )

  -- `ValidateCreate` returns no error exactly when the labels pass and the resource is sound: its
  -- dataset feeds and their names are as asked, its base URL passes the check against the ingress
  -- route URLs, and its OwnerInfo is accepted.
  pub validate_create-error_iff :
      (c : Client URL) (atom : Atom URL)
      → ((validate_create checks c atom).error ≡ none)
        ↔ ((checks.validate_labels_on_create atom.meta.labels ≡ none) × IsSound c atom)
  unfolding validate_create create_errors
  validate_create-error_iff c atom = (
    λ h.
        let (labels, rest) = (append-eq-nil_iff _ _).0 ((invalid_iff atom _).0 h) in
        ((error_of_iff _).0 labels, (IsSound-iff c atom).0 rest),
    λ (labels, s).
        (invalid_iff atom _).1
          ((append-eq-nil_iff _ _).1 ((error_of_iff _).1 labels, (IsSound-iff c atom).1 s)),
  )

  -- Without ingress route URLs the base URL passes the check that it was not changed.
  abbrev pub Kept : Atom URL → Atom URL → Type 0
  Kept atom atom_old =
      atom.spec.ingress_route_urls ≡ none
      → checks.check_url_immutability atom_old.spec.service.base_url atom.spec.service.base_url
          (spec_service ++ child "baseUrl" ∷ [])
        ≡ []

  -- With them, if the text of the base URL was changed, the old base URL passes the check that it is
  -- among them.
  abbrev pub StaysReachable : Atom URL → Atom URL → Type 0
  StaysReachable atom atom_old =
      (urls : List (IngressRouteUrl URL))
      → atom.spec.ingress_route_urls ≡ some urls
      → checks.urls.string atom.spec.service.base_url
        ≢ checks.urls.string atom_old.spec.service.base_url
      → checks.validate_ingress_route_urls_contains_base_url (some urls)
          atom_old.spec.service.base_url
        ≡ none

  -- What an update asks beside: the label check passes against the old labels, the check on
  -- removed ingress route URLs finds nothing, and the base URL is kept or stays reachable.
  pub record IsSuccessor (atom atom_old : Atom URL) : Type 0 where
    pub labels_ok : checks.validate_labels_on_update atom_old.meta.labels atom.meta.labels ≡ []
    pub urls_kept :
        checks.validate_ingress_route_urls_not_removed atom_old.spec.ingress_route_urls
          atom.spec.ingress_route_urls
        ≡ []
    pub base_url_kept : Kept atom atom_old
    pub old_base_url_reachable : StaysReachable atom atom_old

  -- The base URL's part of an update, where it finds nothing.
  base_url_errors-some_iff :
      (same : Bool) (reachable : Option FieldError)
      → ((if not same then error_of reachable else []) ≡ []) ↔ (same ≡ false → reachable ≡ none)
  base_url_errors-some_iff true reachable = (λ h e. absurd (cc), λ h. refl)
  base_url_errors-some_iff false reachable =
      (λ h e. (error_of_iff reachable).0 h, λ h. (error_of_iff reachable).1 (h refl))

  differ-str_eq : (s t : String) → s ≢ t → str_eq s t ≡ false
  differ-str_eq s t h = elim (Bool-cases (str_eq s t)) [
    | inl e ↦ absurd (h ((eq_iff s t).0 e))
    | inr e ↦ e
  ]

  base_url_errors_iff :
      (atom atom_old : Atom URL)
      → (base_url_errors checks atom atom_old ≡ [])
        ↔ (Kept atom atom_old × StaysReachable atom atom_old)
  unfolding base_url_errors
  base_url_errors_iff atom atom_old = elim (Option-cases atom.spec.ingress_route_urls) [
    | inl e ↦ rw e (λ h. (λ x. h, λ urls x n. absurd (cc)), λ (h, x). h refl)
    | inr (us, e) ↦
        let now = checks.urls.string atom.spec.service.base_url in
        let before = checks.urls.string atom_old.spec.service.base_url in
        let old = atom_old.spec.service.base_url in
        let (from, to) =
          base_url_errors-some_iff (str_eq now before)
            (checks.validate_ingress_route_urls_contains_base_url (some us) old) in
        rw e (
          λ h. (
            λ x. absurd (cc),
            λ urls same n.
                subst (λ o. checks.validate_ingress_route_urls_contains_base_url o old ≡ none) same
                  (from h (differ-str_eq now before n)),
          ),
          λ (x, h). to (λ f. h us refl (λ same. cc ((eq_iff now before).1 same))),
        )
  ]

  -- `ValidateUpdate` returns no error exactly when the resource is sound and a successor of the old
  -- one: the labels pass against the old ones, the check on removed ingress route URLs finds nothing,
  -- and the base URL passes the check that it was not changed or, where there are ingress route URLs
  -- and its text was changed, the old one passes the check that it is among them.
  pub validate_update-error_iff :
      (c : Client URL) (atom atom_old : Atom URL)
      → ((validate_update checks c atom atom_old).error ≡ none)
        ↔ (IsSuccessor atom atom_old × IsSound c atom)
  unfolding validate_update update_errors
  validate_update-error_iff c atom atom_old = (
    λ h.
        let (labels, h₁) = (append-eq-nil_iff _ _).0 ((invalid_iff atom _).0 h) in
        let (base, h₂) = (append-eq-nil_iff _ _).0 h₁ in
        let (kept, rest) = (append-eq-nil_iff _ _).0 h₂ in
        (
          record {
            labels_ok = labels;
            urls_kept = kept;
            base_url_kept = ((base_url_errors_iff atom atom_old).0 base).0;
            old_base_url_reachable = ((base_url_errors_iff atom atom_old).0 base).1;
          },
          (IsSound-iff c atom).0 rest,
        ),
    λ (old, s). (invalid_iff atom _).1 (
        (append-eq-nil_iff _ _).1 (
          old.labels_ok,
          (append-eq-nil_iff _ _).1 (
            (base_url_errors_iff atom atom_old).1 (old.base_url_kept, old.old_base_url_reachable),
            (append-eq-nil_iff _ _).1 (old.urls_kept, (IsSound-iff c atom).1 s),
          ),
        )),
  )
