-- ===== src/Api/V3/OwnerCheck/Laws.antt =====
-- When the OwnerInfo is accepted.
use atom_operator.Prelude.{
  String, Bool, true, false, ◌&&◌, ◌≡◌, ◌↔◌, refl, ap, arith, inl, inr, Bool-cases, Option, some,
  List, [], ◌∷◌, ◌++◌, contains, append-eq-nil_iff, All, ◌⊎◌, contains-append, Option-cases, str_eq,
  eq_iff,
}
use atom_operator.Prelude.Result.{GoError}
use atom_operator.Api.Model.{MetadataUrl, MetadataUrls, OwnerInfo}
use atom_operator.Api.V3.{Atom, DatasetFeed}
use atom_operator.Api.V3.Validation.{FieldError, Client, is_nil, error_if}
use atom_operator.Api.V3.OwnerCheck.{
  templates_of, append_templates, metadata_templates, lacks_url, template_errors, check_owner_info,
  validate_owner_info,
}

-- A check that appends an error if both tests pass.
pub error_if-and_iff :
    (a b : Bool) (e : FieldError) → (error_if (a && b) e ≡ []) ↔ (a ≡ true → b ≡ false)
error_if-and_iff true true e = (λ h _. cc, λ h. absurd (cc (h refl)))
error_if-and_iff true false e = (λ h _. refl, λ h. refl)
error_if-and_iff false b e = (λ h k. cc, λ h. refl)

module _ {URL : Type 0} where
  -- The metadata URL is there.
  abbrev pub HasUrl : (MetadataUrls → Option MetadataUrl) → OwnerInfo URL → Type 0
  HasUrl select o =
      (urls : MetadataUrls) × (u : MetadataUrl) × (o.metadata_urls ≡ some urls)
      × (select urls ≡ some u)

  lacks_url-eq-false_iff :
      (select : MetadataUrls → Option MetadataUrl) (o : OwnerInfo URL)
      → (lacks_url select o ≡ false) ↔ HasUrl select o
  unfolding lacks_url
  lacks_url-eq-false_iff select o = (
    λ h. elim (Option-cases o.metadata_urls) [
      | inl e ↦ absurd (ground arith)
      | inr (urls, e) ↦ elim (Option-cases (select urls)) [
        | inl f ↦ absurd (ground arith)
        | inr (u, f) ↦ (urls, u, e, f)
      ]
    ],
    λ (urls, u, e, f). rw (e, f) refl,
  )

  -- Every metadata URL that a template asks for is there.
  pub record HasUrls (templates : List String) (owner_info : OwnerInfo URL) : Type 0 where
    pub csw : contains templates "csw" ≡ true → HasUrl (λ u. u.csw) owner_info
    pub html : contains templates "html" ≡ true → HasUrl (λ u. u.html) owner_info
    pub open_search :
        contains templates "opensearch" ≡ true → HasUrl (λ u. u.open_search) owner_info

  -- The check of one name.
  name_iff :
      (select : MetadataUrls → Option MetadataUrl) (asked : Bool) (o : OwnerInfo URL)
      (e : FieldError)
      → (error_if (asked && lacks_url select o) e ≡ []) ↔ (asked ≡ true → HasUrl select o)
  name_iff select asked o e =
      let url = lacks_url-eq-false_iff select o in
      let check = error_if-and_iff asked (lacks_url select o) e in
      (λ h a. url.0 (check.0 h a), λ h. check.1 (λ a. url.1 (h a)))

  pub HasUrls-iff :
      (templates : List String) (owner_info : OwnerInfo URL)
      → (template_errors templates owner_info ≡ []) ↔ HasUrls templates owner_info
  unfolding template_errors
  HasUrls-iff [] o =
      (λ _. record { csw = λ h. cc; html = λ h. cc; open_search = λ h. cc }, λ _. refl)
  HasUrls-iff (t ∷ ts) o = (
    λ h.
        let (c, rest) = (append-eq-nil_iff _ _).0 h in
        let (m, s) = (append-eq-nil_iff _ _).0 rest in
        record {
          csw = (name_iff (λ u. u.csw) _ o _).0 c;
          html = (name_iff (λ u. u.html) _ o _).0 m;
          open_search = (name_iff (λ u. u.open_search) _ o _).0 s;
        },
    λ h. (append-eq-nil_iff _ _).1 (
      (name_iff (λ u. u.csw) _ o _).1 h.csw,
      (append-eq-nil_iff _ _).1 (
        (name_iff (λ u. u.html) _ o _).1 h.html,
        (name_iff (λ u. u.open_search) _ o _).1 h.open_search,
      ),
    ),
  )

pub asked :
    (t name : String) (ts : List String) → str_eq t name ≡ true → contains (t ∷ ts) name ≡ true
asked t name ts e = ground (arith, eq_iff t name, eq_iff name t)

pub asked_cases :
    (t name : String) (ts : List String)
    → contains (t ∷ ts) name ≡ true
    → (str_eq t name ≡ true) ⊎ (contains ts name ≡ true)
asked_cases t name ts e = ground (arith, eq_iff t name, eq_iff name t)

module _ {URL : Type 0} where
  pub HasUrls-tail :
      (t : String) (ts : List String) (o : OwnerInfo URL) → HasUrls (t ∷ ts) o → HasUrls ts o
  HasUrls-tail t ts o h = record {
    csw = λ e. h.csw (ground arith);
    html = λ e. h.html (ground arith);
    open_search = λ e. h.open_search (ground arith);
  }

  pub HasUrls-append_iff :
      (xs ys : List String) (o : OwnerInfo URL)
      → HasUrls (xs ++ ys) o ↔ (HasUrls xs o × HasUrls ys o)
  HasUrls-append_iff xs ys o = (
    λ h. (
      record {
        csw = λ e. h.csw (ground (arith, contains-append xs ys "csw"));
        html = λ e. h.html (ground (arith, contains-append xs ys "html"));
        open_search = λ e. h.open_search (ground (arith, contains-append xs ys "opensearch"));
      },
      record {
        csw = λ e. h.csw (ground (arith, contains-append xs ys "csw"));
        html = λ e. h.html (ground (arith, contains-append xs ys "html"));
        open_search = λ e. h.open_search (ground (arith, contains-append xs ys "opensearch"));
      },
    ),
    λ (hx, hy). record {
      csw = λ e. ground (arith, contains-append xs ys "csw", hx.csw, hy.csw);
      html = λ e. ground (arith, contains-append xs ys "html", hx.html, hy.html);
      open_search =
          λ e. ground (arith, contains-append xs ys "opensearch", hx.open_search, hy.open_search);
    },
  )

  -- The metadata URLs of one feed.
  abbrev pub FeedHasUrls : OwnerInfo URL → DatasetFeed URL → Type 0
  FeedHasUrls o f = HasUrls (templates_of f.dataset_metadata_links) o

  append_templates_iff :
      (o : OwnerInfo URL) (fs : List (DatasetFeed URL)) (ts : List String)
      → HasUrls (append_templates ts fs) o ↔ (HasUrls ts o × All (FeedHasUrls o) fs)
  unfolding append_templates
  append_templates_iff o [] ts = (λ h. (h, tt), λ h. h.0)
  append_templates_iff o (f ∷ fs) ts =
      let ih = append_templates_iff o fs (ts ++ templates_of f.dataset_metadata_links) in
      let both = HasUrls-append_iff ts (templates_of f.dataset_metadata_links) o in
      (
        λ h. let (hs, rest) = ih.0 h in let (h₁, h₂) = both.0 hs in (h₁, (h₂, rest)),
        λ (h₁, (h₂, rest)). ih.1 (both.1 (h₁, h₂), rest),
      )

  -- Each metadata URL that a template of the service or of a dataset feed asks for is there.
  pub record HasAsked (atom : Atom URL) (o : OwnerInfo URL) : Type 0 where
    pub service : HasUrls (templates_of atom.spec.service.service_metadata_links) o
    pub feeds : All (FeedHasUrls o) atom.spec.service.dataset_feeds

  metadata_templates_iff :
      (atom : Atom URL) (o : OwnerInfo URL) → HasUrls (metadata_templates atom) o ↔ HasAsked atom o
  unfolding metadata_templates
  metadata_templates_iff atom o =
      let (from, to) = append_templates_iff o atom.spec.service.dataset_feeds _ in
      (
        λ h. let (mine, all) = from h in record { service = mine; feeds = all },
        λ h. to (h.service, h.feeds),
      )

module _ {URL : Type 0} where
  inl_injective : {o p : OwnerInfo URL} → ◌≡◌ {A = OwnerInfo URL ⊎ GoError} (inl o) (inl p) → o ≡ p
  inl_injective {o} h = ap (elim [ inl q ↦ q | inr e ↦ o ]) h

  -- The OwnerInfo that was fetched, with all that the atom asks of it.
  abbrev pub Accepted : Atom URL → OwnerInfo URL ⊎ GoError → Type 0
  Accepted atom fetched =
      (o : OwnerInfo URL) × (fetched ≡ inl o) × (is_nil o.atom ≡ false) × HasAsked atom o

  check_owner_info-eq-nil_iff :
      (atom : Atom URL) (fetched : OwnerInfo URL ⊎ GoError)
      → (check_owner_info atom fetched ≡ []) ↔ Accepted atom fetched
  unfolding check_owner_info
  check_owner_info-eq-nil_iff atom (inr e) = (λ h. absurd (cc), λ a. absurd (cc (a.1)))
  check_owner_info-eq-nil_iff atom (inl o) = elim (Bool-cases (is_nil o.atom)) [
    | inl e ↦ (λ h. absurd (ground arith), λ (p, h, s, _). absurd (ground (arith, inl_injective h)))
    | inr e ↦ (
      λ h. (o, refl, e, (metadata_templates_iff atom o).0 ((HasUrls-iff _ o).0 (ground arith))),
      λ (p, h, s, urls).
          let same : o ≡ p = inl_injective h in
          rw e (
            (HasUrls-iff (metadata_templates atom) o).1
              ((metadata_templates_iff atom o).1 (rw same urls))),
    )
  ]

  -- The OwnerInfo is accepted exactly when it is found, has Atom information and has each metadata
  -- URL that a template of the service or of a dataset asks for.
  pub validate_owner_info-eq-nil_iff :
      (c : Client URL) (atom : Atom URL)
      → (validate_owner_info c atom ≡ [])
        ↔ Accepted atom (c atom.meta.namespace atom.spec.service.owner_info_ref)
  unfolding validate_owner_info
  validate_owner_info-eq-nil_iff c atom = check_owner_info-eq-nil_iff atom _
