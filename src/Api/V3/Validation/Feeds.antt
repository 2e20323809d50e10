-- ===== src/Api/V3/Validation/Feeds.antt =====
-- When the dataset feeds are accepted: `validateDatasetFeeds` against a description with no loop.
use atom_operator.Prelude.{
  ℕ, suc, ◌<◌, String, Bool, true, false, not, ◌&&◌, ◌≡◌, ◌≢◌, ◌↔◌, refl, arith, inl, inr,
  Bool-cases, Option, none, some, List, [], ◌∷◌, ◌++◌, map, contains, contains-append,
  append-eq-nil_iff, length, All, Distinct, ltb, ltb→lt, eq_iff,
}
use atom_operator.Api.V3.{Atom, MetadataLink, DatasetFeed, Entry}
use atom_operator.Api.V3.Validation.{
  FieldPath, child, index, FieldError, Checks, is_nil, error_if, entry_errors, same_identifier,
  feed_errors, feeds_errors, validate_dataset_feeds,
}

-- No name is among the names so far.
abbrev Fresh : List String → List String → Type 0
Fresh names = All (λ y. contains names y ≡ false)

Fresh-nil : (ys : List String) → Fresh [] ys
Fresh-nil [] = tt
Fresh-nil (y ∷ ys) = (refl, Fresh-nil ys)

Fresh-append_iff :
    (names : List String) (x : String) (ys : List String)
    → Fresh (names ++ x ∷ []) ys ↔ (Fresh names ys × All (λ y. x ≢ y) ys)
Fresh-append_iff names x [] = (λ _. (tt, tt), λ _. tt)
Fresh-append_iff names x (y ∷ ys) = (
  λ (h, hs).
      let (fresh, ne) = (Fresh-append_iff names x ys).0 hs in
      (
        (ground (arith, contains-append names (x ∷ []) y), fresh),
        (ground (arith, contains-append names (x ∷ []) y, eq_iff y x), ne),
      ),
  λ ((f, fresh), (n, ne)). (
    ground (arith, contains-append names (x ∷ []) y, eq_iff y x),
    (Fresh-append_iff names x ys).1 (fresh, ne),
  ),
)

error_if_iff : (b : Bool) (e : FieldError) → (error_if b e ≡ []) ↔ (b ≡ false)
error_if_iff true e = (λ h. cc, λ h. cc)
error_if_iff false e = (λ h. refl, λ h. refl)

required_iff {ℓ} :
    {A B : Type ℓ} (a : Option A) (b : Option B)
    → ((not (is_nil a) && is_nil b) ≡ false) ↔ (a ≢ none → b ≢ none)
required_iff none b = (λ h k. absurd (k refl), λ h. refl)
required_iff (some a) none = (λ h. cc, λ h. absurd (h (λ e. cc) refl))
required_iff (some a) (some b) = (λ h k e. cc, λ h. refl)

content_iff {ℓ} :
    {A : Type ℓ} (n : ℕ) (o : Option A) → ((ltb 1 n && is_nil o) ≡ false) ↔ (1 < n → o ≢ none)
content_iff n none = (
  λ h k e. absurd (ground arith),
  λ h. elim (Bool-cases (ltb 1 n)) [
    | inl large ↦ absurd (h (ltb→lt 1 n large) refl)
    | inr small ↦ rw small
  ],
)
content_iff n (some a) = (λ h k e. cc, λ h. ground arith)

module _ {URL : Type 0} where
  -- An entry with more than one download link has content.
  abbrev pub EntryOk : Entry URL → Type 0
  EntryOk e = 1 < length e.download_links → e.content ≢ none

  abbrev pub entry_names : List (Entry URL) → List String
  entry_names = map (λ e. e.technical_name)

  abbrev pub feed_names : List (DatasetFeed URL) → List String
  feed_names = map (λ f. f.technical_name)

module _ {URL : Type 0} (checks : Checks URL) where
  entry_errors-eq-nil_iff :
      (p : FieldPath) (n : ℕ) (names : List String) (es : List (Entry URL))
      → (entry_errors checks p n names es ≡ [])
        ↔ (All EntryOk es × Fresh names (entry_names es) × Distinct (entry_names es))
  unfolding entry_errors
  entry_errors-eq-nil_iff p n names [] = (λ _. (tt, tt, tt), λ _. refl)
  entry_errors-eq-nil_iff p n names (e ∷ es) =
      let ih =
        entry_errors-eq-nil_iff (p ++ child "entries" ∷ index n ∷ []) (suc n)
          (names ++ e.technical_name ∷ []) es in
      (
        λ h.
            let (content, h') = (append-eq-nil_iff _ _).0 h in
            let (name, rest) = (append-eq-nil_iff _ _).0 h' in
            let (oks, fresh, distinct) = ih.0 rest in
            let (fresh', ne) = (Fresh-append_iff names e.technical_name (entry_names es)).0 fresh in
            (
              ((content_iff _ _).0 ((error_if_iff _ _).0 content), oks),
              ((error_if_iff _ _).0 name, fresh'),
              (ne, distinct),
            ),
        λ ((content, oks), (name, fresh), (ne, distinct)). (append-eq-nil_iff _ _).1 (
          (error_if_iff _ _).1 ((content_iff _ _).1 content),
          (append-eq-nil_iff _ _).1 (
            (error_if_iff _ _).1 name,
            ih.1 (
              oks,
              (Fresh-append_iff names e.technical_name (entry_names es)).1 (fresh, ne),
              distinct,
            ),
          ),
        ),
      )

identifiers_iff :
    (d s : Option MetadataLink)
    → (same_identifier d s ≡ false) ↔ (
        (m k : MetadataLink)
        → d ≡ some m
        → s ≡ some k
        → m.metadata_identifier ≢ k.metadata_identifier)
unfolding same_identifier
identifiers_iff none s = (λ h m k e. absurd (cc), λ h. refl)
identifiers_iff (some d) none = (λ h m k e f. absurd (cc), λ h. refl)
identifiers_iff (some d) (some s) = (
  λ h m k e f g. ground (arith, eq_iff d.metadata_identifier s.metadata_identifier),
  λ h. ground (arith, eq_iff d.metadata_identifier s.metadata_identifier, h d s refl refl),
)

module _ {URL : Type 0} where
  -- What is asked of one dataset feed, beside the metadata of the service.
  pub record FeedOk (service_links : Option MetadataLink) (f : DatasetFeed URL) : Type 0 where
    pub identifiers_differ :
        (m k : MetadataLink)
        → f.dataset_metadata_links ≡ some m
        → service_links ≡ some k
        → m.metadata_identifier ≢ k.metadata_identifier
    pub code_given : f.dataset_metadata_links ≢ none → f.spatial_dataset_identifier_code ≢ none
    pub namespace_given :
        f.spatial_dataset_identifier_code ≢ none → f.spatial_dataset_identifier_namespace ≢ none
    pub entries_ok : All EntryOk f.entries
    pub entries_distinct : Distinct (entry_names f.entries)

module _ {URL : Type 0} (checks : Checks URL) (service_links : Option MetadataLink) where
  feed_errors-eq-nil_iff :
      (i : ℕ) (names : List String) (f : DatasetFeed URL)
      → (feed_errors checks service_links i names f ≡ [])
        ↔ ((contains names f.technical_name ≡ false) × FeedOk service_links f)
  unfolding feed_errors
  feed_errors-eq-nil_iff i names f = (
    λ h.
        let (name, h₁) = (append-eq-nil_iff _ _).0 h in
        let (identifier, h₂) = (append-eq-nil_iff _ _).0 h₁ in
        let (code, h₃) = (append-eq-nil_iff _ _).0 h₂ in
        let (space, entries) = (append-eq-nil_iff _ _).0 h₃ in
        let (oks, _, distinct) = (entry_errors-eq-nil_iff checks _ 0 [] f.entries).0 entries in
        (
          (error_if_iff _ _).0 name,
          record {
            identifiers_differ = (identifiers_iff _ _).0 ((error_if_iff _ _).0 identifier);
            code_given = (required_iff _ _).0 ((error_if_iff _ _).0 code);
            namespace_given = (required_iff _ _).0 ((error_if_iff _ _).0 space);
            entries_ok = oks;
            entries_distinct = distinct;
          },
        ),
    λ (name, ok). (append-eq-nil_iff _ _).1 (
      (error_if_iff _ _).1 name,
      (append-eq-nil_iff _ _).1 (
        (error_if_iff _ _).1 ((identifiers_iff _ _).1 ok.identifiers_differ),
        (append-eq-nil_iff _ _).1 (
          (error_if_iff _ _).1 ((required_iff _ _).1 ok.code_given),
          (append-eq-nil_iff _ _).1 (
            (error_if_iff _ _).1 ((required_iff _ _).1 ok.namespace_given),
            (entry_errors-eq-nil_iff checks _ 0 [] f.entries).1
                (ok.entries_ok, Fresh-nil (entry_names f.entries), ok.entries_distinct),
          ),
        ),
      ),
    ),
  )

  feeds_errors-eq-nil_iff :
      (fs : List (DatasetFeed URL)) (i : ℕ) (names : List String)
      → (feeds_errors checks service_links i names fs ≡ [])
        ↔ (All (FeedOk service_links) fs × Fresh names (feed_names fs) × Distinct (feed_names fs))
  unfolding feeds_errors
  feeds_errors-eq-nil_iff [] i names = (λ _. (tt, tt, tt), λ _. refl)
  feeds_errors-eq-nil_iff (f ∷ fs) i names =
      let ih = feeds_errors-eq-nil_iff fs (suc i) (names ++ f.technical_name ∷ []) in
      (
        λ h.
            let (here, rest) = (append-eq-nil_iff _ _).0 h in
            let (name, ok) = (feed_errors-eq-nil_iff i names f).0 here in
            let (oks, fresh, distinct) = ih.0 rest in
            let (fresh', ne) = (Fresh-append_iff names f.technical_name (feed_names fs)).0 fresh in
            ((ok, oks), (name, fresh'), (ne, distinct)),
        λ ((ok, oks), (name, fresh), (ne, distinct)). (append-eq-nil_iff _ _).1 (
          (feed_errors-eq-nil_iff i names f).1 (name, ok),
          ih.1 (
            oks,
            (Fresh-append_iff names f.technical_name (feed_names fs)).1 (fresh, ne),
            distinct,
          ),
        ),
      )

module _ {URL : Type 0} (checks : Checks URL) where
  -- The dataset feeds pass exactly when their names differ and each feed is as asked: its metadata
  -- identifier differs from the service's, a code stands beside metadata links and a namespace
  -- beside a code, its entries' names differ, and each entry with two or more download links has
  -- content.
  pub validate_dataset_feeds-eq-nil_iff :
      (atom : Atom URL)
      → (validate_dataset_feeds checks atom ≡ []) ↔ (
          All (FeedOk atom.spec.service.service_metadata_links) atom.spec.service.dataset_feeds
          × Distinct (feed_names atom.spec.service.dataset_feeds))
  unfolding validate_dataset_feeds
  validate_dataset_feeds-eq-nil_iff atom =
      let feeds = atom.spec.service.dataset_feeds in
      let loop =
        feeds_errors-eq-nil_iff checks atom.spec.service.service_metadata_links feeds 0 [] in
      (
        λ h. let (oks, _, distinct) = loop.0 h in (oks, distinct),
        λ (oks, distinct). loop.1 (oks, Fresh-nil (feed_names feeds), distinct),
      )
