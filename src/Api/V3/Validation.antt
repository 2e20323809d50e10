-- ===== src/Api/V3/Validation.antt =====
-- api/v3/atom_validation.go. A function that appends to `allErrs` returns the errors that it
-- appends; the callers append them in the order of the calls.
pub mod Feeds
pub mod Paths
use atom_operator.Prelude.{
  ℕ, suc, String, Bool, true, false, not, ◌&&◌, ◌||◌, ◌⊎◌, inl, inr, Option, none, some, List, [],
  ◌∷◌, ◌++◌, length, contains, str_eq, ltb, if◌then◌else◌,
}
use atom_operator.Prelude.Result.{GoError}
use atom_operator.Text
use atom_operator.Text.{◌+s◌}
use atom_operator.Api.Model.{UrlOps, StringMap, TypeMeta, IngressRouteUrl, MetadataUrls, OwnerInfo}
use atom_operator.Api.V3.{Atom, MetadataLink, DatasetFeed, Entry}

-- `field.Path`, outermost element first.
pub data PathElement : Type 0 where
  child : String → PathElement
  index : ℕ → PathElement

abbrev pub FieldPath : Type 0
FieldPath = List PathElement

pub data ErrorType : Type 0 where
  not_found required duplicate invalid forbidden : ErrorType

-- `field.Error`
pub record FieldError : Type 0 where
  pub error_type : ErrorType
  pub field : FieldPath
  pub bad_value : String
  pub detail : String

-- What the validation calls of other modules: the text of a field path, and smooth-operator's
-- `validation` package. A function of it that appends to `allErrs` gives the errors to append.
pub record Checks (URL : Type 0) : Type 0 where
  pub urls : UrlOps URL
  pub path_string : FieldPath → String
  pub validate_labels_on_create : StringMap → Option FieldError
  pub validate_labels_on_update : StringMap → StringMap → List FieldError
  pub check_url_immutability : URL → URL → FieldPath → List FieldError
  pub validate_ingress_route_urls_contains_base_url :
      Option (List (IngressRouteUrl URL)) → URL → Option FieldError
  pub validate_ingress_route_urls_not_removed :
      Option (List (IngressRouteUrl URL)) → Option (List (IngressRouteUrl URL)) → List FieldError
  pub add_warning : FieldPath → String → TypeMeta → String → String

-- `client.Get` of an OwnerInfo by namespace and name.
abbrev pub Client : Type 0 → Type 0
Client URL = String → String → OwnerInfo URL ⊎ GoError

abbrev pub is_nil {ℓ} : {A : Type ℓ} → Option A → Bool
is_nil none = true
is_nil (some a) = false

-- `if test { *allErrs = append(*allErrs, e) }`
abbrev pub error_if : Bool → FieldError → List FieldError
error_if false e = []
error_if true e = e ∷ []

abbrev pub error_of : Option FieldError → List FieldError
error_of none = []
error_of (some e) = e ∷ []

abbrev pub required_at : FieldPath → String → FieldError
required_at p detail = record { error_type = required; field = p; bad_value = ""; detail = detail }

abbrev pub duplicate_at : FieldPath → String → FieldError
duplicate_at p value = record { error_type = duplicate; field = p; bad_value = value; detail = "" }

abbrev pub spec_service : FieldPath
spec_service = child "spec" ∷ child "service" ∷ []

-- The two identifiers, where both are there.
unfoldable pub same_identifier : Option MetadataLink → Option MetadataLink → Bool
same_identifier (some d) (some s) = str_eq d.metadata_identifier s.metadata_identifier
same_identifier (some d) none = false
same_identifier none s = false

identifier_of : Option MetadataLink → String
identifier_of none = ""
identifier_of (some m) = m.metadata_identifier

module _ {URL : Type 0} (checks : Checks URL) where
  -- The loop over the entries of a feed. The path that is made for an entry is the one that the
  -- next entry's path is made from.
  unfoldable pub entry_errors : FieldPath → ℕ → List String → List (Entry URL) → List FieldError
  entry_errors field_path n entry_names [] = []
  entry_errors field_path n entry_names (entry ∷ entries) =
      let field_path = field_path ++ child "entries" ∷ index n ∷ [] in
      error_if (ltb 1 (length entry.download_links) && is_nil entry.content) (
        required_at (field_path ++ child "content" ∷ []) (
          "when "
          +s checks.path_string (field_path ++ child "downloadlinks" ∷ [])
          +s " has 2 or more elements"))
      ++ (error_if (contains entry_names entry.technical_name)
            (duplicate_at (field_path ++ child "technicalName" ∷ []) entry.technical_name)
          ++ entry_errors field_path (suc n) (entry_names ++ entry.technical_name ∷ []) entries)

  -- The round for the feed with number `i`.
  unfoldable pub feed_errors :
      Option MetadataLink → ℕ → List String → DatasetFeed URL → List FieldError
  unfolding entry_errors same_identifier identifier_of
  feed_errors service_links i feed_names feed =
      let field_path = spec_service ++ child "datasetFeeds" ∷ index i ∷ [] in
      error_if (contains feed_names feed.technical_name)
        (duplicate_at (field_path ++ child "technicalName" ∷ []) feed.technical_name)
      ++ (error_if (same_identifier feed.dataset_metadata_links service_links) (record {
        error_type = invalid;
        field = field_path ++ child "datasetMetadataLinks" ∷ child "metadataIdentifier" ∷ [];
        bad_value = identifier_of feed.dataset_metadata_links;
        detail =
            "should not be the same as "
            +s checks.path_string
                (spec_service ++ child "serviceMetadataLinks" ∷ child "metadataIdentifier" ∷ []);
      })
          ++ (error_if
                (not (is_nil feed.dataset_metadata_links)
                  && is_nil feed.spatial_dataset_identifier_code)
                (required_at (field_path ++ child "spatialDatasetIdentifierCode" ∷ []) (
                  "when "
                  +s checks.path_string (field_path ++ child "datasetMetadataLinks" ∷ [])
                  +s " exists"))
              ++ (error_if
                    (not (is_nil feed.spatial_dataset_identifier_code)
                      && is_nil feed.spatial_dataset_identifier_namespace)
                    (required_at (field_path ++ child "spatialDatasetIdentifierNamespace" ∷ []) (
                      "when "
                      +s checks.path_string
                          (field_path ++ child "spatialDatasetIdentifierCode" ∷ [])
                      +s " exists"))
                  ++ entry_errors field_path 0 [] feed.entries)))

  unfoldable pub feeds_errors :
      Option MetadataLink → ℕ → List String → List (DatasetFeed URL) → List FieldError
  unfolding feed_errors
  feeds_errors service_links i feed_names [] = []
  feeds_errors service_links i feed_names (feed ∷ feeds) =
      feed_errors service_links i feed_names feed
      ++ feeds_errors service_links (suc i) (feed_names ++ feed.technical_name ∷ []) feeds

  unfoldable pub validate_dataset_feeds : Atom URL → List FieldError
  unfolding feeds_errors
  validate_dataset_feeds atom =
      feeds_errors atom.spec.service.service_metadata_links 0 [] atom.spec.service.dataset_feeds

  -- `ValidateAtom`: the warnings, and the errors.
  unfoldable pub validate_atom_warnings : Atom URL → List String
  validate_atom_warnings atom =
      if Text.contains atom.meta.name "atom"
      then checks.add_warning (child "metadata" ∷ child "name" ∷ []) "should not contain atom"
          atom.type_meta atom.meta.name
        ∷ []
      else []

  unfoldable pub validate_atom : Atom URL → List FieldError
  unfolding validate_dataset_feeds
  validate_atom atom =
      validate_dataset_feeds atom
      ++ error_of (
          checks.validate_ingress_route_urls_contains_base_url atom.spec.ingress_route_urls
            atom.spec.service.base_url)
