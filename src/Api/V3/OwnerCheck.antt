-- ===== src/Api/V3/OwnerCheck.antt =====
-- api/v3/atom_validation.go: `ValidateOwnerInfo` and `validateMetadataTemplates`.
pub mod Laws
use atom_operator.Prelude.{
  String, Bool, true, false, ◌&&◌, ◌⊎◌, inl, inr, Option, none, some, List, [], ◌∷◌, ◌++◌, contains,
  if◌then◌else◌,
}
use atom_operator.Prelude.Result.{GoError}
use atom_operator.Text.{◌+s◌}
use atom_operator.Api.Model.{MetadataUrl, MetadataUrls, OwnerInfo}
use atom_operator.Api.V3.{Atom, MetadataLink, DatasetFeed}
use atom_operator.Api.V3.Validation.{
  FieldPath, child, FieldError, not_found, Client, is_nil, error_if, required_at, spec_service,
}

abbrev pub templates_of : Option MetadataLink → List String
templates_of none = []
templates_of (some m) = m.templates

abbrev pub owner_info_ref_path : FieldPath
owner_info_ref_path = spec_service ++ child "ownerInfoRef" ∷ []

module _ {URL : Type 0} where
  -- The loop over the feeds, from the templates so far.
  unfoldable pub append_templates : List String → List (DatasetFeed URL) → List String
  append_templates templates [] = templates
  append_templates templates (feed ∷ feeds) =
      append_templates (templates ++ templates_of feed.dataset_metadata_links) feeds

  unfoldable pub metadata_templates : Atom URL → List String
  unfolding append_templates
  metadata_templates atom =
      append_templates (templates_of atom.spec.service.service_metadata_links)
        atom.spec.service.dataset_feeds

  -- `ownerInfo.Spec.MetadataUrls == nil || ownerInfo.Spec.MetadataUrls.X == nil`
  unfoldable pub lacks_url : (MetadataUrls → Option MetadataUrl) → OwnerInfo URL → Bool
  lacks_url select owner_info = elim owner_info.metadata_urls [
    | none ↦ true
    | some urls ↦ is_nil (select urls)
  ]

  unfoldable pub template_errors : List String → OwnerInfo URL → List FieldError
  unfolding lacks_url
  template_errors [] owner_info = []
  template_errors (t ∷ ts) owner_info =
      error_if (contains (t ∷ ts) "csw" && lacks_url (λ u. u.csw) owner_info)
        (required_at owner_info_ref_path ("spec.metadataUrls.csw missing in " +s owner_info.name))
      ++ (error_if (contains (t ∷ ts) "html" && lacks_url (λ u. u.html) owner_info) (
            required_at owner_info_ref_path
              ("spec.metadataUrls.html missing in " +s owner_info.name))
          ++ error_if (contains (t ∷ ts) "opensearch" && lacks_url (λ u. u.open_search) owner_info)
              (required_at owner_info_ref_path
                ("spec.metadataUrls.opensearch missing in " +s owner_info.name)))

  unfoldable pub validate_metadata_templates : Atom URL → OwnerInfo URL → List FieldError
  unfolding template_errors metadata_templates
  validate_metadata_templates atom owner_info = template_errors (metadata_templates atom) owner_info

  -- What follows the call of `c.Get` in `ValidateOwnerInfo`.
  check_owner_info : Atom URL → OwnerInfo URL ⊎ GoError → List FieldError
  unfolding validate_metadata_templates
  check_owner_info atom (inr e) =
      record {
        error_type = not_found;
        field = owner_info_ref_path;
        bad_value = atom.spec.service.owner_info_ref;
        detail = "";
      }
      ∷ []
  check_owner_info atom (inl owner_info) =
      if is_nil owner_info.atom
      then required_at owner_info_ref_path ("spec.Atom missing in " +s owner_info.name) ∷ []
      else validate_metadata_templates atom owner_info

  unfoldable pub validate_owner_info : Client URL → Atom URL → List FieldError
  unfolding check_owner_info
  validate_owner_info c atom =
      check_owner_info atom (c atom.meta.namespace atom.spec.service.owner_info_ref)
