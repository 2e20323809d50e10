-- ===== src/Api/V3/Admission.antt =====
-- api/v3/atom_validation.go: the checks on creation and on update, and the answers to the API server.
pub mod Laws
use atom_operator.Prelude.{
  String, Bool, true, false, not, inl, inr, Option, none, some, List, [], ◌∷◌, ◌++◌, str_eq,
  if◌then◌else◌,
}
use atom_operator.Api.Model.{OwnerInfo}
use atom_operator.Api.V3.{Atom}
use atom_operator.Api.V3.Validation.{
  Checks, child, FieldError, Client, error_of, spec_service, validate_atom, validate_atom_warnings,
}
use atom_operator.Api.V3.OwnerCheck.{validate_owner_info}

-- What `ValidateCreate` and `ValidateUpdate` return: the warnings, and `apierrors.NewInvalid`.
pub record Invalid : Type 0 where
  pub group : String
  pub kind : String
  pub name : String
  pub errors : List FieldError

pub record Verdict : Type 0 where
  pub warnings : List String
  pub error : Option Invalid

module _ {URL : Type 0} where
  invalid : Atom URL → List FieldError → Option Invalid
  invalid atom [] = none
  invalid atom (e ∷ es) =
      some (record { group = "pdok.nl"; kind = "Atom"; name = atom.meta.name; errors = e ∷ es })

module _ {URL : Type 0} (checks : Checks URL) where
  -- `if c != nil`
  owner_info_errors : Option (Client URL) → Atom URL → List FieldError
  unfolding validate_owner_info
  owner_info_errors none atom = []
  owner_info_errors (some c) atom = validate_owner_info c atom

  -- `validateCreate`
  unfoldable pub create_errors : Option (Client URL) → Atom URL → List FieldError
  unfolding validate_atom owner_info_errors
  create_errors c atom =
      error_of (checks.validate_labels_on_create atom.meta.labels)
      ++ (validate_atom checks atom ++ owner_info_errors c atom)

  -- The base URL's part of `validateUpdate`.
  unfoldable pub base_url_errors : Atom URL → Atom URL → List FieldError
  base_url_errors atom atom_old = elim atom.spec.ingress_route_urls [
    | none ↦
        checks.check_url_immutability atom_old.spec.service.base_url atom.spec.service.base_url
          (spec_service ++ child "baseUrl" ∷ [])
    | some urls ↦
        if not (
          str_eq (checks.urls.string atom.spec.service.base_url)
            (checks.urls.string atom_old.spec.service.base_url))
        then error_of (
            checks.validate_ingress_route_urls_contains_base_url (some urls)
              atom_old.spec.service.base_url)
        else []
  ]

  -- `validateUpdate`
  unfoldable pub update_errors : Option (Client URL) → Atom URL → Atom URL → List FieldError
  unfolding validate_atom owner_info_errors base_url_errors
  update_errors c atom atom_old =
      checks.validate_labels_on_update atom_old.meta.labels atom.meta.labels
      ++ (base_url_errors atom atom_old
          ++ (checks.validate_ingress_route_urls_not_removed atom_old.spec.ingress_route_urls
                atom.spec.ingress_route_urls
              ++ (validate_atom checks atom ++ owner_info_errors c atom)))

  unfoldable pub validate_create : Client URL → Atom URL → Verdict
  unfolding create_errors validate_atom_warnings invalid
  validate_create c atom = record {
    warnings = validate_atom_warnings checks atom;
    error = invalid atom (create_errors (some c) atom);
  }

  unfoldable pub validate_update : Client URL → Atom URL → Atom URL → Verdict
  unfolding update_errors validate_atom_warnings invalid
  validate_update c atom atom_old = record {
    warnings = validate_atom_warnings checks atom;
    error = invalid atom (update_errors (some c) atom atom_old);
  }

  -- `ValidateCreateAtom` and `ValidateUpdateAtom`, without a client: the lists that come in, with
  -- what is appended.
  unfoldable pub validate_create_atom :
      Atom URL → List String × List FieldError → List String × List FieldError
  validate_create_atom atom (warnings, all_errs) =
      (warnings ++ validate_atom_warnings checks atom, all_errs ++ create_errors none atom)

  unfoldable pub validate_update_atom :
      Atom URL → Atom URL → List String × List FieldError → List String × List FieldError
  validate_update_atom atom atom_old (warnings, all_errs) =
      (warnings ++ validate_atom_warnings checks atom, all_errs ++ update_errors none atom atom_old)
