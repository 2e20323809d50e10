-- ===== src/Webhook.antt =====
-- internal/webhook/v3/atom_webhook.go: the validating webhook. A runtime object is an Atom of v3
-- or an object of another type, which stands as the name of its type.
pub mod Laws
use atom_operator.Prelude.{String, ◌⊎◌, inl, inr, Option, none, some, List, []}
use atom_operator.Prelude.Result.{GoError, errorf}
use atom_operator.Text.{◌+s◌}
use atom_operator.Api.V3.{Atom}
use atom_operator.Api.V3.Validation.{Checks, Client}
use atom_operator.Api.V3.Admission.{Invalid, Verdict, validate_create, validate_update}

-- The two results of a call: the warnings, and the error that the webhook makes or that
-- `apierrors.NewInvalid` made.
pub record Response : Type 0 where
  pub warnings : List String
  pub error : Option (GoError ⊎ Invalid)

abbrev pub RuntimeObject : Type 0 → Type 0
RuntimeObject URL = Atom URL ⊎ String

unfoldable pub unexpected : String → String → Response
unexpected expected got = record { warnings = []; error = some (inl (errorf (expected +s got))) }

unfoldable pub answer_of : Verdict → Response
answer_of verdict = record {
  warnings = verdict.warnings;
  error = elim verdict.error [ none ↦ none | some invalid ↦ some (inr invalid) ];
}

module _ {URL : Type 0} (checks : Checks URL) (client : Client URL) where
  unfoldable pub validate_create_object : RuntimeObject URL → Response
  unfolding unexpected answer_of validate_create
  validate_create_object (inr type_name) = unexpected "expected a Atom object but got " type_name
  validate_create_object (inl atom) = answer_of (validate_create checks client atom)

  unfoldable pub validate_new_object : RuntimeObject URL → Atom URL → Response
  unfolding unexpected answer_of validate_update
  validate_new_object (inr type_name) atom =
      unexpected "expected a Atom object for the oldObj but got " type_name
  validate_new_object (inl atom_old) atom = answer_of (validate_update checks client atom atom_old)

  -- The new object is tested before the old one.
  unfoldable pub validate_update_object : RuntimeObject URL → RuntimeObject URL → Response
  unfolding unexpected validate_new_object
  validate_update_object old_obj (inr type_name) =
      unexpected "expected a Atom object for the newObj but got " type_name
  validate_update_object old_obj (inl atom) = validate_new_object old_obj atom

module _ {URL : Type 0} where
  unfoldable pub validate_delete_object : RuntimeObject URL → Response
  unfolding unexpected
  validate_delete_object (inr type_name) = unexpected "expected a Atom object but got " type_name
  validate_delete_object (inl atom) = record { warnings = []; error = none }
