-- ===== src/Controller/Cluster.antt =====
-- The API server as the controller meets it: the client's calls, `CreateOrUpdate` of
-- controller-runtime and the status package of smooth-operator, over any state of the cluster.
use atom_operator.Prelude.{String, Bool, false, Option, ◌⊎◌}
use atom_operator.Prelude.Int.{ℤ}
use atom_operator.Prelude.Dict.{Dict}
use atom_operator.Prelude.Result.{
  GoError, errorf, wrapf, api_error, PanicValue, text, error, other, Result,
}
use atom_operator.Text.{◌+s◌}
use atom_operator.Api.Model.{OwnerInfo}
use atom_operator.Api.V3.{Atom}
use atom_operator.Controller.Objects.{Head, Object}

-- `controllerutil.OperationResult`
pub data OperationResult : Type 0 where
  unchanged created updated : OperationResult

-- What `CreateOrUpdate` ends in: its two results with the object as the call left it, or a panic
-- of the mutate function.
pub data Answer (S : Type 0) : Type 0 where
  answer : OperationResult → Object S → Option GoError → Answer S
  panicked : PanicValue → Answer S

pub record Cluster (URL W : Type 0) : Type 1 where
  pub get_atom : W → String → String → Atom URL ⊎ GoError
  pub get_owner_info : W → String → String → OwnerInfo URL ⊎ GoError
  pub delete_atom : Atom URL → W → W × Option GoError
  pub create_or_update :
      {S : Type 0} → String → Object S → (Object S → Result (Object S)) → W → W × Answer S
  pub update_status_error : Atom URL → GoError → W → W
  pub update_status_finished : Atom URL → Dict OperationResult → W → W
  pub get_object_full_name : String → Head → String
  pub get_atom_full_name : Atom URL → String
  -- `time.Now()` in nanoseconds since 1970.
  pub now : W → ℤ

-- `err.Error()`
unfoldable pub error_text : GoError → String
error_text (errorf s) = s
error_text (wrapf s e) = s +s ": " +s error_text e
error_text (api_error missing s) = s

-- `apierrors.IsNotFound`
unfoldable pub is_not_found : GoError → Bool
is_not_found (errorf s) = false
is_not_found (wrapf s e) = is_not_found e
is_not_found (api_error missing s) = missing

-- `recoveredPanicToError`; the stack that `errors.WithStack` adds is not part of an error here.
unfoldable pub recovered_panic_to_error : PanicValue → GoError
recovered_panic_to_error (text x) = errorf x
recovered_panic_to_error (error x) = x
recovered_panic_to_error other = errorf "unknown panic"
