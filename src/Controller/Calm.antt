-- ===== src/Controller/Calm.antt =====
-- Calls that do not panic.
use atom_operator.Prelude.{String, ◌≢◌, refl}
use atom_operator.Prelude.Result.{GoError, PanicValue, Result, ok, err, panic}
use atom_operator.Api.Model.{ObjectMeta}
use atom_operator.Generator.Feeds.{Feeds}
use atom_operator.Controller.Objects.{Head, Object, ConfigMapSpec, Reconciler}
use atom_operator.Controller.Ends.{Ends, FitFor, CallsEnd}

abbrev pub Calm {ℓ} : {A : Type ℓ} → Result A → Type ℓ
Calm r = (v : PanicValue) → r ≢ panic v

-- Any error.
abbrev pub Any : GoError → Type 0
Any e = Unit

-- Any object.
abbrev pub Anything : FitFor
Anything owner namespace controller = Unit

pub Ends-Calm {ℓ} : {A : Type ℓ} (r : Result A) → Ends Any r → Calm r
Ends-Calm (ok a) h v e = cc
Ends-Calm (err e) h v e' = cc
Ends-Calm (panic p) h v e = absurd h

pub Calm-Ends {ℓ} : {A : Type ℓ} (r : Result A) → Calm r → Ends Any r
Calm-Ends (ok a) h = tt
Calm-Ends (err e) h = tt
Calm-Ends (panic p) h = absurd (h p refl)

-- What the controller calls of other modules ends in a result or an error.
pub record IsCalm {URL : Type 0} (r : Reconciler URL) : Type 0 where
  pub ensures : (kind : String) (head : Head) → Calm (r.ensure_set_gvk kind head)
  pub controls : (owner : ObjectMeta) (head : Head) → Calm (r.set_controller_reference owner head)
  pub hashes : (o : Object ConfigMapSpec) → Calm (r.add_hash_suffix o)
  pub marshals : (feeds : Feeds) → Calm (r.marshal feeds)

pub IsCalm-CallsEnd : {URL : Type 0} (r : Reconciler URL) → IsCalm r → CallsEnd Any Anything r
IsCalm-CallsEnd r calm = record {
  ensures = λ kind head _. Calm-Ends _ (calm.ensures kind head);
  ensures_fits = λ kind owner head _ _. tt;
  controls = λ owner head _. Calm-Ends _ (calm.controls owner head);
  controls_fits = λ owner head _ _. tt;
  hashes = λ o. Calm-Ends _ (calm.hashes o);
  hashes_fits = λ owner o _ _. tt;
  marshals = λ feeds. Calm-Ends _ (calm.marshals feeds);
}
