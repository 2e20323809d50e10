-- ===== src/Tests/Served.antt =====
-- A call of `Reconcile` in a cluster that serves every call.
use mathlib.Core.List.Permᴰ
use atom_operator.Prelude.{subst}
use atom_operator.Prelude.Result.{Result, ok_injective}
use atom_operator.Controller.Objects.{Object, ConfigMapSpec}
use atom_operator.Controller.Ends.{Ends, Never, Manageable, Fits, CallsEnd}
use atom_operator.Controller.Reconcile.Present.{Present}
use atom_operator.Tests.Cluster.{reconciler}

pub calls : CallsEnd Never (Manageable reconciler) reconciler
calls = record {
  ensures = λ kind head _. tt;
  ensures_fits = λ kind owner head e fits.
      subst (Fits Never (Manageable reconciler) owner) (ok_injective e) fits;
  controls = λ owner head _. tt;
  controls_fits =
      λ owner head e fits. subst (Fits Never (Manageable reconciler) owner) (ok_injective e) fits;
  hashes = λ o. tt;
  hashes_fits = λ owner o e fits.
      subst (λ (x : Object ConfigMapSpec). Fits Never (Manageable reconciler) owner x.head)
        (ok_injective e) fits;
  marshals = λ feeds. tt;
}
