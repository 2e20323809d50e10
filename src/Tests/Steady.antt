-- ===== src/Tests/Steady.antt =====
-- The mutate functions with a controller whose labels are constant.
use atom_operator.Prelude.{◌≡◌, refl, sym, ap}
use atom_operator.Prelude.Result.{ok_injective}
use atom_operator.Controller.Objects.{Head}
use atom_operator.Controller.Steady.Owned.{IsSteady}
use atom_operator.Controller.Steady.{AreSteady, mutate-AreSteady}
use atom_operator.Tests.Sample.{atom}
use atom_operator.Tests.Cluster.{reconciler, in_order}

kept :
    {head out : Head}
    → head ≡ out
    → (out.labels ≡ head.labels) × (out.annotations ≡ head.annotations)
kept e = (ap (λ (h : Head). h.labels) (sym e), ap (λ (h : Head). h.annotations) (sym e))

pub constant : IsSteady reconciler
constant = record {
  labels_again = λ l ls. refl;
  kind_again = λ kind owner head e f. refl;
  controller_again = λ owner head e. refl;
  kind_keeps = λ kind head e. kept (ok_injective e);
  controller_keeps = λ owner head e. kept (ok_injective e);
}

mutate_example : AreSteady reconciler atom in_order
mutate_example = mutate-AreSteady reconciler constant atom in_order
