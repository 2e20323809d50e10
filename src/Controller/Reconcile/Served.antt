-- ===== src/Controller/Reconcile/Served.antt =====
-- A call of `Reconcile` that the API server serves throughout.
use atom_operator.Prelude.{String, List}
use atom_operator.Prelude.Dict.{Dict}
use atom_operator.Prelude.Result.{Result}
use atom_operator.Text.{◌+s◌}
use atom_operator.Api.V3.{Atom}
use atom_operator.Generator.Links.{Env}
use atom_operator.Controller.Objects.{Reconciler}
use atom_operator.Controller.Labels.{app_name}
use atom_operator.Controller.Cluster.{Cluster}
use atom_operator.Controller.Groups.{Group}
use atom_operator.Controller.Ends.{Never, Manageable, CallsEnd, Serves}
use atom_operator.Controller.Reconcile.Steps.{Keeps}
use atom_operator.Controller.Reconcile.Present.{Present}

module _ {URL W : Type 0} (c : Cluster URL W) (Has : String → String → String → W → Type 0)
    (k : Keeps c Has) (r : Reconciler URL) (s : Serves Never (Manageable r) c)
    (calls : CallsEnd Never (Manageable r) r) (env : Env URL) (atom : Atom URL)
    (order order_of_routes : Dict Group → List (String × Group)) where
  -- The deployment is there.
  abbrev pub Deployed : W → Type 0
  Deployed = Has "Deployment" atom.meta.namespace (atom.meta.name +s "-" +s app_name)
