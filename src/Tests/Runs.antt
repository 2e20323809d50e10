-- ===== src/Tests/Runs.antt =====
-- Two calls of `Reconcile` in a cluster with no secrets.
use atom_operator.Prelude.{◌≡◌, ◌≢◌, String, true, [], ◌∷◌, subst, contains}
use atom_operator.Prelude.Result.{Result, ok, err, panic}
use atom_operator.Controller.Objects.{Object}
use atom_operator.Controller.Setup.{setup_with_manager}
use atom_operator.Controller.Reconcile.{reconcile}
use atom_operator.Api.V3.{Atom}
use atom_operator.Controller.Reconcile.Frame.{IsFramed, owned_kinds}
use atom_operator.Controller.Reconcile.Runs.{Reaches, here, call, Reaches-frame}
use atom_operator.Tests.Sample.{env}
use atom_operator.Tests.Cluster.{World, place, cluster, reconciler, in_order}
use atom_operator.Tests.Frame.{setup, stays}

abbrev HasNoSecret : World → Type 0
HasNoSecret [] = Unit
HasNoSecret ((kind, namespace, name) ∷ w) = (kind ≢ "Secret") × HasNoSecret w

owned-ne : (kind : String) → contains (owned_kinds setup) kind ≡ true → kind ≢ "Secret"
unfolding setup_with_manager
owned-ne kind h e = cc (subst (λ k. contains (owned_kinds setup) k ≡ true) e h)

place-HasNoSecret :
    {S : Type 0} (kind : String) (object : Object S) (w : World) (r : Result (Object S))
    → kind ≢ "Secret"
    → HasNoSecret w
    → HasNoSecret (place kind object w r).0
place-HasNoSecret kind object w (ok o) e h = (e, h)
place-HasNoSecret kind object w (err x) e h = h
place-HasNoSecret kind object w (panic v) e h = h

no_secrets : (atom : Atom String) → IsFramed cluster setup atom HasNoSecret
no_secrets atom = record {
  calls = λ kind object mutate w is_owned _ h.
      place-HasNoSecret kind object w (mutate object) (owned-ne kind is_owned) h;
  finishes = λ results w h. h;
  fails = λ e w h. h;
}

abbrev once : World
once = (reconcile cluster reconciler env in_order in_order ("services", "sample") []).0

abbrev again : World
again = (reconcile cluster reconciler env in_order in_order ("services", "sample") once).0

twice : Reaches cluster reconciler env [] again
twice = call in_order in_order "services" "sample" (call in_order in_order "services" "sample" here)

runs_example : HasNoSecret again
runs_example =
    Reaches-frame cluster reconciler env setup HasNoSecret no_secrets (λ a w h. tt) stays [] again
      twice tt
