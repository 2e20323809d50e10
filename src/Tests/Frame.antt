-- ===== src/Tests/Frame.antt =====
-- A cluster whose objects all stand in one namespace, and a call of `Reconcile` in it.
use atom_operator.Prelude.{◌≡◌, refl, String, [], ◌∷◌}
use atom_operator.Prelude.Result.{Result, ok, err, panic, ok_injective}
use atom_operator.Controller.Objects.{Object}
use atom_operator.Controller.Setup.{AtomReconciler}
use atom_operator.Controller.Reconcile.{reconcile}
use atom_operator.Controller.Reconcile.Frame.{KeepsNamespace, IsFramed, reconcile-frame}
use atom_operator.Tests.Sample.{env, atom, owner_info}
use atom_operator.Tests.Cluster.{World, place, cluster, reconciler, in_order, not_expired}

abbrev pub setup : AtomReconciler
setup = record { atom_generator_image = "generator"; lighttpd_image = "lighttpd"; csp = "" }

pub stays : KeepsNamespace reconciler
stays = record {
  ensures = λ kind head e. cc (ok_injective e);
  controls = λ owner head e. cc (ok_injective e);
  hashes = λ o e. cc (ok_injective e);
}

-- Every object stands in the namespace of the resource.
abbrev InServices : World → Type 0
InServices [] = Unit
InServices ((kind, namespace, name) ∷ w) = (namespace ≡ "services") × InServices w

place-InServices :
    {S : Type 0} (kind : String) (object : Object S) (w : World) (r : Result (Object S))
    → object.head.namespace ≡ "services"
    → InServices w
    → InServices (place kind object w r).0
place-InServices kind object w (ok o) e h = (e, h)
place-InServices kind object w (err x) e h = h
place-InServices kind object w (panic v) e h = h

framed : IsFramed cluster setup atom InServices
framed = record {
  calls = λ kind object mutate w _ e h. place-InServices kind object w (mutate object) e h;
  finishes = λ results w h. h;
  fails = λ e w h. h;
}

frame_example :
    InServices
      (reconcile cluster reconciler env in_order in_order
        ("services", "sample")
        (("Secret", "services", "token") ∷ [])).0
frame_example =
    reconcile-frame cluster setup InServices atom framed reconciler stays env in_order in_order
      owner_info (("Secret", "services", "token") ∷ []) refl refl not_expired (refl, tt)
