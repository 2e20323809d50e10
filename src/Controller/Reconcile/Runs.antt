-- ===== src/Controller/Reconcile/Runs.antt =====
-- Any number of calls of `Reconcile`, one after the other.
use atom_operator.Prelude.{String, ◌⊎◌, inl, inr, Bool-cases, List}
use atom_operator.Prelude.Dict.{Dict}
use atom_operator.Prelude.Result.{GoError}
use atom_operator.Api.Model.{OwnerInfo}
use atom_operator.Api.V3.{Atom}
use atom_operator.Generator.Links.{Env}
use atom_operator.Controller.Objects.{Reconciler}
use atom_operator.Controller.Setup.{AtomReconciler}
use atom_operator.Controller.Cluster.{Cluster}
use atom_operator.Controller.Ttl.{ttl_expired}
use atom_operator.Controller.Groups.{Group}
use atom_operator.Controller.Reconcile.{reconcile_atom, with_owner_info, with_atom, reconcile}
use atom_operator.Controller.Reconcile.Frame.{KeepsNamespace, IsFramed, create-Kept, report-Kept}

module _ {URL W : Type 0} (c : Cluster URL W) (r : Reconciler URL) (env : Env URL) where
  -- The cluster `w'` is what calls for any resources, present or not, and with any orders of the
  -- maps, make of `w`.
  pub data Reaches : W → W → Type 0 where
    here : {w : W} → Reaches w w
    call :
        {w w' : W} (order order_of_routes : Dict Group → List (String × Group))
        (namespace name : String)
        → Reaches (reconcile c r env order order_of_routes (namespace, name) w).0 w'
        → Reaches w w'

  module _ (setup : AtomReconciler) (P : W → Type 0)
      (framed : (atom : Atom URL) → IsFramed c setup atom P)
      (deletes : (atom : Atom URL) (w : W) → P w → P (c.delete_atom atom w).0)
      (stays : KeepsNamespace r) where
    module _ (order order_of_routes : Dict Group → List (String × Group)) where
      reconcile_atom-keeps :
          (atom : Atom URL) (o : OwnerInfo URL) (w : W)
          → P w
          → P (reconcile_atom c r env order order_of_routes atom o w).0
      unfolding reconcile_atom
      reconcile_atom-keeps atom o w h = elim (Bool-cases (ttl_expired (c.now w) atom)) [
        | inl over ↦ rw over (deletes atom w h)
        | inr live ↦
            let frame = framed atom in
            rw live (
              report-Kept c setup P atom frame r stays env order order_of_routes _
                (create-Kept c setup P atom frame r stays env order order_of_routes o w h))
      ]

      owner_info-keeps :
          (atom : Atom URL) (fetched : OwnerInfo URL ⊎ GoError) (w : W)
          → P w
          → P (with_owner_info c r env order order_of_routes atom fetched w).0
      unfolding with_owner_info
      owner_info-keeps atom (inl o) w h = reconcile_atom-keeps atom o w h
      owner_info-keeps atom (inr e) w h = h

      atom-keeps :
          (fetched : Atom URL ⊎ GoError) (w : W)
          → P w
          → P (with_atom c r env order order_of_routes fetched w).0
      unfolding with_atom
      atom-keeps (inl atom) w h = owner_info-keeps atom _ w h
      atom-keeps (inr e) w h = h

      reconcile-keeps :
          (namespace name : String) (w : W)
          → P w
          → P (reconcile c r env order order_of_routes (namespace, name) w).0
      unfolding reconcile
      reconcile-keeps namespace name w h = atom-keeps _ w h

    -- What holds of the cluster holds after any number of calls of `Reconcile`, for any resources,
    -- missing and expired ones too, and whatever each call ends in, if it outlives the status
    -- updates, the deletion of a resource, and the calls of `CreateOrUpdate` for objects of the kinds
    -- that `SetupWithManager` owns.
    pub Reaches-frame : (w w' : W) → Reaches w w' → P w → P w'
    Reaches-frame w w' here h = h
    Reaches-frame w w' (call order order_of_routes namespace name more) h =
        Reaches-frame _ w' more (reconcile-keeps order order_of_routes namespace name w h)
