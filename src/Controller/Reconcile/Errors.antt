-- ===== src/Controller/Reconcile/Errors.antt =====
-- The error that a call of `Reconcile` ends in.
use atom_operator.Prelude.{some_injective, String, false, ◌≡◌, ap, inl, some, List}
use atom_operator.Prelude.Dict.{Dict}
use atom_operator.Prelude.Result.{GoError, Result, ok, err, panic}
use atom_operator.Api.Model.{OwnerInfo}
use atom_operator.Api.V3.{Atom}
use atom_operator.Generator.Links.{Env}
use atom_operator.Controller.Objects.{Reconciler}
use atom_operator.Controller.Cluster.{Cluster}
use atom_operator.Controller.Ttl.{ttl_expired}
use atom_operator.Controller.Groups.{Group}
use atom_operator.Controller.Reconcile.{
  Results, create_or_update_all_for_atom, report, reconcile_atom, with_owner_info, with_atom,
  reconcile,
}

module _ {URL W : Type 0} (c : Cluster URL W) (r : Reconciler URL) (env : Env URL)
    (atom : Atom URL) where
  report-error :
      (p : W × Result Results) (e : GoError)
      → (report c r env atom p).1 ≡ some e
      → (report c r env atom p).0 ≡ c.update_status_error atom e p.0
  unfolding report
  report-error (w, ok results) e h = absurd (cc h)
  report-error (w, err e') e h = ap (λ x. c.update_status_error atom x w) (some_injective h)
  report-error (w, panic v) e h = ap (λ x. c.update_status_error atom x w) (some_injective h)

  -- Where the resource and its OwnerInfo are found and the resource is not expired, a call of
  -- `Reconcile` that ends in an error, also one that a panic was turned into, has written that error
  -- to the status of the resource as its last change of the cluster.
  pub reconcile-error :
      (order order_of_routes : Dict Group → List (String × Group)) (o : OwnerInfo URL) (w : W)
      (e : GoError)
      → c.get_atom w atom.meta.namespace atom.meta.name ≡ inl atom
      → c.get_owner_info w atom.meta.namespace atom.spec.service.owner_info_ref ≡ inl o
      → ttl_expired (c.now w) atom ≡ false
      → (reconcile c r env order order_of_routes (atom.meta.namespace, atom.meta.name) w).1 ≡ some e
      → (reconcile c r env order order_of_routes (atom.meta.namespace, atom.meta.name) w).0
        ≡ c.update_status_error atom e
            (create_or_update_all_for_atom c r env order order_of_routes atom o w).0
  unfolding reconcile with_atom with_owner_info reconcile_atom
  reconcile-error order order_of_routes o w e found owner live =
      rw (found, owner, live)
        (report-error (create_or_update_all_for_atom c r env order order_of_routes atom o w) e)
