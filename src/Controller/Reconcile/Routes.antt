-- ===== src/Controller/Reconcile/Routes.antt =====
-- The middlewares that the ingress route refers to.
use mathlib.Core.List.Permᴰ
use mathlib.Core.List.{Permᴰ}
use atom_operator.Prelude.{
  ℕ, suc, String, ◌≡◌, sym, ◌∙◌, subst, some, List, [], ◌∷◌, length, map, All,
}
use atom_operator.Prelude.Dict.{Dict}
use atom_operator.Prelude.Result.{ok, ok_injective}
use atom_operator.Api.Model.{OwnerInfo}
use atom_operator.Api.V3.{Atom}
use atom_operator.Generator.Links.{Env}
use atom_operator.Controller.Objects.{Reconciler}
use atom_operator.Controller.Cluster.{Cluster}
use atom_operator.Controller.Groups.{Group}
use atom_operator.Controller.Groups.Numbers.{Numbered}
use atom_operator.Controller.Groups.Laws.{groups_lem}
use atom_operator.Controller.Ingress.{download_middlewares}
use atom_operator.Controller.Ingress.Sorting.{sort_names-perm}
use atom_operator.Controller.Ingress.Order.{
  All-perm, index_or_zero, names_from, ref_name, refs-ok, download_middlewares_lem,
}
use atom_operator.Controller.Reconcile.Present.{Present}
use atom_operator.Controller.Reconcile.Steps.{Keeps, HasMiddleware}

-- Each group has an index.
pub Numbered-All :
    (n : ℕ) (m : Dict Group)
    → Numbered n m
    → All (λ (p : String × Group). (i : ℕ) × (p.1.index ≡ some i)) m
Numbered-All n [] h = tt
Numbered-All n ((key, g) ∷ m) (i, _, h) = ((n, i), Numbered-All (suc n) m h)

All-map_list {ℓ κ} :
    {A B : Type ℓ} (P : B → Type κ) (f : A → B) (xs : List A)
    → All (λ x. P (f x)) xs
    → All P (map f xs)
All-map_list P f [] h = tt
All-map_list P f (x ∷ xs) (h, hs) = (h, All-map_list P f xs hs)

module _ {URL W : Type 0} (c : Cluster URL W) (Has : String → String → String → W → Type 0)
    (k : Keeps c Has) where
  module _ (r : Reconciler URL) (env : Env URL) (atom : Atom URL) where
    names-Has :
        (w : W) (gs : List (String × Group))
        → All (λ (p : String × Group). (i : ℕ) × (p.1.index ≡ some i)) gs
        → All (HasMiddleware c Has k r env atom w) gs
        → All (λ p. Has "Middleware" atom.meta.namespace (ref_name atom p) w) gs
    unfolding ref_name index_or_zero
    names-Has w [] is hs = tt
    names-Has w ((key, g) ∷ gs) ((i, e), is) (h, hs) = (rw e (h i e), names-Has w gs is hs)

    -- Where the objects of a resource are in the cluster and `range` goes through each group once,
    -- every download middleware that its ingress route refers to is there.
    pub references-Has :
        (order order_of_routes : Dict Group → List (String × Group)) (o : OwnerInfo URL)
        → ((m : Dict Group) → Permᴰ m (order m))
        → ((m : Dict Group) → Permᴰ m (order_of_routes m))
        → (w : W) → Present c Has k r env atom order order_of_routes o w
        → {refs : List String} → download_middlewares order_of_routes atom ≡ ok refs
        → All (λ name. Has "Middleware" atom.meta.namespace name w) refs
    references-Has order order_of_routes o any any' w p h =
        let m = p.routed.groups in
        let numbered = (groups_lem _ p.routed.grouped).0 in
        let P : String → Type 0 = λ name. Has "Middleware" atom.meta.namespace name w in
        let there =
          names-Has w (order m) (All-perm _ (any m) (Numbered-All 0 m numbered))
            p.routed.downloads in
        let named : All P (map (ref_name atom) m) =
          All-map_list P (ref_name atom) m
            (All-perm (λ g. P (ref_name atom g)) (Permᴰ.symm (any m)) there) in
        let counted : All P (names_from atom 0 (length m)) =
          subst (All P) ((refs-ok atom 0 m numbered).1) named in
        subst (All P)
          (ok_injective
            (sym (download_middlewares_lem atom order_of_routes any' p.routed.grouped) ∙ h))
          (All-perm P (sort_names-perm (names_from atom 0 (length m))) counted)
