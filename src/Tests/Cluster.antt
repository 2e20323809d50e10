-- ===== src/Tests/Cluster.antt =====
-- A cluster that lists its objects, and a call of `Reconcile` in it.
use mathlib.Core.List.Permᴰ
use atom_operator.Prelude.{
  ◌≡◌, ◌≢◌, refl, ap, subst, String, false, none, some, List, [], ◌∷◌, ◌⊎◌, inl, inr, All,
}
use atom_operator.Prelude.Int.{pos}
use atom_operator.Prelude.Dict.{Dict, lookup, insert}
use atom_operator.Prelude.Result.{GoError, errorf, wrapf, Result, ok, err, panic}
use atom_operator.Controller.Reconcile.Errors.{reconcile-error}
use atom_operator.Text.{last_index, take}
use atom_operator.Api.V3.{get_blob_prefix}
use atom_operator.Generator.Links.{csw_link, html_link}
use atom_operator.Controller.Objects.{Object, Reconciler}
use atom_operator.Controller.Cluster.{
  OperationResult, unchanged, created, Answer, answer, panicked, Cluster,
}
use atom_operator.Controller.Groups.{Group}
use atom_operator.Controller.Ingress.{download_middlewares}
use atom_operator.Controller.Ttl.{ttl_expired}
use atom_operator.Controller.Reconcile.{create_or_update_all_for_atom, reconcile}
use atom_operator.Controller.Reconcile.Present.{Present, reconcile-Present}
use atom_operator.Controller.Reconcile.Steps.{Keeps}
use atom_operator.Controller.Reconcile.Routes.{references-Has}
use atom_operator.Tests.Sample.{urls, env, atom, owner_info}

abbrev pub World : Type 0
World = List (String × String × String)

abbrev pub Has : String → String → String → World → Type 0
Has k namespace name [] = k ≢ k
Has k namespace name ((k', namespace', name') ∷ w) =
    ((k ≡ k') × (namespace ≡ namespace') × (name ≡ name')) ⊎ Has k namespace name w

-- Where the mutate function fails nothing changes; else the object is there.
abbrev pub place : {S : Type 0} → String → Object S → World → Result (Object S) → World × Answer S
place kind object w (ok o) =
    ((kind, object.head.namespace, object.head.name) ∷ w, answer created o none)
place kind object w (err e) = (w, answer unchanged object (some e))
place kind object w (panic v) = (w, panicked v)

abbrev pub cluster : Cluster String World
cluster = record {
  get_atom = λ w namespace name. inl atom;
  get_owner_info = λ w namespace name. inl owner_info;
  delete_atom = λ a w. ([], none);
  create_or_update = λ kind object mutate w. place kind object w (mutate object);
  update_status_error = λ a e w. w;
  update_status_finished = λ a results w. w;
  get_object_full_name = λ kind head. head.name;
  get_atom_full_name = λ a. "atom";
  now = λ w. pos 5000;
}

abbrev pub reconciler : Reconciler String
reconciler = record {
  atom_generator_image = "generator";
  lighttpd_image = "lighttpd";
  csp = "default-src 'self'";
  urls = urls;
  combine_labels = λ maps. [];
  get_uptime_annotations = λ a n t u l. a;
  ensure_set_gvk = λ kind head. ok head;
  set_controller_reference = λ owner head. ok head;
  add_hash_suffix = λ o. ok o;
  marshal = λ feeds. ok "feeds";
}

place-creates :
    {S : Type 0} (kind : String) (object : Object S) (w : World) (r : Result (Object S))
    {w' : World} {op : OperationResult} {o : Object S}
    → place kind object w r ≡ (w', answer op o none)
    → Has kind object.head.namespace object.head.name w'
place-creates kind object w (ok a) h =
    subst (Has kind object.head.namespace object.head.name) (ap (λ q. q.0) h)
      (inl (refl, refl, refl))
place-creates kind object w (err e) h = absurd (cc (ap (λ q. q.1) h))
place-creates kind object w (panic v) h = absurd (cc (ap (λ q. q.1) h))

place-keeps :
    {S : Type 0} (kind : String) (object : Object S) (w : World) (r : Result (Object S))
    (k namespace name : String)
    → Has k namespace name w
    → Has k namespace name (place kind object w r).0
place-keeps kind object w (ok a) k n m h = inr h
place-keeps kind object w (err e) k n m h = h
place-keeps kind object w (panic v) k n m h = h

pub keeps : Keeps cluster Has
keeps = record {
  creates = λ kind object mutate w h. place-creates kind object w (mutate object) h;
  keeps = λ kind object mutate w k n m h. place-keeps kind object w (mutate object) k n m h;
  status_keeps = λ a results w k n m h. h;
}

abbrev pub in_order : Dict Group → List (String × Group)
in_order m = m

no_error : (reconcile cluster reconciler env in_order in_order ("services", "sample") []).1 ≡ none
unfolding reconcile csw_link html_link get_blob_prefix last_index lookup take
no_error = refl

pub not_expired : ttl_expired (pos 5000) atom ≡ false
unfolding ttl_expired
not_expired = refl

abbrev pub cluster_after : World
cluster_after = (reconcile cluster reconciler env in_order in_order ("services", "sample") []).0

present : Present cluster Has keeps reconciler env atom in_order in_order owner_info cluster_after
present =
    reconcile-Present cluster Has keeps reconciler env atom in_order in_order owner_info [] refl
      refl not_expired no_error

present_example :
    Present cluster Has keeps reconciler env atom in_order in_order owner_info cluster_after
present_example =
    reconcile-Present cluster Has keeps reconciler env atom in_order in_order owner_info [] refl
      refl not_expired no_error

refs : (names : List String) × (download_middlewares in_order atom ≡ ok names)
unfolding download_middlewares get_blob_prefix last_index lookup take insert
refs = (_, refl)

references_example : All (λ name. Has "Middleware" "services" name cluster_after) refs.0
references_example =
    references-Has cluster Has keeps reconciler env atom in_order in_order owner_info
      (λ m. Permᴰ.refl m) (λ m. Permᴰ.refl m) cluster_after present refs.1

-- The encoder fails, and the config map with it.
abbrev pub failing : Reconciler String
failing = let r = reconciler in record r { marshal = λ feeds. err (errorf "no") }

abbrev pub marshal_error : GoError
marshal_error = wrapf "failed to marshal the generator config to yaml" (errorf "no")

error_returned :
    (reconcile cluster failing env in_order in_order ("services", "sample") []).1
    ≡ some marshal_error
unfolding reconcile csw_link html_link
error_returned = refl

error_example :
    (reconcile cluster failing env in_order in_order ("services", "sample") []).0
    ≡ cluster.update_status_error atom marshal_error
        (create_or_update_all_for_atom cluster failing env in_order in_order atom owner_info []).0
error_example =
    reconcile-error cluster failing env atom in_order in_order owner_info [] marshal_error refl refl
      not_expired error_returned
