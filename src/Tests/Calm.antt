-- ===== src/Tests/Calm.antt =====
-- An admitted resource, and a call in the cluster that lists its objects.
use mathlib.Core.List.Permᴰ
use atom_operator.Prelude.{◌≡◌, ◌≢◌, refl, String, [], All}
use atom_operator.Prelude.Result.{PanicValue, Result, ok, err, panic, nil_pointer, Returns}
use atom_operator.Text.{last_index, take}
use atom_operator.Api.V3.{get_download_links, get_blob_prefix}
use atom_operator.Controller.Objects.{Object}
use atom_operator.Controller.Cluster.{panicked}
use atom_operator.Controller.Calm.{IsCalm, Ends-Calm}
use atom_operator.Controller.Reconcile.{create_or_update_all_for_atom}
use atom_operator.Controller.Reconcile.Calm.{Relays, admitted-Calm}
use atom_operator.Tests.Sample.{env, checks, atom, client, owner_info}
use atom_operator.Tests.Generator.{renders, created}
use atom_operator.Tests.Cluster.{World, place, cluster, reconciler, in_order}

calm : IsCalm reconciler
calm = record {
  ensures = λ kind head. Ends-Calm (ok head) tt;
  controls = λ owner head. Ends-Calm (ok head) tt;
  hashes = λ o. Ends-Calm (ok o) tt;
  marshals = λ feeds. Ends-Calm (ok "feeds") tt;
}

place-panic :
    {S : Type 0} (kind : String) (object : Object S) (w : World) (r : Result (Object S))
    {w' : World} {v : PanicValue}
    → place kind object w r ≡ (w', panicked v)
    → r ≡ panic v
place-panic kind object w (ok o) h = absurd (cc)
place-panic kind object w (err e) h = absurd (cc)
place-panic kind object w (panic v) h = cc

relays : Relays cluster
relays = record {
  relays = λ kind object mutate w e. (object, place-panic kind object w (mutate object) e);
}

pub prefixes : All (λ l. Returns (get_blob_prefix l)) (get_download_links atom)
unfolding get_download_links get_blob_prefix last_index take
prefixes = ((_, refl), ((_, refl), ((_, refl), tt)))

admitted_example :
    (create_or_update_all_for_atom cluster reconciler env in_order in_order atom owner_info []).1
    ≢ panic nil_pointer
admitted_example =
    admitted-Calm cluster relays reconciler calm env atom in_order in_order (λ m. Permᴰ.refl m)
      (λ m. Permᴰ.refl m) prefixes checks client [] owner_info nil_pointer refl (renders owner_info)
      created
