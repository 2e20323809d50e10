-- ===== src/Controller/Reconcile/Calm.antt =====
-- Panics while a resource that was admitted is reconciled.
use mathlib.Core.List.{Permᴰ}
use atom_operator.Prelude.{String, ◌≡◌, ◌≢◌, refl, inl, none, some, List, All}
use atom_operator.Prelude.Dict.{Dict}
use atom_operator.Prelude.Result.{PanicValue, Result, panic, Returns}
use atom_operator.Api.Model.{OwnerInfo}
use atom_operator.Api.V3.{Atom, get_download_links, get_blob_prefix}
use atom_operator.Api.V3.Validation.{Checks, Client}
use atom_operator.Api.V3.Admission.{validate_create}
use atom_operator.Generator.Links.{Env}
use atom_operator.Generator.Templates.{Renders}
use atom_operator.Generator.Admitted.{admitted-Returns}
use atom_operator.Controller.Objects.{Object, Reconciler}
use atom_operator.Controller.Cluster.{Answer, answer, panicked, Cluster}
use atom_operator.Controller.Groups.{Group}
use atom_operator.Controller.Ends.{AnswerEnds, Serves}
use atom_operator.Controller.Calm.{Any, Anything, Ends-Calm, IsCalm, IsCalm-CallsEnd}
use atom_operator.Controller.Reconcile.{create_or_update_all_for_atom}
use atom_operator.Controller.Reconcile.Ends.{create-Ends}

-- `CreateOrUpdate` panics only where the mutate function does.
pub record Relays {URL W : Type 0} (c : Cluster URL W) : Type 1 where
  pub relays :
      {S : Type 0} (kind : String) (object : Object S) (mutate : Object S → Result (Object S))
      (w : W) {w' : W} {v : PanicValue}
      → c.create_or_update kind object mutate w ≡ (w', panicked v)
      → (o : Object S) × (mutate o ≡ panic v)

answer-AnswerEnds :
    {W S : Type 0} (p : W × Answer S)
    → ((w : W) (v : PanicValue) → p ≢ (w, panicked v))
    → AnswerEnds Any p.1
answer-AnswerEnds (w, answer op o none) h = tt
answer-AnswerEnds (w, answer op o (some e)) h = tt
answer-AnswerEnds (w, panicked v) h = absurd (h w v refl)

Relays-Serves : {URL W : Type 0} (c : Cluster URL W) → Relays c → Serves Any Anything c
Relays-Serves c k = record {
  serves = λ kind object mutate w owner _ h. answer-AnswerEnds _ (λ w' v e.
      let (o, e') = k.relays kind object mutate w e in Ends-Calm (mutate o) (h o tt) v e');
}

module _ {URL W : Type 0} (c : Cluster URL W) (k : Relays c) (r : Reconciler URL) (calm : IsCalm r)
    (env : Env URL) (atom : Atom URL) (order order_of_routes : Dict Group → List (String × Group))
    (any : (m : Dict Group) → Permᴰ m (order m))
    (any' : (m : Dict Group) → Permᴰ m (order_of_routes m))
    (links : All (λ l. Returns (get_blob_prefix l)) (get_download_links atom)) where
  -- Where the OwnerInfo is the one that admission saw and its templates render, each download
  -- link has a prefix, `range` goes through each group once, and what the controller calls of
  -- other modules does not panic by itself: making the objects of a resource that creation
  -- admits ends in a result or in an error, never in a panic.
  pub admitted-Calm :
      (checks : Checks URL) (client : Client URL) (w : W) (o : OwnerInfo URL) (v : PanicValue)
      → client atom.meta.namespace atom.spec.service.owner_info_ref ≡ inl o
      → Renders env o
      → (validate_create checks client atom).error ≡ none
      → (create_or_update_all_for_atom c r env order order_of_routes atom o w).1 ≢ panic v
  admitted-Calm checks client w o v seen renders admitted =
      Ends-Calm _
        (create-Ends c Any Anything (λ owner. tt) (λ text e h. tt) (Relays-Serves c k) r
          (IsCalm-CallsEnd r calm) env atom order order_of_routes any any' links o w
          (admitted-Returns checks env client atom o seen renders admitted))
        v
