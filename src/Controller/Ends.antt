-- ===== src/Controller/Ends.antt =====
-- Calls that do not panic and whose errors are of a kind `E`: any error for calls that must not
-- panic, none for calls that must succeed. One rule for each way to build a call.
pub mod Mutate
use atom_operator.Prelude.{
  String, true, ◌≡◌, refl, ◌⊎◌, Option, none, some, List, [], ◌∷◌, contains,
}
use atom_operator.Prelude.Result.{GoError, Result, ok, err, panic, ◌>>=◌, Returns}
use atom_operator.Api.Model.{ObjectMeta}
use atom_operator.Generator.Feeds.{Feeds}
use atom_operator.Controller.Objects.{Head, Object, ConfigMapSpec, Reconciler}
use atom_operator.Controller.Run.{Run, after}
use atom_operator.Controller.Cluster.{OperationResult, Answer, answer, panicked, Cluster}

abbrev pub Ends {ℓ} : (GoError → Type 0) → {A : Type ℓ} → Result A → Type 0
Ends E (ok a) = Unit
Ends E (err e) = E e
Ends E (panic v) = ⊥

-- The error of a call of `CreateOrUpdate` is of the kind, and it does not panic.
abbrev pub AnswerEnds : (GoError → Type 0) → {S : Type 0} → Answer S → Type 0
AnswerEnds E (answer op o none) = Unit
AnswerEnds E (answer op o (some e)) = E e
AnswerEnds E (panicked v) = ⊥

module _ (E : GoError → Type 0) where
  pub Ends-Returns {ℓ} : {A : Type ℓ} (r : Result A) → Returns r → Ends E r
  Ends-Returns (ok a) h = tt
  Ends-Returns (err e) (a, h) = absurd (cc)
  Ends-Returns (panic p) (a, h) = absurd (cc)

  pub Ends-bind {ℓ} :
      {A B : Type ℓ} (m : Result A) (f : A → Result B)
      → Ends E m
      → ((a : A) → m ≡ ok a → Ends E (f a))
      → Ends E (m >>= f)
  Ends-bind (ok a) f h k = k a refl
  Ends-bind (err e) f h k = h
  Ends-bind (panic p) f h k = h

  pub Ends-after {ℓ} :
      {W A B : Type ℓ} (p : W × Result A) (f : A → Run W B)
      → Ends E p.1
      → ((w : W) (a : A) → p ≡ (w, ok a) → Ends E (f a w).1)
      → Ends E (after p f).1
  Ends-after (w, ok a) f h k = k w a refl
  Ends-after (w, err e) f h k = h
  Ends-after (w, panic p) f h k = h

-- The kinds of the objects that the controller makes.
abbrev pub made_kinds : List String
made_kinds =
    "ConfigMap" ∷ "Deployment" ∷ "Service" ∷ "Middleware" ∷ "IngressRoute" ∷ "PodDisruptionBudget"
    ∷ []

-- What is known of the namespace and of the controller of an object that an owner takes.
abbrev pub FitFor : Type 1
FitFor = ObjectMeta → String → Option String → Type 0

-- The object is in the namespace of the owner, and it has no controller or one that
-- `SetControllerReference` has set for this owner.
abbrev pub Manageable : {URL : Type 0} → Reconciler URL → FitFor
Manageable r owner namespace controller =
    (namespace ≡ owner.namespace)
    × ((controller ≡ none)
        ⊎ ((before : Head) × (after : Head) × (r.set_controller_reference owner before ≡ ok after)
            × (after.controller ≡ controller)))

module _ (E : GoError → Type 0) (Fit : FitFor) where
  abbrev pub Fits : ObjectMeta → Head → Type 0
  Fits owner head = Fit owner head.namespace head.controller

  -- What the controller calls of other modules ends that way: setting a kind that the controller
  -- makes, setting the controller of a fitting object, the hash and YAML. What comes out of a
  -- fitting object fits.
  pub record CallsEnd {URL : Type 0} (r : Reconciler URL) : Type 0 where
    pub ensures :
        (kind : String) (head : Head)
        → contains made_kinds kind ≡ true
        → Ends E (r.ensure_set_gvk kind head)
    pub ensures_fits :
        (kind : String) (owner : ObjectMeta) (head : Head) {out : Head}
        → r.ensure_set_gvk kind head ≡ ok out
        → Fits owner head
        → Fits owner out
    pub controls :
        (owner : ObjectMeta) (head : Head)
        → Fits owner head
        → Ends E (r.set_controller_reference owner head)
    pub controls_fits :
        (owner : ObjectMeta) (head : Head) {out : Head}
        → r.set_controller_reference owner head ≡ ok out
        → Fits owner head
        → Fits owner out
    pub hashes : (o : Object ConfigMapSpec) → Ends E (r.add_hash_suffix o)
    pub hashes_fits :
        (owner : ObjectMeta) (o : Object ConfigMapSpec) {out : Object ConfigMapSpec}
        → r.add_hash_suffix o ≡ ok out
        → Fits owner o.head
        → Fits owner out.head
    pub marshals : (feeds : Feeds) → Ends E (r.marshal feeds)

  -- `CreateOrUpdate` for a fitting object ends that way if the mutate function does for fitting
  -- objects: what is in the cluster under that name fits too.
  pub record Serves {URL W : Type 0} (c : Cluster URL W) : Type 1 where
    pub serves :
        {S : Type 0} (kind : String) (object : Object S) (mutate : Object S → Result (Object S))
        (w : W) (owner : ObjectMeta)
        → Fits owner object.head
        → ((o : Object S) → Fits owner o.head → Ends E (mutate o))
        → AnswerEnds E (c.create_or_update kind object mutate w).1

-- No error.
abbrev pub Never : GoError → Type 0
Never e = ⊥

pub Never-Returns : {A : Type 0} (r : Result A) → Ends Never r → Returns r
Never-Returns (ok a) h = (a, refl)
Never-Returns (err e) h = absurd h
Never-Returns (panic v) h = absurd h

pub answered :
    {W S : Type 0} (p : W × Answer S)
    → AnswerEnds Never p.1
    → (op : OperationResult) × (o : Object S) × (p ≡ (p.0, answer op o none))
answered (w, answer op o none) h = (op, o, refl)
answered (w, answer op o (some e)) h = absurd h
answered (w, panicked v) h = absurd h
