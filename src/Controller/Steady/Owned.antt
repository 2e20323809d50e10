-- ===== src/Controller/Steady/Owned.antt =====
-- A mutate function that sets the labels and the owner of an object, called twice.
use atom_operator.Prelude.{String, ◌≡◌, refl, sym, ap, ap₂, subst, ◌∙◌, List, ◌∷◌}
use atom_operator.Prelude.Result.{Result, ok, ◌>>=◌, >>=-eq-ok, ok_injective}
use atom_operator.Api.Model.{StringMap, ObjectMeta}
use atom_operator.Api.V3.{Atom}
use atom_operator.Controller.Objects.{Head, Object, Reconciler}
use atom_operator.Controller.Labels.{get_object_labels, set_owner}

-- What the labels and the owner calls of other modules promise: combining the same labels again
-- changes nothing; the kind and the controller, once set, stay, and setting them leaves labels and
-- annotations alone.
pub record IsSteady {URL : Type 0} (r : Reconciler URL) : Type 0 where
  pub labels_again :
      (l : StringMap) (ls : List StringMap)
      → r.combine_labels (r.combine_labels (l ∷ ls) ∷ ls) ≡ r.combine_labels (l ∷ ls)
  pub kind_again :
      (kind : String) (owner : ObjectMeta) (head : Head) {between out : Head}
      → r.ensure_set_gvk kind head ≡ ok between
      → r.set_controller_reference owner between ≡ ok out
      → r.ensure_set_gvk kind out ≡ ok out
  pub controller_again :
      (owner : ObjectMeta) (head : Head) {out : Head}
      → r.set_controller_reference owner head ≡ ok out
      → r.set_controller_reference owner out ≡ ok out
  pub kind_keeps :
      (kind : String) (head : Head) {out : Head}
      → r.ensure_set_gvk kind head ≡ ok out
      → (out.labels ≡ head.labels) × (out.annotations ≡ head.annotations)
  pub controller_keeps :
      (owner : ObjectMeta) (head : Head) {out : Head}
      → r.set_controller_reference owner head ≡ ok out
      → (out.labels ≡ head.labels) × (out.annotations ≡ head.annotations)

module _ {URL : Type 0} (r : Reconciler URL) (steady : IsSteady r) (atom : Atom URL) where
  pub set_owner-again :
      (kind : String) (head : Head) {out : Head}
      → set_owner r kind atom head ≡ ok out
      → (set_owner r kind atom out ≡ ok out)
        × (out.labels ≡ head.labels)
        × (out.annotations ≡ head.annotations)
  unfolding set_owner
  set_owner-again kind head {out} h =
      let (between, e, h') = >>=-eq-ok (r.ensure_set_gvk kind head) _ h in
      let (labels, annotations) = steady.kind_keeps kind head e in
      let (labels', annotations') = steady.controller_keeps atom.meta between h' in
      (
        rw (steady.kind_again kind atom.meta head e h')
            (steady.controller_again atom.meta between h'),
        labels' ∙ labels,
        annotations' ∙ annotations,
      )

  -- New labels, and new annotations.
  abbrev pub relabel : (StringMap → StringMap) → Head → Head
  relabel annotate head = record head {
    labels = get_object_labels r atom head.labels;
    annotations = annotate head.annotations;
  }

  -- A mutate function that sets labels, annotations and owner, and makes the rest anew.
  abbrev pub owned :
      {S : Type 0} → String → (StringMap → StringMap) → (S → S) → Object S → Result (Object S)
  owned kind annotate spec o = set_owner r kind atom (relabel annotate o.head) >>= λ h.
      ok (record { head = h; spec = spec o.spec })

  pub owned-again :
      {S : Type 0} (kind : String) (annotate : StringMap → StringMap) (spec : S → S)
      → ((a : StringMap) → annotate (annotate a) ≡ annotate a)
      → ((s : S) → spec (spec s) ≡ spec s)
      → (o : Object S) {out : Object S} → owned kind annotate spec o ≡ ok out
      → owned kind annotate spec out ≡ ok out
  unfolding get_object_labels
  owned-again kind annotate spec annotate_again spec_again o {out} h =
      let (head, e, made) = >>=-eq-ok (set_owner r kind atom (relabel annotate o.head)) _ h in
      let (again, labels, annotations) = set_owner-again kind (relabel annotate o.head) e in
      let same : relabel annotate head ≡ head =
        ap₂ (λ (l : StringMap) (a : StringMap). record head { labels = l; annotations = a })
          (ap (get_object_labels r atom) labels ∙ steady.labels_again o.head.labels _ ∙ sym labels)
          (ap annotate annotations ∙ annotate_again o.head.annotations ∙ sym annotations) in
      subst (λ x. owned kind annotate spec x ≡ ok x) (ok_injective made)
        (ap (λ m. m >>= λ h. ok (record { head = h; spec = spec (spec o.spec) }))
            (ap (set_owner r kind atom) same ∙ again)
          ∙ ap (λ t. ok (record { head = head; spec = t })) (spec_again o.spec))

  pub owned-anew :
      {S : Type 0} (kind : String) (annotations : StringMap) (spec : S) (o : Object S)
      {out : Object S}
      → owned kind (λ a. annotations) (λ s. spec) o ≡ ok out
      → owned kind (λ a. annotations) (λ s. spec) out ≡ ok out
  owned-anew kind annotations spec o h =
      owned-again kind (λ a. annotations) (λ s. spec) (λ a. refl) (λ s. refl) o h

  pub owned-remade :
      {S : Type 0} (kind : String) (spec : S) (o : Object S) {out : Object S}
      → owned kind (λ a. a) (λ s. spec) o ≡ ok out
      → owned kind (λ a. a) (λ s. spec) out ≡ ok out
  owned-remade kind spec o h = owned-again kind (λ a. a) (λ s. spec) (λ a. refl) (λ s. refl) o h
