-- ===== src/Webhook/Laws.antt =====
-- Which objects the webhook admits.
use atom_operator.Prelude.{◌≡◌, ◌≢◌, ◌↔◌, refl, ◌⊎◌, inl, inr, Option, none, some}
use atom_operator.Prelude.Result.{GoError}
use atom_operator.Api.V3.Validation.{Checks, Client}
use atom_operator.Api.V3.Admission.{Invalid, Verdict, validate_update}
use atom_operator.Api.V3.Admission.Laws.{IsSound, IsSuccessor, validate_update-error_iff}
use atom_operator.Webhook.{
  RuntimeObject, answer_of, unexpected, validate_new_object, validate_update_object,
}

answer_of-error_iff : (v : Verdict) → ((answer_of v).error ≡ none) ↔ (v.error ≡ none)
unfolding answer_of
answer_of-error_iff v = wrapped v.error
  where
    wrapped :
        (o : Option Invalid)
        → (◌≡◌ {A = Option (GoError ⊎ Invalid)}
            (elim o [ none ↦ none | some i ↦ some (inr i) ])
            none)
          ↔ (o ≡ none)
    wrapped none = (λ _. refl, λ _. refl)
    wrapped (some i) = (λ h. cc, λ h. cc)

module _ {URL : Type 0} (checks : Checks URL) (client : Client URL) where
  -- What creation asks of an object: it is an Atom of v3, its labels pass, and it is sound.
  abbrev pub Creatable : RuntimeObject URL → Type 0
  Creatable (inl atom) =
      (checks.validate_labels_on_create atom.meta.labels ≡ none) × IsSound checks client atom
  Creatable (inr type_name) = type_name ≢ type_name

  -- What an update asks: both objects are Atoms of v3, and the new one is sound and a successor.
  abbrev pub Updatable : RuntimeObject URL → RuntimeObject URL → Type 0
  Updatable (inl atom_old) (inl atom) =
      IsSuccessor checks atom atom_old × IsSound checks client atom
  Updatable (inl atom_old) (inr type_name) = type_name ≢ type_name
  Updatable (inr old_type) obj = old_type ≢ old_type

  -- The webhook answers an update without an error exactly when both objects are Atoms of v3 and the
  -- new one is sound and a successor of the old one.
  pub validate_update_object-error_iff :
      (old_obj obj : RuntimeObject URL)
      → ((validate_update_object checks client old_obj obj).error ≡ none) ↔ Updatable old_obj obj
  unfolding validate_update_object validate_new_object unexpected
  validate_update_object-error_iff (inl atom_old) (inl atom) =
      let own = validate_update-error_iff checks client atom atom_old in
      let answer = answer_of-error_iff (validate_update checks client atom atom_old) in
      (λ h. own.0 (answer.0 h), λ h. answer.1 (own.1 h))
  validate_update_object-error_iff (inl atom_old) (inr type_name) =
      (λ h. absurd (cc h), λ h. absurd (h refl))
  validate_update_object-error_iff (inr old_type) (inl atom) =
      (λ h. absurd (cc h), λ h. absurd (h refl))
  validate_update_object-error_iff (inr old_type) (inr type_name) =
      (λ h. absurd (cc h), λ h. absurd (h refl))
