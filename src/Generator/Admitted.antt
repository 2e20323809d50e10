-- ===== src/Generator/Admitted.antt =====
-- An admitted resource has a generator configuration.
use atom_operator.Prelude.{◌≡◌, sym, ◌∙◌, subst, ◌⊎◌, inl, none}
use atom_operator.Prelude.Result.{Returns}
use atom_operator.Api.Model.{OwnerInfo}
use atom_operator.Api.V3.{Atom}
use atom_operator.Api.V3.Validation.{Checks, Client}
use atom_operator.Api.V3.Admission.{validate_create, validate_update}
use atom_operator.Api.V3.Admission.Laws.{
  IsSound, validate_create-error_iff, validate_update-error_iff,
}
use atom_operator.Generator.Links.{Env}
use atom_operator.Generator.Mapper.{map_atom_v3_to_atom_generator_config}
use atom_operator.Generator.Templates.{Renders}
use atom_operator.Generator.Safety.{map-Returns_iff}

module _ {URL : Type 0} (checks : Checks URL) (env : Env URL) (c : Client URL) where
  -- The referenced OwnerInfo, and the configuration that the mapper makes of it.
  abbrev pub HasConfig : Atom URL → Type 0
  HasConfig atom =
      (o : OwnerInfo URL) × (c atom.meta.namespace atom.spec.service.owner_info_ref ≡ inl o)
      × Returns (map_atom_v3_to_atom_generator_config env atom o)

  sound-HasConfig :
      (atom : Atom URL)
      → ((o : OwnerInfo URL)
          → c atom.meta.namespace atom.spec.service.owner_info_ref ≡ inl o
          → Renders env o)
      → IsSound checks c atom
      → HasConfig atom
  sound-HasConfig atom r s =
      let (o, found, there, urls) = s.owner_accepted in
      (o, found, (map-Returns_iff env o atom (r o found)).1 (there, urls))

  -- Where the templates of the referenced OwnerInfo render, a resource that creation admits has an
  -- OwnerInfo for which the mapper returns a configuration: no error, and no nil pointer.
  pub validate_create-HasConfig :
      (atom : Atom URL)
      → ((o : OwnerInfo URL)
          → c atom.meta.namespace atom.spec.service.owner_info_ref ≡ inl o
          → Renders env o)
      → (validate_create checks c atom).error ≡ none
      → HasConfig atom
  validate_create-HasConfig atom r h =
      sound-HasConfig atom r ((validate_create-error_iff checks c atom).0 h).1

  -- Where the templates of the referenced OwnerInfo render, a resource that an update admits has an
  -- OwnerInfo for which the mapper returns a configuration: no error, and no nil pointer.
  pub validate_update-HasConfig :
      (atom atom_old : Atom URL)
      → ((o : OwnerInfo URL)
          → c atom.meta.namespace atom.spec.service.owner_info_ref ≡ inl o
          → Renders env o)
      → (validate_update checks c atom atom_old).error ≡ none
      → HasConfig atom
  validate_update-HasConfig atom atom_old r h =
      sound-HasConfig atom r ((validate_update-error_iff checks c atom atom_old).0 h).1

inl_injective {ℓ} : {A B : Type ℓ} {x y : A} → ◌≡◌ {A = A ⊎ B} (inl x) (inl y) → x ≡ y
inl_injective h = cc

-- The mapper returns for the OwnerInfo that admission saw.
pub admitted-Returns :
    {URL : Type 0} (checks : Checks URL) (env : Env URL) (c : Client URL) (atom : Atom URL)
    (o : OwnerInfo URL)
    → c atom.meta.namespace atom.spec.service.owner_info_ref ≡ inl o
    → Renders env o
    → (validate_create checks c atom).error ≡ none
    → Returns (map_atom_v3_to_atom_generator_config env atom o)
admitted-Returns checks env c atom o seen renders admitted =
    let (o', e, mapped) =
      validate_create-HasConfig checks env c atom
        (λ o₁ e. subst (Renders env) (inl_injective (sym seen ∙ e)) renders) admitted in
    subst (λ x. Returns (map_atom_v3_to_atom_generator_config env atom x))
      (inl_injective (sym e ∙ seen)) mapped
