-- ===== src/Prelude/Dict.antt =====
-- A map with text keys, as an association list with one pair for a key; a new key comes last.
use atom_operator.Prelude.{
  String, ◌≡◌, ◌≢◌, refl, ap, ap₂, sym, some_injective, arith, inl, inr, Bool-cases, Option, none,
  some, List, [], ◌∷◌, ◌++◌, All, str_eq, eq_iff, if◌then◌else◌,
}

abbrev pub Dict {ℓ} : Type ℓ → Type ℓ
Dict V = List (String × V)

module _ {ℓ} {V : Type ℓ} where
  unfoldable pub lookup : String → Dict V → Option V
  lookup key [] = none
  lookup key ((first, value) ∷ rest) = if str_eq first key then some value else lookup key rest

  unfoldable pub insert : String → V → Dict V → Dict V
  insert key value [] = (key, value) ∷ []
  insert key value ((first, old) ∷ rest) =
      if str_eq first key then (key, value) ∷ rest else (first, old) ∷ insert key value rest

  abbrev pub keys : Dict V → List String
  keys [] = []
  keys ((k, v) ∷ m) = k ∷ keys m

  pub lookup-insert :
      (key asked : String) (value : V) (dict : Dict V)
      → lookup asked (insert key value dict)
        ≡ (if str_eq key asked then some value else lookup asked dict)
  unfolding insert lookup
  lookup-insert key asked value [] = refl
  lookup-insert key asked value ((first, old) ∷ rest) = ground (
    lookup-insert key asked value rest,
    eq_iff first key,
    eq_iff first asked,
    eq_iff key asked,
    arith,
  )

  -- A new key comes last.
  pub insert_new :
      (k : String) (v : V) (m : Dict V) → lookup k m ≡ none → insert k v m ≡ m ++ (k, v) ∷ []
  unfolding lookup insert
  insert_new k v [] h = refl
  insert_new k v ((j, w) ∷ m) h = elim (Bool-cases (str_eq j k)) [
    | inl e ↦ absurd (ground arith)
    | inr e ↦ rw e (ap (λ l. (j, w) ∷ l) (insert_new k v m (rw (e, lookup) at h)))
  ]

  -- The value that is there.
  pub insert_same : (k : String) (v : V) (m : Dict V) → lookup k m ≡ some v → insert k v m ≡ m
  unfolding lookup insert
  insert_same k v [] e = cc
  insert_same k v ((j, w) ∷ m) e = elim (Bool-cases (str_eq j k)) [
    | inl same ↦ rw same (
        ap₂ (λ (key : String) (value : V). (key, value) ∷ m) (sym ((eq_iff j k).0 same))
          (some_injective (sym (rw (same, lookup) at e))))
    | inr other ↦ rw other (ap (λ t. (j, w) ∷ t) (insert_same k v m (rw (other, lookup) at e)))
  ]

  -- An old key stays where it is.
  pub keys-insert_old :
      (k : String) (v w : V) (m : Dict V) → lookup k m ≡ some w → keys (insert k v m) ≡ keys m
  unfolding lookup insert
  keys-insert_old k v w [] h = cc
  keys-insert_old k v w ((j, u) ∷ m) h = elim (Bool-cases (str_eq j k)) [
    | inl e ↦ ground (arith, eq_iff j k)
    | inr e ↦ rw e (ap (λ l. j ∷ l) (keys-insert_old k v w m (rw (e, lookup) at h)))
  ]

  pub lookup-none : (k : String) (m : Dict V) → lookup k m ≡ none → All (λ j. j ≢ k) (keys m)
  unfolding lookup
  lookup-none k [] h = tt
  lookup-none k ((j, w) ∷ m) h = elim (Bool-cases (str_eq j k)) [
    | inl e ↦ absurd (ground arith)
    | inr e ↦ ((λ p. ground (arith, eq_iff j k)), lookup-none k m (rw (e, lookup) at h))
  ]
