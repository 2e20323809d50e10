-- ===== src/Controller/Ingress/Sorting.antt =====
-- The names of the middleware references, sorted.
use mathlib.Core.List.Permᴰ
use mathlib.Core.List.{Permᴰ}
use atom_operator.Prelude.{
  ◌⊎◌, String, true, false, ◌≡◌, refl, ap, ap₂, ◌∙◌, arith, inl, inr, Bool-cases, List, [], ◌∷◌,
  All, if◌then◌else◌,
}
use atom_operator.Text.{text_ltb}
use atom_operator.Text.Order.{text_ltb_trans, text_ltb_connected, text_ltb_irrefl}
use atom_operator.Controller.Ingress.{insert_name, sort_names}

below : (x y z : String) → text_ltb z x ≡ false → text_ltb z y ≡ true → text_ltb x y ≡ true
below x y z h k = elim (Bool-cases (text_ltb x y)) [
  | inl e ↦ e
  | inr e ↦ elim (Bool-cases (text_ltb y x)) [
    | inl e' ↦ absurd (cc (text_ltb_trans z y x k e'))
    | inr e' ↦ ground (arith, text_ltb_connected x y e e')
  ]
]

asym : (x y : String) → text_ltb x y ≡ true → text_ltb y x ≡ false
asym x y h = elim (Bool-cases (text_ltb y x)) [
  | inl e ↦ absurd (ground (arith, text_ltb_trans x y x h e, text_ltb_irrefl x))
  | inr e ↦ e
]

-- Two names in front of a list in the order of their names.
pair :
    (x y : String) (zs : List String)
    → (if text_ltb y x then y ∷ x ∷ zs else x ∷ y ∷ zs)
      ≡ (if text_ltb x y then x ∷ y ∷ zs else y ∷ x ∷ zs)
pair x y zs = elim (Bool-cases (text_ltb y x)) [
  | inl e ↦ rw (e, asym y x e)
  | inr e ↦ elim (Bool-cases (text_ltb x y)) [
    | inl e' ↦ rw (e, e')
    | inr e' ↦ ground (arith, text_ltb_connected x y e' e)
  ]
]

insert_after :
    (x z : String) (zs : List String)
    → text_ltb z x ≡ true
    → insert_name x (z ∷ zs) ≡ z ∷ insert_name x zs
unfolding insert_name
insert_after x z zs e = rw e

insert_before :
    (x z : String) (zs : List String) → text_ltb z x ≡ false → insert_name x (z ∷ zs) ≡ x ∷ z ∷ zs
unfolding insert_name
insert_before x z zs e = rw e

insert_commutes :
    (x y : String) (zs : List String)
    → insert_name x (insert_name y zs) ≡ insert_name y (insert_name x zs)
insert_commutes x y [] = unfold insert_name in pair x y []
insert_commutes x y (z ∷ zs) = elim (Bool-cases (text_ltb z x)) [
  | inl zx ↦ elim (Bool-cases (text_ltb z y)) [
    | inl zy ↦
        rw
          (
            insert_after x z zs zx,
            insert_after y z zs zy,
            insert_after x z _ zx,
            insert_after y z _ zy,
          )
          (ap (λ l. z ∷ l) (insert_commutes x y zs))
    | inr zy ↦ rw (
      insert_after x z zs zx,
      insert_before y z zs zy,
      insert_before y z _ zy,
      insert_after x y _ (below y x z zy zx),
      insert_after x z _ zx,
    )
  ]
  | inr zx ↦ elim (Bool-cases (text_ltb z y)) [
    | inl zy ↦ rw (
      insert_before x z zs zx,
      insert_after y z zs zy,
      insert_before x z _ zx,
      insert_after y x _ (below x y z zx zy),
      insert_after y z _ zy,
    )
    | inr zy ↦
        rw (insert_before x z zs zx, insert_before y z zs zy)
          (unfold insert_name in rw (zx, zy) (pair x y (z ∷ zs)))
  ]
]

pub sort-perm : {xs ys : List String} → Permᴰ xs ys → sort_names xs ≡ sort_names ys
unfolding sort_names
sort-perm Permᴰ.nil = refl
sort-perm (Permᴰ.cons {a} {b} {l₁} {l₂} e p) = ap₂ insert_name e (sort-perm p)
sort-perm (Permᴰ.swap {a} {b} {a'} {b'} {l} e f) = rw (e, f) (insert_commutes b' a' (sort_names l))
sort-perm (Permᴰ.trans p q) = sort-perm p ∙ sort-perm q

-- No name stands before a smaller one.
abbrev pub IsSorted : List String → Type 0
IsSorted [] = Unit
IsSorted (x ∷ xs) = All (λ y. text_ltb y x ≡ false) xs × IsSorted xs

All-insert {κ} :
    (P : String → Type κ) (x : String) (zs : List String)
    → P x
    → All P zs
    → All P (insert_name x zs)
All-insert P x [] h hs = unfold insert_name in (h, hs)
All-insert P x (z ∷ zs) h (k, hs) = elim (Bool-cases (text_ltb z x)) [
  | inl e ↦ rw (insert_after x z zs e) (k, All-insert P x zs h hs)
  | inr e ↦ rw (insert_before x z zs e) (h, (k, hs))
]

-- What is above `z` is above what `z` is above.
above-All :
    (x z : String) (zs : List String)
    → text_ltb z x ≡ false
    → All (λ y. text_ltb y z ≡ false) zs
    → All (λ y. text_ltb y x ≡ false) zs
above-All x z [] h hs = tt
above-All x z (y ∷ ys) h (k, hs) = (above (Bool-cases (text_ltb y x)), above-All x z ys h hs)
  where
    above : (text_ltb y x ≡ true) ⊎ (text_ltb y x ≡ false) → text_ltb y x ≡ false
    above (inl e) = absurd (ground (arith, below z x y k e, text_ltb_connected x z, asym z x))
    above (inr e) = e

insert-IsSorted : (x : String) (zs : List String) → IsSorted zs → IsSorted (insert_name x zs)
insert-IsSorted x [] h = unfold insert_name in (tt, tt)
insert-IsSorted x (z ∷ zs) (h, hs) = elim (Bool-cases (text_ltb z x)) [
  | inl e ↦
      rw (insert_after x z zs e)
        (All-insert (λ y. text_ltb y z ≡ false) x zs (asym z x e) h, insert-IsSorted x zs hs)
  | inr e ↦ rw (insert_before x z zs e) ((e, above-All x z zs e h), (h, hs))
]

insert-perm : (x : String) (zs : List String) → Permᴰ (x ∷ zs) (insert_name x zs)
insert-perm x [] = unfold insert_name in Permᴰ.refl (x ∷ [])
insert-perm x (z ∷ zs) = elim (Bool-cases (text_ltb z x)) [
  | inl e ↦
      rw (insert_after x z zs e)
        (Permᴰ.trans (Permᴰ.swap refl refl) (Permᴰ.cons refl (insert-perm x zs)))
  | inr e ↦ rw (insert_before x z zs e) (Permᴰ.refl (x ∷ z ∷ zs))
]

sort-IsSorted : (xs : List String) → IsSorted (sort_names xs)
unfolding sort_names
sort-IsSorted [] = tt
sort-IsSorted (x ∷ xs) = insert-IsSorted x (sort_names xs) (sort-IsSorted xs)

pub sort_names-perm : (xs : List String) → Permᴰ xs (sort_names xs)
unfolding sort_names
sort_names-perm [] = Permᴰ.nil
sort_names-perm (x ∷ xs) =
    Permᴰ.trans (Permᴰ.cons refl (sort_names-perm xs)) (insert-perm x (sort_names xs))

insert_first :
    (x : String) (zs : List String) → All (λ y. text_ltb y x ≡ false) zs → insert_name x zs ≡ x ∷ zs
insert_first x [] h = unfold insert_name in refl
insert_first x (z ∷ zs) (h, _) = insert_before x z zs h

sort_sorted : (xs : List String) → IsSorted xs → sort_names xs ≡ xs
unfolding sort_names
sort_sorted [] h = refl
sort_sorted (x ∷ xs) (h, hs) = rw (sort_sorted xs hs) (insert_first x xs h)

-- The sorted names are a sorted permutation of the names, and every sorted permutation of them is
-- that list: the algorithm of `sort.Slice` does not matter.
pub sort_names_lem :
    (xs : List String)
    → (IsSorted (sort_names xs) × Permᴰ xs (sort_names xs))
      × ((ys : List String) → Permᴰ xs ys → IsSorted ys → sort_names xs ≡ ys)
sort_names_lem xs =
    ((sort-IsSorted xs, sort_names-perm xs), λ ys p h. sort-perm p ∙ sort_sorted ys h)
