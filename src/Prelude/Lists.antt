-- ===== src/Prelude/Lists.antt =====
-- Lists: lengths by native numbers, predicates by recursion, membership tests on texts.
use Prim.Native.Nat.{ℕ, suc, ◌+◌}
use Prim.Native.String.{String}
use mathlib.Core.Path.{◌≡◌, refl, ap}
use mathlib.Core.Logic.{◌≢◌, ◌↔◌}
use mathlib.Core.Bool.{Bool, false, ◌||◌}
use mathlib.Core.List.{List, [], ◌∷◌, ◌++◌, map, Forall₂}
use native.Mathlib.Omega.{arith}
use text.Mathlib.Text.{◌==◌}

module _ {ℓ} {A : Type ℓ} where
  abbrev pub length : List A → ℕ
  length [] = 0
  length (x ∷ xs) = suc (length xs)

  pub length-append : (xs ys : List A) → length (xs ++ ys) ≡ length xs + length ys
  length-append [] ys = omega arith
  length-append (x ∷ xs) ys = omega (arith, length-append xs ys)

module _ {ℓ} {A : Type ℓ} where
  pub length-map {κ} : {B : Type κ} (xs : List A) (f : A → B) → length (map f xs) ≡ length xs
  length-map [] f = refl
  length-map (x ∷ xs) f = ap suc (length-map xs f)

module _ {ℓ κ} {A : Type ℓ} (P : A → Type κ) where
  abbrev pub All : List A → Type κ
  All [] = Unit
  All (x ∷ xs) = P x × All xs

  pub All-append : (xs ys : List A) → All xs → All ys → All (xs ++ ys)
  All-append [] ys hx hy = hy
  All-append (x ∷ xs) ys hx hy = (hx.0, All-append xs ys hx.1 hy)

pub All-every {ℓ κ} : {A : Type ℓ} {P : A → Type κ} → ((x : A) → P x) → (xs : List A) → All P xs
All-every f [] = tt
All-every f (x ∷ xs) = (f x, All-every f xs)

pub All-map {ℓ κ μ} :
    {A : Type ℓ} {P : A → Type κ} {Q : A → Type μ}
    → ((x : A) → P x → Q x)
    → (xs : List A) → All P xs
    → All Q xs
All-map f [] h = tt
All-map f (x ∷ xs) (p, h) = (f x p, All-map f xs h)

-- No two items are equal.
abbrev pub Distinct {ℓ} : {A : Type ℓ} → List A → Type ℓ
Distinct [] = Unit
Distinct (x ∷ xs) = All (λ y. x ≢ y) xs × Distinct xs

-- `slices.Contains` on texts.
abbrev pub contains : List String → String → Bool
contains [] s = false
contains (x ∷ xs) s = s == x || contains xs s

pub append-eq-nil_iff {ℓ} :
    {A : Type ℓ} (xs ys : List A) → (xs ++ ys ≡ []) ↔ ((xs ≡ []) × (ys ≡ []))
append-eq-nil_iff [] ys = (λ h. (refl, h), λ h. h.1)
append-eq-nil_iff (x ∷ xs) ys = (λ h. cc, λ h. absurd (cc (h.0)))

pub contains-append :
    (xs ys : List String) (s : String) → contains (xs ++ ys) s ≡ (contains xs s || contains ys s)
contains-append [] ys s = refl
contains-append (x ∷ xs) ys s = ground (arith, contains-append xs ys s)

-- `Forall₂ R xs ys`: the lists have the same length, and the items at each position are related.
pub Forall₂-map {ℓ κ μ ν} :
    {A : Type ℓ} {B : Type κ} {R : A → B → Type μ} {S : A → B → Type ν}
    → ((x : A) (y : B) → R x y → S x y)
    → {xs : List A} {ys : List B} → Forall₂ R xs ys
    → Forall₂ S xs ys
Forall₂-map f Forall₂.nil = Forall₂.nil
Forall₂-map f (Forall₂.cons r rs) = Forall₂.cons (f _ _ r) (Forall₂-map f rs)
