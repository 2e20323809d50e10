-- ===== src/Prelude/Result.antt =====
-- What a Go call ends in: a result, an `error` value, or a panic. The errors that the program
-- makes or tells apart: `errors.New` and `fmt.Errorf`, a wrapping `%w`, and an API error with
-- whether `apierrors.IsNotFound` holds of it.
use mathlib.Core.Path.{◌≡◌, refl, subst}
use mathlib.Core.Bool.{Bool}
use Prim.Native.String.{String}
use mathlib.Core.List.{List, [], ◌∷◌, Forall₂}
use mathlib.Core.Option.{Option, none, some}
use atom_operator.Prelude.Lists.{All}

pub data GoError : Type 0 where
  errorf : String → GoError
  wrapf : String → GoError → GoError
  api_error : Bool → String → GoError

-- The value that `recover()` returns.
pub data PanicValue : Type 0 where
  text : String → PanicValue
  error : GoError → PanicValue
  other : PanicValue

pub data Result {ℓ} (A : Type ℓ) : Type ℓ where
  ok : A → Result A
  err : GoError → Result A
  panic : PanicValue → Result A

infixl 5 ◌>>=◌
abbrev pub ◌>>=◌ {ℓ κ} : {A : Type ℓ} {B : Type κ} → Result A → (A → Result B) → Result B
ok result >>= next = next result
err failure >>= next = err failure
panic value >>= next = panic value

-- The runtime's panics are values that implement `error`.
abbrev pub nil_pointer : PanicValue
nil_pointer = error (errorf "runtime error: invalid memory address or nil pointer dereference")

abbrev pub slice_bounds : PanicValue
slice_bounds = error (errorf "runtime error: slice bounds out of range [:-1]")

-- `*p` and `p.Field` for a pointer `p`.
abbrev pub deref {ℓ} : {A : Type ℓ} → Option A → Result A
deref none = panic nil_pointer
deref (some a) = ok a

-- A call chain that returns: its first call returned, and then its second.
pub >>=-eq-ok {κ ℓ} :
    {B : Type κ} {A : Type ℓ} (first : Result A) (next : A → Result B) {out : B}
    → (first >>= next) ≡ ok out
    → (between : A) × (first ≡ ok between) × (next between ≡ ok out)
>>=-eq-ok (ok result) next returned = (result, refl, returned)
>>=-eq-ok (err failure) next returned = cc
>>=-eq-ok (panic value) next returned = cc

-- A loop that makes one result of each item and stops at the first error or panic.
unfoldable pub each {ℓ κ} : {A : Type ℓ} {B : Type κ} → (A → Result B) → List A → Result (List B)
each f [] = ok []
each f (x ∷ xs) = do y ← f x; ys ← each f xs; ok (y ∷ ys)

-- The call returns a result: no error and no panic.
abbrev pub Returns {ℓ} : {A : Type ℓ} → Result A → Type ℓ
Returns {A} r = (a : A) × (r ≡ ok a)

pub Returns-bind {ℓ κ} :
    {A : Type ℓ} {B : Type κ} (m : Result A) (f : A → Result B)
    → Returns m
    → ((a : A) → m ≡ ok a → Returns (f a))
    → Returns (m >>= f)
Returns-bind (ok a) f (a', e) k = k a refl
Returns-bind (err e) f (a', e') k = absurd (cc)
Returns-bind (panic p) f (a', e) k = absurd (cc)

pub each-Returns {ℓ κ} :
    {A : Type ℓ} {B : Type κ} (f : A → Result B) (xs : List A)
    → All (λ x. Returns (f x)) xs
    → Returns (each f xs)
unfolding each
each-Returns f [] h = ([], refl)
each-Returns f (x ∷ xs) ((y, e), h) = let (ys, es) = each-Returns f xs h in (y ∷ ys, rw (e, es))

pub each_inverse {ℓ κ} :
    {A : Type ℓ} {B : Type κ} (f : A → Result B) (xs : List A)
    → Returns (each f xs)
    → All (λ x. Returns (f x)) xs
unfolding each
each_inverse f [] h = tt
each_inverse f (x ∷ xs) (ys, h) =
    let (z, e, h') = >>=-eq-ok (f x) _ h in
    let (zs, es, _) = >>=-eq-ok (each f xs) _ h' in ((z, e), each_inverse f xs (zs, es))

pub ok_injective {ℓ} : {A : Type ℓ} {a b : A} → ok a ≡ ok b → a ≡ b
ok_injective h = cc

pub each-Forall₂ {ℓ κ} :
    {A : Type ℓ} {B : Type κ} (f : A → Result B) (xs : List A) {ys : List B}
    → each f xs ≡ ok ys
    → Forall₂ (λ x y. f x ≡ ok y) xs ys
unfolding each
each-Forall₂ f [] h = subst (Forall₂ _ []) (ok_injective h) Forall₂.nil
each-Forall₂ f (x ∷ xs) h =
    let (z, e, h') = >>=-eq-ok (f x) _ h in
    let (zs, es, h'') = >>=-eq-ok (each f xs) _ h' in
    subst (Forall₂ _ (x ∷ xs)) (ok_injective h'') (Forall₂.cons e (each-Forall₂ f xs es))
