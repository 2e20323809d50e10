-- ===== src/Memory.antt =====
-- Go values in memory: what a pointer or a slice refers to stands at an address, and a value with
-- such parts holds their addresses. A slice has the items up to its length.
pub mod Copies
pub mod Deep
use atom_operator.Prelude.{ℕ, suc, String, ◌≡◌, Option, none, some, List, [], ◌∷◌, ◌++◌, map}
use atom_operator.Prelude.Int.{ℤ}

pub record Ref (A : Type 0) : Type 0 where
  pub address : ℕ
  pub target : A

-- `*A`
abbrev pub Pointer : Type 0 → Type 0
Pointer A = Option (Ref A)

-- `[]A`
abbrev pub Slice : Type 0 → Type 0
Slice A = Option (Ref (List A))

-- A computation that may allocate; the state is the next free address.
abbrev pub Alloc : Type 0 → Type 0
Alloc A = ℕ → A × ℕ

abbrev pub pure : {A : Type 0} → A → Alloc A
pure a n = (a, n)

infixl 5 ◌>>=◌
abbrev pub ◌>>=◌ : {A B : Type 0} → Alloc A → (A → Alloc B) → Alloc B
(m >>= f) n = f (m n).0 (m n).1

-- `new` and `make`: a place of its own.
abbrev pub allocate : Alloc ℕ
allocate n = (n, suc n)

module _ {A : Type 0} (copy : A → Alloc A) where
  -- The copy of an optional pointer: nil, or a new target that the argument fills.
  unfoldable pub copy_pointer : Pointer A → Alloc (Pointer A)
  copy_pointer none = pure none
  copy_pointer (some r) = do
    address ← allocate
    target ← copy r.target
    pure (some (record { address = address; target = target }))

  -- The loop over the items.
  unfoldable pub copy_items : List A → Alloc (List A)
  copy_items [] = pure []
  copy_items (x ∷ xs) = do y ← copy x; ys ← copy_items xs; pure (y ∷ ys)

  -- The copy of a slice: nil, or a new array with copies of the items.
  unfoldable pub copy_slice : Slice A → Alloc (Slice A)
  unfolding copy_items
  copy_slice none = pure none
  copy_slice (some r) = do
    address ← allocate
    target ← copy_items r.target
    pure (some (record { address = address; target = target }))

-- `if c != nil { return c }; return nil`: an interface that is nil, and not one that holds a nil
-- pointer.
unfoldable pub as_object : {A : Type 0} → Pointer A → Pointer A
as_object none = none
as_object (some r) = some r

-- The addresses that a value holds, directly or through its parts, and the value with every address
-- replaced by 0: what it says, wherever it stands.
pub record Shape (A : Type 0) : Type 0 where
  pub addresses : A → List ℕ
  pub contents : A → A

-- A value without pointers and slices.
abbrev pub plain : {A : Type 0} → Shape A
plain = record { addresses = λ x. []; contents = λ x. x }

abbrev pub text : Shape String
text = plain

abbrev pub integer : Shape ℤ
integer = plain

abbrev pub pair : {A B : Type 0} → Shape A → Shape B → Shape (A × B)
pair s t = record {
  addresses = λ p. s.addresses p.0 ++ t.addresses p.1;
  contents = λ p. (s.contents p.0, t.contents p.1);
}

-- A structure as the tuple of all its fields.
pub record Fields (T P : Type 0) : Type 0 where
  pub to : T → P
  pub from : P → T
  pub whole : (x : T) → from (to x) ≡ x
  pub parts : (p : P) → to (from p) ≡ p

abbrev pub structure : {T P : Type 0} → Fields T P → Shape P → Shape T
structure f s = record {
  addresses = λ x. s.addresses (f.to x);
  contents = λ x. f.from (s.contents (f.to x));
}

module _ {A : Type 0} (s : Shape A) where
  unfoldable pub pointer_addresses : Pointer A → List ℕ
  pointer_addresses none = []
  pointer_addresses (some r) = r.address ∷ s.addresses r.target

  unfoldable pub pointer_contents : Pointer A → Pointer A
  pointer_contents none = none
  pointer_contents (some r) = some (record { address = 0; target = s.contents r.target })

  abbrev pub pointer : Shape (Pointer A)
  pointer = record { addresses = pointer_addresses; contents = pointer_contents }

  unfoldable pub item_addresses : List A → List ℕ
  item_addresses [] = []
  item_addresses (x ∷ xs) = s.addresses x ++ item_addresses xs

  unfoldable pub slice_addresses : Slice A → List ℕ
  slice_addresses none = []
  slice_addresses (some r) = r.address ∷ item_addresses r.target

  unfoldable pub slice_contents : Slice A → Slice A
  slice_contents none = none
  slice_contents (some r) = some (record { address = 0; target = map s.contents r.target })

  abbrev pub slice : Shape (Slice A)
  slice = record { addresses = slice_addresses; contents = slice_contents }
