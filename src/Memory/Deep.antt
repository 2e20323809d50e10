-- ===== src/Memory/Deep.antt =====
-- Deep copies of values made of parts: one rule for each way to copy.
use atom_operator.Prelude.{ℕ, none, some, All, ◌<◌, ◌≡◌, refl, ap}
use atom_operator.Memory.{
  Pointer, Alloc, pure, ◌>>=◌, copy_pointer, copy_slice, as_object, pointer_addresses, Shape, plain,
  pointer, slice, pair, Fields, structure,
}
use atom_operator.Memory.Copies.{
  IsSeparateCopy, IsCopy-IsSeparateCopy, Fresh-append, IsDeep, plain-IsDeep, pointer-IsDeep,
  slice-IsDeep,
}

-- The function makes deep copies of values of the shape.
pub record Deep {A : Type 0} (s : Shape A) (copy : A → Alloc A) : Type 0 where
  pub deep : IsDeep s copy

pub plain_deep : {A : Type 0} → Deep {A = A} plain pure
plain_deep = record { deep = plain-IsDeep }

module _ {A : Type 0} {s : Shape A} {copy : A → Alloc A} where
  pub pointer_deep : Deep s copy → Deep (pointer s) (copy_pointer copy)
  pointer_deep d = record { deep = pointer-IsDeep s copy d.deep }

  pub slice_deep : Deep s copy → Deep (slice s) (copy_slice copy)
  slice_deep d = record { deep = slice-IsDeep s copy d.deep }

-- Two parts, one after the other.
abbrev pub copy_pair : {A B : Type 0} → (A → Alloc A) → (B → Alloc B) → A × B → Alloc (A × B)
copy_pair f g (a, b) = do a' ← f a; b' ← g b; pure (a', b')

-- All fields of a structure.
abbrev pub copy_structure : {T P : Type 0} → Fields T P → (P → Alloc P) → T → Alloc T
copy_structure f copy x = do p ← copy (f.to x); pure (f.from p)

module _ {A B : Type 0} {s : Shape A} {t : Shape B} {f : A → Alloc A} {g : B → Alloc B} where
  pub pair_deep : Deep s f → Deep t g → Deep (pair s t) (copy_pair f g)
  pair_deep d e = record {
    deep = λ (a, b) n.
        let c = d.deep a n in
        let c' = e.deep b (f a n).1 in
        record { fresh = Fresh-append _ _ c.fresh c'.fresh; same = λ i. (c.same i, c'.same i) };
  }

module _ {T P : Type 0} {s : Shape P} {copy : P → Alloc P} (f : Fields T P) where
  pub structure_deep : Deep s copy → Deep (structure f s) (copy_structure f copy)
  structure_deep d = record {
    deep = λ x n.
        let c = d.deep (f.to x) n in
        record {
          fresh = rw (f.parts (copy (f.to x) n).0) c.fresh;
          same = rw (f.parts (copy (f.to x) n).0) (ap f.from c.same);
        };
  }

as_object-eq : {A : Type 0} (p : Pointer A) → as_object p ≡ p
unfolding as_object
as_object-eq none = refl
as_object-eq (some r) = refl

-- Where all addresses of the original were handed out before, the copy shares none with it.
pub object-IsSeparateCopy :
    {A : Type 0} {s : Shape A} {copy : A → Alloc A} (d : Deep s copy) (p : Pointer A) (n : ℕ)
    → All (λ a. a < n) (pointer_addresses s p)
    → IsSeparateCopy (pointer s) p (as_object (copy_pointer copy p n).0)
object-IsSeparateCopy {s} {copy} d p n below =
    rw as_object-eq (IsCopy-IsSeparateCopy (pointer s) p _ below ((pointer_deep d).deep p n))
