-- ===== src/Memory/Copies.antt =====
-- Deep copies: what a copy says is what the original says, and all its addresses are new.
use atom_operator.Prelude.{
  ℕ, suc, ◌≤◌, ◌<◌, ◌≡◌, ◌≢◌, refl, none, some, List, [], ◌∷◌, ◌++◌, map, All, arith,
}
use atom_operator.Memory.{
  Alloc, pure, copy_pointer, copy_items, copy_slice, Shape, plain, pointer_addresses,
  pointer_contents, pointer, item_addresses, slice_addresses, slice_contents, slice,
}

-- Between two states of the allocator the addresses were handed out.
abbrev pub Fresh : ℕ → ℕ → List ℕ → Type 0
Fresh n k xs = (n ≤ k) × All (λ a. (n ≤ a) × (a < k)) xs

Fresh-widen : {n m k : ℕ} (xs : List ℕ) → n ≤ m → Fresh m k xs → Fresh n k xs
Fresh-widen [] h f = (omega arith, tt)
Fresh-widen (x ∷ xs) h (le, (here, rest)) =
    (omega arith, ((omega arith, here.1), (Fresh-widen xs h (le, rest)).1))

Fresh-later : {n m k : ℕ} (xs : List ℕ) → m ≤ k → Fresh n m xs → Fresh n k xs
Fresh-later [] h f = (omega arith, tt)
Fresh-later (x ∷ xs) h (le, (here, rest)) =
    (omega arith, ((here.0, omega arith), (Fresh-later xs h (le, rest)).1))

pub Fresh-append : {n m k : ℕ} (xs ys : List ℕ) → Fresh n m xs → Fresh m k ys → Fresh n k (xs ++ ys)
Fresh-append [] ys f g = Fresh-widen ys f.0 g
Fresh-append (x ∷ xs) ys (le, (here, rest)) g =
    (omega arith, ((here.0, omega arith), (Fresh-append xs ys (le, rest) g).1))

-- `y`, which was made between the states `n` and `k`, is a deep copy of `x`.
pub record IsCopy {A : Type 0} (s : Shape A) (x y : A) (n k : ℕ) : Type 0 where
  pub fresh : Fresh n k (s.addresses y)
  pub same : s.contents y ≡ s.contents x

abbrev pub IsDeep : {A : Type 0} → Shape A → (A → Alloc A) → Type 0
IsDeep {A} s copy = (x : A) (n : ℕ) → IsCopy s x (copy x n).0 n (copy x n).1

pub plain-IsDeep : {A : Type 0} → IsDeep {A = A} plain pure
plain-IsDeep x n = record { fresh = (omega arith, tt); same = refl }

-- One more address in front.
Fresh-cons : {n k : ℕ} (xs : List ℕ) → Fresh (suc n) k xs → Fresh n k (n ∷ xs)
Fresh-cons {n} {k} xs f =
    let g : Fresh n k xs = Fresh-widen xs (omega arith) f in
    (g.0, ((omega arith, omega arith), g.1))

module _ {A : Type 0} (s : Shape A) (copy : A → Alloc A) (deep : IsDeep s copy) where
  pub pointer-IsDeep : IsDeep (pointer s) (copy_pointer copy)
  unfolding copy_pointer pointer_addresses pointer_contents
  pointer-IsDeep none n = record { fresh = (omega arith, tt); same = refl }
  pointer-IsDeep (some r) n =
      let c = deep r.target (suc n) in
      record {
        fresh = Fresh-cons _ c.fresh;
        same = λ i. some (record { address = 0; target = c.same i });
      }

  items-IsDeep :
      (xs : List A) (n : ℕ)
      → Fresh n (copy_items copy xs n).1 (item_addresses s (copy_items copy xs n).0)
        × (map s.contents (copy_items copy xs n).0 ≡ map s.contents xs)
  unfolding copy_items item_addresses
  items-IsDeep [] n = ((omega arith, tt), refl)
  items-IsDeep (x ∷ xs) n =
      let c = deep x n in
      let (fresh, same) = items-IsDeep xs (copy x n).1 in
      (Fresh-append _ _ c.fresh fresh, λ i. c.same i ∷ same i)

  pub slice-IsDeep : IsDeep (slice s) (copy_slice copy)
  unfolding copy_slice slice_addresses slice_contents
  slice-IsDeep none n = record { fresh = (omega arith, tt); same = refl }
  slice-IsDeep (some r) n =
      let (fresh, same) = items-IsDeep r.target (suc n) in
      record {
        fresh = Fresh-cons _ fresh;
        same = λ i. some (record { address = 0; target = same i });
      }

-- No address of the copy is one of the original: a write through the one is not seen through the
-- other.
abbrev pub Separate : List ℕ → List ℕ → Type 0
Separate xs ys = All (λ b. All (λ a. a ≢ b) xs) ys

below : {n b : ℕ} (xs : List ℕ) → All (λ a. a < n) xs → n ≤ b → All (λ a. a ≢ b) xs
below [] h le = tt
below (x ∷ xs) (here, rest) le = (λ e. absurd (omega arith), below xs rest le)

Fresh-Separate : {n k : ℕ} (xs ys : List ℕ) → All (λ a. a < n) xs → Fresh n k ys → Separate xs ys
Fresh-Separate xs [] h f = tt
Fresh-Separate xs (y ∷ ys) h (le, (here, rest)) =
    (below xs h here.0, Fresh-Separate xs ys h (le, rest))

-- A copy says what the original says, and shares no address with it.
abbrev pub IsSeparateCopy : {A : Type 0} → Shape A → A → A → Type 0
IsSeparateCopy s x y = Separate (s.addresses x) (s.addresses y) × (s.contents y ≡ s.contents x)

pub IsCopy-IsSeparateCopy :
    {A : Type 0} (s : Shape A) (x y : A) {n k : ℕ}
    → All (λ a. a < n) (s.addresses x)
    → IsCopy s x y n k
    → IsSeparateCopy s x y
IsCopy-IsSeparateCopy s x y below c = (Fresh-Separate _ _ below c.fresh, c.same)
