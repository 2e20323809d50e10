-- ===== src/Controller/Groups/Numbers.antt =====
-- The numbers of the groups: 0, 1 and so on, in the order of first appearance.
use atom_operator.Prelude.{
  ℕ, suc, ◌+◌, String, ◌≡◌, ◌≢◌, refl, ap, sym, ◌∙◌, subst, arith, inl, inr, Bool-cases, Option,
  none, some, List, [], ◌∷◌, ◌++◌, length, length-append, All, All-append, Distinct, str_eq,
}
use atom_operator.Prelude.Dict.{
  Dict, lookup, insert, keys, insert_new, keys-insert_old, lookup-none,
}
use atom_operator.Prelude.Result.{ok, >>=-eq-ok, ok_injective}
use atom_operator.Api.V3.{DownloadLink, get_blob_prefix, get_blob_name}
use atom_operator.Controller.Groups.{
  Group, Numbering, index_or, next_counter, add_to, add_file, groups_from,
}

-- The groups' indices are `n`, `n + 1` and so on, and each group has a file.
abbrev pub Numbered : ℕ → Dict Group → Type 0
Numbered n [] = Unit
Numbered n ((k, g) ∷ m) = (g.index ≡ some n) × (g.files ≢ []) × Numbered (suc n) m

pub record IsNumbering (s : Numbering) : Type 0 where
  pub numbered : Numbered 0 s.result
  pub counted : s.counter ≡ length s.result
  pub distinct : Distinct (keys s.result)

append-ne-nil : (xs : List String) (x : String) → xs ++ x ∷ [] ≢ []
append-ne-nil [] x h = cc
append-ne-nil (y ∷ ys) x h = cc

Numbered-append :
    (n : ℕ) (m : Dict Group) (k : String) (g : Group)
    → Numbered n m
    → g.index ≡ some (n + length m)
    → g.files ≢ []
    → Numbered n (m ++ (k, g) ∷ [])
Numbered-append n [] k g h e f = (ground arith, f, tt)
Numbered-append n ((j, w) ∷ m) k g (i, p, h) e f =
    (i, p, Numbered-append (suc n) m k g h (ground arith) f)

-- A new file at an old key keeps the numbers.
Numbered-insert :
    (n : ℕ) (m : Dict Group) (k : String) (g h : Group)
    → lookup k m ≡ some g
    → h.index ≡ g.index
    → h.files ≢ []
    → Numbered n m
    → Numbered n (insert k h m)
unfolding lookup insert
Numbered-insert n [] k g h e i f w = cc
Numbered-insert n ((j, v) ∷ m) k g h e i f (x, y, w) = elim (Bool-cases (str_eq j k)) [
  | inl same ↦ rw same (ground arith, f, w)
  | inr other ↦ rw other (x, y, Numbered-insert (suc n) m k g h (rw (other, lookup) at e) i f w)
]

-- A group that is there has an index.
pub index_of_Numbered :
    (n : ℕ) (m : Dict Group) (k : String) (g : Group)
    → lookup k m ≡ some g
    → Numbered n m
    → (i : ℕ) × (g.index ≡ some i)
unfolding lookup
index_of_Numbered n [] k g e h = absurd (cc)
index_of_Numbered n ((j, v) ∷ m) k g e (x, y, w) = elim (Bool-cases (str_eq j k)) [
  | inl same ↦ (n, ground arith)
  | inr other ↦ index_of_Numbered (suc n) m k g (rw (other, lookup) at e) w
]

length-insert_old :
    (k : String) (g h : Group) (m : Dict Group)
    → lookup k m ≡ some g
    → length (insert k h m) ≡ length m
unfolding lookup insert
length-insert_old k g h [] e = cc
length-insert_old k g h ((j, v) ∷ m) e = elim (Bool-cases (str_eq j k)) [
  | inl same ↦ rw same
  | inr other ↦ rw other (ap suc (length-insert_old k g h m (rw (other, lookup) at e)))
]

keys-append : (m : Dict Group) (k : String) (g : Group) → keys (m ++ (k, g) ∷ []) ≡ keys m ++ k ∷ []
keys-append [] k g = refl
keys-append ((j, v) ∷ m) k g = ap (λ l. j ∷ l) (keys-append m k g)

Distinct-append :
    (xs : List String) (x : String) → Distinct xs → All (λ y. y ≢ x) xs → Distinct (xs ++ x ∷ [])
Distinct-append [] x h n = (tt, tt)
Distinct-append (y ∷ ys) x (h, hs) (n, ns) =
    (All-append (λ z. y ≢ z) ys (x ∷ []) h (n, tt), Distinct-append ys x hs ns)

index_or-some : (o : Option ℕ) (i n : ℕ) → o ≡ some i → index_or o n ≡ o
unfolding index_or
index_or-some none i n e = cc
index_or-some (some j) i n e = refl

next_counter-some : (o : Option ℕ) (i n : ℕ) → o ≡ some i → next_counter o n ≡ n
unfolding next_counter
next_counter-some none i n e = cc
next_counter-some (some j) i n e = refl

add_to-IsNumbering :
    (o : Option Group) (prefix file : String) (s : Numbering)
    → lookup prefix s.result ≡ o
    → IsNumbering s
    → IsNumbering (add_to o prefix file s)
unfolding add_to
add_to-IsNumbering none p file s e h =
    let g : Group = record { index = some s.counter; files = file ∷ [] } in
    let last = insert_new p g s.result e in
    record {
      numbered =
          rw last (Numbered-append 0 s.result p g h.numbered (ground (arith, h.counted)) (λ q. cc));
      counted =
          ap suc h.counted
          ∙ omega (arith, ap length last, length-append {0} s.result ((p, g) ∷ []));
      distinct =
          rw (last, keys-append)
            (Distinct-append (keys s.result) p h.distinct (lookup-none p s.result e));
    }
add_to-IsNumbering (some g) p file s e h =
    let (i, there) = index_of_Numbered 0 s.result p g e h.numbered in
    let g' : Group = record { index = index_or g.index s.counter; files = g.files ++ file ∷ [] } in
    record {
      numbered =
          Numbered-insert 0 s.result p g g' e (index_or-some g.index i s.counter there)
            (append-ne-nil g.files file) h.numbered;
      counted =
          next_counter-some g.index i s.counter there
          ∙ h.counted
          ∙ sym (length-insert_old p g g' s.result e);
      distinct = rw (keys-insert_old p g' g s.result e) h.distinct;
    }

pub groups_from-IsNumbering :
    (links : List DownloadLink) (s : Numbering) {m : Dict Group}
    → groups_from links s ≡ ok m
    → IsNumbering s
    → Numbered 0 m × Distinct (keys m)
unfolding groups_from
groups_from-IsNumbering [] s e h =
    let same = ok_injective e in
    (subst (Numbered 0) same h.numbered, subst (λ m. Distinct (keys m)) same h.distinct)
groups_from-IsNumbering (l ∷ ls) s e h =
    let (p, _, rest) = >>=-eq-ok (get_blob_prefix l) _ e in
    groups_from-IsNumbering ls (add_file p (get_blob_name l) s) rest
      (unfold add_file in add_to-IsNumbering (lookup p s.result) p (get_blob_name l) s refl h)
