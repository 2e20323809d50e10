-- ===== src/Controller/Groups/Files.antt =====
-- The files of the groups: those of each prefix, in the order of the links.
use mathlib.Core.List.Memᴰ
use mathlib.Core.List.{Memᴰ}
use atom_operator.Prelude.{
  eq_refl, String, Bool, true, false, ◌≡◌, refl, ap, sym, ◌∙◌, subst, inl, inr, Bool-cases, Option,
  none, some, List, [], ◌∷◌, ◌++◌, append_assoc, append-nil, str_eq, eq_iff, if◌then◌else◌,
}
use atom_operator.Prelude.Dict.{Dict, lookup, lookup-insert}
use atom_operator.Prelude.Result.{Result, ok, err, panic, >>=-eq-ok, ok_injective}
use atom_operator.Api.V3.{DownloadLink, get_blob_prefix, get_blob_name}
use atom_operator.Controller.Groups.{Group, Numbering, add_to, add_file, groups_from}

-- The files at a key.
abbrev files_of : Option Group → List String
files_of none = []
files_of (some g) = g.files

abbrev pub files_at : String → Dict Group → List String
files_at p m = files_of (lookup p m)

-- The names of the blobs with a prefix, in order.
has_prefix : String → Result String → Bool
has_prefix p (ok q) = str_eq q p
has_prefix p (err e) = false
has_prefix p (panic v) = false

pub files_with : String → List DownloadLink → List String
unfolding has_prefix
files_with p [] = []
files_with p (l ∷ ls) =
    let rest = files_with p ls in
    if has_prefix p (get_blob_prefix l) then get_blob_name l ∷ rest else rest

-- One more file at its prefix.
files_at-add_to :
    (o : Option Group) (prefix file p : String) (s : Numbering)
    → lookup prefix s.result ≡ o
    → files_at p (add_to o prefix file s).result
      ≡ files_at p s.result ++ (if str_eq prefix p then file ∷ [] else [])
unfolding add_to
files_at-add_to none prefix file p s e = elim (Bool-cases (str_eq prefix p)) [
  | inl same ↦
      let there : lookup p s.result ≡ none =
        subst (λ x. lookup x s.result ≡ none) ((eq_iff prefix p).0 same) e in
      rw (lookup-insert, same, there)
  | inr other ↦ rw (lookup-insert, other, append-nil)
]
files_at-add_to (some g) prefix file p s e = elim (Bool-cases (str_eq prefix p)) [
  | inl same ↦
      let there : lookup p s.result ≡ some g =
        subst (λ x. lookup x s.result ≡ some g) ((eq_iff prefix p).0 same) e in
      rw (lookup-insert, same, there)
  | inr other ↦ rw (lookup-insert, other, append-nil)
]

if-append :
    (b : Bool) (x : String) (xs : List String)
    → (if b then x ∷ [] else []) ++ xs ≡ (if b then x ∷ xs else xs)
if-append true x xs = refl
if-append false x xs = refl

files_with-cons :
    (l : DownloadLink) (ls : List DownloadLink) (q p : String)
    → get_blob_prefix l ≡ ok q
    → files_with p (l ∷ ls)
      ≡ (if str_eq q p then get_blob_name l ∷ files_with p ls else files_with p ls)
unfolding files_with
files_with-cons l ls q p e = rw (e, has_prefix)

pub groups_from-files :
    (links : List DownloadLink) (s : Numbering) {m : Dict Group}
    → groups_from links s ≡ ok m
    → (p : String) → files_at p m ≡ files_at p s.result ++ files_with p links
unfolding groups_from
groups_from-files [] s e p =
    unfold files_with in ap (files_at p) (sym (ok_injective e)) ∙ sym (append-nil _)
groups_from-files (l ∷ ls) s e p =
    let (q, here, rest) = >>=-eq-ok (get_blob_prefix l) _ e in
    groups_from-files ls (add_file q (get_blob_name l) s) rest p
    ∙ ap (λ t. t ++ files_with p ls)
        (unfold add_file in files_at-add_to (lookup q s.result) q (get_blob_name l) p s refl)
    ∙ append_assoc (files_at p s.result) _ (files_with p ls)
    ∙ ap (λ t. files_at p s.result ++ t)
        (if-append (str_eq q p) (get_blob_name l) (files_with p ls)
          ∙ sym (files_with-cons l ls q p here))

-- A file at a key stands in a group.
pub files_at_inverse :
    (m : Dict Group) (p file : String)
    → Memᴰ file (files_at p m)
    → (g : Group) × (lookup p m ≡ some g) × Memᴰ file g.files
files_at_inverse m p file h = found (lookup p m) refl h
  where
    found :
        (o : Option Group)
        → lookup p m ≡ o
        → Memᴰ file (files_of o)
        → (g : Group) × (lookup p m ≡ some g) × Memᴰ file g.files
    found none e h = absurd (Memᴰ.not-nil h)
    found (some g) e h = (g, e, h)

has_prefix-ok : (p : String) (r : Result String) → r ≡ ok p → has_prefix p r ≡ true
unfolding has_prefix
has_prefix-ok p r e = rw e (eq_refl p)

-- The name of each link is among those of its prefix.
pub files_with-mem :
    (links : List DownloadLink) (l : DownloadLink) (p : String)
    → Memᴰ l links
    → get_blob_prefix l ≡ ok p
    → Memᴰ (get_blob_name l) (files_with p links)
unfolding files_with
files_with-mem [] l p m e = absurd (Memᴰ.not-nil m)
files_with-mem (k ∷ ks) l p (Memᴰ.head same) e =
    rw (has_prefix-ok p (get_blob_prefix k) (subst (λ x. get_blob_prefix x ≡ ok p) same e))
      (Memᴰ.head (ap get_blob_name same))
files_with-mem (k ∷ ks) l p (Memᴰ.tail m) e =
    let rest = files_with-mem ks l p m e in
    elim (Bool-cases (has_prefix p (get_blob_prefix k))) [
      | inl same ↦ rw same (Memᴰ.tail rest)
      | inr other ↦ rw other rest
    ]
