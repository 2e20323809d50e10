-- ===== src/Generator/Downloads.antt =====
-- The relations of the download links of an entry.
use native.Mathlib.Decide.{dec_lt}
use atom_operator.Prelude.{
  ℕ, suc, ◌≤◌, ◌<◌, String, Bool, false, ◌&&◌, ◌≡◌, ◌≢◌, refl, arith, inl, inr, Bool-cases, Option,
  none, some, List, [], ◌∷◌, All, All-every, str_eq, eq_iff, lt→ltb, if◌then◌else◌,
}
use atom_operator.Api.V3.{DownloadLink}
use atom_operator.Generator.Entries.{
  is_empty, default_rel, is_empty_rel, get_empty_rel_count, rel_or_default, get_download_link_rel,
}

is_alternate : ℕ → DownloadLink → Bool
is_alternate n dl = is_empty_rel dl && str_eq (get_download_link_rel dl n) "alternate"

-- The links that give no relation and become an alternate.
pub alternates : ℕ → List DownloadLink → ℕ
alternates n [] = 0
alternates n (dl ∷ dls) =
    let rest = alternates n dls in if is_alternate n dl then suc rest else rest

-- What holds of one link.
pub record RelOk (n : ℕ) (dl : DownloadLink) : Type 0 where
  pub given : get_download_link_rel dl n ≢ ""
  pub kept : (rel : String) → dl.rel ≡ some rel → rel ≢ "" → get_download_link_rel dl n ≡ rel

rel_or_default-ne : (o : Option String) (n : ℕ) → rel_or_default o n ≢ ""
unfolding rel_or_default
rel_or_default-ne none n h = ground (arith, eq_iff "section" "", eq_iff "alternate" "")
rel_or_default-ne (some r) n h =
    ground (arith, eq_iff "section" "", eq_iff "alternate" "", eq_iff r "")

rel_or_default_kept :
    (o : Option String) (n : ℕ) (rel : String) → o ≡ some rel → rel ≢ "" → rel_or_default o n ≡ rel
unfolding rel_or_default
rel_or_default_kept none n rel h k = cc
rel_or_default_kept (some r) n rel h k = ground (arith, eq_iff r "")

rel_ok : (n : ℕ) (dl : DownloadLink) → RelOk n dl
unfolding get_download_link_rel
rel_ok n dl = record { given = rel_or_default-ne dl.rel n; kept = rel_or_default_kept dl.rel n }

alternates-le-count : (n : ℕ) (dls : List DownloadLink) → alternates n dls ≤ get_empty_rel_count dls
unfolding alternates is_alternate get_empty_rel_count
alternates-le-count n [] = omega arith
alternates-le-count n (dl ∷ dls) = ground (arith, alternates-le-count n dls)

default_rel_many : (n : ℕ) → 1 < n → default_rel n ≡ "section"
unfolding default_rel
default_rel_many n h = rw (lt→ltb 1 n h)

is_empty-section :
    (o : Option String) (n : ℕ)
    → 1 < n
    → (is_empty o && str_eq (rel_or_default o n) "alternate") ≡ false
unfolding is_empty rel_or_default
is_empty-section none n h = rw (default_rel_many n h)
is_empty-section (some r) n h = elim (Bool-cases (str_eq r "")) [
  | inl e ↦ rw (e, default_rel_many n h)
  | inr e ↦ rw e
]

is_alternate_many : (n : ℕ) (dl : DownloadLink) → 1 < n → is_alternate n dl ≡ false
unfolding is_alternate is_empty_rel get_download_link_rel
is_alternate_many n dl h = is_empty-section dl.rel n h

alternates_many : (n : ℕ) → 1 < n → (dls : List DownloadLink) → alternates n dls ≡ 0
unfolding alternates
alternates_many n h [] = refl
alternates_many n h (dl ∷ dls) = rw (is_alternate_many n dl h) (alternates_many n h dls)

-- Each download link of an entry gets a relation that is not empty, its own where it gives one;
-- and of the links that give none, at most one becomes an alternate.
pub download_link_rels :
    (dls : List DownloadLink)
    → All (RelOk (get_empty_rel_count dls)) dls × (alternates (get_empty_rel_count dls) dls ≤ 1)
download_link_rels dls = (
  All-every (rel_ok (get_empty_rel_count dls)) dls,
  elim (dec_lt 1 (get_empty_rel_count dls)) [
    | yes many ↦ omega (arith, alternates_many _ many dls)
    | no few ↦ omega (arith, alternates-le-count (get_empty_rel_count dls) dls)
  ],
)
