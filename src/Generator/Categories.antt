-- ===== src/Generator/Categories.antt =====
-- The categories of a dataset's entry in the service feed.
use atom_operator.Prelude.{
  true, false, ◌||◌, ◌≡◌, ◌≢◌, ◌↔◌, refl, subst, ◌∙◌, arith, inl, inr, Bool-cases, List, [], ◌∷◌,
  ◌++◌, All, All-append, Distinct, map, eq_iff,
}
use atom_operator.Api.V3.{Entry}
use atom_operator.Generator.Feeds.{Category}
use atom_operator.Generator.Links.{Env, get_category}
use atom_operator.Generator.Entries.{
  same_category, contains_category, add_category, collect_categories,
}

same_category_iff : (a b : Category) → (same_category a b ≡ true) ↔ (a ≡ b)
unfolding same_category
same_category_iff a b = ground (arith, eq_iff a.term b.term, eq_iff a.label b.label)

contains-append :
    (cs : List Category) (c d : Category)
    → contains_category (cs ++ c ∷ []) d ≡ (contains_category cs d || same_category c d)
unfolding contains_category
contains-append [] c d = ground arith
contains-append (e ∷ cs) c d = ground (arith, contains-append cs c d)

not-contains_iff :
    (cs : List Category) (c : Category) → (contains_category cs c ≡ false) ↔ All (λ d. d ≢ c) cs
unfolding contains_category
not-contains_iff [] c = (λ _. tt, λ _. refl)
not-contains_iff (d ∷ cs) c = (
  λ h. (
    λ e. ground (arith, eq_iff d.term c.term, eq_iff d.label c.label),
    (not-contains_iff cs c).0 (ground arith),
  ),
  λ (n, h). elim (Bool-cases (same_category d c)) [
    | inl e ↦ absurd (n ((same_category_iff d c).0 e))
    | inr e ↦ ground (arith, (not-contains_iff cs c).1 h)
  ],
)

Distinct-append :
    (cs : List Category) (c : Category)
    → Distinct cs
    → All (λ d. d ≢ c) cs
    → Distinct (cs ++ c ∷ [])
Distinct-append [] c h n = (tt, tt)
Distinct-append (d ∷ cs) c (h, hs) (n, ns) =
    (All-append (λ y. d ≢ y) cs (c ∷ []) h (n, tt), Distinct-append cs c hs ns)

add_category-Distinct :
    (cs : List Category) (c : Category) → Distinct cs → Distinct (add_category cs c)
unfolding add_category
add_category-Distinct cs c h = elim (Bool-cases (contains_category cs c)) [
  | inl old ↦ rw old h
  | inr new ↦ rw new (Distinct-append cs c h ((not-contains_iff cs c).0 new))
]

contains-add :
    (cs : List Category) (c d : Category)
    → contains_category (add_category cs c) d ≡ (contains_category cs d || same_category c d)
unfolding add_category
contains-add cs c d = elim (Bool-cases (contains_category cs c)) [
  | inl old ↦ elim (Bool-cases (same_category c d)) [
    | inl same ↦
        let there : contains_category cs d ≡ true =
          subst (λ x. contains_category cs x ≡ true) ((same_category_iff c d).0 same) old in
        rw (old, there)
    | inr other ↦ rw old (ground arith)
  ]
  | inr new ↦ rw (new, contains-append)
]

module _ {URL : Type 0} (env : Env URL) where
  abbrev pub categories : List (Entry URL) → List Category
  categories = map (λ e. get_category env e.srs)

  collect-Distinct :
      (es : List (Entry URL)) (cs : List Category)
      → Distinct cs
      → Distinct (collect_categories env cs es)
  unfolding collect_categories
  collect-Distinct [] cs h = h
  collect-Distinct (e ∷ es) cs h =
      collect-Distinct es (add_category cs _) (add_category-Distinct cs _ h)

  contains-collect :
      (es : List (Entry URL)) (cs : List Category) (c : Category)
      → contains_category (collect_categories env cs es) c
        ≡ (contains_category cs c || contains_category (categories es) c)
  unfolding collect_categories
  contains-collect [] cs c = unfold contains_category in ground arith
  contains-collect (e ∷ es) cs c =
      contains-collect es (add_category cs (get_category env e.srs)) c
      ∙ ground (arith, contains-add cs (get_category env e.srs) c)

  -- A dataset's entry lists the category of each of its entries, and no other, once each.
  pub collect_categories_lem :
      (es : List (Entry URL))
      → Distinct (collect_categories env [] es)
        × ((c : Category)
            → contains_category (collect_categories env [] es) c
              ≡ contains_category (categories es) c)
  collect_categories_lem es =
      (collect-Distinct es [] tt, λ c. contains-collect es [] c ∙ unfold contains_category in refl)
