-- ===== src/Controller/Ingress/Order.antt =====
-- The middleware references of the storage routes, whatever the order in which `range` goes
-- through the groups.
use mathlib.Core.List.Permᴰ
use mathlib.Core.List.{Permᴰ}
use atom_operator.Prelude.{
  ℕ, zero, suc, ◌<◌, String, ◌≡◌, ◌≢◌, refl, ap, sym, ◌∙◌, subst, arith, Option, none, some, List,
  [], ◌∷◌, length, map, All, Distinct,
}
use atom_operator.Prelude.Dict.{Dict}
use atom_operator.Prelude.Result.{Result, ok, each}
use atom_operator.Api.V3.{Atom, get_download_links}
use atom_operator.Controller.Middleware.{download_link_name}
use atom_operator.Controller.Groups.{Group, get_download_link_groups}
use atom_operator.Controller.Groups.Numbers.{Numbered}
use atom_operator.Controller.Groups.Laws.{groups_lem}
use atom_operator.Controller.Ingress.{sort_names, group_ref, download_middlewares}
use atom_operator.Text.Decimal.{itoa_injective}
use text.Mathlib.TextLemmas.{append_cancel_left}
use atom_operator.Controller.Ingress.Sorting.{sort-perm}

pub All-perm {ℓ κ} :
    {A : Type ℓ} (P : A → Type κ) {xs ys : List A} → Permᴰ xs ys → All P xs → All P ys
All-perm P Permᴰ.nil h = h
All-perm P (Permᴰ.cons e p) (h, hs) = (subst P e h, All-perm P p hs)
All-perm P (Permᴰ.swap e f) (h, (k, hs)) = (subst P f k, (subst P e h, hs))
All-perm P (Permᴰ.trans p q) h = All-perm P q (All-perm P p h)

each-map {ℓ κ} :
    {A : Type ℓ} {B : Type κ} (f : A → Result B) (g : A → B) (xs : List A)
    → All (λ x. f x ≡ ok (g x)) xs
    → each f xs ≡ ok (map g xs)
unfolding each
each-map f g [] h = refl
each-map f g (x ∷ xs) (h, hs) = rw (h, each-map f g xs hs)

unfoldable pub index_or_zero : Option ℕ → ℕ
index_or_zero none = 0
index_or_zero (some i) = i

module _ {URL : Type 0} (atom : Atom URL) where
  -- The names of the middlewares `n`, `n + 1` and so on, `count` of them.
  unfoldable pub names_from : ℕ → ℕ → List String
  names_from n zero = []
  names_from n (suc count) = download_link_name atom n ∷ names_from (suc n) count

  download_link_name_injective :
      (i j : ℕ) → download_link_name atom i ≡ download_link_name atom j → i ≡ j
  unfolding download_link_name
  download_link_name_injective i j h =
      itoa_injective i j (append_cancel_left _ _ _ (append_cancel_left atom.meta.name _ _ h))

  names-fresh :
      (i n count : ℕ) → i < n → All (λ y. download_link_name atom i ≢ y) (names_from n count)
  unfolding names_from
  names-fresh i n zero h = tt
  names-fresh i n (suc count) h = (
    λ e. absurd (omega (arith, download_link_name_injective i n e)),
    names-fresh i (suc n) count (omega arith),
  )

  -- The names of the middlewares of consecutive indices are all different.
  pub names_from-Distinct : (n count : ℕ) → Distinct (names_from n count)
  unfolding names_from
  names_from-Distinct n zero = tt
  names_from-Distinct n (suc count) =
      (names-fresh n (suc n) count (omega arith), names_from-Distinct (suc n) count)

  unfoldable pub ref_name : String × Group → String
  ref_name (prefix, group) = download_link_name atom (index_or_zero group.index)

  pub refs-ok :
      (n : ℕ) (m : Dict Group)
      → Numbered n m
      → All (λ p. group_ref atom p ≡ ok (ref_name p)) m × (map ref_name m ≡ names_from n (length m))
  unfolding group_ref ref_name index_or_zero names_from
  refs-ok n [] h = (tt, refl)
  refs-ok n ((k, g) ∷ m) (i, _, h) =
      let (all, names) = refs-ok (suc n) m h in ((rw i, all), rw (i, names))

  -- Where grouping the download links returns: in whatever order `range` goes through the groups, the references of the storage routes are the
  -- names of the middlewares 0, 1 and so on, one for each group, sorted: no index is a nil pointer.
  pub download_middlewares_lem :
      (order : Dict Group → List (String × Group))
      → ((m : Dict Group) → Permᴰ m (order m))
      → {m : Dict Group} → get_download_link_groups (get_download_links atom) ≡ ok m
      → download_middlewares order atom ≡ ok (sort_names (names_from 0 (length m)))
  unfolding download_middlewares
  download_middlewares_lem order any {m} h =
      let (all, names) = refs-ok 0 m ((groups_lem _ h).0) in
      let refs = each-map (group_ref atom) ref_name (order m) (All-perm _ (any m) all) in
      let same : sort_names (map ref_name (order m)) ≡ sort_names (names_from 0 (length m)) =
        sym (sort-perm (Permᴰ.map ref_name (any m))) ∙ ap sort_names names in
      rw (h, refs, same)
