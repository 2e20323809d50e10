-- ===== src/Controller/Ingress/Names.antt =====
-- The names of the middlewares of a resource.
use atom_operator.Prelude.{
  ℕ, zero, suc, String, ◌≡◌, ◌≢◌, refl, sym, ap, true, false, str_eq, eq_iff, ◌∙◌, ◌∷◌, All,
  Distinct,
}
use atom_operator.Text.{◌+s◌, take, itoa}
use text.Mathlib.TextLemmas.{append_cancel_left, append_assoc}
use atom_operator.Text.Split.{text_length, take_left}
use atom_operator.Api.V3.{Atom}
use atom_operator.Controller.Middleware.{
  download_link_name, get_bare_strip_prefix_middleware, get_bare_headers_middleware,
}
use atom_operator.Controller.Ingress.Order.{names_from, names_from-Distinct}

false-ne-true : false ≢ true
false-ne-true h = cc

-- The seven first characters of the middlewares' suffixes tell the two fixed ones from the others.
other_suffix :
    (suffix start rest : String)
    → text_length start ≡ 7
    → str_eq (take 7 suffix) start ≡ false
    → (t : String) → suffix ≢ start +s rest +s t
other_suffix suffix start rest seven other t e =
    let same : take 7 suffix ≡ start =
      ap (take 7) e
      ∙ ap (λ n. take n (start +s rest +s t)) (sym seven)
      ∙ take_left start (rest +s t) in
    false-ne-true (sym other ∙ (eq_iff (take 7 suffix) start).1 same)

module _ {URL : Type 0} (atom : Atom URL) where
  pub strip-ne-download :
      (i : ℕ) → (get_bare_strip_prefix_middleware atom).head.name ≢ download_link_name atom i
  unfolding get_bare_strip_prefix_middleware download_link_name take text_length
  strip-ne-download i e =
      other_suffix "-atom-prefixstrip" "-atom-d" "ownloads-" refl refl (itoa i)
        (append_cancel_left atom.meta.name _ _ e ∙ append_assoc "-atom-d" "ownloads-" (itoa i))

  pub headers-ne-download :
      (i : ℕ) → (get_bare_headers_middleware atom).head.name ≢ download_link_name atom i
  unfolding get_bare_headers_middleware download_link_name take text_length
  headers-ne-download i e =
      other_suffix "-atom-headers" "-atom-d" "ownloads-" refl refl (itoa i)
        (append_cancel_left atom.meta.name _ _ e ∙ append_assoc "-atom-d" "ownloads-" (itoa i))

  pub strip-ne-headers :
      (get_bare_strip_prefix_middleware atom).head.name
      ≢ (get_bare_headers_middleware atom).head.name
  unfolding get_bare_strip_prefix_middleware get_bare_headers_middleware
  strip-ne-headers e = cc (append_cancel_left atom.meta.name _ _ e)

  All-names :
      (P : String → Type 0)
      → ((i : ℕ) → P (download_link_name atom i))
      → (n count : ℕ) → All P (names_from atom n count)
  unfolding names_from
  All-names P h n zero = tt
  All-names P h n (suc count) = (h n, All-names P h (suc n) count)

  -- The middlewares of a resource have different names: the one that strips the path, the one that
  -- sets the headers, and those of any number of groups of download links.
  pub middleware_names-Distinct :
      (count : ℕ)
      → Distinct (
          (get_bare_strip_prefix_middleware atom).head.name
          ∷ (get_bare_headers_middleware atom).head.name
          ∷ names_from atom 0 count)
  middleware_names-Distinct count = (
    (strip-ne-headers, All-names _ strip-ne-download 0 count),
    (All-names _ headers-ne-download 0 count, names_from-Distinct atom 0 count),
  )
