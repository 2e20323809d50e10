-- ===== src/Api/V3/Validation/Paths.antt =====
-- The paths of the errors of the entries.
use atom_operator.Prelude.{
  ℕ, zero, suc, ◌≤◌, ◌⊎◌, inl, inr, refl, ap, subst, map, append-nil, Option, none, some, String,
  Bool, true, false, ◌≡◌, ◌∙◌, arith, List, [], ◌∷◌, ◌++◌, append_assoc, length, All, All-map, ltb,
  ◌&&◌, contains,
}
use atom_operator.Text.{◌+s◌}
use atom_operator.Api.V3.{Entry}
use atom_operator.Api.V3.Validation.{
  PathElement, FieldPath, child, index, FieldError, Checks, is_nil, required_at, duplicate_at,
  error_if, entry_errors,
}

-- The elements that the loop has added at the `k`th entry from number `n` on.
unfoldable pub trail : ℕ → ℕ → FieldPath
trail n zero = child "entries" ∷ index n ∷ []
trail n (suc k) = child "entries" ∷ index n ∷ trail (suc n) k

module _ {URL : Type 0} where
  -- The field of an entry that is at fault: the content is missing beside two or more download links,
  -- or the name is one of those before.
  abbrev pub IsAtFault : List String → Entry URL → PathElement → Type 0
  IsAtFault before entry field =
      ((field ≡ child "content") × (2 ≤ length entry.download_links) × (entry.content ≡ none))
      ⊎ ((field ≡ child "technicalName") × (contains before entry.technical_name ≡ true))

  -- The names of the entries.
  abbrev pub names_of : List (Entry URL) → List String
  names_of entries = map (λ (x : Entry URL). x.technical_name) entries

  -- The error stands at a field at fault of one of these entries, by the path that the loop has made
  -- at that entry.
  abbrev pub IsAt : FieldPath → ℕ → List String → List (Entry URL) → FieldError → Type 0
  IsAt path n names entries e =
      (before : List (Entry URL)) × (entry : Entry URL) × (after : List (Entry URL)) × (entries
        ≡ before ++ entry ∷ after)
      × (field : PathElement) × IsAtFault (names ++ names_of before) entry field
      × (e.field ≡ path ++ (trail n (length before) ++ field ∷ []))

-- Two checks, and the errors behind them.
two_checks {ℓ} :
    (P : FieldError → Type ℓ) (b c : Bool) (e f : FieldError) (rest : List FieldError)
    → (b ≡ true → P e)
    → (c ≡ true → P f)
    → All P rest
    → All P (error_if b e ++ (error_if c f ++ rest))
two_checks P true true e f rest p q h = (p refl, (q refl, h))
two_checks P true false e f rest p q h = (p refl, h)
two_checks P false true e f rest p q h = (q refl, h)
two_checks P false false e f rest p q h = h

-- The test of the content.
lacks_content :
    {A : Type 0} (n : ℕ) (content : Option A)
    → (ltb 1 n && is_nil content) ≡ true
    → (2 ≤ n) × (content ≡ none)
lacks_content n none h = (ground arith, refl)
lacks_content n (some c) h = absurd (ground arith)

module _ {URL : Type 0} (checks : Checks URL) where
  -- Each error that the loop over the entries finds stands at a field at fault of some entry, the
  -- content or the name, and has a path that goes through all the entries up to that one: at the
  -- second entry it is `entries[0].entries[1]`, and so on.
  pub entry_errors-IsAt :
      (path : FieldPath) (n : ℕ) (names : List String) (entries : List (Entry URL))
      → All (IsAt path n names entries) (entry_errors checks path n names entries)
  unfolding entry_errors trail
  entry_errors-IsAt path n names [] = tt
  entry_errors-IsAt path n names (x ∷ xs) =
      let here = path ++ child "entries" ∷ index n ∷ [] in
      let more = names ++ x.technical_name ∷ [] in
      two_checks (IsAt path n names (x ∷ xs)) (ltb 1 (length x.download_links) && is_nil x.content)
        (contains names x.technical_name)
        (required_at (here ++ child "content" ∷ []) (
          "when "
          +s checks.path_string (here ++ child "downloadlinks" ∷ [])
          +s " has 2 or more elements"))
        (duplicate_at (here ++ child "technicalName" ∷ []) x.technical_name) _
        (λ e. (
          [],
          x,
          xs,
          refl,
          child "content",
          let (many, missing) = lacks_content (length x.download_links) x.content e in
              inl (refl, many, missing),
          append_assoc path _ _,
        ))
        (λ e. (
          [],
          x,
          xs,
          refl,
          child "technicalName",
          inr (refl, rw (append-nil names) e),
          append_assoc path _ _,
        ))
        (All-map
          (λ e (before, entry, after, split, field, fault, at). (
            x ∷ before,
            entry,
            after,
            ap (λ l. x ∷ l) split,
            field,
            subst (λ l. IsAtFault l entry field) (append_assoc names _ _) fault,
            at ∙ append_assoc path _ _,
          ))
          (entry_errors checks here (suc n) more xs) (entry_errors-IsAt here (suc n) more xs))
