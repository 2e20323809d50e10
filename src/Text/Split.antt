-- ===== src/Text/Split.antt =====
-- Cutting a text at the last occurrence of a character.
use Prim.Native.Char.{Char, code}
use Prim.Native.String.{[], ◌∷◌}
use text.Mathlib.TextEquality.{Char-path}
use text.Mathlib.TextLemmas.{nil-append, cons-append}
use atom_operator.Prelude.{
  ℕ, zero, suc, String, ◌≡◌, refl, ap, ◌∙◌, ◌≢◌, inl, inr, none, some, arith, Option-cases,
}
use atom_operator.Text.{◌+s◌, last_index, take, drop}

-- No character of the text has the code.
abbrev pub Lacks : ℕ → String → Type 0
Lacks b [] = Unit
Lacks b (c ∷ s) = (code c ≢ b) × Lacks b s

pub last_index-none : (b : ℕ) (s : String) → last_index b s ≡ none → Lacks b s
unfolding last_index
last_index-none b [] h = tt
last_index-none b (c ∷ s) h = elim (Option-cases (last_index b s)) [
  | inl e ↦ (ground arith, last_index-none b s e)
  | inr (i, e) ↦ absurd (ground arith)
]

code_slash-append : (c : Char) (s : String) → code c ≡ b'/' → "/" +s s ≡ c ∷ s
code_slash-append c s e = rw (cons-append, nil-append, Char-path c "/" e)

-- What stands before the last slash, the slash and what stands behind it spell the text, and no
-- slash stands behind it.
pub take-drop_last :
    (s : String) (i : ℕ)
    → last_index b'/' s ≡ some i
    → (take i s +s "/" +s drop (suc i) s ≡ s) × Lacks b'/' (drop (suc i) s)
unfolding last_index take drop
take-drop_last [] i h = cc
take-drop_last (c ∷ s) zero h =
    let e : last_index b'/' s ≡ none = ground arith in
    let d : code c ≡ b'/' = ground arith in
    (nil-append _ ∙ code_slash-append c s d, last_index-none b'/' s e)
take-drop_last (c ∷ s) (suc i) h =
    let (spelled, lacks) = take-drop_last s i (ground arith) in
    (cons-append c _ _ ∙ ap (λ t. c ∷ t) spelled, lacks)

-- The number of characters of a text.
unfoldable pub text_length : String → ℕ
text_length [] = 0
text_length (c ∷ s) = suc (text_length s)

pub take_left : (s t : String) → take (text_length s) (s +s t) ≡ s
unfolding text_length take
take_left [] t = refl
take_left (c ∷ s) t = rw cons-append (ap (λ x. c ∷ x) (take_left s t))
