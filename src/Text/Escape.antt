-- ===== src/Text/Escape.antt =====
-- Replacing each quote by a backslash and a quote, and reading a text in quotes.
use Prim.Native.Char.{Char, code}
use Prim.Native.String.{[], ◌∷◌}
use text.Mathlib.TextEquality.{Char-path}
use text.Mathlib.TextLemmas.{nil-append, cons-append}
use atom_operator.Prelude.{
  String, Bool, true, false, ◌≡◌, ◌≢◌, refl, ap, Option, none, some, inl, inr, Bool-cases, ◌==◌,
  ==_iff,
}
use atom_operator.Text.{◌+s◌, replace_all}

-- A character in front of what was read.
add_char : Char → Option (String × String) → Option (String × String)
add_char c none = none
add_char c (some (s, rest)) = some (c ∷ s, rest)

-- Reads a text from behind its opening quote to its closing one, and gives what follows too; behind a
-- backslash, which the flag tells, a character stands for itself.
unfoldable pub read_quoted : Bool → String → Option (String × String)
unfolding add_char
read_quoted escaped [] = none
read_quoted true (c ∷ s) = add_char c (read_quoted false s)
read_quoted false (c ∷ s) = elim (code c == b'"') [
  | true ↦ some ("", s)
  | false ↦ elim (code c == b'\\') [
    | true ↦ read_quoted true s
    | false ↦ add_char c (read_quoted false s)
  ]
]

abbrev pub HasNoBackslash : String → Type 0
HasNoBackslash [] = Unit
HasNoBackslash (c ∷ s) = (code c ≢ b'\\') × HasNoBackslash s

abbrev pub escape : String → String
escape s = replace_all b'"' "\\\"" s

escape_quote :
    (c : Char) (s : String)
    → code c ≡ b'"'
    → escape (c ∷ s) ≡ Prim.Native.String.◌∷◌ "\\" (c ∷ escape s)
unfolding replace_all
escape_quote c s e =
    rw ((==_iff _ _).1 e, cons-append, cons-append, nil-append, ← Char-path c "\"" e)

escape_other : (c : Char) (s : String) → (code c == b'"') ≡ false → escape (c ∷ s) ≡ c ∷ escape s
unfolding replace_all
escape_other c s e = rw e

no_backslash : (c : Char) → code c ≢ b'\\' → (code c == b'\\') ≡ false
no_backslash c h = elim (Bool-cases (code c == b'\\')) [
  | inl e ↦ absurd (h ((==_iff _ _).0 e))
  | inr e ↦ e
]

read_other :
    (c : Char) (s : String)
    → (code c == b'"') ≡ false
    → (code c == b'\\') ≡ false
    → read_quoted false (c ∷ s) ≡ add_char c (read_quoted false s)
unfolding read_quoted
read_other c s e f = rw (e, f, read_quoted) refl

-- The reader ends at the closing quote, behind the text.
pub read_quoted-escape :
    (s rest : String)
    → HasNoBackslash s
    → read_quoted false (escape s +s "\"" +s rest) ≡ some (s, rest)
unfolding read_quoted
read_quoted-escape [] rest h = unfold replace_all in rw (nil-append, cons-append, nil-append) refl
read_quoted-escape (c ∷ s) rest (plain, h) =
    let ih = read_quoted-escape s rest h in
    elim (Bool-cases (code c == b'"')) [
      | inl e ↦
          rw (escape_quote c s ((==_iff _ _).0 e), cons-append, cons-append) (ap (add_char c) ih)
      | inr e ↦
          rw (escape_other c s e, cons-append, read_other c _ e (no_backslash c plain))
            (ap (add_char c) ih)
    ]
