-- ===== src/Text.antt =====
-- The functions of Go's `strings` and `strconv` that the program calls, over native texts. A text
-- is a list of characters; the program searches and cuts at ASCII characters only, where positions
-- in characters and in bytes agree. The laws are in the modules below.
pub mod Split
pub mod Escape
pub mod Decimal
pub mod Order
use Prim.Native.Char.{Char, code}
use Prim.Native.String
use Prim.Native.String.{[], ◌∷◌}
use mathlib.Core.List
use atom_operator.Prelude.{
  ℕ, zero, suc, ◌/◌, ◌%◌, String, Bool, true, false, ◌&&◌, ◌||◌, Option, none, some, List, ltb,
  str_eq, ◌==◌, if◌then◌else◌,
}

infixr 65 ◌+s◌
-- `a + b` on texts.
abbrev pub ◌+s◌ : String → String → String
a +s b = String.◌++◌ a b

put_last : ℕ → ℕ → Option ℕ → Option ℕ
put_last b c (some i) = some (suc i)
put_last b c none = if c == b then some 0 else none

-- `strings.LastIndex(s, b)` for a text `b` of one ASCII character; `none` stands for -1.
unfoldable pub last_index : ℕ → String → Option ℕ
unfolding put_last
last_index b [] = none
last_index b (c ∷ s) = put_last b (code c) (last_index b s)

-- `s[:n]`
unfoldable pub take : ℕ → String → String
take zero s = ""
take (suc n) [] = ""
take (suc n) (c ∷ s) = c ∷ take n s

-- `s[n:]`
unfoldable pub drop : ℕ → String → String
drop zero s = s
drop (suc n) [] = ""
drop (suc n) (c ∷ s) = drop n s

-- `strings.HasPrefix(s, p)`
unfoldable pub has_prefix : String → String → Bool
has_prefix s [] = true
has_prefix [] (d ∷ p) = false
has_prefix (c ∷ s) (d ∷ p) = code c == code d && has_prefix s p

-- `strings.Contains(s, p)`
unfoldable pub contains : String → String → Bool
unfolding has_prefix
contains [] p = has_prefix "" p
contains (c ∷ s) p = has_prefix (c ∷ s) p || contains s p

-- `strings.HasSuffix(s, p)`
unfoldable pub has_suffix : String → String → Bool
has_suffix [] p = str_eq "" p
has_suffix (c ∷ s) p = str_eq (c ∷ s) p || has_suffix s p

-- `strings.TrimSuffix(s, p)`
unfoldable pub trim_suffix : String → String → String
trim_suffix [] p = ""
trim_suffix (c ∷ s) p = if str_eq (c ∷ s) p then "" else c ∷ trim_suffix s p

-- `strings.ReplaceAll(s, b, new)` for a text `b` of one ASCII character.
unfoldable pub replace_all : ℕ → String → String → String
replace_all b new [] = ""
replace_all b new (c ∷ s) =
    let rest = replace_all b new s in if code c == b then new +s rest else c ∷ rest

-- `strings.Join(parts, sep)`
unfoldable pub join : List String → String → String
join List.[] sep = ""
join (List.◌∷◌ p List.[]) sep = p
join (List.◌∷◌ p (List.◌∷◌ q ps)) sep = p +s sep +s join (List.◌∷◌ q ps) sep

-- The decimal digit of a number below ten.
digit : ℕ → String
digit zero = "0"
digit (suc zero) = "1"
digit (suc (suc zero)) = "2"
digit (suc (suc (suc zero))) = "3"
digit (suc (suc (suc (suc zero)))) = "4"
digit (suc (suc (suc (suc (suc zero))))) = "5"
digit (suc (suc (suc (suc (suc (suc zero)))))) = "6"
digit (suc (suc (suc (suc (suc (suc (suc zero))))))) = "7"
digit (suc (suc (suc (suc (suc (suc (suc (suc zero)))))))) = "8"
digit (suc (suc (suc (suc (suc (suc (suc (suc (suc n))))))))) = "9"

-- The digits of a number, on fuel; any fuel above the number is enough.
digits : ℕ → ℕ → String
unfolding digit
digits zero n = ""
digits (suc f) n =
    let rest = digits f (n / 10) in if ltb n 10 then digit n else rest +s digit (n % 10)

-- `strconv.Itoa(n)` for `n` that is not negative.
unfoldable pub itoa : ℕ → String
unfolding digits
itoa n = digits (suc n) n

-- `s < t`: by the first character that differs. The bytes of UTF-8 have the order of the code points.
unfoldable pub text_ltb : String → String → Bool
text_ltb s [] = false
text_ltb [] (d ∷ t) = true
text_ltb (c ∷ s) (d ∷ t) = ltb (code c) (code d) || (code c == code d && text_ltb s t)
