-- ===== src/Text/Decimal.antt =====
-- Different numbers are printed differently.
use Prim.Native.Char.{code}
use Prim.Native.String.{[], ◌∷◌}
use text.Mathlib.TextLemmas.{nil-append, cons-append}
use atom_operator.Prelude.{
  ℕ, zero, suc, ◌+◌, ◌-◌, ◌*◌, ◌/◌, ◌%◌, ◌<◌, String, ◌≡◌, ap, sym, ◌∙◌, arith, ltb, inl, inr,
  Bool-cases, ltb→lt,
}
use atom_operator.Text.{◌+s◌, digit, digits, itoa}

-- The number that a text of digits stands for, behind the digits of `n`.
value : ℕ → String → ℕ
value n [] = n
value n (c ∷ s) = value (n * 10 + (code c - b'0')) s

value-append : (n : ℕ) (s t : String) → value n (s +s t) ≡ value (value n s) t
unfolding value
value-append n [] t = rw nil-append
value-append n (c ∷ s) t = rw cons-append (value-append (n * 10 + (code c - b'0')) s t)

value-digit : (n d : ℕ) → d < 10 → value n (digit d) ≡ n * 10 + d
unfolding value digit
value-digit n zero h = omega arith
value-digit n (suc zero) h = omega arith
value-digit n (suc (suc zero)) h = omega arith
value-digit n (suc (suc (suc zero))) h = omega arith
value-digit n (suc (suc (suc (suc zero)))) h = omega arith
value-digit n (suc (suc (suc (suc (suc zero))))) h = omega arith
value-digit n (suc (suc (suc (suc (suc (suc zero)))))) h = omega arith
value-digit n (suc (suc (suc (suc (suc (suc (suc zero))))))) h = omega arith
value-digit n (suc (suc (suc (suc (suc (suc (suc (suc zero)))))))) h = omega arith
value-digit n (suc (suc (suc (suc (suc (suc (suc (suc (suc d))))))))) h = omega arith

value-digits : (f n : ℕ) → n < f → value 0 (digits f n) ≡ n
unfolding digits
value-digits zero n h = elim h [ ]
value-digits (suc f) n h = elim (Bool-cases (ltb n 10)) [
  | inl small ↦ rw small (omega (arith, value-digit 0 n (ltb→lt n 10 small)))
  | inr large ↦
      let rest : value 0 (digits f (n / 10)) ≡ n / 10 = value-digits f (n / 10) (ground arith) in
      rw (large, value-append, rest) (omega (arith, value-digit (n / 10) (n % 10) (omega arith)))
]

pub itoa_injective : (m n : ℕ) → itoa m ≡ itoa n → m ≡ n
unfolding itoa
itoa_injective m n h =
    sym (value-digits (suc m) m (omega arith))
    ∙ ap (value 0) h
    ∙ value-digits (suc n) n (omega arith)
