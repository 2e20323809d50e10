-- ===== src/Text/Order.antt =====
-- `<` on texts is a strict total order.
use Prim.Native.Char.{code}
use Prim.Native.String.{[], ◌∷◌}
use text.Mathlib.TextEquality.{Char-path}
use atom_operator.Prelude.{String, true, false, ◌≡◌, refl, ap₂, arith}
use atom_operator.Text.{text_ltb}

pub text_ltb_irrefl : (s : String) → text_ltb s s ≡ false
unfolding text_ltb
text_ltb_irrefl [] = refl
text_ltb_irrefl (c ∷ s) = ground (arith, text_ltb_irrefl s)

pub text_ltb_trans :
    (s t u : String) → text_ltb s t ≡ true → text_ltb t u ≡ true → text_ltb s u ≡ true
unfolding text_ltb
text_ltb_trans s [] u h k = cc
text_ltb_trans s (d ∷ t) [] h k = cc
text_ltb_trans [] (d ∷ t) (e ∷ u) h k = refl
text_ltb_trans (c ∷ s) (d ∷ t) (e ∷ u) h k = ground (arith, text_ltb_trans s t u)

pub text_ltb_connected : (s t : String) → text_ltb s t ≡ false → text_ltb t s ≡ false → s ≡ t
unfolding text_ltb
text_ltb_connected [] [] h k = refl
text_ltb_connected [] (d ∷ t) h k = cc
text_ltb_connected (c ∷ s) [] h k = cc
text_ltb_connected (c ∷ s) (d ∷ t) h k =
    let e : code c ≡ code d = ground arith in
    ap₂ ◌∷◌ (Char-path c d e) (text_ltb_connected s t (ground arith) (ground arith))
