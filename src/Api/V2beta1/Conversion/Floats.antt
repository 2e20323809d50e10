-- ===== src/Api/V2beta1/Conversion/Floats.antt =====
-- The texts of float32: `GetFloat32AsString` and `GetStringAsFloat32` of atom_conversion.go.
use atom_operator.Prelude.{◌≡◌, ◌∙◌, ap, Option, none}
use atom_operator.Prelude.Int.{negsuc}
use atom_operator.Prelude.Result.{GoError}
use atom_operator.Api.V2beta1.Context.{Conversions, get_float32_as_string, get_string_as_float32}

-- What `strconv` and Go promise of a float32: the precision -1 prints the fewest digits that
-- `ParseFloat` reads back exactly, and float64 holds each float32.
pub record IsExact {F URL : Type 0} (cv : Conversions F URL) : Type 0 where
  pub reads_back :
      (x : F)
      → cv.parse_float (cv.format_float (cv.to_float64 x) b'f' (negsuc 0) 32) 32
        ≡ (cv.to_float64 x, none)
  pub holds : (x : F) → cv.to_float32 (cv.to_float64 x) ≡ x

pub float32_back :
    {F URL : Type 0} (cv : Conversions F URL)
    → IsExact cv
    → (x : F) → get_string_as_float32 cv (get_float32_as_string cv x) ≡ x
unfolding get_string_as_float32 get_float32_as_string
float32_back cv exact x =
    ap (λ (p : cv.Float64 × Option GoError). cv.to_float32 p.0) (exact.reads_back x) ∙ exact.holds x
