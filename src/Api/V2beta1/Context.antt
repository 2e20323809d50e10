-- ===== src/Api/V2beta1/Context.antt =====
-- What the conversions between v2beta1 and v3 call of other modules.
use atom_operator.Prelude.{ℕ, String, Option, none, some}
use atom_operator.Prelude.Int.{ℤ, negsuc}
use atom_operator.Prelude.Result.{GoError, Result}
use atom_operator.Api.Model.{UrlOps, Time}
use atom_operator.Api.V3.{Globals}

-- What the conversion calls of other modules: `net/url`, smooth-operator's `ParseURL`, `time` with
-- the RFC 3339 layout, and `strconv`. `F` is float32; `to_float64` and `to_float32` are Go's
-- conversions of it. `format_float` takes the format, the precision and the number of bits, and
-- `parse_float` the number of bits.
pub record Conversions (F URL : Type 0) : Type 1 where
  pub urls : UrlOps URL
  pub parse_url : String → Result URL
  pub parse_rfc3339 : String → Option Time
  pub format_rfc3339 : Time → String
  pub now : Time
  pub Float64 : Type 0
  pub to_float64 : F → Float64
  pub to_float32 : Float64 → F
  pub format_float : Float64 → ℕ → ℤ → ℕ → String
  pub parse_float : String → ℕ → Float64 × Option GoError
  pub zero_float : F
  pub globals : Globals

module _ {F URL : Type 0} (cv : Conversions F URL) where
  unfoldable pub get_float32_as_string : F → String
  get_float32_as_string value = cv.format_float (cv.to_float64 value) b'f' (negsuc 0) 32

  -- The error is passed over, not the number that comes with it.
  unfoldable pub get_string_as_float32 : String → F
  get_string_as_float32 value = cv.to_float32 (cv.parse_float value 32).0

-- `smoothutil.PointerVal(p, "")` and the zero value of a text.
abbrev pub text_or_empty : Option String → String
text_or_empty none = ""
text_or_empty (some s) = s
