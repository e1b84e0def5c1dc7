-- ===== src/Client/Values.antt =====
-- key.go, condition.go, internal/expr/builder.go: Go values of type any as attribute values.
use dynago.Prelude.{ℕ, suc, Bool, true, List, ◌∷◌, Bytes, Result, ok, err, panic, map}
use dynago.Attribute.{
  AttributeValue, type_s, type_n, type_b, type_bool, type_null, type_ss, type_ns,
}
use dynago.Expr.Floats.{format_int}

-- An integer of Go, of any width.
pub data ℤ : Type 0 where
  pos negsuc : ℕ → ℤ

-- strconv.FormatInt, and %d of fmt
unfoldable pub format_signed : ℤ → Bytes
format_signed (pos n) = format_int n
format_signed (negsuc n) = b'-' ∷ format_int (suc n)

-- What an `any` holds. The constructors of one line are the types that every conversion treats
-- alike; a float is its bit pattern.
pub data GoValue : Type 0 where
  go_string go_bytes : Bytes → GoValue
  go_bool : Bool → GoValue
  -- int and int64; int8, int16 and int32
  go_int go_small_int : ℤ → GoValue
  -- uint and uint64; uint8, uint16 and uint32
  go_uint go_small_uint : ℕ → GoValue
  go_float32 go_float64 : ℕ → GoValue
  go_strings : List Bytes → GoValue
  go_ints : List ℤ → GoValue
  go_attribute : AttributeValue → GoValue
  go_nil go_other : GoValue

-- The two ways in which the program prints a float.
pub record Printers : Type 0 where
  -- strconv.FormatFloat(f, 'g', -1, 64)
  pub format_g : ℕ → Bytes
  -- fmt.Sprintf("%g", f), of a float32 and of a float64
  pub sprint_g32 : ℕ → Bytes
  pub sprint_g64 : ℕ → Bytes

module _ (P : Printers) where
  -- key.go: toAttributeValue, which panics on all other types
  unfoldable pub to_attribute_value : GoValue → Result AttributeValue
  unfolding format_signed
  to_attribute_value (go_string s) = ok (type_s s)
  to_attribute_value (go_int n) = ok (type_n (format_signed n))
  to_attribute_value (go_float64 f) = ok (type_n (P.format_g f))
  to_attribute_value (go_uint n) = ok (type_n (format_int n))
  to_attribute_value (go_bytes b) = ok (type_b b)
  to_attribute_value _ = err panic

  -- condition.go: anyToAttributeValue
  unfoldable pub any_to_attribute_value : GoValue → Result AttributeValue
  unfolding format_signed
  any_to_attribute_value (go_string s) = ok (type_s s)
  any_to_attribute_value (go_bool b) = ok (type_bool b)
  any_to_attribute_value (go_int n) = ok (type_n (format_signed n))
  any_to_attribute_value (go_small_int n) = ok (type_n (format_signed n))
  any_to_attribute_value (go_uint n) = ok (type_n (format_int n))
  any_to_attribute_value (go_small_uint n) = ok (type_n (format_int n))
  any_to_attribute_value (go_float32 f) = ok (type_n (P.sprint_g32 f))
  any_to_attribute_value (go_float64 f) = ok (type_n (P.sprint_g64 f))
  any_to_attribute_value (go_bytes b) = ok (type_b b)
  any_to_attribute_value (go_strings ss) = ok (type_ss ss)
  any_to_attribute_value (go_attribute av) = ok av
  any_to_attribute_value go_nil = ok (type_null true)
  any_to_attribute_value (go_ints ns) = err panic
  any_to_attribute_value go_other = err panic

  -- internal/expr/builder.go: goToAttributeValue, which also takes a list of ints
  unfoldable pub go_to_attribute_value : GoValue → Result AttributeValue
  unfolding any_to_attribute_value
  go_to_attribute_value (go_ints ns) = ok (type_ns (map format_signed ns))
  go_to_attribute_value v = any_to_attribute_value v
