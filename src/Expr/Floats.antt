-- ===== src/Expr/Floats.antt =====
-- What the program uses of float64. The language has no floating-point numbers here: a float64 is
-- named by its bit pattern, and the operations are a parameter.
use dynago.Prelude.{ℕ, zero, suc, ◌+◌, Bool, Option, Bytes, [], ◌∷◌, ltb, if◌then◌else◌}
use Prim.Native.Nat.{◌/◌, ◌%◌}

pub record FloatOps : Type 0 where
  -- strconv.ParseFloat(s, 64); none is an error
  pub parse_float : Bytes → Option ℕ
  -- fmt.Sscanf(s, "%g", &f): the value left in f, and whether there was no error
  pub scan_float : Bytes → ℕ × Bool
  pub less : ℕ → ℕ → Bool
  pub plus : ℕ → ℕ → ℕ
  pub minus : ℕ → ℕ → ℕ
  -- f == float64(int64(f))
  pub is_integral : ℕ → Bool
  -- fmt.Sprintf("%d", int64(f)), fmt.Sprintf("%g", f)
  pub print_int : ℕ → Bytes
  pub print_g : ℕ → Bytes

unfoldable pub decimal : ℕ → ℕ → Bytes → Bytes
decimal zero n acc = acc
decimal (suc f) n acc =
    let rest = decimal f (n / 10) ((48 + n % 10) ∷ acc) in if ltb n 10 then (48 + n) ∷ acc else rest

-- strconv.FormatInt(n, 10), for a length
unfoldable pub format_int : ℕ → Bytes
unfolding decimal
format_int n = decimal (suc n) n []
