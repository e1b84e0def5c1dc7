-- ===== src/Codec/Numbers.antt =====
-- The functions of strconv, math and time that marshal.go and unmarshal.go call.
pub mod Digits
use dynago.Prelude.{
  ℕ, zero, suc, ◌+◌, ◌-◌, ◌*◌, Bool, true, false, not, ◌&&◌, ◌||◌, [], ◌∷◌, Bytes, Option, none,
  some, leb, ltb, ◌==◌, if◌then◌else◌,
}
use Prim.Native.Nat.{◌/◌, ◌%◌, ◌^◌}
use dynago.Client.Values.{ℤ, pos, negsuc}
use dynago.Codec.Types.{Width, bits, Instant}

-- The number that a text of decimal digits denotes, after the digits of `n`.
unfoldable pub scan_digits : ℕ → Bytes → Option ℕ
scan_digits n [] = some n
scan_digits n (c ∷ s) =
    let rest = scan_digits (n * 10 + (c - 48)) s in if leb 48 c && leb c 57 then rest else none

-- strconv.ParseUint(s, 10, 64)
unfoldable pub parse_uint : Bytes → Option ℕ
unfolding scan_digits
parse_uint [] = none
parse_uint (c ∷ s) = elim (scan_digits 0 (c ∷ s)) [
  | none ↦ none
  | some n ↦ if ltb n (2 ^ 64) then some n else none
]

unfoldable pub negative : ℕ → ℤ
negative zero = pos 0
negative (suc n) = negsuc n

-- What ParseInt makes of the sign and the number.
unfoldable pub signed : Bool → Option ℕ → Option ℤ
unfolding negative
signed minus none = none
signed false (some n) = if ltb n (2 ^ 63) then some (pos n) else none
signed true (some n) = if leb n (2 ^ 63) then some (negative n) else none

-- strconv.ParseInt(s, 10, 64)
unfoldable pub parse_int : Bytes → Option ℤ
unfolding signed parse_uint
parse_int [] = none
parse_int (c ∷ s) =
    if c == b'-'
    then signed true (parse_uint s)
    else if c == b'+'
    then signed false (parse_uint s)
    else signed false (parse_uint (c ∷ s))

-- Whether a number is one of an integer type. Value.OverflowInt, Value.OverflowUint are the negations.
unfoldable pub fits_int : Width → ℤ → Bool
fits_int w (pos n) = ltb n (2 ^ (bits w - 1))
fits_int w (negsuc n) = ltb n (2 ^ (bits w - 1))

unfoldable pub fits_uint : Width → ℕ → Bool
fits_uint w n = ltb n (2 ^ bits w)

-- Value.SetInt, Value.SetUint: the number that an integer of the width keeps.
unfoldable pub residue : ℕ → ℤ → ℕ
residue modulus (pos n) = n % modulus
residue modulus (negsuc n) = modulus - 1 - n % modulus

unfoldable pub set_int : Width → ℤ → ℤ
unfolding residue
set_int w n =
    let r = residue (2 ^ bits w) n in
    if ltb r (2 ^ (bits w - 1)) then pos r else negsuc (2 ^ bits w - 1 - r)

unfoldable pub set_uint : Width → ℕ → ℕ
set_uint w n = n % 2 ^ bits w

-- Floats and times, which have no definition here.
pub record Formats : Type 0 where
  -- strconv.FormatFloat(f, 'f', -1, 64) and (f, 'f', -1, 32)
  pub format64 : ℕ → Bytes
  pub format32 : ℕ → Bytes
  -- strconv.ParseFloat(s, 64)
  pub parse_float : Bytes → Option ℕ
  -- (f > math.MaxFloat32 || f < -math.MaxFloat32) && !math.IsInf(f, 0)
  pub exceeds32 : ℕ → Bool
  -- float64(float32(f))
  pub narrow : ℕ → ℕ
  -- f == 0
  pub float_is_zero : ℕ → Bool
  -- t.UTC().Format(time.RFC3339)
  pub format_time : Instant → Bytes
  -- time.Parse(time.RFC3339Nano, s), time.Parse(time.RFC3339, s)
  pub parse_nano : Bytes → Option Instant
  pub parse_seconds : Bytes → Option Instant
