-- ===== src/Codec/Numbers/Digits.antt =====
-- strconv: a printed integer is read back.
use dynago.Prelude.{
  ℕ, zero, suc, ◌+◌, ◌-◌, ◌*◌, ◌<◌, ◌≡◌, refl, sym, ap, ◌∙◌, true, false, some, [], ◌∷◌, Bytes, ltb,
  Bool-cases, inl, inr, arith,
}
use Prim.Native.Nat.{◌/◌, ◌%◌, ◌^◌}
use dynago.Expr.Floats.{decimal, format_int}
use dynago.Client.Values.{ℤ, pos, negsuc, format_signed}
use dynago.Codec.Numbers.{
  scan_digits, parse_uint, parse_int, signed, fits_int, fits_uint, set_int, set_uint, residue,
}
use dynago.Codec.Types.{Width, w8, w16, w32, w64, bits}

scan_digit :
    (n d : ℕ) (s : Bytes) → d < 10 → scan_digits n ((48 + d) ∷ s) ≡ scan_digits (n * 10 + d) s
unfolding scan_digits
scan_digit n d s h = let same : (48 + d) - 48 ≡ d = omega arith in rw same (ground (arith, h))

decimal_last : (f n : ℕ) (s : Bytes) → ltb n 10 ≡ true → decimal (suc f) n s ≡ (48 + n) ∷ s
unfolding decimal
decimal_last f n s h = ground (arith, h)

decimal_more :
    (f n : ℕ) (s : Bytes)
    → ltb n 10 ≡ false
    → decimal (suc f) n s ≡ decimal f (n / 10) ((48 + n % 10) ∷ s)
unfolding decimal
decimal_more f n s h = ground (arith, h)

scan_digits-decimal :
    (f n : ℕ) (s : Bytes) → n < f → scan_digits 0 (decimal f n s) ≡ scan_digits n s
scan_digits-decimal zero n s h = absurd (omega (arith, h))
scan_digits-decimal (suc f) n s h = elim (Bool-cases (ltb n 10)) [
  | inl small ↦
      let whole : 0 * 10 + n ≡ n = omega arith in
      rw (decimal_last f n s small)
        (scan_digit 0 n s (ground arith) ∙ ap (λ m. scan_digits m s) whole)
  | inr large ↦
      let smaller : n / 10 < f = ground arith in
      let whole : (n / 10) * 10 + n % 10 ≡ n = omega arith in
      let digit = scan_digit (n / 10) (n % 10) s (omega arith) in
      rw (decimal_more f n s large, scan_digits-decimal f (n / 10) ((48 + n % 10) ∷ s) smaller)
        (digit ∙ ap (λ m. scan_digits m s) whole)
]

-- The first byte of a decimal text is a digit.
decimal_head :
    (f n : ℕ) (s : Bytes)
    → n < f
    → (d : ℕ) × (rest : Bytes) × (decimal f n s ≡ (48 + d) ∷ rest) × (d < 10)
decimal_head zero n s h = absurd (omega (arith, h))
decimal_head (suc f) n s h = elim (Bool-cases (ltb n 10)) [
  | inl small ↦ (n, s, decimal_last f n s small, ground arith)
  | inr large ↦
      let (d, rest, e, fits) = decimal_head f (n / 10) ((48 + n % 10) ∷ s) (ground arith) in
      (d, rest, decimal_more f n s large ∙ e, fits)
]

format_int_digits :
    (n : ℕ)
    → (d : ℕ) × (rest : Bytes) × (format_int n ≡ (48 + d) ∷ rest)
      × (d < 10)
      × (scan_digits 0 ((48 + d) ∷ rest) ≡ some n)
unfolding format_int scan_digits
format_int_digits n =
    let (d, rest, e, small) = decimal_head (suc n) n [] (omega arith) in
    let read = scan_digits-decimal (suc n) n [] (omega arith) in
    (d, rest, e, small, sym (ap (scan_digits 0) e) ∙ read)

parse_uint_digits :
    (c : ℕ) (s : Bytes) (n : ℕ)
    → scan_digits 0 (c ∷ s) ≡ some n
    → n < 2 ^ 64
    → parse_uint (c ∷ s) ≡ some n
unfolding parse_uint
parse_uint_digits c s n read h = rw (parse_uint, read) (ground (arith, h))

pub parse_uint-format_int : (n : ℕ) → n < 2 ^ 64 → parse_uint (format_int n) ≡ some n
parse_uint-format_int n h =
    let (d, rest, e, small, read) = format_int_digits n in
    rw e (parse_uint_digits (48 + d) rest n read h)

-- A text that starts with a digit has no sign.
parse_int_digit :
    (d : ℕ) (s : Bytes)
    → d < 10
    → parse_int ((48 + d) ∷ s) ≡ signed false (parse_uint ((48 + d) ∷ s))
unfolding parse_int
parse_int_digit d s h = ground (arith, h)

parse_int_minus : (s : Bytes) → parse_int (b'-' ∷ s) ≡ signed true (parse_uint s)
unfolding parse_int
parse_int_minus s = refl

signed_positive : (n : ℕ) → n < 2 ^ 63 → signed false (some n) ≡ some (pos n)
unfolding signed
signed_positive n h = ground arith

signed_negative : (n : ℕ) → n < 2 ^ 63 → signed true (some (suc n)) ≡ some (negsuc n)
unfolding signed
signed_negative n h = ground arith

pub parse_int-format_signed : (n : ℤ) → fits_int w64 n ≡ true → parse_int (format_signed n) ≡ some n
unfolding format_signed fits_int bits
parse_int-format_signed (pos n) h =
    let (d, rest, e, small, read) = format_int_digits n in
    let bound : n < 2 ^ 63 = ground (arith, h) in
    rw (e, parse_int_digit d rest small, parse_uint_digits (48 + d) rest n read (omega arith))
      (signed_positive n bound)
parse_int-format_signed (negsuc n) h =
    let bound : n < 2 ^ 63 = ground (arith, h) in
    rw (parse_int_minus (format_int (suc n)), parse_uint-format_int (suc n) (omega arith))
      (signed_negative n bound)

-- A number that fits is kept as it is.
pub set_int_fits : (w : Width) (n : ℤ) → fits_int w n ≡ true → set_int w n ≡ n
unfolding set_int fits_int residue bits
set_int_fits w8 (pos n) h = ground arith
set_int_fits w16 (pos n) h = ground arith
set_int_fits w32 (pos n) h = ground arith
set_int_fits w64 (pos n) h = ground arith
set_int_fits w8 (negsuc n) h = ground arith
set_int_fits w16 (negsuc n) h = ground arith
set_int_fits w32 (negsuc n) h = ground arith
set_int_fits w64 (negsuc n) h = ground arith

pub set_uint_fits : (w : Width) (n : ℕ) → fits_uint w n ≡ true → set_uint w n ≡ n
unfolding set_uint fits_uint bits
set_uint_fits w8 n h = ground arith
set_uint_fits w16 n h = ground arith
set_uint_fits w32 n h = ground arith
set_uint_fits w64 n h = ground arith

-- What an integer of a width keeps is a number of that width.
pub fits_int-set_int : (w : Width) (n : ℤ) → fits_int w (set_int w n) ≡ true
unfolding set_int fits_int residue bits
fits_int-set_int w8 (pos n) = ground arith
fits_int-set_int w16 (pos n) = ground arith
fits_int-set_int w32 (pos n) = ground arith
fits_int-set_int w64 (pos n) = ground arith
fits_int-set_int w8 (negsuc n) = ground arith
fits_int-set_int w16 (negsuc n) = ground arith
fits_int-set_int w32 (negsuc n) = ground arith
fits_int-set_int w64 (negsuc n) = ground arith

pub fits_uint-set_uint : (w : Width) (n : ℕ) → fits_uint w (set_uint w n) ≡ true
unfolding set_uint fits_uint bits
fits_uint-set_uint w8 n = ground arith
fits_uint-set_uint w16 n = ground arith
fits_uint-set_uint w32 n = ground arith
fits_uint-set_uint w64 n = ground arith

-- A number of a narrower type is one of 64 bits.
pub fits_int_wider : (w : Width) (n : ℤ) → fits_int w n ≡ true → fits_int w64 n ≡ true
unfolding fits_int bits
fits_int_wider w8 (pos n) h = ground arith
fits_int_wider w16 (pos n) h = ground arith
fits_int_wider w32 (pos n) h = ground arith
fits_int_wider w64 (pos n) h = h
fits_int_wider w8 (negsuc n) h = ground arith
fits_int_wider w16 (negsuc n) h = ground arith
fits_int_wider w32 (negsuc n) h = ground arith
fits_int_wider w64 (negsuc n) h = h

pub fits_uint_wider : (w : Width) (n : ℕ) → fits_uint w n ≡ true → n < 2 ^ 64
unfolding fits_uint bits
fits_uint_wider w8 n h = ground arith
fits_uint_wider w16 n h = ground arith
fits_uint_wider w32 n h = ground arith
fits_uint_wider w64 n h = ground arith
