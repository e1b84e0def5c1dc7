-- ===== src/Codec/RoundTrip/Scalars.antt =====
-- marshal.go, unmarshal.go: integers, floats and times.
use dynago.Prelude.{ℕ, ◌≡◌, refl, sym, ap, Bool, true, false, Bytes, Result, ok}
use dynago.Expr.Floats.{format_int}
use dynago.Client.Values.{ℤ, format_signed}
use dynago.Codec.Kept.{IsKeptTime, IsKeptFloat}
use dynago.Codec.Marshal.{Methods, marshal_time}
use dynago.Codec.Numbers.{Formats, fits_int, fits_uint}
use dynago.Codec.Numbers.Digits.{
  fits_int_wider, fits_uint_wider, parse_int-format_signed, parse_uint-format_int, set_int_fits,
  set_uint_fits,
}
use dynago.Codec.Tags.{FieldOptions}
use dynago.Codec.Types.{Width, Instant}
use dynago.Codec.Unmarshal.{
  is_null, number_of, text_of, required, read_int, read_uint, read_float32, unmarshal_time,
}

pub read_int-format_signed :
    (w : Width) (n : ℤ) → fits_int w n ≡ true → read_int w (format_signed n) ≡ ok n
unfolding read_int required
read_int-format_signed w n h =
    rw (parse_int-format_signed n (fits_int_wider w n h), h, set_int_fits w n h) refl

pub read_uint-format_int :
    (w : Width) (n : ℕ) → fits_uint w n ≡ true → read_uint w (format_int n) ≡ ok n
unfolding read_uint required
read_uint-format_int w n h =
    rw (parse_uint-format_int n (fits_uint_wider w n h), h, set_uint_fits w n h) refl

module _ (F : Formats) (M : Methods) where
  pub read_float32_back : (s : Bytes) (f : ℕ) → IsKeptFloat F M s f → read_float32 F M s ≡ ok f
  unfolding read_float32 required
  read_float32_back s f (g, parsed, fits, narrowed) = rw (parsed, fits, narrowed) refl

  pub time_at :
      (b : Bool) (o : FieldOptions) (t : Instant)
      → o.unix_time ≡ b
      → IsKeptTime F M b t
      → (unmarshal_time F M o (marshal_time F M o t) ≡ ok t)
        × (is_null (marshal_time F M o t) ≡ false)
  unfolding unmarshal_time marshal_time number_of text_of required is_null
  time_at true o t e (fits, whole) =
      let read = parse_int-format_signed t.seconds fits in
      let instant : ℕ → Result Instant = λ r. ok (record { seconds = t.seconds; nanos = r }) in
      (rw (e, read) (ap instant (sym whole)), rw e refl)
  time_at false o t e kept = (rw (e, kept) refl, rw e refl)
