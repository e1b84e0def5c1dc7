-- ===== src/Client/ReadModifyWrite/Versions.antt =====
-- rmw.go: getVersionField and setVersionField on a struct, through reflection.
use dynago.Prelude.{
  ℕ, zero, suc, Bool, [], ◌∷◌, Bytes, Result, ok, err, validation, panic, ◌≟◌, ◌==◌, if◌then◌else◌,
}
use Prim.Native.Nat.{◌^◌}
use dynago.Client.Values.{ℤ, pos, negsuc}
use dynago.Codec.Numbers.{Formats, residue, set_int, set_uint}
use dynago.Codec.Tags.{StructField}
use dynago.Codec.Types.{
  w64, GoType, FieldTypes, El, Fields, int_type, uint_type, float32_type, float64_type, no_fields,
  field,
}

-- The conversions int64(f) and float64(n) of the language.
pub record Conversions : Type 0 where
  pub to_int : ℕ → ℤ
  pub of_int : ℤ → ℕ

-- name[:indexOf(name, ',')]
unfoldable pub before_comma : Bytes → Bytes
before_comma [] = []
before_comma (c ∷ s) = let rest = before_comma s in if c == b',' then [] else c ∷ rest

-- The name of a field: its tag up to the first comma, or its own name.
unfoldable pub version_name : StructField → Bytes
unfolding before_comma
version_name sf = elim (before_comma sf.tag) [ [] ↦ sf.field_name | c ∷ s ↦ c ∷ s ]

-- oldVersion + 1 on int64
unfoldable pub add_one : ℤ → ℤ
add_one (pos n) = pos (suc n)
add_one (negsuc zero) = pos 0
add_one (negsuc (suc n)) = negsuc n

unfoldable pub next_version : ℤ → ℤ
unfolding add_one set_int
next_version old = set_int w64 (add_one old)

module _ (F : Formats) (C : Conversions) where
  -- The cases of fv.Kind() of getVersionField
  unfoldable pub version_of : (t : GoType) → El t → Result ℤ
  unfolding set_int
  version_of (int_type w) n = ok n
  version_of (uint_type w) n = ok (set_int w64 (pos n))
  version_of float32_type f = ok (C.to_int f)
  version_of float64_type f = ok (C.to_int f)
  version_of t x = err validation

  -- The cases of setVersionField
  unfoldable pub with_version : (t : GoType) → ℤ → Result (El t)
  unfolding set_int set_uint residue
  with_version (int_type w) v = ok (set_int w v)
  with_version (uint_type w) v = ok (set_uint w (residue (2 ^ 64) v))
  with_version float32_type v = ok (F.narrow (C.of_int v))
  with_version float64_type v = ok (C.of_int v)
  with_version t v = err validation

  -- getVersionField
  unfoldable pub get_version_field : (fs : FieldTypes) → Bytes → Fields fs → Result ℤ
  unfolding version_name version_of
  get_version_field no_fields name item = err validation
  get_version_field (field sf t fs) name (x, xs) =
      let rest = get_version_field fs name xs in
      if version_name sf ≟ name then version_of t x else rest

  -- The value set, of a field that reflection may set
  unfoldable pub settable : {A : Type 0} → Bool → Result A → Result A
  settable exported (err e) = err e
  settable exported (ok x) = if exported then ok x else err panic

  -- setVersionField
  unfoldable pub set_version_field : (fs : FieldTypes) → Bytes → ℤ → Fields fs → Result (Fields fs)
  unfolding version_name with_version settable
  set_version_field no_fields name v item = err validation
  set_version_field (field sf t fs) name v (x, xs) =
      let rest = set_version_field fs name v xs in
      if version_name sf ≟ name
      then elim (settable sf.exported (with_version t v)) [ ok y ↦ ok (y, xs) | err e ↦ err e ]
      else elim rest [ ok ys ↦ ok (x, ys) | err e ↦ err e ]
