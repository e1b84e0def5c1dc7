-- ===== src/Codec/Types.antt =====
-- The Go types that Marshal and Unmarshal meet by reflection, and the values of each. A pointer is
-- what it points to: that two pointers may be equal is left out. A time is its instant: every use
-- converts it to UTC first. A defined type stands for its underlying type where the program
-- treats both alike, and has a constructor of its own where it does not.
use dynago.Prelude.{ℕ, Bool, false, List, [], Bytes, Option, none}
use dynago.Client.Values.{ℤ, pos, negsuc}
use dynago.Codec.Tags.{StructField}

-- The widths of the integer types; int and uint are 64 bits wide.
pub data Width : Type 0 where
  w8 w16 w32 w64 : Width

unfoldable pub bits : Width → ℕ
bits w8 = 8
bits w16 = 16
bits w32 = 32
bits w64 = 64

-- A time.Time: its Unix time and the nanoseconds within the second.
pub record Instant : Type 0 where
  pub seconds : ℤ
  pub nanos : ℕ

-- The key of a map type: string, a defined type of kind String, or one of another kind.
pub data KeyType : Type 0 where
  string_key defined_string_key other_key : KeyType

mutual
  pub data GoType : Type 0 where
    string_type bool_type time_type : GoType
    int_type uint_type : Width → GoType
    float32_type float64_type : GoType
    -- slice_of (uint_type w8) is []byte
    slice_of pointer_to : GoType → GoType
    -- a defined type whose underlying type is []byte
    defined_bytes : GoType
    map_of : KeyType → GoType → GoType
    struct_of : FieldTypes → GoType
    -- a struct with MarshalDynamo on the value and UnmarshalDynamo on the pointer
    custom_type : ℕ → FieldTypes → GoType
    -- an interface, nil or not; an array, a channel, a function
    interface_type other_type : GoType

  pub data FieldTypes : Type 0 where
    no_fields : FieldTypes
    field : StructField → GoType → FieldTypes → FieldTypes

-- The values of a type. A float is the bit pattern of the float64 that v.Float() returns. The keys
-- of a map stand in the order of its iteration; those that are not strings are not looked at.
abbrev mutual
  pub El : GoType → Type 0
  El string_type = Bytes
  El bool_type = Bool
  El time_type = Instant
  El (int_type w) = ℤ
  El (uint_type w) = ℕ
  El float32_type = ℕ
  El float64_type = ℕ
  El (slice_of t) = Option (List (El t))
  El (pointer_to t) = Option (El t)
  El defined_bytes = Option Bytes
  El (map_of k t) = Option (List (Bytes × El t))
  El (struct_of fs) = Fields fs
  El (custom_type c fs) = Fields fs
  El interface_type = Bool
  El other_type = Unit

  pub Fields : FieldTypes → Type 0
  Fields no_fields = Unit
  Fields (field sf t fs) = El t × Fields fs

-- year 1, January 1
abbrev pub zero_time : Instant
zero_time = record { seconds = negsuc 62135596799; nanos = 0 }

-- reflect.Zero; an interface is false when it is nil
abbrev mutual
  pub zero_value : (t : GoType) → El t
  zero_value string_type = []
  zero_value bool_type = false
  zero_value time_type = zero_time
  zero_value (int_type w) = pos 0
  zero_value (uint_type w) = 0
  zero_value float32_type = 0
  zero_value float64_type = 0
  zero_value (slice_of t) = none
  zero_value (pointer_to t) = none
  zero_value defined_bytes = none
  zero_value (map_of k t) = none
  zero_value (struct_of fs) = zero_fields fs
  zero_value (custom_type c fs) = zero_fields fs
  zero_value interface_type = false
  zero_value other_type = tt

  pub zero_fields : (fs : FieldTypes) → Fields fs
  zero_fields no_fields = tt
  zero_fields (field sf t fs) = (zero_value t, zero_fields fs)
