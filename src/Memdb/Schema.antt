-- ===== src/Memdb/Schema.antt =====
-- memdb/memdb.go: schemas, tables and the backend's map of tables.
use dynago.Prelude.{
  List, [], ◌∷◌, Bytes, Option, none, some, Assoc, lookup, insert, Result, ok, err, validation,
  panic,
}
use dynago.Attribute.{Item}

pub data KeyType : Type 0 where
  string_key number_key binary_key : KeyType

-- `key_type` is the source's Type.
pub record KeyDef : Type 0 where
  pub name : Bytes
  pub key_type : KeyType

pub record GsiSchema : Type 0 where
  pub name : Bytes
  pub hash_key : KeyDef
  pub range_key : Option KeyDef

pub record TableSchema : Type 0 where
  pub hash_key : KeyDef
  pub range_key : Option KeyDef
  pub gsis : List GsiSchema

-- hash -> range -> item
abbrev pub Partitions : Type 0
Partitions = Assoc (Assoc Item)

pub record GsiData : Type 0 where
  pub schema : GsiSchema
  pub items : Partitions

pub record TableData : Type 0 where
  pub schema : TableSchema
  pub items : Partitions
  pub gsis : Assoc GsiData

-- MemoryBackend: its map of tables. The locks are not part of the state: a handler is one step.
abbrev pub MemoryBackend : Type 0
MemoryBackend = Assoc TableData

-- New
abbrev pub new_backend : MemoryBackend
new_backend = []

empty_gsis : List GsiSchema → Assoc GsiData → Assoc GsiData
empty_gsis [] built = built
empty_gsis (gsi ∷ rest) built =
    empty_gsis rest (insert gsi.name (record { schema = gsi; items = [] }) built)

unfoldable pub empty_table : TableSchema → TableData
unfolding empty_gsis
empty_table schema = record { schema = schema; items = []; gsis = empty_gsis schema.gsis [] }

register : Bytes → TableSchema → MemoryBackend → Option TableData → Result MemoryBackend
register name schema m (some td) = err panic
register name schema m none = ok (insert name (empty_table schema) m)

-- CreateTable panics if the table is there already.
unfoldable pub create_table : Bytes → TableSchema → MemoryBackend → Result MemoryBackend
unfolding register empty_table
create_table name schema m = register name schema m (lookup name m)

or_validation {ℓ} : {A : Type ℓ} → Option A → Result A
or_validation none = err validation
or_validation (some a) = ok a

-- (m *MemoryBackend) table
unfoldable pub table : Bytes → MemoryBackend → Result TableData
unfolding or_validation
table name m = or_validation (lookup name m)
