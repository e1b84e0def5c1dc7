-- ===== src/Client/ReadModifyWrite.antt =====
-- rmw.go: ReadModifyWrite, among other writers.
pub mod Versions
pub mod Guarded
use dynago.Prelude.{
  ℕ, zero, suc, Bool, true, false, List, [], ◌∷◌, ◌++◌, Bytes, bytes, Option, none, some, Error,
  Result, ok, err, condition_failed, panic, ◌>>=◌,
}
use dynago.Attribute.{Item}
use dynago.Backend.{GetItemRequest, PutItemRequest}
use dynago.Client.Keys.{KeyValue}
use dynago.Client.ReadModifyWrite.Versions.{
  Conversions, next_version, get_version_field, set_version_field,
}
use dynago.Client.Requests.Items.{ClientTable, PutOption, put_condition, client_get, client_put}
use dynago.Client.Values.{Printers, go_int}
use dynago.Codec.Marshal.{Methods, marshal}
use dynago.Codec.Numbers.{Formats}
use dynago.Codec.Types.{FieldTypes, Fields, struct_of, pointer_to, zero_fields}
use dynago.Codec.Unmarshal.{unmarshal}

-- The backend that a call works with, and what others write there between the read and the write of
-- an attempt, by the attempts that are left.
pub record Peer (S : Type 0) : Type 0 where
  pub get_item : GetItemRequest → S → Result (Option Item)
  pub put_item : PutItemRequest → S → S × Result (Unit {0})
  pub others : ℕ → S → S

-- A call of ReadModifyWrite on a struct: the library it runs in, the table, the key, the function of
-- the caller, and the discriminator of an entity.
pub record Rmw : Type 0 where
  pub formats : Formats
  pub methods : Methods
  pub conversions : Conversions
  pub printers : Printers
  pub table : ClientTable
  pub types : FieldTypes
  pub key : KeyValue
  pub modify : Fields types → Result (Fields types)
  pub entity : Fields types → Option Bytes

-- What Unmarshal leaves in a variable that it was given a pointer to
unfoldable pub filled : {A : Type 0} → Option A → Result A
filled none = err panic
filled (some x) = ok x

module _ (R : Rmw) where
  -- Get[T], of a variable of type T
  unfoldable pub read_struct : Item → Result (Fields R.types)
  unfolding filled
  read_struct item = do
    x ←
        unmarshal R.formats R.methods (pointer_to (struct_of R.types)) item
          (some (zero_fields R.types))
    filled x

  -- The item to write and the options of Put, with the attribute of the version, if there is one.
  unfoldable pub prepared : Bytes → Fields R.types → Result (Fields R.types × List PutOption)
  unfolding next_version
  prepared [] item = do changed ← R.modify item; ok (changed, [])
  prepared (c ∷ attr) item = do
    changed ← R.modify item
    old ← get_version_field R.formats R.conversions R.types (c ∷ attr) changed
    stamped ←
        set_version_field R.formats R.conversions R.types (c ∷ attr) (next_version old) changed
    ok (stamped, put_condition ((c ∷ attr) ++ bytes " = ?") (go_int old ∷ []) ∷ [])

  -- Whether an error leads to another attempt, with so many left.
  unfoldable pub retries : Bytes → ℕ → Error → Bool
  retries (c ∷ attr) (suc left) condition_failed = true
  retries _ _ _ = false

  module _ {S : Type 0} (peer : Peer S) where
    -- t.Put
    unfoldable pub put_struct : Fields R.types → List PutOption → S → S × Result (Unit {0})
    put_struct item opts s =
        client_put R.printers R.table peer.put_item
          (marshal R.formats R.methods (struct_of R.types) item) (R.entity item) opts s

    -- Get[T]
    unfoldable pub get_struct : S → Result (Fields R.types)
    unfolding read_struct
    get_struct s = client_get read_struct R.table (λ req. peer.get_item req s) R.key []

    -- The loop with a number of attempts left.
    unfoldable pub rmw_from : Bytes → ℕ → S → S × Result (Unit {0})
    unfolding prepared retries put_struct get_struct
    rmw_from version_attr zero s = (s, err condition_failed)
    rmw_from version_attr (suc left) s = elim (do item ← get_struct s; prepared version_attr item) [
      | err e ↦ (s, err e)
      | ok (item, opts) ↦
          let (end, outcome) = put_struct item opts (peer.others left s) in
          elim outcome [
            | ok u ↦ (end, ok tt)
            | err e ↦ elim (retries version_attr left e) [
              | true ↦ rmw_from version_attr left end
              | false ↦ (end, err e)
            ]
          ]
    ]

    -- ReadModifyWrite, with the options OptimisticLock and MaxRetries
    unfoldable pub read_modify_write : Bytes → ℕ → S → S × Result (Unit {0})
    unfolding rmw_from
    read_modify_write version_attr max_retries s = rmw_from version_attr (suc max_retries) s
