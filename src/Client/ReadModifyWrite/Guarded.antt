-- ===== src/Client/ReadModifyWrite/Guarded.antt =====
-- rmw.go on the in-memory backend: what a call that succeeds has written.
use dynago.Prelude.{ℕ, ◌≡◌, List, [], ◌∷◌, ◌++◌, Bytes, bytes, some, ok}
use dynago.Attribute.{Item}
use dynago.Expr.Floats.{FloatOps}
use dynago.Memdb.Schema.{MemoryBackend}
use dynago.Memdb.Reads.Get.{get_item_request}
use dynago.Memdb.Writes.Single.{put_item, check_condition}
use dynago.Memdb.Writes.Effects.{read, overwrite}
use dynago.Client.Conditions.Build.{ConditionExpr, build_condition}
use dynago.Client.ReadModifyWrite.{Peer, Rmw, prepared, put_struct, get_struct}
use dynago.Client.ReadModifyWrite.Versions.{next_version, get_version_field, set_version_field}
use dynago.Client.Requests.Items.{PutOption, discriminated}
use dynago.Client.Values.{ℤ, go_int}
use dynago.Codec.Marshal.{marshal}
use dynago.Codec.Types.{Fields, struct_of}

module _ (R : Rmw) where
  module _ {S : Type 0} (peer : Peer S) where
    -- The attempt that succeeded.
    abbrev Attempt : Bytes → S → Type 0
    Attempt name end =
        (seen : S) × (left : ℕ) × (item : Fields R.types) × (w : Fields R.types) × (opts : List
          PutOption)
        × ((get_struct R peer seen ≡ ok item)
            × ((prepared R name item ≡ ok (w, opts))
                × (put_struct R peer w opts (peer.others left seen) ≡ (end, ok tt))))

-- The in-memory backend among other writers
abbrev pub in_memory_peer : FloatOps → (ℕ → MemoryBackend → MemoryBackend) → Peer MemoryBackend
in_memory_peer G others = record {
  get_item = λ req m. get_item_request req m;
  put_item = λ req m. put_item G req m;
  others = others;
}

-- A write of an attempt, from the item that the attempt read to the backend that it leaves.
pub record Guarded (R : Rmw) (G : FloatOps) (others : ℕ → MemoryBackend → MemoryBackend)
    (name : Bytes) (end : MemoryBackend) : Type 0 where
  -- the backend that was read, and the attempts that were left
  pub seen : MemoryBackend
  pub left : ℕ
  pub item : Fields R.types
  pub changed : Fields R.types
  pub stamped : Fields R.types
  pub old : ℤ
  pub av : Item
  pub cond : ConditionExpr
  pub hash : Bytes
  pub range : Bytes
  pub was_read : get_struct R (in_memory_peer G others) seen ≡ ok item
  pub had_version : get_version_field R.formats R.conversions R.types name item ≡ ok old
  pub was_changed : R.modify item ≡ ok changed
  pub was_stamped :
      set_version_field R.formats R.conversions R.types name (next_version old) changed ≡ ok stamped
  pub was_marshalled : marshal R.formats R.methods (struct_of R.types) stamped ≡ ok av
  pub conditioned : build_condition R.printers (name ++ bytes " = ?") (go_int old ∷ []) ≡ ok cond
  -- the condition, of what stood at the place at the moment of the write
  pub held :
      check_condition G cond.expression cond.placeholders
        (read (others left seen) R.table.name hash range)
      ≡ ok tt
  pub written :
      (n k s : Bytes)
      → read end n k s
        ≡ overwrite R.table.name hash range
            (some (discriminated R.table.discriminator_attr (R.entity stamped) av))
            (read (others left seen))
            n
            k
            s
