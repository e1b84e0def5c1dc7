-- ===== src/Memdb/Updates/Agrees.antt =====
-- memdb/expression.go against internal/expr/eval_update.go: the two implementations of updates.
use dynago.Prelude.{
  ◌≡◌, ◌⊎◌, inl, inr, refl, List, [], ◌∷◌, Bytes, Option, none, some, Error, Result, ok, err, arith,
}
use dynago.Attribute.{AttributeValue, Item, no_attrs, type_m}
use dynago.Attribute.Items.{get_attr, set_attr_same}
use dynago.Expr.Update.{set_checked}
use dynago.Memdb.Updates.Changes.{set_nested}

set_checked_fresh :
    (part : Bytes) (parts : List Bytes) (val : AttributeValue)
    → set_checked part parts val no_attrs ≡ ok (set_nested part parts val no_attrs)
unfolding set_checked set_nested get_attr
set_checked_fresh part [] val = refl
set_checked_fresh part (next ∷ parts) val = ground (arith, set_checked_fresh next parts val)

-- Both write the same, or the one fails and the other changes nothing.
abbrev Agree : Result Item → Item → Item → Type 0
Agree checked written item =
    (checked ≡ ok written) ⊎ ((checked ≡ err Error.expression) × (written ≡ item))

below :
    (part next : Bytes) (parts : List Bytes) (val : AttributeValue) (item : Item)
    → ((m : Item) → Agree (set_checked next parts val m) (set_nested next parts val m) m)
    → (found : Option AttributeValue) → get_attr part item ≡ found
    → Agree
        (set_checked part (next ∷ parts) val item)
        (set_nested part (next ∷ parts) val item)
        item
unfolding set_checked set_nested
below part next parts val item again none e =
    inl (ground (arith, e, set_checked_fresh next parts val))
below part next parts val item again (some (type_m m)) e = elim (again m) [
  | inl same ↦ inl (ground (arith, e, same))
  | inr (failed, kept) ↦
      inr (ground (arith, e, failed), ground (arith, e, kept, set_attr_same part (type_m m) item e))
]
below part next parts val item again (some (AttributeValue.type_none)) e =
    inr (ground (arith, e), ground (arith, e))
below part next parts val item again (some (AttributeValue.type_s s)) e =
    inr (ground (arith, e), ground (arith, e))
below part next parts val item again (some (AttributeValue.type_n n)) e =
    inr (ground (arith, e), ground (arith, e))
below part next parts val item again (some (AttributeValue.type_b b)) e =
    inr (ground (arith, e), ground (arith, e))
below part next parts val item again (some (AttributeValue.type_bool b)) e =
    inr (ground (arith, e), ground (arith, e))
below part next parts val item again (some (AttributeValue.type_null b)) e =
    inr (ground (arith, e), ground (arith, e))
below part next parts val item again (some (AttributeValue.type_l vs)) e =
    inr (ground (arith, e), ground (arith, e))
below part next parts val item again (some (AttributeValue.type_ss ss)) e =
    inr (ground (arith, e), ground (arith, e))
below part next parts val item again (some (AttributeValue.type_ns ns)) e =
    inr (ground (arith, e), ground (arith, e))
below part next parts val item again (some (AttributeValue.type_bs bs)) e =
    inr (ground (arith, e), ground (arith, e))

-- A write along a path that succeeds in EvalUpdate leaves the same item in the in-memory backend,
-- and one that fails there changes nothing here.
pub set_checked-set_nested :
    (part : Bytes) (parts : List Bytes) (val : AttributeValue) (item : Item)
    → (set_checked part parts val item ≡ ok (set_nested part parts val item))
      ⊎ ((set_checked part parts val item ≡ err Error.expression)
          × (set_nested part parts val item ≡ item))
unfolding set_checked set_nested
set_checked-set_nested part [] val item = inl refl
set_checked-set_nested part (next ∷ parts) val item =
    below part next parts val item (λ m. set_checked-set_nested next parts val m)
      (get_attr part item) refl
