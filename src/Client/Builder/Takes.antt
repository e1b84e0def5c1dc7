-- ===== src/Client/Builder/Takes.antt =====
-- internal/expr/builder.go: results of the parser that take tokens and arguments.
use dynago.Prelude.{
  ℕ, ◌≤◌, ◌<◌, ◌≡◌, ◌≢◌, refl, sym, ap, ◌∙◌, Bool, true, false, List, [], ◌∷◌, ◌++◌, Bytes, map,
  length, if◌then◌else◌, Result, ok, err, out_of_fuel, arith,
}
use mathlib.Core.List.{append_assoc, append-nil}
use dynago.Attribute.{AttributeValue}
use dynago.Expr.Ast.{
  LogicalOp, UpdateAction, Node, Nodes, nil, compare_node, logical_node, func_node, path_node,
  value_node, update_node, projection_node, no_nodes, node,
}
use dynago.Client.Values.{GoValue, Printers, go_to_attribute_value}
use dynago.Memdb.Parsing.{Parser, ◌>>=◌}
use dynago.Memdb.Conditions.Fits.{Fits}
use dynago.Client.Builder.{add_node}

-- The values of a tree that are written out, from left to right: NOT has no right operand, and
-- REMOVE no value.
unfoldable mutual
  pub node_values : Node → List AttributeValue
  node_values nil = []
  node_values (compare_node left op right) = node_values left ++ node_values right
  node_values (logical_node LogicalOp.not left right) = node_values left
  node_values (logical_node op left right) = node_values left ++ node_values right
  node_values (func_node name args) = nodes_values args
  node_values (path_node parts) = []
  node_values (value_node v) = v ∷ []
  node_values (update_node UpdateAction.remove path val) = []
  node_values (update_node action path val) = node_values val
  node_values (projection_node paths) = []

  pub nodes_values : Nodes → List AttributeValue
  nodes_values no_nodes = []
  nodes_values (node n ns) = node_values n ++ nodes_values ns

pub nodes_values-add_node :
    (ns : Nodes) (n : Node) → nodes_values (add_node ns n) ≡ nodes_values ns ++ node_values n
unfolding nodes_values add_node
nodes_values-add_node no_nodes n = append-nil (node_values n)
nodes_values-add_node (node m ms) n =
    ap (λ vs. node_values m ++ vs) (nodes_values-add_node ms n)
    ∙ sym (append_assoc (node_values m) (nodes_values ms) (node_values n))

module _ (P : Printers) where
  -- What is known of values and arguments: these values, and then these arguments.
  abbrev pub known : List AttributeValue → List GoValue → List (Result AttributeValue)
  known vs args = map ok vs ++ map (go_to_attribute_value P) args

  -- A result that is not for want of fuel, leaves fewer than `n` tokens, and has taken its values
  -- from the front of the arguments.
  abbrev pub Takes :
      {A : Type 0}
      → (A → List AttributeValue)
      → ℕ
      → List (Result AttributeValue)
      → Result ((A × List GoValue) × List Bytes)
      → Type 0
  Takes vals n start (ok ((x, later), us)) = (length us < n) × (start ≡ known (vals x) later)
  Takes vals n start (err e) = e ≢ out_of_fuel

  -- Values that are taken after others.
  pub joined :
      (before new : List AttributeValue) (args later : List GoValue)
      → known [] args ≡ known new later
      → known before args ≡ known (before ++ new) later
  joined [] new args later e = e
  joined (v ∷ before) new args later e = ap (λ vs. ok v ∷ vs) (joined before new args later e)

  pub Takes-from :
      {A : Type 0} (vals : A → List AttributeValue) (n : ℕ)
      (start start' : List (Result AttributeValue)) (r : Result ((A × List GoValue) × List Bytes))
      → start ≡ start'
      → Takes vals n start' r
      → Takes vals n start r
  Takes-from vals n start start' (ok ((x, later), us)) same (fewer, e) = (fewer, same ∙ e)
  Takes-from vals n start start' (err e) same fits = fits

  pub Takes-weaken :
      {A : Type 0} (vals : A → List AttributeValue) (n m : ℕ) (start : List (Result AttributeValue))
      (r : Result ((A × List GoValue) × List Bytes))
      → n ≤ m
      → Takes vals n start r
      → Takes vals m start r
  Takes-weaken vals n m start (ok ((x, later), us)) h (fewer, e) = (omega (arith, h, fewer), e)
  Takes-weaken vals n m start (err e) h fits = fits

  pub Takes-test :
      {A : Type 0} (vals : A → List AttributeValue) (n : ℕ) (start : List (Result AttributeValue))
      (b : Bool) (x y : Result ((A × List GoValue) × List Bytes))
      → (b ≡ true → Takes vals n start x)
      → (b ≡ false → Takes vals n start y)
      → Takes vals n start (if b then x else y)
  Takes-test vals n start true x y on_true on_false = on_true refl
  Takes-test vals n start false x y on_true on_false = on_false refl

  pub Takes-bind :
      {A B : Type 0} (va : A → List AttributeValue) (vb : B → List AttributeValue) (n m : ℕ)
      (start start' : List (Result AttributeValue)) (q : Parser (A × List GoValue))
      (f : A × List GoValue → Parser (B × List GoValue)) (ts : List Bytes)
      → Takes va n start (q ts)
      → ((x : A) (later : List GoValue) (us : List Bytes)
          → length us < n
          → start ≡ known (va x) later
          → Takes vb m start' (f (x, later) us))
      → Takes vb m start' ((q >>= f) ts)
  Takes-bind {A = A} {B = B} va vb n m start start' q f ts first next = bound (q ts) first
    where
      bound :
          (r : Result ((A × List GoValue) × List Bytes))
          → Takes va n start r
          → Takes vb m start' (elim r [ ok (a, rest) ↦ f a rest | err e ↦ err e ])
      bound (ok ((x, later), us)) (fewer, e) = next x later us fewer e
      bound (err e) first = first

  pub Takes-after :
      {B : Type 0} (vb : B → List AttributeValue) (n m : ℕ) (start : List (Result AttributeValue))
      (q : Parser (Unit {0})) (f : Unit {0} → Parser (B × List GoValue)) (ts : List Bytes)
      → Fits n (q ts)
      → ((us : List Bytes) → length us < n → Takes vb m start (f tt us))
      → Takes vb m start ((q >>= f) ts)
  Takes-after {B = B} vb n m start q f ts first next = bound (q ts) first
    where
      bound :
          (r : Result (Unit {0} × List Bytes))
          → Fits n r
          → Takes vb m start (elim r [ ok (a, rest) ↦ f a rest | err e ↦ err e ])
      bound (ok (a, us)) fewer = next us fewer
      bound (err e) first = first
