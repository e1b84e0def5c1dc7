-- ===== src/Expr/Ast.antt =====
-- internal/expr/ast.go
use dynago.Prelude.{List, Bytes}
use dynago.Attribute.{AttributeValue}

pub data CompareOp : Type 0 where
  eq ne lt le gt ge : CompareOp

pub data LogicalOp : Type 0 where
  and or not : LogicalOp

pub data UpdateAction : Type 0 where
  set add remove delete : UpdateAction

mutual
  pub data Node : Type 0 where
    -- Go's nil, the right operand of NOT and the value of REMOVE
    nil : Node
    compare_node : Node → CompareOp → Node → Node
    logical_node : LogicalOp → Node → Node → Node
    func_node : Bytes → Nodes → Node
    path_node : List Bytes → Node
    value_node : AttributeValue → Node
    update_node : UpdateAction → List Bytes → Node → Node
    projection_node : List (List Bytes) → Node

  -- []Node
  pub data Nodes : Type 0 where
    no_nodes : Nodes
    node : Node → Nodes → Nodes
