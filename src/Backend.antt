-- ===== src/Backend.antt =====
-- backend.go: the requests and responses of the Backend interface. ConsistentRead and
-- ConsumedCapacity, which the in-memory backend ignores, are left out. The two maps of placeholders
-- of a request stand together.
use dynago.Prelude.{ℕ, Bool, List, Bytes, Option, Assoc}
use dynago.Attribute.{Item}
use dynago.Memdb.Parsing.{Placeholders}

-- GetItemRequest, and TransactGetItem with the same fields
pub record GetItemRequest : Type 0 where
  pub table_name : Bytes
  pub key : Item
  pub projection_expression : Bytes
  pub names : Assoc Bytes

-- PutItemRequest and TransactPut
pub record PutItemRequest : Type 0 where
  pub table_name : Bytes
  pub item : Item
  pub condition_expression : Bytes
  pub placeholders : Placeholders

-- DeleteItemRequest, TransactDelete and TransactConditionCheck
pub record DeleteItemRequest : Type 0 where
  pub table_name : Bytes
  pub key : Item
  pub condition_expression : Bytes
  pub placeholders : Placeholders

-- UpdateItemRequest and TransactUpdate, which has no `return_values`
pub record UpdateItemRequest : Type 0 where
  pub table_name : Bytes
  pub key : Item
  pub update_expression : Bytes
  pub condition_expression : Bytes
  pub placeholders : Placeholders
  pub return_values : Bytes

-- An empty `index_name` reads the table; `limit` is 0 where the source's is not positive.
pub record QueryRequest : Type 0 where
  pub table_name : Bytes
  pub index_name : Bytes
  pub key_condition_expression : Bytes
  pub filter_expression : Bytes
  pub projection_expression : Bytes
  pub placeholders : Placeholders
  pub limit : ℕ
  pub scan_index_forward : Option Bool
  pub exclusive_start_key : Item

pub record ScanRequest : Type 0 where
  pub table_name : Bytes
  pub index_name : Bytes
  pub filter_expression : Bytes
  pub projection_expression : Bytes
  pub placeholders : Placeholders
  pub limit : ℕ
  pub exclusive_start_key : Item

-- QueryResponse and ScanResponse; an empty `last_evaluated_key` is the source's nil
pub record PageResponse : Type 0 where
  pub items : List Item
  pub count : ℕ
  pub scanned_count : ℕ
  pub last_evaluated_key : Item

pub record KeysAndProjection : Type 0 where
  pub keys : List Item
  pub projection_expression : Bytes
  pub names : Assoc Bytes

-- The pointer of WriteRequest that is set, or neither.
pub data WriteRequest : Type 0 where
  put_request : Item → WriteRequest
  delete_request : Item → WriteRequest
  empty_request : WriteRequest

-- The first pointer of TransactWriteItem that is set, or none of them.
pub data TransactWriteItem : Type 0 where
  put : PutItemRequest → TransactWriteItem
  delete : DeleteItemRequest → TransactWriteItem
  update : UpdateItemRequest → TransactWriteItem
  condition_check : DeleteItemRequest → TransactWriteItem
  empty_item : TransactWriteItem
