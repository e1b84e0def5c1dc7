-- ===== src/Lib.antt =====
-- A model of dynago: its in-memory DynamoDB backend (memdb/), the expression evaluator (internal/expr)
-- and the client that builds requests, reads pages, sends batches and transactions, with theorems.
--
-- The program. A client builds requests of the Backend interface (backend.go). The in-memory backend
-- answers them: MemoryBackend maps table names to tables, a table maps hash keys to partitions and a
-- partition range keys to items, and each secondary index of a table has such a map of its own, which
-- updateGSIs changes after every write. Conditions, filters and updates come as text; memdb parses it
-- (memdb/expression.go) and evaluates the tree on an item (internal/expr/eval.go).
--
-- The files.
--   Prelude       shared names and lemmas: bytes and their text functions, association lists for Go
--                 maps, and Result for Go's pairs of a value and an error.
--   Attribute     attribute.go and deepCopyItem, deepCopyAV of memdb/memdb.go. Item is the Go map
--                 from names to values; Attribute/Items reads and writes it.
--   Expr          internal/expr/ast.go, eval.go and eval_update.go: Node, resolvePathValue, Eval and
--                 its helpers, and EvalUpdate in Expr/Update.
--   Backend       backend.go: the requests and responses.
--   Memdb/Schema, Keys, Partitions, Gsi
--                 memdb/memdb.go: tableData with its schema, extractKey and keyString, storeItem,
--                 getItem, deleteItem, and updateGSIs.
--   Memdb/Tokens, Parsing, Conditions
--                 memdb/expression.go: tokenizeExpr, exprParser and evalCondition.
--   Memdb/Updates memdb/expression.go: updateParser, the values of SET, and evalUpdateNodes.
--   Memdb/KeyCondition
--                 memdb/memdb.go: parseKeyCondition and matchesSortKeyCondition.
--   Memdb/Reads   memdb/memdb.go: GetItem, Query, Scan, BatchGetItem, TransactGetItems.
--   Memdb/Writes  memdb/memdb.go: PutItem, DeleteItem, UpdateItem, BatchWriteItem and
--                 TransactWriteItems. Calls runs lists of such calls, Effects states the abstract
--                 store, a function from table, hash key and range key to an item.
--   Client/Values, Keys
--                 key.go, and the conversions of Go values of condition.go and internal/expr/builder.go.
--   Client/Conditions
--                 condition.go: tokenizeExpr, buildCondition, mergeConditions.
--   Client/Updates update.go: the clauses of an update and buildUpdateRequest.
--   Client/Requests
--                 put.go, delete.go, get.go, the calls of update.go, query.go and scan.go, and the
--                 builders of transaction.go.
--   Client/ReadModifyWrite
--                 rmw.go: the loop of attempts, among other writers; Versions the version field of a
--                 struct, Guarded the calls on the in-memory backend.
--   Client/Registry
--                 registry.go and polymorphic.go: the types of items.
--   Client/Translation
--                 internal/expr/translate.go: aliases, values and the text of expressions; Values also
--                 composes it with ParseCondition.
--   Client/Pages  query.go, scan.go, iter.go, collection.go: the loops over pages.
--   Client/Batch  batch.go: chunks, retries and progress.
--   Codec         codec.go, marshal.go and unmarshal.go: GoType is the types that reflection tells
--                 apart and El the values of each; parseTag, Marshal and Unmarshal. Read states
--                 what a value that was read has to do with its attribute.
--   Client/Builder
--                 internal/expr/builder.go: tokenize, ParseCondition and the updates that are built.
--   Middleware    middleware.go, logging.go and dynagotel/dynagotel.go: Interface has the methods of
--                 Backend and the in-memory backend as one, over a world with a clock, a list of
--                 events and the span in the context of a call; Observers the two wrappers.
--   Client/Errors errors.go and tx_errors.go: the errors and what they are.
--   Aws           awsbackend/translate.go: values to the SDK and back; aws.go: its errors.
--   Tests         runs at concrete inputs.
--
-- State and errors. A handler is a function from the backend to the backend it leaves and a result.
-- A handler that stops part-way leaves what it wrote before. The locks are not part of the state: a
-- handler is one step. A handler of one table holds its lock from the first read to the last write;
-- a batch takes the lock of each of its tables in turn, and calls that come between two tables of a
-- batch have no counterpart.
-- Error keeps the sentinels that a caller can test for, and none of the messages. A Go map is an
-- association list; where the source iterates over a request's map, the order of the list is the
-- order of that iteration. Strings are lists of bytes, and the functions on letter case change ASCII
-- letters only.
--
-- Numbers. DynamoDB's numbers are text. What the source does with float64 goes through FloatOps, a
-- parameter with the operations of strconv, fmt and the language that are used (parsing, comparison,
-- sum, difference, printing). Tests instantiate it with natural numbers.
--
-- Fuel. The parsers recurse over tokens on fuel: 8 n + 8 for a condition of n tokens, in memdb and in
-- internal/expr, and 4 n + 4 for an update expression. Between two calls that consume a token a
-- condition passes through at most seven parsing functions, an update through at most three. The
-- retries of a batch have fuel 6, for the first call and five retries. The loops over pages end when the backend has no more pages;
-- their fuel is the number of pages. Running out is an error of its own.
--
-- Parameters. The client works on any backend: it is a function from a request to a response, with a
-- state where the call writes. To the calls of the client, Marshal and Unmarshal are functions between
-- items and values; Codec defines them, with Formats for the floats and times of strconv and time,
-- and Methods for the types that marshal themselves, and ReadModifyWrite uses those of Codec. Printers
-- is how strconv and fmt print floats, and Conversions how Go converts between float64 and int64. Sdk
-- is types.AttributeValue of the AWS SDK, with a type switch, and SdkErrors what errors.As and
-- errors.Is find in an error of the SDK. ErrGroup is errgroup.Group with a limit of one, the default
-- of a batch. Context says at which retry the context of a call ends. An option of the client that
-- panics gives the error panic, since the program ends there.
--
-- Not modelled. Batches with a concurrency above one; the requests of the AWS backend (copies between
-- two sets of structs) and test helpers. MaxConcurrency, ConsistentRead and the texts of errors have
-- no counterpart. A negative MaxRetries, with which nothing is tried, is left out.
pub mod Prelude
pub mod Attribute
pub mod Expr
pub mod Memdb
pub mod Backend
pub mod Client
pub mod Codec
pub mod Middleware
pub mod Aws
mod Tests
