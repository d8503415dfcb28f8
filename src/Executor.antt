-- ===== src/Executor.antt =====
-- internal/executor/executor.go: errors, rows, the interface Node and what nodes need from outside.
pub mod Expr
use build_postgres.Prelude.{ℕ, Option, List}
use build_postgres.Prelude.Text.{Bytes, codes}
use build_postgres.Prelude.Result.{Result}
use build_postgres.Tuple.{Tid}
use build_postgres.Sql.Ast.{Isolation}
use build_postgres.Sql.Plan
use build_postgres.Storage.Heap.{Snapshot}
use build_postgres.Executor.Expr.{ValueRow}

pub data Sentinel : Type 0 where
  not_null invalid_row_count serialization_failure : Sentinel

unfoldable pub message : Sentinel → Bytes
message not_null = codes "not-null violation"
message invalid_row_count = codes "invalid row count"
message serialization_failure = codes "serialization failure"

pub record Error : Type 0 where
  pub cause : Sentinel
  pub msg : Bytes

-- Error.Error
unfoldable pub error_text : Error → Bytes
error_text e = e.msg

-- Error.Unwrap
unfoldable pub unwrap : Error → Sentinel
unwrap e = e.cause

-- A row of a heap, with the tuple that it was read from.
pub record Row : Type 0 where
  pub row : ValueRow
  pub tid : Tid

-- The interface Node, over the state of a node; Next yields none at the end.
pub record Node (State E : Type 0) : Type 0 where
  pub open_node : State → State × Option E
  pub next : State → State × Result E (Option Row)
  pub rescan : State → State × Option E
  pub close : State → State × Option E

-- The struct Env; the pool is a parameter, and a nil snapshot none.
pub record Env (Pool State E : Type 0) : Type 0 where
  pub pool : Pool
  pub xid : ℕ
  pub snapshot : Option (Snapshot State E)
  pub isolation : Isolation

-- Build, whose panic is none, and Exec, with the rows and the number of rows processed.
pub record ExecutorOps (Pool State E Float Tree : Type 0) : Type 0 where
  pub build : Plan.Node Float → Env Pool State E → Option (Node Tree E × Tree)
  pub exec : State → Plan.Node Float → Env Pool State E → State × Result E (List Row × ℕ)
