-- ===== src/Storage/Relation.antt =====
-- internal/heap/heap.go: the methods of Relation and Scan. Their bodies are exercises of the repository:
-- `RelationOps` has them as fields, over the pages of a relation and its handle.
use build_postgres.Prelude.{ℕ, Bool, Option}
use build_postgres.Prelude.Text.{Bytes}
use build_postgres.Prelude.Result.{Result}
use build_postgres.Storage.Heap.{HeapError}
use build_postgres.Tuple.{Tid, Desc}

-- An error of the package, or of the packages below it.
pub data RelationError (E : Type 0) : Type 0 where
  heap_error : HeapError → RelationError E
  pool_error : E → RelationError E

-- A snapshot that is nil is none; Wait, the hint bits and the position of a scan are in the state that a call
-- returns.
pub record RelationOps (State Pool Snap Cursor E : Type 0) : Type 0 where
  pub create : Pool → ℕ → Desc → Pool × Result (RelationError E) State
  pub reopen : Pool → ℕ → Desc → State
  pub nblocks : State → Result E ℕ
  pub insert : State → Bytes → ℕ → State × Result (RelationError E) Tid
  pub fetch : State → Tid → Option Snap → State × Result (RelationError E) (Bytes × Bool)
  pub delete : State → Tid → ℕ → Option Snap → State × Option (RelationError E)
  pub lock : State → Tid → ℕ → Option Snap → State × Option (RelationError E)
  pub update : State → Tid → Bytes → ℕ → Option Snap → State × Result (RelationError E) Tid
  pub scan : State → Option Snap → Cursor
  pub next : State → Cursor → State × Cursor × Bool
  pub scan_tid : Cursor → Tid
  pub scan_tuple : Cursor → Bytes
  pub scan_err : Cursor → Option (RelationError E)
  pub close_scan : Cursor → Cursor
