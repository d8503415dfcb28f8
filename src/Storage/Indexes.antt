-- ===== src/Storage/Indexes.antt =====
-- internal/index/index.go: Open, Check, CheckUnique, Insert and Build. Their bodies are exercises of the
-- repository: `IndexOps` has them as fields, over the pages behind the pool.
use build_postgres.Prelude.{Bool, Option, List}
use build_postgres.Catalog.{RelationInfo, IndexInfo}
use build_postgres.Sql.Query.{Datum}
use build_postgres.Storage.Btree.{Tree, IndexError}
use build_postgres.Tuple.{Tid}

-- An index error, or one of the packages below.
pub data IndexFailure (E : Type 0) : Type 0 where
  index_error : IndexError → IndexFailure E
  other_error : E → IndexFailure E

-- The row's values, a nil one none, with its nulls; a snapshot that is nil is none, and the zero TID excepts no
-- tuple.
pub record IndexOps (State Snap E : Type 0) : Type 0 where
  pub open_index : RelationInfo → IndexInfo → Tree
  pub check :
      State
      → RelationInfo
      → List (Option Datum)
      → List Bool
      → Tid
      → Option Snap
      → State × Option (IndexFailure E)
  pub check_unique :
      State
      → RelationInfo
      → List (Option Datum)
      → List Bool
      → Tid
      → Option Snap
      → State × Option (IndexFailure E)
  pub insert :
      State
      → RelationInfo
      → List (Option Datum)
      → List Bool
      → Tid
      → Tid
      → Option Snap
      → State × Option (IndexFailure E)
  pub build : State → RelationInfo → IndexInfo → Option Snap → State × Option (IndexFailure E)
