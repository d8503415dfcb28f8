-- ===== src/Catalog/Oids.antt =====
-- internal/catalog/catalog.go and control.go: the functions and the methods of Catalog. Their bodies are
-- exercises of the repository: `ControlOps` and `CatalogOps` have them as fields.
use build_postgres.Prelude.{ℕ, Bool, Option, List}
use build_postgres.Prelude.Text.{Bytes}
use build_postgres.Prelude.Int.{ℤ}
use build_postgres.Prelude.Result.{Result}
use build_postgres.Catalog.{CatalogError, Control, RelationInfo, IndexInfo}
use build_postgres.Tuple.{Desc}

-- ReadControl, WriteControl and UpdateControl, over the files of a directory.
pub record ControlOps (Files E : Type 0) : Type 0 where
  pub read_control : Files → Bytes → Result E Control
  pub write_control : Files → Bytes → Control → Files × Option E
  pub update_control : Files → Bytes → (Control → Control) → Files × Option E

-- An error of the package, or of the packages below it.
pub data CatalogFailure (E : Type 0) : Type 0 where
  catalog_error : CatalogError → CatalogFailure E
  other_error : E → CatalogFailure E

-- Bootstrap and Open are on a pool; SetSnapshot is given a function that makes a snapshot, or nil.
pub record CatalogOps (Pool State Snap E : Type 0) : Type 0 where
  pub bootstrap : Pool → Pool × Result (CatalogFailure E) State
  pub reopen : Pool → Result (CatalogFailure E) State
  pub pool : State → Pool
  pub new_oid : State → State × Result (CatalogFailure E) ℕ
  pub create_table : State → Bytes → Desc → ℕ → State × Result (CatalogFailure E) ℕ
  pub drop_table : State → Bytes → ℕ → State × Option (CatalogFailure E)
  pub lookup : State → Bytes → State × Result (CatalogFailure E) RelationInfo
  pub lookup_oid : State → ℕ → State × Result (CatalogFailure E) RelationInfo
  pub tables : State → State × Result (CatalogFailure E) (List RelationInfo)
  pub create_index :
      State → Bytes → ℕ → ℕ → Bool → Bool → ℕ → State × Result (CatalogFailure E) IndexInfo
  pub drop_index : State → Bytes → ℕ → State × Option (CatalogFailure E)
  pub lookup_index : State → Bytes → State × Result (CatalogFailure E) IndexInfo
  pub update_stats : State → ℕ → ℤ → ℤ → ℕ → State × Option (CatalogFailure E)
  pub set_snapshot : State → Option (State → Snap) → State
  pub end_transaction : State → Bool → State × Option (CatalogFailure E)
  pub invalidate : State → State
