-- ===== src/Storage/Tree.antt =====
-- internal/btree/btree.go: the functions on index tuples and pages, and the methods of Tree and Scan. Their
-- bodies are exercises of the repository: `IndexTupleOps`, `OpaqueOps` and `TreeOps` have them as fields. collect is
-- that of internal/btree/btree_test.go.
use build_postgres.Prelude.{ℕ, zero, suc, Bool, true, false, Option, none, some, List, [], ◌∷◌}
use build_postgres.Prelude.Text.{Bytes}
use build_postgres.Prelude.Result.{Result}
use build_postgres.Sql.Query.{Datum}
use build_postgres.Storage.Btree.{BtreeError, Opaque, Meta, Bound}
use build_postgres.Tuple.{Tid}

-- A key that is nil is none; an index tuple and a page are bytes.
pub record IndexTupleOps : Type 0 where
  pub form_index_tuple : ℕ → Option Datum → Tid → Result BtreeError Bytes
  pub tid : Bytes → Tid
  pub size : Bytes → ℕ
  pub is_null : Bytes → Bool
  pub is_pivot : Bytes → Bool
  pub is_minus_inf : Bytes → Bool
  pub heap_tid : Bytes → Tid
  pub key : Bytes → ℕ → Option Datum

-- ReadOpaque and WriteOpaque
pub record OpaqueOps : Type 0 where
  pub read_opaque : Bytes → Opaque
  pub write_opaque : Bytes → Opaque → Bytes

-- An error of the package, or of the packages below it.
pub data TreeError (E : Type 0) : Type 0 where
  btree_error : BtreeError → TreeError E
  pool_error : E → TreeError E

-- Tree, over the pages of a relation, and Scan, which holds its position in the cursor. Create and Open are on
-- the pool.
pub record TreeOps (Pool State Cursor E : Type 0) : Type 0 where
  pub create : Pool → ℕ → ℕ → Pool × Result (TreeError E) State
  pub reopen : Pool → ℕ → ℕ → State
  pub oid : State → ℕ
  pub key_type : State → ℕ
  pub meta : State → Result (TreeError E) Meta
  pub insert : State → Option Datum → Tid → State × Option (TreeError E)
  pub search : State → Option Datum → Result (TreeError E) (ℕ × ℕ)
  pub scan : State → Option Bound → Option Bound → Cursor
  pub next : State → Cursor → Cursor × Bool
  pub scan_tid : Cursor → Tid
  pub scan_key : Cursor → Option Datum
  pub scan_null : Cursor → Bool
  pub scan_err : Cursor → Option (TreeError E)
  pub close : Cursor → Cursor
  pub check : State → Option (TreeError E)

-- The struct entry of the tests.
pub record Entry : Type 0 where
  pub key : Option Datum
  pub tid : Tid

module _ {Pool State Cursor E : Type 0} (ops : TreeOps Pool State Cursor E) where
  abbrev pub after_next : Cursor × Bool → (Cursor → Option (List Entry)) → Option (List Entry)
  after_next (c, false) more = some []
  after_next (c, true) more = elim (more c) [
    | none ↦ none
    | some out ↦ some (record { key = ops.scan_key c; tid = ops.scan_tid c } ∷ out)
  ]

  -- The loop of collect, on fuel.
  unfoldable pub collect : ℕ → State → Cursor → Option (List Entry)
  collect zero s c = none
  collect (suc fuel) s c = after_next (ops.next s c) (λ d. collect fuel s d)
