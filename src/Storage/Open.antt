-- ===== src/Storage/Open.antt =====
-- The structs of what is open: Pool of internal/bufmgr/bufmgr.go, Catalog and pendingFile of
-- internal/catalog/catalog.go, Cluster and Session of internal/session/session.go, and Scan of
-- internal/btree/btree.go. Locks are not in them, and a frame is a parameter.
use build_postgres.Prelude.{ℕ, Bool, Option, List}
use build_postgres.Prelude.Text.{Bytes, codes}
use build_postgres.Catalog.{RelationInfo}
use build_postgres.Sql.Ast.{Isolation}
use build_postgres.Storage.Btree.{Tree, Bound}
use build_postgres.Storage.Heap.{Relation}
use build_postgres.Storage.Smgr.{DataDir}
use build_postgres.Storage.Txn.{Manager, Transaction}

abbrev pub no_unpinned_buffers : Bytes
no_unpinned_buffers = codes "bufmgr: no unpinned buffers available"

pub record Pool (Frame : Type 0) : Type 0 where
  pub store : DataDir
  pub frames : List Frame

-- Pool.Store
unfoldable pub pool_store : {Frame : Type 0} → Pool Frame → DataDir
pool_store p = p.store

-- A file that the transaction created or dropped.
pub record PendingFile : Type 0 where
  pub oid : ℕ
  pub at_commit : Bool

-- The struct Catalog; snapshot is none until SetSnapshot.
pub record OpenCatalog (Frame Snapshot : Type 0) : Type 0 where
  pub pool : Pool Frame
  pub class : Relation
  pub attr : Relation
  pub index : Relation
  pub cache : List (Bytes × RelationInfo)
  pub snapshot : Option Snapshot
  pub pending : List PendingFile

-- Catalog.Pool
unfoldable pub catalog_pool : {Frame Snapshot : Type 0} → OpenCatalog Frame Snapshot → Pool Frame
catalog_pool c = c.pool

pub record Cluster (Frame File : Type 0) : Type 0 where
  pub store : DataDir
  pub pool : Pool Frame
  pub txn : Manager File

-- The struct Session.
pub record OpenSession (Frame File Snapshot : Type 0) : Type 0 where
  pub cluster : Cluster Frame File
  pub owner : Bool
  pub cat : OpenCatalog Frame Snapshot
  pub tx : Option Transaction
  pub explicit : Bool
  pub failed : Bool
  pub isolation : Isolation
  pub snap : Option Snapshot
  pub waiting : Bool

-- Session.Catalog
unfoldable pub session_catalog :
    {Frame File Snapshot : Type 0} → OpenSession Frame File Snapshot → OpenCatalog Frame Snapshot
session_catalog s = s.cat

abbrev pub in_failed_transaction : Bytes
in_failed_transaction = codes "session: current transaction is aborted"

-- The struct Scan of package btree; an index tuple is its bytes.
pub record Scan (E : Type 0) : Type 0 where
  pub tree : Tree
  pub hi : Option Bound
  pub items : List Bytes
  pub position : ℕ
  pub next : ℕ
  pub failed : Option E
  pub done : Bool
