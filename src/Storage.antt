-- ===== src/Storage.antt =====
-- The packages below the executor: smgr, heap, txn, mvcc, bufmgr, btree and index. Their operations are
-- exercises of the repository; what stands there is their constants, types and interfaces.
pub mod Txn
pub mod Heap
pub mod Btree
pub mod Smgr
pub mod Verdicts
pub mod Manager
pub mod Stable
pub mod Store
pub mod Open
pub mod Relation
pub mod Tree
pub mod Indexes
