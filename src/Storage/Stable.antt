-- ===== src/Storage/Stable.antt =====
-- internal/mvcc/mvcc.go: Take, InProgress, Visible, Dirty, Modify and Wait. Their bodies are exercises of the
-- repository: `SnapshotOps` and `DirtyOps` have them as fields, over the transaction manager.
use build_postgres.Prelude.{ℕ, Bool, List}
use build_postgres.Prelude.Result.{Result}
use build_postgres.Tuple.{Tid, Header}
use build_postgres.Storage.Heap.{Snapshot, DirtyView, Tm}
use build_postgres.Prelude.Text.{Bytes}

-- The snapshot without its log, which is the manager.
pub record Bounds : Type 0 where
  pub xmin : ℕ
  pub xmax : ℕ
  pub xip : List ℕ
  pub xid : ℕ

-- Visible returns the tuple with the hint bits that it sets.
pub record SnapshotOps (State E : Type 0) : Type 0 where
  pub take : State → ℕ → Bounds
  pub in_progress : Bounds → ℕ → Bool
  pub visible : Bounds → State → Header → Header × Result E Bool

-- Dirty, Modify and Wait of a snapshot, on the bytes of a tuple; Visible too, as the interface has it.
pub record DirtyOps (State E : Type 0) : Type 0 where
  pub visible : Bounds → State → Bytes → Bytes × Result E Bool
  pub dirty : Bounds → State → Bytes → Bytes × Result E DirtyView
  pub modify : Bounds → State → Bytes → Tid → Bytes × Result E Tm
  pub wait : Bounds → State → ℕ → State

-- var _ heap.Snapshot = (*Snapshot)(nil): a snapshot has the methods of the interface.
unfoldable pub as_snapshot : {State E : Type 0} → DirtyOps State E → Bounds → Snapshot State E
as_snapshot ops b = record {
  visible = λ s t. let (u, r) = ops.visible b s t in (s, u, r);
  dirty = λ s t. let (u, r) = ops.dirty b s t in (s, u, r);
  modify = λ s t tid. let (u, r) = ops.modify b s t tid in (s, u, r);
  wait = λ s xid. ops.wait b s xid;
}
