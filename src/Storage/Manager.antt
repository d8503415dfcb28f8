-- ===== src/Storage/Manager.antt =====
-- internal/txn/txn.go: the methods of Manager and Transaction. Their bodies are exercises of the
-- repository: `ManagerOps` has them as fields, over what a manager and its log hold.
use build_postgres.Prelude.{ℕ, Option, List}
use build_postgres.Prelude.Text.{Bytes}
use build_postgres.Prelude.Result.{Result}

-- A transaction is its ID. Snapshot returns xmin, xmax and the running IDs.
pub record ManagerOps (State E : Type 0) : Type 0 where
  pub next_xid : State → ℕ
  pub begin : State → State × Result E ℕ
  pub commit : State → ℕ → State × Option E
  pub abort : State → ℕ → State × Option E
  pub status : State → ℕ → Result E ℕ
  pub snapshot : State → ℕ × ℕ × List ℕ

-- Open and Close of a manager, over the files of its log.
pub record LogOps (Files State E : Type 0) : Type 0 where
  pub open_log : Files → Bytes → Files × Result E State
  pub close : Files → State → Files × State × Option E

-- Wait returns the manager as it is when the transaction has finished, and none where that does not happen.
pub record WaitOps (State : Type 0) : Type 0 where
  pub wait : State → ℕ → Option State
  pub waiting : State → ℕ
