-- ===== src/Storage/Store.antt =====
-- internal/smgr/smgr.go: the methods of DataDir. Their bodies are exercises of the repository: `StoreOps` and
-- `DirOps` have them as fields, over what the files hold.
use build_postgres.Prelude.{ℕ, Bool, Option}
use build_postgres.Prelude.Text.{Bytes}
use build_postgres.Prelude.Result.{Result}
use build_postgres.Storage.Smgr.{DataDir}

-- Write and Extend panic on a buffer of another size than a page: none.
pub record StoreOps (State E : Type 0) : Type 0 where
  pub create : State → ℕ → State × Option E
  pub exists : State → ℕ → Result E Bool
  pub unlink : State → ℕ → State × Option E
  pub nblocks : State → ℕ → Result E ℕ
  pub read : State → ℕ → ℕ → Result E Bytes
  pub write : State → ℕ → ℕ → Bytes → Option (State × Option E)
  pub extend : State → ℕ → Bytes → Option (State × Result E ℕ)
  pub sync : State → ℕ → State × Option E

-- Open, which makes the directories, and Close, SyncAll and SyncDir, over what the files hold.
pub record DirOps (State E : Type 0) : Type 0 where
  pub open_dir : State → Bytes → State × Result E DataDir
  pub close : State → DataDir → State × Option E
  pub sync_all : State → DataDir → State × Option E
  pub sync_dir : State → Bytes → State × Option E
