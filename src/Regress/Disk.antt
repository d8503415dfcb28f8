-- ===== src/Regress/Disk.antt =====
-- The file system as internal/regress/regress_test.go and internal/isolation/isolation_test.go use it.
use build_postgres.Prelude.{◌≡◌, ◌≢◌, Option, none, List}
use build_postgres.Prelude.Text.{Bytes}
use build_postgres.Prelude.Result.{Result, ok}

-- filepath.Glob, os.ReadFile, os.WriteFile and os.MkdirAll; an error is its text.
pub record Disk (State : Type 0) : Type 0 where
  pub glob : State → Bytes → Result Bytes (List Bytes)
  pub read : State → Bytes → Result Bytes Bytes
  pub write : State → Bytes → Bytes → State × Option Bytes
  pub mkdir_all : State → Bytes → State × Option Bytes

-- WriteFile that does not fail is read back, and a file of another name is left alone.
pub record DiskLaws {State : Type 0} (disk : Disk State) : Type 0 where
  pub read-write :
      (s : State) (path text : Bytes)
      → (disk.write s path text).1 ≡ none
      → disk.read (disk.write s path text).0 path ≡ ok text
  pub write_keeps :
      (s : State) (path other text : Bytes)
      → other ≢ path
      → disk.read (disk.write s path text).0 other ≡ disk.read s other
