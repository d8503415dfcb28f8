-- ===== src/Storage/Smgr.antt =====
-- internal/smgr/smgr.go: the errors and the data directory.
use build_postgres.Prelude.Text.{Bytes}

pub data SmgrError : Type 0 where
  exists not_found block_out_of_range corrupt : SmgrError

pub record DataDir : Type 0 where
  pub path : Bytes

-- DataDir.Path
unfoldable pub dir_path : DataDir → Bytes
dir_path d = d.path
