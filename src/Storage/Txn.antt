-- ===== src/Storage/Txn.antt =====
-- internal/txn/txn.go: transaction status and the layout of the commit log; internal/mvcc/mvcc.go: the
-- interface Log and the struct Snapshot.
use build_postgres.Prelude.{ℕ, ◌*◌, ◌/◌, List, ◌++◌, ◌==◌, if◌then◌else◌}
use build_postgres.Prelude.Text.{Bytes, codes}
use build_postgres.Prelude.Decimal.{itoa}
use build_postgres.Prelude.Result.{Result}

-- Status is a byte with named values.
abbrev pub in_progress : ℕ
in_progress = 0

abbrev pub committed : ℕ
committed = 1

abbrev pub aborted : ℕ
aborted = 2

-- Status.String
unfoldable pub status_string : ℕ → Bytes
status_string s =
    if s == in_progress
    then codes "in progress"
    else if s == committed
    then codes "committed"
    else if s == aborted
    then codes "aborted"
    else codes "Status(" ++ itoa s ++ codes ")"

abbrev pub bits_per_xact : ℕ
bits_per_xact = 2

abbrev pub xacts_per_byte : ℕ
xacts_per_byte = 8 / bits_per_xact

abbrev pub log_page_size : ℕ
log_page_size = 8192

abbrev pub xacts_per_page : ℕ
xacts_per_page = log_page_size * xacts_per_byte

abbrev pub pages_per_segment : ℕ
pages_per_segment = 32

abbrev pub xacts_per_segment : ℕ
xacts_per_segment = xacts_per_page * pages_per_segment

abbrev pub segment_size : ℕ
segment_size = log_page_size * pages_per_segment

abbrev pub dir : Bytes
dir = codes "pg_xact"

pub data TxnError : Type 0 where
  finished future_xid : TxnError

-- The struct Manager: the running transactions, and the open segments by their numbers, as lists. A file
-- is a parameter.
pub record Manager (File : Type 0) : Type 0 where
  pub dir : Bytes
  pub next : ℕ
  pub running : List ℕ
  pub segments : List (ℕ × File)

-- The struct Transaction; its manager is the state that it is used with.
pub record Transaction : Type 0 where
  pub xid : ℕ

-- The interface Log, over a state of the transactions.
pub record Log (State Error : Type 0) : Type 0 where
  pub status : State → ℕ → Result Error ℕ
  pub wait : State → ℕ → State

-- The struct Snapshot of package mvcc.
pub record Snapshot (State Error : Type 0) : Type 0 where
  pub xmin : ℕ
  pub xmax : ℕ
  pub xip : List ℕ
  pub xid : ℕ
  pub log : Log State Error
