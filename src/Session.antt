-- ===== src/Session.antt =====
-- internal/session/session.go: results, errors, and the calls that the shell and the regression runner
-- make of a session. The bodies of these calls are exercises of the repository: `Session` has them as
-- fields, and `SplitLaws` what the comment of Split promises.
pub mod Script
use build_postgres.Prelude.{ℕ, ◌<◌, ◌≡◌, Bool, Option, some, List, [], ◌++◌, length}
use build_postgres.Prelude.Text.{Bytes, codes, trim_space}
use build_postgres.Prelude.Result.{Result}
use build_postgres.Lexer.{Pos}

abbrev pub n_frames : ℕ
n_frames = 256

abbrev pub warn_no_transaction : Bytes
warn_no_transaction = codes "there is no transaction in progress"

abbrev pub warn_already_transaction : Bytes
warn_already_transaction = codes "there is already a transaction in progress"

pub record Column : Type 0 where
  pub name : Bytes
  pub typ : ℕ

-- The struct Result. A row holds the texts of its values, as FormatDatum gives them; columns is none
-- where the slice is nil.
pub record Reply : Type 0 where
  pub tag : Bytes
  pub title : Bytes
  pub no_count : Bool
  pub columns : Option (List Column)
  pub rows : List (List Bytes)
  pub footer : List Bytes
  pub warnings : List Bytes

-- The struct Error; the underlying error is its text.
pub record SqlError : Type 0 where
  pub msg : Bytes
  pub at : Pos
  pub query : Bytes
  pub cause : Bytes

-- Error.Error
unfoldable pub error_text : SqlError → Bytes
error_text e = e.msg

-- Error.Unwrap
unfoldable pub unwrap : SqlError → Bytes
unwrap e = e.cause

-- An error value: errors.As finds a *Error in it, or it does not and has a text.
pub data ExecError : Type 0 where
  sql_error : SqlError → ExecError
  other_error : Bytes → ExecError

pub record Session : Type 1 where
  pub State : Type 0
  pub exec : State → Bytes → State × List Reply × Option ExecError
  pub tables : State → State × Result ExecError Reply
  pub describe : State → Bytes → State × Result ExecError Reply
  pub split : Bytes → Option (Bytes × Bytes)
  pub render : Reply → Bytes
  pub report : SqlError → Bytes

-- Split cuts a statement off the text: what is left is shorter; the statement ends at a semicolon, so
-- that text behind it does not change it; and leading white space, which is what TrimSpace takes off, is
-- dropped.
pub record SplitLaws (split : Bytes → Option (Bytes × Bytes)) : Type 0 where
  pub split_shorter :
      (src stmt rest : Bytes) → split src ≡ some (stmt, rest) → length rest < length src
  pub split-append :
      (src stmt rest more : Bytes)
      → split src ≡ some (stmt, rest)
      → split (src ++ more) ≡ some (stmt, rest ++ more)
  pub split_blank : (s t : Bytes) → trim_space s ≡ [] → split (s ++ t) ≡ split t

-- OpenCluster, Connect and Close of a cluster.
pub record ClusterOps (State Cluster Conn E : Type 0) : Type 0 where
  pub open_cluster : State → Bytes → State × Result E Cluster
  pub connect : State → Cluster → State × Result E Conn
  pub close_cluster : State → Cluster → State × Option E

-- Blocked, Open and Close of a session.
pub record ConnOps (State Conn E : Type 0) : Type 0 where
  pub blocked : State → Conn → Bool
  pub open_session : State → Bytes → State × Result E Conn
  pub close_session : State → Conn → State × Option E

-- Result.String and FormatDatum; a datum that is nil is none.
pub record RenderOps (Value : Type 0) : Type 0 where
  pub result_text : Reply → Bytes
  pub format_datum : Option Value → Bytes
