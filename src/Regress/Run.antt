-- ===== src/Regress/Run.antt =====
-- internal/regress/regress_test.go: run and report.
use build_postgres.Prelude.{not, Option, none, some, List, [], ◌∷◌, ◌++◌, if◌then◌else◌}
use build_postgres.Prelude.Text.{Bytes, codes, equal, trim_space, newline}
use build_postgres.Session.{Session, Reply, ExecError, sql_error, other_error}
use build_postgres.Session.Script.{feed}

pub record Log (State : Type 0) : Type 0 where
  pub session : State
  pub out : Bytes

module _ {State : Type 0} where
  abbrev pub write : Log State → Bytes → Log State
  write s t = record s { out = s.out ++ t }

module _ (db : Session) where
  -- report
  unfoldable pub report : ExecError → Bytes
  report (sql_error e) = db.report e
  report (other_error t) = codes "ERROR:  " ++ t ++ newline

  unfoldable pub write_warnings : List Bytes → Log db.State → Log db.State
  write_warnings [] s = s
  write_warnings (w ∷ ws) s = write_warnings ws (write s (codes "WARNING:  " ++ w ++ newline))

  unfoldable pub write_replies : List Reply → Log db.State → Log db.State
  unfolding write_warnings
  write_replies [] s = s
  write_replies (r ∷ rs) s = write_replies rs (write (write_warnings r.warnings s) (db.render r))

  unfoldable pub write_error : Option ExecError → Log db.State → Log db.State
  unfolding report
  write_error none s = s
  write_error (some e) s = write s (report e)

  -- The body of the loop over statements.
  unfoldable pub exec : Log db.State → Bytes → Log db.State
  unfolding write_replies write_error
  exec s stmt =
      let (session, results, failed) = db.exec s.session stmt in
      write_error failed (write_replies results (record s { session = session }))

  -- A nonempty line is echoed.
  unfoldable pub echo : Bytes → Log db.State → Log db.State
  unfolding equal trim_space
  echo line s = if not (equal (trim_space line) []) then write s (line ++ newline) else s

  -- run from a buffer on, over the lines of the script; none means that the fuel of a drain ran out.
  unfoldable pub run : List Bytes → Bytes → Log db.State → Option (Log db.State)
  unfolding echo feed exec
  run [] buf s = some s
  run (line ∷ lines) buf s = elim (feed db.split exec buf line (echo line s)) [
    | none ↦ none
    | some (left, t) ↦ run lines left t
  ]
