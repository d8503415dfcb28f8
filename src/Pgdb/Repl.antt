-- ===== src/Pgdb/Repl.antt =====
-- cmd/pgdb/main.go: the loop repl of the shell, and exec, report and command below it. What is printed
-- goes to two writers. The input is the lines that the scanner yields and the error that ends it, if any.
pub mod Order
use build_postgres.Prelude.{
  Bool, true, false, ◌&&◌, Option, none, some, List, [], ◌∷◌, ◌++◌, map, if◌then◌else◌,
}
use build_postgres.Prelude.Text.{Bytes, codes, equal, has_prefix, trim_space, cut_space, newline}
use mathlib.Core.Option
use build_postgres.Prelude.Result.{Result, ok, err}
use build_postgres.Session.{Session, Reply, Column, ExecError, sql_error, other_error}
use build_postgres.Session.Script.{feed}

abbrev backslash : Bytes
backslash = codes "\\"

pub record Shell (State : Type 0) : Type 0 where
  pub session : State
  pub out : Bytes
  pub err_out : Bytes

module _ {State : Type 0} where
  abbrev pub print_out : Shell State → Bytes → Shell State
  print_out s t = record s { out = s.out ++ t }

  abbrev pub print_err : Shell State → Bytes → Shell State
  print_err s t = record s { err_out = s.err_out ++ t }

-- if strings.TrimSpace(buf) == "" { buf = "" }
unfoldable pub reset : Bytes → Bytes
unfolding trim_space equal
reset buf = if equal (trim_space buf) [] then [] else buf

-- buf == "" && strings.HasPrefix(strings.TrimSpace(line), `\`)
unfoldable pub is_command : Bytes → Bytes → Bool
unfolding equal has_prefix trim_space
is_command buf line = equal buf [] && has_prefix (trim_space line) backslash

module _ (db : Session) where
  -- report
  unfoldable pub report : Shell db.State → ExecError → Shell db.State
  report s (sql_error e) = print_err s (db.report e)
  report s (other_error t) = print_err s (codes "ERROR:  " ++ t ++ newline)

  unfoldable pub warn : Shell db.State → List Bytes → Shell db.State
  warn s [] = s
  warn s (w ∷ ws) = warn (print_err s (codes "WARNING:  " ++ w ++ newline)) ws

  -- if r.Columns != nil
  unfoldable pub print_reply : Shell db.State → Reply → Option (List Column) → Shell db.State
  print_reply s r none = print_out s (r.tag ++ newline)
  print_reply s r (some columns) = print_out s (db.render r)

  unfoldable pub print_replies : Shell db.State → List Reply → Shell db.State
  unfolding warn print_reply
  print_replies s [] = s
  print_replies s (r ∷ rs) = print_replies (print_reply (warn s r.warnings) r r.columns) rs

  unfoldable pub report_any : Shell db.State → Option ExecError → Shell db.State
  unfolding report
  report_any s none = s
  report_any s (some e) = report s e

  -- exec
  unfoldable pub exec : Shell db.State → Bytes → Shell db.State
  unfolding print_replies report_any
  exec s stmt =
      let (session, results, failed) = db.exec s.session stmt in
      report_any (print_replies (record s { session = session }) results) failed

  -- What command does with the reply to a backslash command.
  unfoldable pub answer : Shell db.State → db.State × Result ExecError Reply → Shell db.State
  unfolding report
  answer s (session, err e) = report (record s { session = session }) e
  answer s (session, ok r) = print_out (record s { session = session }) (db.render r)

  -- The switch of command on the name and the trimmed argument.
  unfoldable pub dispatch : Shell db.State → Bytes → Bytes → Shell db.State × Bool
  unfolding answer equal
  dispatch s name arg =
      if equal name (codes "\\q")
      then (s, false)
      else if equal name (codes "\\?")
      then (
        print_out s
            (codes "  \\d NAME   describe table\n  \\d, \\dt   list tables\n  \\q        quit\n"),
        true,
      )
      else if equal name (codes "\\dt")
      then (answer s (db.tables s.session), true)
      else if equal name (codes "\\d")
      then (if equal arg []
          then (answer s (db.tables s.session), true)
          else (answer s (db.describe s.session arg), true))
      else (print_err s (codes "invalid command " ++ name ++ codes "\nTry \\? for help.\n"), true)

  -- command
  unfoldable pub command : Shell db.State → Bytes → Shell db.State × Bool
  unfolding dispatch cut_space trim_space
  command s line = let (name, arg) = cut_space line in dispatch s name (trim_space arg)

  -- The prompt of a round.
  unfoldable pub prompt : Bool → Bytes → Shell db.State → Shell db.State
  unfolding equal
  prompt interactive buf s =
      if interactive
      then (if equal buf [] then print_out s (codes "pgdb=# ") else print_out s (codes "pgdb-# "))
      else s

  -- repl from a buffer on: the shell at its end, and the error that it returns. none means that the
  -- fuel of a drain ran out.
  unfoldable pub repl :
      Bool
      → Option Bytes
      → List Bytes
      → Bytes
      → Shell db.State
      → Option (Shell db.State × Option Bytes)
  unfolding prompt is_command command feed exec reset
  repl interactive failed [] buf s =
      some (prompt interactive buf s, Option.map (λ e. codes "reading input: " ++ e) failed)
  repl interactive failed (line ∷ lines) buf s =
      let t = prompt interactive buf s in
      elim (is_command buf line) [
        | true ↦
            let (u, going) = command t (trim_space line) in
            elim going [ true ↦ repl interactive failed lines buf u | false ↦ some (u, none) ]
        | false ↦ elim (feed db.split exec buf line t) [
          | none ↦ none
          | some (left, u) ↦ repl interactive failed lines (reset left) u
        ]
      ]
