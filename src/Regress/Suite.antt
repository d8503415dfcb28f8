-- ===== src/Regress/Suite.antt =====
-- internal/regress/regress_test.go: TestRegress. The file system, and what Open and Close do to it, are
-- parameters. none is a panic, or a loop over statements that does not end.
pub mod Update
pub mod Twice
use build_postgres.Prelude.{
  ℕ, ◌^◌, Bool, Option, none, some, List, [], ◌∷◌, ◌++◌, if◌then◌else◌, ltb, length, ◌>>=◌,
}
use build_postgres.Prelude.Text.{Bytes, codes, equal}
use build_postgres.Prelude.Result.{Result, ok, err}
use build_postgres.Session.{Session}
use build_postgres.Pgdb.Dump.File.Base.{base_name}
use build_postgres.Regress.Chapters.{ChapterError, up_to_chapter}
use build_postgres.Regress.Compare.{Outcome, fatal, trim_suffix, check}
use build_postgres.Regress.Diff.{split_lines}
use build_postgres.Regress.Disk.{Disk}
use build_postgres.Regress.Run.{run}

abbrev pub root : Bytes
root = codes "../../testdata/regress"

-- The lines that bufio.Scanner delivers from a buffer of a megabyte, and its error: a line is without its newline
-- and a carriage return before it, and the empty text behind the last newline is none.
abbrev pub max_line : ℕ
max_line = 2 ^ 20

unfoldable pub lines_within : List Bytes → List Bytes × Option Bytes
unfolding trim_suffix equal
lines_within [] = ([], none)
lines_within (l ∷ []) =
    if equal l []
    then ([], none)
    else if ltb (length l) max_line
    then (trim_suffix (codes "\r") l ∷ [], none)
    else ([], some (codes "bufio.Scanner: token too long"))
lines_within (l ∷ m ∷ ls) =
    let (more, error) = lines_within (m ∷ ls) in
    if ltb (length l) max_line
    then (trim_suffix (codes "\r") l ∷ more, error)
    else ([], some (codes "bufio.Scanner: token too long"))

unfoldable pub scan_lines : Bytes → List Bytes × Option Bytes
unfolding lines_within split_lines
scan_lines src = lines_within (split_lines src)

-- Why TestRegress itself stops.
pub data SuiteError : Type 0 where
  stopped : Bytes → SuiteError
  no_chapters : ChapterError → SuiteError

-- session.Open on a new directory, and Close.
pub record Opener (State Conn : Type 0) : Type 0 where
  pub open_new : State → State × Result Bytes Conn
  pub close : State → Conn → State

module _ (db : Session) {State : Type 0} (disk : Disk State) (opener : Opener State db.State) where
  -- The test of a file from the session on; Close is deferred.
  unfoldable pub test_session : Bool → Bytes → Bytes → State → db.State → Option (State × Outcome)
  unfolding scan_lines run check
  test_session update name src s new =
      let (lines, error) = scan_lines src in
      (do
        log ← run db lines [] (record { session = new; out = [] })
        (t, o) ← elim error [
          | some e ↦ some (s, fatal (codes "reading the .sql file: " ++ e))
          | none ↦ check disk root update name log.out s
        ]
        some (opener.close t log.session, o))

  abbrev pub test_opened :
      Bool → Bytes → Bytes → State × Result Bytes db.State → Option (State × Outcome)
  test_opened update name src (s, err e) = some (s, fatal e)
  test_opened update name src (s, ok new) = test_session update name src s new

  abbrev pub test_read : Bool → Bytes → Result Bytes Bytes → State → Option (State × Outcome)
  test_read update name (err e) s = some (s, fatal e)
  test_read update name (ok src) s = test_opened update name src (opener.open_new s)

  abbrev pub name_of : Bytes → Bytes
  name_of file = trim_suffix (codes ".sql") (base_name file)

  -- The function that t.Run takes for a file.
  unfoldable pub test : Bool → Bytes → State → Option (State × Outcome)
  unfolding test_session trim_suffix base_name
  test update file s = test_read update (name_of file) (disk.read s file) s

  -- The loop over the files: what becomes of one does not keep the others from running.
  unfoldable pub test_all : Bool → List Bytes → State → Option (State × List (Bytes × Outcome))
  unfolding test
  test_all update [] s = some (s, [])
  test_all update (file ∷ files) s = do
    (t, o) ← test update file s
    (u, os) ← test_all update files t
    some (u, (name_of file, o) ∷ os)

  abbrev pub run_files :
      Bool
      → State
      → Option (Result ChapterError (List Bytes))
      → Option (Result SuiteError (State × List (Bytes × Outcome)))
  run_files update s none = none
  run_files update s (some (err e)) = some (err (no_chapters e))
  run_files update s (some (ok files)) =
      let (t, failed) = disk.mkdir_all s (root ++ codes "/results") in
      elim failed [
        | some e ↦ some (err (stopped e))
        | none ↦ (do r ← test_all update files t; some (ok r))
      ]

  -- TestRegress, given the flag -update and the value of REGRESS_CHAPTER.
  unfoldable pub test_regress :
      Bool → Bytes → State → Option (Result SuiteError (State × List (Bytes × Outcome)))
  unfolding test_all up_to_chapter
  test_regress update limit s = elim (disk.glob s (root ++ codes "/sql/*.sql")) [
    | err e ↦ some (err (stopped e))
    | ok [] ↦ some (err (stopped (codes "no regression files")))
    | ok (file ∷ files) ↦ run_files update s (up_to_chapter limit (file ∷ files))
  ]
