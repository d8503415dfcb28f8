-- ===== src/Pgdb/Main.antt =====
-- cmd/pgdb/main.go: main, usage and run. What the operating system and the database do is a parameter: the
-- files that can be opened, the file system that sample writes to, the sessions, the lines of the standard input.
pub mod Runs
pub mod Arguments
pub mod Ends
pub mod Total
use build_postgres.Prelude.{Bool, Option, none, some, List, [], ◌∷◌, ◌++◌, ℕ, if◌then◌else◌}
use build_postgres.Prelude.Text.{Bytes, codes, equal, has_prefix, newline}
use build_postgres.Prelude.Decimal.{atoi}
use build_postgres.Prelude.Int.{ℤ, pos, negsuc}
use build_postgres.Prelude.Result.{Result, ok, err}
use build_postgres.Page.{PageReader}
use build_postgres.Tuple.{HeaderReader}
use build_postgres.Session.{Session}
use build_postgres.Pgdb.Sample.{PageWriter, TupleWriter, FileSystem, Sampled, sample}
use build_postgres.Pgdb.Dump.File.{RelFile, Run, dump}
use build_postgres.Pgdb.Repl.{Shell, repl}

-- What the arguments ask for.
pub data Command : Type 0 where
  usage_error : Command
  bad_block : Command
  sample_into : Bytes → Command
  dump_file : Bytes → ℤ → Command
  shell : Bytes → Command

abbrev pub sample_args : List Bytes → Command
sample_args [] = usage_error
sample_args (d ∷ []) = sample_into d
sample_args (d ∷ x ∷ more) = usage_error

-- BLOCK, as Atoi reads it.
abbrev pub block_arg : Bytes → Option ℤ → Command
block_arg file none = bad_block
block_arg file (some (negsuc n)) = bad_block
block_arg file (some (pos n)) = dump_file file (pos n)

abbrev pub dump_args : List Bytes → Command
dump_args [] = usage_error
dump_args (file ∷ []) = dump_file file (negsuc 0)
dump_args (file ∷ t ∷ []) = block_arg file (atoi t)
dump_args (file ∷ t ∷ x ∷ more) = usage_error

abbrev pub shell_args : Bytes → List Bytes → Command
shell_args a [] = if has_prefix a (codes "-") then usage_error else shell a
shell_args a (x ∷ more) = usage_error

-- The switch of main on the arguments.
unfoldable pub choose : List Bytes → Command
unfolding equal has_prefix atoi
choose [] = usage_error
choose (a ∷ args) =
    if equal a (codes "sample")
    then sample_args args
    else if equal a (codes "dump")
    then dump_args args
    else shell_args a args

-- What the process prints, and the status that it exits with.
pub record Exit : Type 0 where
  pub out : Bytes
  pub err_out : Bytes
  pub status : ℕ

unfoldable pub usage : Exit
usage = record {
  out = [];
  err_out = codes "usage: pgdb DATADIR\n       pgdb sample DIR\n       pgdb dump FILE [BLOCK]\n";
  status = 2;
}

-- An error ends the process with its text behind the program's name.
unfoldable pub fail_with : Bytes → Bytes → Option Bytes → Exit
fail_with out err_out none = record { out = out; err_out = err_out; status = 0 }
fail_with out err_out (some e) = record {
  out = out;
  err_out = err_out ++ codes "pgdb: " ++ e ++ newline;
  status = 1;
}

-- run
unfoldable pub run_command : Option Run → Option Exit
unfolding fail_with
run_command none = none
run_command (some x) = some (fail_with x.out [] x.error)

-- What sample prints, and its error.
abbrev pub sampled : Option Sampled → Option Run
sampled none = none
sampled (some s) = some s.run

-- if rerr == nil { rerr = cerr }
abbrev pub first_error : Option Bytes → Option Bytes → Option Bytes
first_error none cerr = cerr
first_error (some e) cerr = some e

module _ (r : PageReader) (h : HeaderReader) (db : Session)
    (open_file : Bytes → Result Bytes RelFile) (pw : PageWriter) (tw : TupleWriter)
    (fs : FileSystem) (open_session : Bytes → Result Bytes db.State)
    (close : db.State → Option Bytes) (interactive : Bool) (lines : List Bytes)
    (failed : Option Bytes) where
  -- What follows repl.
  unfoldable pub close_shell : Option (Shell db.State × Option Bytes) → Option Exit
  unfolding fail_with
  close_shell none = none
  close_shell (some (s, rerr)) =
      some (fail_with s.out s.err_out (first_error rerr (close s.session)))

  -- What follows session.Open.
  unfoldable pub run_shell : Result Bytes db.State → Option Exit
  unfolding fail_with close_shell
  run_shell (err e) = some (fail_with [] [] (some e))
  run_shell (ok s) =
      close_shell
        (repl db interactive failed lines [] (record { session = s; out = []; err_out = [] }))

  unfoldable pub perform : Command → Option Exit
  unfolding usage run_command run_shell sample
  perform usage_error = some usage
  perform bad_block =
      some (record { out = []; err_out = codes "pgdb: BLOCK must be a block number\n"; status = 2 })
  perform (sample_into d) = run_command (sampled (sample pw tw fs d))
  perform (dump_file file blk) = run_command (dump r h (open_file file) file blk)
  perform (shell d) = run_shell (open_session d)

  -- main; none is a panic.
  unfoldable pub main : List Bytes → Option Exit
  unfolding choose perform
  main args = perform (choose args)
