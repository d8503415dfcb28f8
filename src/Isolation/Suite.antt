-- ===== src/Isolation/Suite.antt =====
-- internal/isolation/isolation_test.go: TestIsolation. The files and the clusters are parameters, and none is a
-- loop or a receive that does not end, or a panic.
use build_postgres.Prelude.{ℕ, Bool, Option, none, some, List, [], ◌∷◌, ◌++◌, ◌>>=◌}
use build_postgres.Prelude.Text.{Bytes, codes}
use build_postgres.Prelude.Result.{Result, ok, err}
use build_postgres.Pgdb.Dump.File.Base.{base_name}
use build_postgres.Regress.Compare.{Outcome, fatal, trim_suffix, check}
use build_postgres.Regress.Disk.{Disk}
use build_postgres.Isolation.Play
use build_postgres.Isolation.Play.{Host}

abbrev pub root : Bytes
root = codes "../../testdata/isolation"

-- count is utf8.RuneCountInString and quote the verb %q of fmt. Each file has clusters of its own, which start
-- out as `new`.
module _ (count : Bytes → ℕ) (quote : Bytes → Bytes) {World State : Type 0} (host : Host World)
    (new : World) (fuel : ℕ) (disk : Disk State) where
  abbrev pub name_of : Bytes → Bytes
  name_of file = trim_suffix (codes ".spec") (base_name file)

  abbrev pub test_read : Bool → Bytes → Result Bytes Bytes → State → Option (State × Outcome)
  test_read update file (err e) s = some (s, fatal e)
  test_read update file (ok src) s = elim (Play.test count host quote fuel file src new) [
    | none ↦ none
    | some (err e) ↦ some (s, fatal e)
    | some (ok got) ↦ check disk root update (name_of file) got s
  ]

  -- The function that t.Run takes for a file.
  unfoldable pub test_file : Bool → Bytes → State → Option (State × Outcome)
  unfolding Play.test check trim_suffix base_name
  test_file update file s = test_read update file (disk.read s file) s

  -- The loop over the files.
  unfoldable pub test_files : Bool → List Bytes → State → Option (State × List (Bytes × Outcome))
  unfolding test_file
  test_files update [] s = some (s, [])
  test_files update (file ∷ files) s = do
    (t, o) ← test_file update file s
    (u, os) ← test_files update files t
    some (u, (name_of file, o) ∷ os)

  -- TestIsolation, given the flag -update; err is t.Fatal.
  unfoldable pub test_isolation :
      Bool → State → Option (Result Bytes (State × List (Bytes × Outcome)))
  unfolding test_files
  test_isolation update s = elim (disk.glob s (root ++ codes "/specs/*.spec")) [
    | err e ↦ some (err e)
    | ok [] ↦ some (err (codes "no isolation specs"))
    | ok (file ∷ files) ↦
        let (t, failed) = disk.mkdir_all s (root ++ codes "/results") in
        elim failed [
          | some e ↦ some (err e)
          | none ↦ (do r ← test_files update (file ∷ files) t; some (ok r))
        ]
  ]
