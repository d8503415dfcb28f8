-- ===== src/Tests/Suites.antt =====
-- Scripts that are run with -update and then without, on a file system that never fails.
use build_postgres.Prelude.{
  map, ◌≡◌, ◌≢◌, refl, inl, inr, arith, true, false, Option, none, some, List, [], ◌∷◌, ◌++◌,
  if◌then◌else◌, Bool-cases, subst, All,
}
use build_postgres.Prelude.Text.{Bytes, codes, equal, equal_refl, equal-eq}
use build_postgres.Prelude.Result.{Result, ok, err}
use build_postgres.Prelude.Decimal.{itoa}
use build_postgres.Pgdb.Dump.File.Base.{base_name}
use build_postgres.Session.{Session, ExecError}
use build_postgres.Regress.Chapters.{chapter_of}
use build_postgres.Regress.Compare.{trim_suffix, Outcome, passed, differs}
use build_postgres.Regress.Disk.{Disk, DiskLaws}
use build_postgres.Regress.Suite.{name_of, Opener, test_all, test_regress, SuiteError}
use build_postgres.Regress.Suite.Update.{OpenerLaws, Again}
use build_postgres.Regress.Suite.Twice.{Separate, test_all-update}
use build_postgres.Tests.Sessions.{diary, split}

abbrev Files : Type 0
Files = List (Bytes × Bytes)

lookup : Files → Bytes → Result Bytes Bytes
unfolding equal
lookup [] path = err (codes "no such file")
lookup ((p, t) ∷ s) path = let rest = lookup s path in if equal path p then ok t else rest

abbrev first : Bytes
first = codes "../../testdata/regress/sql/ch01_a.sql"

abbrev second : Bytes
second = codes "../../testdata/regress/sql/ch02_b.sql"

abbrev scripts : List Bytes
scripts = first ∷ second ∷ []

abbrev disk : Disk Files
disk = record {
  glob = λ s pattern. ok scripts;
  read = λ s path. lookup s path;
  write = λ s path text. ((path, text) ∷ s, none);
  mkdir_all = λ s path. (s, none);
}

lookup_same : (s : Files) (path text : Bytes) → lookup ((path, text) ∷ s) path ≡ ok text
unfolding lookup
lookup_same s path text = rw (equal_refl path) refl

lookup_other :
    (s : Files) (path other text : Bytes)
    → other ≢ path
    → lookup ((path, text) ∷ s) other ≡ lookup s other
unfolding lookup
lookup_other s path other text d = elim (Bool-cases (equal other path)) [
  | inl e ↦ absurd (d (equal-eq other path e))
  | inr e ↦ rw e refl
]

disk_laws : DiskLaws disk
disk_laws = record {
  read-write = λ s path text e. lookup_same s path text;
  write_keeps = λ s path other text d. lookup_other s path other text d;
}

-- Every statement fails. A session leaves a file in its directory.
abbrev db : Session
db = record diary { exec = λ s stmt. (stmt ∷ s, [], some (ExecError.other_error stmt)) }

abbrev own : Bytes
own = codes "/tmp/data"

abbrev opener : Opener Files (List Bytes)
opener = record {
  open_new = λ s. ((own, []) ∷ s, ok []);
  close = λ s conn. (own, codes "closed") ∷ s;
}

abbrev Temp : Bytes → Type 0
Temp path = path ≡ own

opener_laws : OpenerLaws disk opener Temp []
opener_laws = record {
  opens = λ s. refl;
  open_keeps = λ s path d. lookup_other s own path [] d;
  close_keeps = λ s conn path d. lookup_other s own path (codes "closed") d;
}

abbrev output : Bytes
output = codes "select 1;\nERROR:  select 1;\n"

abbrev before : Files
before = (first, codes "select 1;\r\n") ∷ (second, codes "\n-- nothing") ∷ []

abbrev after : Files
after =
    (own, codes "closed")
    ∷ (codes "../../testdata/regress/expected/ch02_b.out", codes "-- nothing\n")
    ∷ (codes "../../testdata/regress/results/ch02_b.out", codes "-- nothing\n")
    ∷ (own, [])
    ∷ (own, codes "closed")
    ∷ (codes "../../testdata/regress/expected/ch01_a.out", output)
    ∷ (codes "../../testdata/regress/results/ch01_a.out", output)
    ∷ (own, [])
    ∷ before

abbrev passes : List (Bytes × Outcome)
passes = (codes "ch01_a", passed) ∷ (codes "ch02_b", passed) ∷ []

updated : test_all db disk opener true scripts before ≡ some (after, passes)
unfolding test_all split lookup
updated = refl

unlike : (s t : Bytes) → equal s t ≡ false → s ≢ t
unlike s t h e =
    let k : equal t t ≡ false = subst (λ x. equal x t ≡ false) e h in ground (arith, equal_refl t)

separate : Separate db disk opener Temp [] disk_laws opener_laws scripts
unfolding trim_suffix base_name equal
separate = (
  ((unlike _ _ refl, unlike _ _ refl, (unlike _ _ refl, unlike _ _ refl))),
  (
    (
      ((unlike _ _ refl, unlike _ _ refl), (unlike _ _ refl, unlike _ _ refl)),
      ((unlike _ _ refl, unlike _ _ refl), (unlike _ _ refl, unlike _ _ refl)),
    ),
    tt,
  ),
  ((unlike _ _ refl, unlike _ _ refl, (unlike _ _ refl, unlike _ _ refl)), tt, tt),
)

test_all-update_example :
    (u : Files) × (again : List (Bytes × Outcome)) × (test_all db disk opener false scripts after
      ≡ some (u, again))
    × All (λ x. Again disk x.0 x.1) again
    × (map (λ x. x.0) again ≡ map (λ f. name_of db disk opener f) scripts)
test_all-update_example =
    test_all-update db disk opener Temp [] disk_laws opener_laws scripts before after passes
      separate updated (refl, (refl, tt))

-- The outcomes of the whole suite.
abbrev outcomes :
    Option (Result SuiteError (Files × List (Bytes × Outcome))) → List (Bytes × Outcome)
outcomes (some (ok (s, os))) = os
outcomes _ = []

same_again : outcomes (test_regress db disk opener false [] after) ≡ passes
unfolding test_regress split lookup
same_again = refl

-- The expected output lacks the error.
differs_lines :
    outcomes (
      test_regress db disk opener false
        (codes "1")
        ((codes "../../testdata/regress/expected/ch01_a.out", codes "select 1;\n") ∷ before))
    ≡ (
      codes "ch01_a",
      differs (
          codes "output differs from ../../testdata/regress/expected/ch01_a.out:\nline 2:\n"
          ++ codes "  select 1;\n- \n+ ERROR:  select 1;\n"
          ++ codes "full output in ../../testdata/regress/results/ch01_a.out"),
    )
      ∷ []
unfolding test_regress split lookup chapter_of itoa
differs_lines = refl
