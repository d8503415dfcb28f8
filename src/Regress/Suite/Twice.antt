-- ===== src/Regress/Suite/Twice.antt =====
-- internal/regress/regress_test.go: a run of all files, after a run of them with -update.
use build_postgres.Prelude.{
  map, ◌≡◌, refl, sym, ◌∙◌, arith, inl, inr, Bool, true, false, some, List, [], ◌∷◌, ap, subst, All,
  Option-cases,
}
use build_postgres.Prelude.Text.{Bytes}
use build_postgres.Session.{Session}
use build_postgres.Regress.Compare.{Outcome, passed, expected_path}
use build_postgres.Regress.Disk.{Disk, DiskLaws}
use build_postgres.Regress.Suite.{Opener, root, test, test_all, name_of}
use build_postgres.Regress.Suite.Update.{
  OpenerLaws, Again, Ready, Unwritten, test-Ready, Ready-Again, Ready-keeps,
}

module _ (db : Session) {State : Type 0} (disk : Disk State) (opener : Opener State db.State)
    (Temp : Bytes → Type 0) (new : db.State) (files : DiskLaws disk)
    (laws : OpenerLaws disk opener Temp new) where
  abbrev expected_of : Bytes → Bytes
  expected_of file = expected_path disk root (name_of db disk opener file)

  abbrev Free : Bytes → Bytes → Type 0
  Free path file = Unwritten db disk opener Temp new files laws path file

  -- Neither the script nor its expected output is a file that the test of another writes.
  abbrev Apart : Bytes → Bytes → Type 0
  Apart file other = Free file other × Free (expected_of file) other

  -- Scripts that are not temporary, each with files of its own for the results and the expected output.
  abbrev pub Separate : List Bytes → Type 0
  Separate [] = Unit
  Separate (file ∷ rest) =
      ((¬ Temp file) × (¬ Temp (expected_of file)) × Free file file)
      × All (λ other. Apart file other × Apart other file) rest
      × Separate rest

  abbrev ReadyAt : State → Bytes → Type 0
  ReadyAt s file = Ready db disk opener Temp new files laws file s

  cons-cases :
      (update : Bool) (file : Bytes) (rest : List Bytes) (s t : State) (os : List (Bytes × Outcome))
      → test_all db disk opener update (file ∷ rest) s ≡ some (t, os)
      → (u : State) × (o : Outcome) × (more : List (Bytes × Outcome)) × (test db disk opener update
            file s
          ≡ some (u, o))
        × (test_all db disk opener update rest u ≡ some (t, more))
        × (os ≡ (name_of db disk opener file, o) ∷ more)
  unfolding test_all
  cons-cases update file rest s t os e = elim (Option-cases (test db disk opener update file s)) [
    | inl q ↦ absurd (ground arith)
    | inr ((u, o), q) ↦ elim (Option-cases (test_all db disk opener update rest u)) [
      | inl k ↦ absurd (ground arith)
      | inr ((v, more), k) ↦
          let p : v ≡ t = ground arith in
          (u, o, more, q, k ∙ ap (λ x. some (x, more)) p, ground arith)
    ]
  ]

  nil_same :
      (update : Bool) (s t : State) (os : List (Bytes × Outcome))
      → test_all db disk opener update [] s ≡ some (t, os)
      → t ≡ s
  unfolding test_all
  nil_same update s t os e = ground arith

  cons_some :
      (update : Bool) (file : Bytes) (rest : List Bytes) (s u t : State) (o : Outcome)
      (os : List (Bytes × Outcome))
      → test db disk opener update file s ≡ some (u, o)
      → test_all db disk opener update rest u ≡ some (t, os)
      → test_all db disk opener update (file ∷ rest) s
        ≡ some (t, (name_of db disk opener file, o) ∷ os)
  unfolding test_all
  cons_some update file rest s u t o os e f = ground arith

  -- A script that is ready stays so while the tests of others run.
  kept :
      (file : Bytes) (rest : List Bytes) (s t : State) (os : List (Bytes × Outcome))
      → ¬ Temp file
      → ¬ Temp (expected_of file)
      → All (λ other. Apart file other × Apart other file) rest
      → test_all db disk opener true rest s ≡ some (t, os)
      → ReadyAt s file
      → ReadyAt t file
  kept file [] s t os own own_expected apart e r =
      subst (λ x. ReadyAt x file) (sym (nil_same true s t os e)) r
  kept file (other ∷ rest) s t os own own_expected ((a, b), apart) e r =
      let (u, o, more, f, g, same) = cons-cases true other rest s t os e in
      kept file rest u t more own own_expected apart g (
        Ready-keeps db disk opener Temp new files laws true file other s u o own own_expected a.0
          a.1 f r)

  scripts-Ready :
      (scripts : List Bytes) (s t : State) (os : List (Bytes × Outcome))
      → Separate scripts
      → test_all db disk opener true scripts s ≡ some (t, os)
      → All (λ x. x.1 ≡ passed) os
      → All (ReadyAt t) scripts
  scripts-Ready [] s t os sep e h = tt
  scripts-Ready (file ∷ rest) s t os ((own, own_expected, free), apart, sep) e h =
      let (u, o, more, f, g, same) = cons-cases true file rest s t os e in
      let (p, ps) = subst (All (λ x. x.1 ≡ passed)) same h in
      let r =
        test-Ready db disk opener Temp new files laws file s u own own_expected free
          (f ∙ ap (λ x. some (u, x)) p) in
      (kept file rest u t more own own_expected apart g r, scripts-Ready rest u t more sep g ps)

  rest-Ready :
      (file : Bytes) (rest : List Bytes) (s t : State) (o : Outcome)
      → All (λ other. Apart file other × Apart other file) rest
      → Separate rest
      → test db disk opener false file s ≡ some (t, o)
      → All (ReadyAt s) rest
      → All (ReadyAt t) rest
  rest-Ready file [] s t o apart sep e h = tt
  rest-Ready file (other ∷ rest) s t o ((a, b), apart) ((own, own_expected, free), _, sep) e
        (r, rs) =
      (
        Ready-keeps db disk opener Temp new files laws false other file s t o own own_expected b.0
            b.1 e r,
        rest-Ready file rest s t o apart sep e rs,
      )

  scripts-Again :
      (scripts : List Bytes) (s : State)
      → Separate scripts
      → All (ReadyAt s) scripts
      → (t : State) × (os : List (Bytes × Outcome)) × (test_all db disk opener false scripts s
          ≡ some (t, os))
        × All (λ x. Again disk x.0 x.1) os
        × (map (λ x. x.0) os ≡ map (λ f. name_of db disk opener f) scripts)
  unfolding test_all
  scripts-Again [] s sep h = (s, [], refl, tt, refl)
  scripts-Again (file ∷ rest) s ((own, own_expected, free), apart, sep) (r, rs) =
      let (u, o, e, a) = Ready-Again db disk opener Temp new files laws file s own_expected r in
      let (t, os, f, ends, names) =
        scripts-Again rest u sep (rest-Ready file rest s u o apart sep e rs) in
      (
        t,
        (name_of db disk opener file, o) ∷ os,
        cons_some false file rest s u t o os e f,
        (a, ends),
        ap (λ ns. name_of db disk opener file ∷ ns) names,
      )

  -- Where a file that is written is read back, Open and Close change no file but temporary ones and every new
  -- session starts in one state, and the scripts are separate, that is, neither a script nor its expected output
  -- is temporary or written by the test of another, and no test writes its script: after a run of the tests with
  -- -update in which all passed, a run without it ends, with an outcome for each script in order, and none is a
  -- difference. Each test passes, or stops with the error of WriteFile on its results.
  pub test_all-update :
      (scripts : List Bytes) (s t : State) (os : List (Bytes × Outcome))
      → Separate scripts
      → test_all db disk opener true scripts s ≡ some (t, os)
      → All (λ x. x.1 ≡ passed) os
      → (u : State) × (again : List (Bytes × Outcome)) × (test_all db disk opener false scripts t
          ≡ some (u, again))
        × All (λ x. Again disk x.0 x.1) again
        × (map (λ x. x.0) again ≡ map (λ f. name_of db disk opener f) scripts)
  test_all-update scripts s t os sep e h =
      scripts-Again scripts t sep (scripts-Ready scripts s t os sep e h)
