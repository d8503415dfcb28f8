-- ===== src/Regress/Suite/Update.antt =====
-- internal/regress/regress_test.go: the test of a file, after a run with -update.
use build_postgres.Prelude.{
  ◌≡◌, ◌≢◌, refl, sym, ◌∙◌, inl, inr, arith, Bool, true, false, none, some, [], Option-cases, ap,
  subst,
}
use build_postgres.Prelude.Text.{Bytes}
use build_postgres.Prelude.Result.{Result, ok, err, Result-cases}
use build_postgres.Session.{Session}
use build_postgres.Regress.Compare.{
  Outcome, passed, fatal, check, result_path, expected_path, check-update, check_same, check_keeps,
}
use build_postgres.Regress.Disk.{Disk, DiskLaws}
use build_postgres.Regress.Run.{Log, run}
use build_postgres.Regress.Suite.{
  Opener, root, scan_lines, test_session, test, name_of, test_opened,
}

-- Every session that is opened on a new directory is in one state, and Open and Close change no file but those of
-- the test's temporary directories.
pub record OpenerLaws {State Conn : Type 0} (disk : Disk State) (opener : Opener State Conn)
    (Temp : Bytes → Type 0) (new : Conn) : Type 0 where
  pub opens : (s : State) → (opener.open_new s).1 ≡ ok new
  pub open_keeps :
      (s : State) (path : Bytes)
      → ¬ Temp path
      → disk.read (opener.open_new s).0 path ≡ disk.read s path
  pub close_keeps :
      (s : State) (conn : Conn) (path : Bytes)
      → ¬ Temp path
      → disk.read (opener.close s conn) path ≡ disk.read s path

-- A test passes, or stops where WriteFile fails on the output of the file's name.
pub data Again {State : Type 0} (disk : Disk State) (name : Bytes) : Outcome → Type 0 where
  passes : Again disk name passed
  unwritten :
      {s : State} {got e : Bytes}
      → (disk.write s (result_path disk root name) got).1 ≡ some e
      → Again disk name (fatal e)

module _ (db : Session) {State : Type 0} (disk : Disk State) (opener : Opener State db.State)
    (Temp : Bytes → Type 0) (new : db.State) (files : DiskLaws disk)
    (laws : OpenerLaws disk opener Temp new) where
  -- The script ran to the end, and its output was checked.
  record Ran (update : Bool) (name src : Bytes) (s t : State) (o : Outcome) : Type 0 where
    log : Log db.State
    w : State
    ran : run db (scan_lines src).0 [] (record { session = new; out = [] }) ≡ some log
    whole : (scan_lines src).1 ≡ none
    checked : check disk root update name log.out s ≡ some (w, o)
    closed : t ≡ opener.close w log.session

  session-Ran :
      (name src : Bytes) (s t : State)
      → test_session db disk opener true name src s new ≡ some (t, passed)
      → Ran true name src s t passed
  unfolding test_session
  session-Ran name src s t e =
      let fresh : Log db.State = record { session = new; out = [] } in
      elim (Option-cases (run db (scan_lines src).0 [] fresh)) [
        | inl q ↦ absurd (ground arith)
        | inr (log, q) ↦ elim (Option-cases (scan_lines src).1) [
          | inr (m, f) ↦ absurd (ground arith)
          | inl f ↦ elim (Option-cases (check disk root true name log.out s)) [
            | inl c ↦ absurd (ground arith)
            | inr ((w, o), c) ↦
                let p : o ≡ passed = ground arith in
                record {
                  log = log;
                  w = w;
                  ran = q;
                  whole = f;
                  checked = c ∙ ap (λ x. some (w, x)) p;
                  closed = ground arith;
                }
          ]
        ]
      ]

  session_runs :
      (update : Bool) (name src : Bytes) (s w : State) (log : Log db.State) (o : Outcome)
      → run db (scan_lines src).0 [] (record { session = new; out = [] }) ≡ some log
      → (scan_lines src).1 ≡ none
      → check disk root update name log.out s ≡ some (w, o)
      → test_session db disk opener update name src s new ≡ some (opener.close w log.session, o)
  unfolding test_session
  session_runs update name src s w log o q f c = ground arith

  opened :
      (update : Bool) (name src : Bytes) (r : State × Result Bytes db.State)
      → r.1 ≡ ok new
      → test_opened db disk opener update name src r
        ≡ test_session db disk opener update name src r.0 new
  opened update name src (s, err m) e = absurd (ground arith)
  opened update name src (s, ok c) e = let q : c ≡ new = cc in rw q refl

  test_opens :
      (update : Bool) (file src : Bytes) (s : State)
      → disk.read s file ≡ ok src
      → test db disk opener update file s
        ≡ test_session db disk opener update
            (name_of db disk opener file)
            src
            (opener.open_new s).0
            new
  unfolding test
  test_opens update file src s e =
      rw e (opened update (name_of db disk opener file) src (opener.open_new s) (laws.opens s))

  unreadable :
      (file m : Bytes) (s t : State)
      → disk.read s file ≡ err m
      → test db disk opener true file s ≢ some (t, passed)
  unfolding test
  unreadable file m s t r e = ground arith

  -- The script can be read and runs to the end, and its output is the expected one.
  pub record Ready (file : Bytes) (s : State) : Type 0 where
    src : Bytes
    log : Log db.State
    script : disk.read s file ≡ ok src
    ran : run db (scan_lines src).0 [] (record { session = new; out = [] }) ≡ some log
    whole : (scan_lines src).1 ≡ none
    stored : disk.read s (expected_path disk root (name_of db disk opener file)) ≡ ok log.out

  -- The file is none that the test of another, or of itself, writes.
  abbrev pub Unwritten : Bytes → Bytes → Type 0
  Unwritten path file =
      (path ≢ result_path disk root (name_of db disk opener file))
      × (path ≢ expected_path disk root (name_of db disk opener file))

  pub test-Ready :
      (file : Bytes) (s t : State)
      → ¬ Temp file
      → ¬ Temp (expected_path disk root (name_of db disk opener file))
      → Unwritten file file
      → test db disk opener true file s ≡ some (t, passed)
      → Ready file t
  test-Ready file s t own own_expected (a, b) e = elim (Result-cases (disk.read s file)) [
    | inl (m, h) ↦ absurd (unreadable file m s t h e)
    | inr (src, h) ↦
        let name = name_of db disk opener file in
        let first = (opener.open_new s).0 in
        let path = expected_path disk root name in
        let r = session-Ran name src first t (sym (test_opens true file src s h) ∙ e) in
        let kept : disk.read t file ≡ disk.read r.w file =
          ap (λ x. disk.read x file) r.closed ∙ laws.close_keeps r.w r.log.session file own in
        let through =
          check_keeps disk root files true name r.log.out file first r.w passed a b r.checked in
        let after : disk.read t path ≡ disk.read r.w path =
          ap (λ x. disk.read x path) r.closed
          ∙ laws.close_keeps r.w r.log.session path own_expected in
        record {
          src = src;
          log = r.log;
          script = kept ∙ through ∙ laws.open_keeps s file own ∙ h;
          ran = r.ran;
          whole = r.whole;
          stored = after ∙ check-update disk root files name r.log.out first r.w r.checked;
        }
  ]

  pub Ready-Again :
      (file : Bytes) (s : State)
      → ¬ Temp (expected_path disk root (name_of db disk opener file))
      → Ready file s
      → (t : State) × (o : Outcome) × (test db disk opener false file s ≡ some (t, o))
        × Again disk (name_of db disk opener file) o
  Ready-Again file s own_expected r =
      let name = name_of db disk opener file in
      let v = (opener.open_new s).0 in
      let path = expected_path disk root name in
      let (u, o, e, ends) =
        check_same disk root files name r.log.out v
          (laws.open_keeps s path own_expected ∙ r.stored) in
      (
        opener.close u r.log.session,
        o,
        test_opens false file r.src s r.script
            ∙ session_runs false name r.src v u r.log o r.ran r.whole e,
        elim ends [
          | inl p ↦ subst (Again disk name) (sym p) passes
          | inr (m, f, p) ↦ subst (Again disk name) (sym p) (unwritten f)
        ],
      )

  session_keeps :
      (update : Bool) (name src path : Bytes) (s t : State) (o : Outcome)
      → ¬ Temp path
      → path ≢ result_path disk root name
      → path ≢ expected_path disk root name
      → test_session db disk opener update name src s new ≡ some (t, o)
      → disk.read t path ≡ disk.read s path
  unfolding test_session
  session_keeps update name src path s t o own a b e =
      let fresh : Log db.State = record { session = new; out = [] } in
      elim (Option-cases (run db (scan_lines src).0 [] fresh)) [
        | inl q ↦ absurd (ground arith)
        | inr (log, q) ↦ elim (Option-cases (scan_lines src).1) [
          | inr (m, f) ↦
              let closed : t ≡ opener.close s log.session = ground arith in
              ap (λ x. disk.read x path) closed ∙ laws.close_keeps s log.session path own
          | inl f ↦ elim (Option-cases (check disk root update name log.out s)) [
            | inl c ↦ absurd (ground arith)
            | inr ((w, x), c) ↦
                let closed : t ≡ opener.close w log.session = ground arith in
                ap (λ x. disk.read x path) closed
                ∙ laws.close_keeps w log.session path own
                ∙ check_keeps disk root files update name log.out path s w x a b c
          ]
        ]
      ]

  unread_same :
      (update : Bool) (file m : Bytes) (s t : State) (o : Outcome)
      → disk.read s file ≡ err m
      → test db disk opener update file s ≡ some (t, o)
      → t ≡ s
  unfolding test
  unread_same update file m s t o r e = ground arith

  test_keeps :
      (update : Bool) (file path : Bytes) (s t : State) (o : Outcome)
      → ¬ Temp path
      → Unwritten path file
      → test db disk opener update file s ≡ some (t, o)
      → disk.read t path ≡ disk.read s path
  test_keeps update file path s t o own (a, b) e = elim (Result-cases (disk.read s file)) [
    | inl (m, h) ↦ ap (λ x. disk.read x path) (unread_same update file m s t o h e)
    | inr (src, h) ↦
        let v = (opener.open_new s).0 in
        let name = name_of db disk opener file in
        session_keeps update name src path v t o own a b (sym (test_opens update file src s h) ∙ e)
        ∙ laws.open_keeps s path own
  ]

  -- A test of another script leaves the script and the expected output.
  pub Ready-keeps :
      (update : Bool) (file other : Bytes) (s t : State) (o : Outcome)
      → ¬ Temp file
      → ¬ Temp (expected_path disk root (name_of db disk opener file))
      → Unwritten file other
      → Unwritten (expected_path disk root (name_of db disk opener file)) other
      → test db disk opener update other s ≡ some (t, o)
      → Ready file s
      → Ready file t
  Ready-keeps update file other s t o own own_expected a b e r = record {
    src = r.src;
    log = r.log;
    script = test_keeps update other file s t o own a e ∙ r.script;
    ran = r.ran;
    whole = r.whole;
    stored =
        test_keeps update other (expected_path disk root (name_of db disk opener file)) s t o
          own_expected b e
        ∙ r.stored;
  }
