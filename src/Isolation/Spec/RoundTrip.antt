-- ===== src/Isolation/Spec/RoundTrip.antt =====
-- internal/isolation/isolation_test.go: parse reads back the text of a specification.
use build_postgres.Prelude.{
  ℕ, suc, ◌≡◌, ◌≢◌, refl, ap, sym, subst, Bool, true, false, Option, none, some, List, [], ◌∷◌,
  ◌++◌, arith, length, All, map, append_assoc, append-nil, length-append, if◌then◌else◌,
}
use build_postgres.Prelude.Text.{Bytes, codes, newline}
use build_postgres.Prelude.Result.{ok}
use build_postgres.Isolation.Spec.{
  Step, SessionSpec, Spec, Parsing, assign, open_session, add_permutation, handle, read, complete,
  complete_from, start, parse_tokens, parse,
}
use build_postgres.Isolation.Spec.Shape.{Unique, Owned, steps_of, Declared, WellFormed}
use build_postgres.Isolation.Spec.Text.{
  Line, setup_line, teardown_line, session_line, step_line, permutation_line, text_of, tokens_of,
  line_tokens, Printable, tokens-text_of,
}
use build_postgres.Isolation.Spec.Runs.{
  change_last, change_at, new_name, read_names, Runs, handle-Runs, newline-Runs, setup-Runs,
  teardown-Runs, step-Runs,
}

-- The lines of a specification, and of its parts.
abbrev pub step_lines : List Step → List Line → List Line
step_lines [] rest = rest
step_lines (st ∷ sts) rest = step_line st.name st.sql ∷ step_lines sts rest

abbrev pub session_lines : List SessionSpec → List Line → List Line
session_lines [] rest = rest
session_lines (s ∷ ss) rest =
    session_line s.name
    ∷ setup_line s.setup
    ∷ teardown_line s.teardown
    ∷ step_lines s.steps (session_lines ss rest)

abbrev pub permutation_lines : List (List Step) → List Line
permutation_lines [] = []
permutation_lines (perm ∷ perms) =
    permutation_line (map (λ st. st.name) perm) ∷ permutation_lines perms

unfoldable pub lines_of : Spec → List Line
lines_of sp =
    setup_line sp.setup
    ∷ teardown_line sp.teardown
    ∷ session_lines sp.sessions (permutation_lines sp.permutations)

-- The text of a specification.
unfoldable pub print : Spec → Bytes
unfolding lines_of text_of
print sp = text_of (lines_of sp)

behind_steps :
    (sts : List Step) (ls : List Line) → All Printable (step_lines sts ls) → All Printable ls
behind_steps [] ls h = h
behind_steps (st ∷ sts) ls (_, h) = behind_steps sts ls h

behind_sessions :
    (ss : List SessionSpec) (ls : List Line)
    → All Printable (session_lines ss ls)
    → All Printable ls
behind_sessions [] ls h = h
behind_sessions (s ∷ ss) ls (_, (_, (_, h))) =
    behind_sessions ss ls (behind_steps s.steps (session_lines ss ls) h)

complete_from_lem :
    (ss : List SessionSpec) (perms : List (List Step)) (sp : Spec)
    → ss ≢ []
    → perms ≢ []
    → complete_from ss perms sp ≡ ok sp
complete_from_lem [] perms sp hs hp = absurd (hs refl)
complete_from_lem (s ∷ ss) [] sp hs hp = absurd (hp refl)
complete_from_lem (s ∷ ss) (perm ∷ perms) sp hs hp = refl

module _ (quote : Bytes → Bytes) where
  -- The variables while the sessions are read.
  abbrev at : Bytes → Bytes → List SessionSpec → List Step → Option ℕ → Parsing
  at su td ss steps cur = record {
    spec = record { setup = su; teardown = td; sessions = ss; steps = steps; permutations = [] };
    cur = cur;
  }

  steps-Runs :
      {r : Parsing} (su td : Bytes) (ss : List SessionSpec) (s : SessionSpec)
      (sts before after : List Step) (ls : List Line)
      → All (λ st. st.session ≡ length ss) sts
      → Unique (before ++ (sts ++ after))
      → Runs quote
          (tokens_of ls [])
          (at su td
            (ss ++ record s { steps = s.steps ++ sts } ∷ [])
            (before ++ sts)
            (some (length ss)))
          r
      → Runs quote
          (tokens_of (step_lines sts ls) [])
          (at su td (ss ++ s ∷ []) before (some (length ss)))
          r
  unfolding tokens_of
  steps-Runs su td ss s [] before after ls o u k = rw (← append-nil s.steps, ← append-nil before) k
  steps-Runs su td ss s (st ∷ sts) before after ls (own, o) u k =
      let more =
        steps-Runs su td ss (record s { steps = s.steps ++ st ∷ [] }) sts (before ++ st ∷ []) after
          ls o (rw (append_assoc before (st ∷ []) (sts ++ after)) u)
          (rw (append_assoc s.steps (st ∷ []) sts, append_assoc before (st ∷ []) sts) k) in
      step-Runs quote st (tokens_of (step_lines sts ls) [])
        (at su td (ss ++ s ∷ []) before (some (length ss))) (ap some (sym own))
        (new_name before st (sts ++ after) u)
        (rw (change_at st.session ss s (λ x. record x { steps = x.steps ++ st ∷ [] }) own) more)

  -- A line of a session, which changes the texts of the last one.
  last-Runs :
      {r : Parsing} (setup : Bool) (sql su td : Bytes) (ss : List SessionSpec) (s : SessionSpec)
      (steps : List Step) (toks : List Bytes)
      → Runs quote toks
          (at su td
            (ss ++ (if setup then record s { setup = sql } else record s { teardown = sql }) ∷ [])
            steps
            (some (length ss)))
          r
      → Runs quote toks
          (record {
            spec = assign setup sql (some (length ss)) (at su td (ss ++ s ∷ []) steps none).spec;
            cur = some (length ss);
          })
          r
  unfolding assign
  last-Runs setup sql su td ss s steps toks k =
      rw
        (change_last ss s
          (λ x. if setup then record x { setup = sql } else record x { teardown = sql }))
        k

  session-Runs :
      {r : Parsing} (su td : Bytes) (ss : List SessionSpec) (s : SessionSpec)
      (before after : List Step) (cur : Option ℕ) (ls : List Line)
      → All (λ st. st.session ≡ length ss) s.steps
      → Unique (before ++ (s.steps ++ after))
      → Runs quote
          (tokens_of ls [])
          (at su td (ss ++ s ∷ []) (before ++ s.steps) (some (length ss)))
          r
      → Runs quote
          (tokens_of
            (session_line s.name
              ∷ setup_line s.setup
              ∷ teardown_line s.teardown
              ∷ step_lines s.steps ls)
            [])
          (at su td ss before cur)
          r
  unfolding handle line_tokens open_session tokens_of
  session-Runs su td ss s before after cur ls o u k =
      let named : SessionSpec = record { name = s.name; setup = []; teardown = []; steps = [] } in
      let toks = tokens_of (step_lines s.steps ls) [] in
      handle-Runs quote (codes "session") _ (at su td ss before cur) refl (omega arith) (
        newline-Runs quote _ (at su td (ss ++ named ∷ []) before (some (length ss))) (
          setup-Runs quote s.setup (line_tokens (teardown_line s.teardown) toks)
            (at su td (ss ++ named ∷ []) before (some (length ss)))
            (last-Runs true s.setup su td ss named before _ (
              teardown-Runs quote s.teardown toks
                (at su td (ss ++ record named { setup = s.setup } ∷ []) before (some (length ss)))
                (last-Runs false s.teardown su td ss (record named { setup = s.setup }) before toks
                  (steps-Runs su td ss (record s { steps = [] }) s.steps before after ls o u k))))))

  sessions-Runs :
      (r : Option ℕ → Parsing) (su td : Bytes) (ss later : List SessionSpec) (before : List Step)
      (cur : Option ℕ) (ls : List Line)
      → Owned (length ss) later
      → Unique (before ++ steps_of later)
      → ((c : Option ℕ)
          → Runs quote
              (tokens_of ls [])
              (at su td (ss ++ later) (before ++ steps_of later) c)
              (r c))
      → (c : Option ℕ) × Runs quote
          (tokens_of (session_lines later ls) [])
          (at su td ss before cur)
          (r c)
  sessions-Runs r su td ss [] before cur ls o u k =
      (cur, rw (← append-nil ss, ← append-nil before) (k cur))
  sessions-Runs r su td ss (s ∷ later) before cur ls (own, o) u k =
      let longer : suc (length ss) ≡ length (ss ++ s ∷ []) =
        omega (arith, length-append ss (s ∷ [])) in
      let (c, more) =
        sessions-Runs r su td (ss ++ s ∷ []) later (before ++ s.steps) (some (length ss)) ls
          (subst (λ n. Owned n later) longer o)
          (rw (append_assoc before s.steps (steps_of later)) u)
          (λ c.
            rw (append_assoc ss (s ∷ []) later, append_assoc before s.steps (steps_of later))
              (k c)) in
      (c, session-Runs su td ss s before (steps_of later) cur (session_lines later ls) own u more)

  permutations-Runs :
      (perms before : List (List Step)) (p : Parsing)
      → All (λ perm. All (λ st. Declared p.spec.steps st) perm) perms
      → All Printable (permutation_lines perms)
      → Runs quote
          (tokens_of (permutation_lines perms) [])
          (record p { spec = record p.spec { permutations = before } })
          (record p { spec = record p.spec { permutations = before ++ perms } })
  unfolding handle add_permutation tokens_of line_tokens read
  permutations-Runs [] before p d h = λ f g. rw (append-nil before) refl
  permutations-Runs (perm ∷ perms) before p (d, ds) (h, hs) =
      let toks = tokens_of (permutation_lines perms) [] in
      let names = map (λ st. st.name) perm in
      let more = permutations-Runs perms (before ++ perm ∷ []) p ds hs in
      handle-Runs quote
        {q = record p { spec = record p.spec { permutations = before ++ perm ∷ [] } }}
        {rest = newline ∷ toks} (codes "permutation") (names ++ newline ∷ toks)
        (record p { spec = record p.spec { permutations = before } })
        (rw (read_names p.spec.steps perm toks d h, add_permutation) refl)
        (omega (arith, length-append names (newline ∷ toks)))
        (newline-Runs quote toks
          (record p { spec = record p.spec { permutations = before ++ perm ∷ [] } })
          (rw (← append_assoc before (perm ∷ []) perms) more))

  -- The loop on the tokens of a specification.
  spec-Runs :
      (sp : Spec)
      → WellFormed sp
      → All Printable (permutation_lines sp.permutations)
      → (c : Option ℕ) × Runs quote
          (tokens_of (lines_of sp) [])
          start
          (record { spec = sp; cur = c })
  unfolding lines_of tokens_of assign
  spec-Runs sp w h =
      let (c, more) =
        sessions-Runs (λ c. record { spec = sp; cur = c }) sp.setup sp.teardown [] sp.sessions []
          none (permutation_lines sp.permutations) w.owned (rw (w.in_order) w.unique)
          (λ c.
            rw (w.in_order) (
              permutations-Runs sp.permutations [] (record { spec = sp; cur = c }) w.declared h)) in
      (
        c,
        setup-Runs quote sp.setup _ start (
            teardown-Runs quote sp.teardown _
              (record start { spec = record start.spec { setup = sp.setup } }) more),
      )

  complete_lem : (sp : Spec) → sp.sessions ≢ [] → sp.permutations ≢ [] → complete sp ≡ ok sp
  unfolding complete
  complete_lem sp hs hp = complete_from_lem sp.sessions sp.permutations sp hs hp

  -- parse reads the text of a specification back: one with sessions and permutations that is well formed and
  -- whose texts and names can stand in a file.
  pub parse-print :
      (sp : Spec)
      → sp.sessions ≢ []
      → sp.permutations ≢ []
      → WellFormed sp
      → All Printable (lines_of sp)
      → parse quote (print sp) ≡ some (ok sp)
  unfolding parse print parse_tokens lines_of
  parse-print sp hs hp w h =
      let (c, runs) = spec-Runs sp w (behind_sessions sp.sessions _ h.1.1) in
      rw
        (
          tokens-text_of (lines_of sp) h,
          parse_tokens,
          runs (length (tokens_of (lines_of sp) [])) (omega arith),
        )
        (ap some (complete_lem sp hs hp))
