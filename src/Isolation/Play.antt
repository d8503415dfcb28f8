-- ===== src/Isolation/Play.antt =====
-- internal/isolation/isolation_test.go: the test of a file, run, permutation with its setup and teardown, start and mustExec. The
-- clusters, their sessions and goroutines are a parameter. none is a loop or a receive that does not end, and
-- an error the message of t.Fatal or t.Fatalf.
pub mod Total
pub mod Faults
pub mod Shown
pub mod Connected
use build_postgres.Prelude.{
  ◌>>=◌, ℕ, Bool, true, false, not, Option, none, some, List, [], ◌∷◌, ◌++◌, if◌then◌else◌, map,
  concat, length, get_or,
}
use build_postgres.Prelude.Text.{Bytes, codes, equal, trim_space, join, newline}
use build_postgres.Prelude.Decimal.{itoa}
use build_postgres.Prelude.Result.{Result, ok, err}
use build_postgres.Session.{Reply, ExecError, sql_error, other_error}
use build_postgres.Isolation.Print.{format}
use build_postgres.Isolation.Spec.{Step, SessionSpec, Spec, parse}
use build_postgres.Isolation.Schedule.{
  Running, Poll, finished, blocked, busy, World, Event, event_text, Sched, schedule,
}

-- What a look at a running step finds: what Exec returned, or that the session is blocked, or neither.
pub data Answer : Type 0 where
  replied : List Reply → Option ExecError → Answer
  stuck sleeping : Answer

abbrev pub and_then : {A B : Type 0} → Result Bytes A → (A → Result Bytes B) → Result Bytes B
and_then (err e) f = err e
and_then (ok a) f = f a

-- A connection is a number, and a goroutine that runs a step the number of its channel. OpenCluster is on a new
-- directory, with the cluster that is open in the state.
pub record Host (State : Type 0) : Type 0 where
  pub open_cluster : State → State × Option Bytes
  pub connect : State → State × Result Bytes ℕ
  pub exec : State → ℕ → Bytes → State × Option Bytes
  pub close : State → ℕ → State
  pub close_cluster : State → State
  pub begin : State → ℕ → Bytes → State × ℕ
  pub look : State → ℕ → ℕ → State × Answer
  pub receive : State → ℕ → ℕ → Option (State × List Reply × Option ExecError)

-- The texts that a result, an error and a permutation begin with.
unfoldable pub warnings_text : List Bytes → Bytes
warnings_text [] = []
warnings_text (w ∷ ws) = codes "WARNING:  " ++ w ++ newline ++ warnings_text ws

unfoldable pub failure_text : Option ExecError → Bytes
failure_text none = []
failure_text (some (sql_error e)) = codes "ERROR:  " ++ e.msg ++ newline
failure_text (some (other_error t)) = codes "ERROR:  " ++ t ++ newline

unfoldable pub heading : List Step → Bytes
heading perm =
    codes "\nstarting permutation: " ++ join (codes " ") (map (λ st. st.name) perm) ++ newline

abbrev pub with_count : Spec → Result Bytes Bytes → Result Bytes Bytes
with_count sp (err e) = err e
with_count sp (ok out) =
    ok (codes "Parsed test spec with " ++ itoa (length sp.sessions) ++ codes " sessions\n" ++ out)

-- count is utf8.RuneCountInString.
module _ (count : Bytes → ℕ) where
  unfoldable pub replies_text : List Reply → Option Bytes
  unfolding warnings_text format
  replies_text [] = some []
  replies_text (r ∷ rs) = do
    t ← format count r.columns r.rows
    ts ← replies_text rs
    some (warnings_text r.warnings ++ t ++ ts)

  -- What start's goroutine sends; none is a panic of format.
  unfoldable pub step_text : List Reply → Option ExecError → Option Bytes
  unfolding replies_text failure_text
  step_text rs e = (do t ← replies_text rs; some (t ++ failure_text e))

  module _ {State : Type 0} (host : Host State) where
    -- A goroutine that panics sends nothing: its step is neither finished nor blocked.
    abbrev pub poll_of : State × Answer → State × Poll
    poll_of (s, replied rs e) = elim (step_text rs e) [
      | none ↦ (s, busy)
      | some t ↦ (s, finished t)
    ]
    poll_of (s, stuck) = (s, blocked)
    poll_of (s, sleeping) = (s, busy)

    -- The loops' view of the host: conns is the map from sessions to connections, by position.
    abbrev pub world : List ℕ → World State
    world conns = record {
      start = λ s st. host.begin s (get_or conns st.session 0) st.sql;
      poll = λ s r. poll_of (host.look s (get_or conns r.step.session 0) r.channel);
      receive = λ s r. (do
        (t, rs, e) ← host.receive s (get_or conns r.step.session 0) r.channel
        out ← step_text rs e
        some (t, out));
    }

    -- mustExec
    unfoldable pub must_exec : State → ℕ → Bytes → Result Bytes State
    unfolding equal trim_space
    must_exec s conn sql =
        let (t, failed) = host.exec s conn sql in
        if equal (trim_space sql) []
        then ok s
        else elim failed [ none ↦ ok t | some e ↦ err (sql ++ codes ": " ++ e) ]

    -- The loop that connects the sessions, each with its setup; the connections in order.
    unfoldable pub connect_all : State → List SessionSpec → Result Bytes (State × List ℕ)
    unfolding must_exec
    connect_all s [] = ok (s, [])
    connect_all s (x ∷ xs) =
        let (t, conn) = host.connect s in
        and_then conn λ c.
          and_then (must_exec t c x.setup)
            λ u. and_then (connect_all u xs) λ (v, conns). ok (v, c ∷ conns)

    -- The loop over the sessions behind the steps, with the connections that are left.
    unfoldable pub tear_down : ℕ → State → List SessionSpec → List ℕ → Result Bytes State
    unfolding must_exec equal
    tear_down control s [] conns = ok s
    tear_down control s (x ∷ xs) [] = ok s
    tear_down control s (x ∷ xs) (c ∷ conns) =
        let t = host.close s c in
        and_then (if not (equal x.teardown []) then must_exec t control x.teardown else ok t)
          λ u. tear_down control u xs conns

    -- The deferred calls of Close, the last first.
    unfoldable pub close_all : List ℕ → State → State
    close_all [] s = s
    close_all (c ∷ conns) s = host.close (close_all conns s) c

    -- permutation from the loops on, with what it prints.
    unfoldable pub play :
        ℕ → Spec → List Step → ℕ → State × List ℕ → Option (Result Bytes (State × List Event))
    unfolding tear_down close_all schedule
    play fuel sp perm control (s, conns) = do
      c ← schedule (world conns) fuel perm s
      some (
          and_then (tear_down control c.world sp.sessions conns) λ t.
            and_then (must_exec t control sp.teardown)
              λ u. ok (host.close_cluster (host.close (close_all conns u) control), c.events))

    abbrev pub play_if :
        ℕ
        → Spec
        → List Step
        → Result Bytes (ℕ × State × List ℕ)
        → Option (Result Bytes (State × List Event))
    play_if fuel sp perm (err e) = some (err e)
    play_if fuel sp perm (ok (control, t, conns)) = play fuel sp perm control (t, conns)

    -- permutation up to the loops: the control connection, the state and the connections of the sessions.
    unfoldable pub set_up : Spec → State → Result Bytes (ℕ × State × List ℕ)
    unfolding must_exec connect_all
    set_up sp s =
        let (t, failed) = host.open_cluster s in
        let (u, control) = host.connect t in
        and_then (elim failed [ none ↦ ok t | some e ↦ err e ])
          λ _. and_then control λ c.
            and_then (must_exec u c sp.setup)
              λ v. and_then (connect_all v sp.sessions) λ (w, conns). ok (c, w, conns)

    -- permutation
    unfoldable pub permutation :
        ℕ → Spec → List Step → State → Option (Result Bytes (State × List Event))
    unfolding set_up play
    permutation fuel sp perm s = play_if fuel sp perm (set_up sp s)

    abbrev pub printed :
        List Step
        → Option (Result Bytes (State × List Event))
        → (State → Option (Result Bytes Bytes))
        → Option (Result Bytes Bytes)
    printed perm none more = none
    printed perm (some (err e)) more = some (err e)
    printed perm (some (ok (s, events))) more = elim (more s) [
      | none ↦ none
      | some (err e) ↦ some (err e)
      | some (ok out) ↦ some (ok (heading perm ++ concat (map event_text events) ++ out))
    ]

    -- The loop of run over the permutations.
    unfoldable pub play_all : ℕ → Spec → List (List Step) → State → Option (Result Bytes Bytes)
    unfolding permutation heading event_text
    play_all fuel sp [] s = some (ok [])
    play_all fuel sp (perm ∷ perms) s =
        printed perm (permutation fuel sp perm s) (λ t. play_all fuel sp perms t)

    -- run
    unfoldable pub run : ℕ → Spec → State → Option (Result Bytes Bytes)
    unfolding play_all
    run fuel sp s = (do r ← play_all fuel sp sp.permutations s; some (with_count sp r))

    abbrev pub run_parsed :
        ℕ → Bytes → Option (Result Bytes Spec) → State → Option (Result Bytes Bytes)
    run_parsed fuel file none s = none
    run_parsed fuel file (some (err e)) s = some (err (file ++ codes ": " ++ e))
    run_parsed fuel file (some (ok sp)) s = run fuel sp s

    -- The test of a file in TestIsolation, from the text of the file to the output; quote is the verb %q of fmt.
    unfoldable pub test : (Bytes → Bytes) → ℕ → Bytes → Bytes → State → Option (Result Bytes Bytes)
    unfolding parse run
    test quote fuel file src s = run_parsed fuel file (parse quote src) s
