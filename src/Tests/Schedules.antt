-- ===== src/Tests/Schedules.antt =====
-- Two sessions, of which one waits for the other.
use build_postgres.Prelude.{
  ℕ, suc, ◌≡◌, refl, Bool, true, false, some, [], ◌∷◌, ◌++◌, ◌==◌, ◌&&◌, ltb,
}
use build_postgres.Prelude.Text.{codes}
use build_postgres.Isolation.Spec.{Step}
use build_postgres.Isolation.Schedule.{
  Poll, finished, blocked, World, ran, waits, completed, schedule, take_steps, release, event_text,
}
use build_postgres.Isolation.Schedule.Alone.{Alone, Free, one_step_at_a_time}
use build_postgres.Isolation.Schedule.Once.{Completed, schedule_completes}
use build_postgres.Isolation.Schedule.Calls.{Outcome, Stalled}

abbrev lock : Step
lock = record { name = codes "lock"; sql = codes "LOCK"; session = 1 }

abbrev commit : Step
commit = record { name = codes "commit"; sql = codes "COMMIT"; session = 0 }

-- The steps that have been started are counted; a step of session 1 waits for the second.
abbrev look : Bool → ℕ → ℕ × Poll
look true s = (s, blocked)
look false s = (s, finished (codes "done\n"))

abbrev two_sessions : World ℕ
two_sessions = record {
  start = λ s st. (suc s, s);
  poll = λ s r. look (r.step.session == 1 && ltb s 2) s;
  receive = λ s r. some (s, codes "done\n");
}

lock_first :
    schedule two_sessions 1 (lock ∷ commit ∷ lock ∷ []) 0
    ≡ some (record {
      world = 3;
      waiting = [];
      events =
          waits lock
          ∷ ran commit (codes "done\n")
          ∷ completed lock (codes "done\n")
          ∷ ran lock (codes "done\n")
          ∷ [];
    })
unfolding schedule
lock_first = refl

lock_text :
    event_text (waits lock) ++ event_text (completed lock (codes "done\n"))
    ≡ codes "step lock: LOCK <waiting ...>\nstep lock: <... completed>\ndone\n"
unfolding event_text
lock_text = refl

schedule_completes_example :
    Outcome
      (Stalled two_sessions 1)
      (Completed two_sessions (λ st. st.session == 1) 1 (lock ∷ commit ∷ lock ∷ []))
      (schedule two_sessions 1 (lock ∷ commit ∷ lock ∷ []) 0)
schedule_completes_example =
    schedule_completes two_sessions (λ st. st.session == 1) 1 (lock ∷ commit ∷ lock ∷ []) 0

one_step_at_a_time_example :
    Outcome
      (Stalled two_sessions 1)
      (λ c.
        Alone c.waiting
        × Outcome
            (Stalled two_sessions 1)
            (λ d. Free lock.session d.waiting)
            (release two_sessions lock.session c.waiting (record c { waiting = [] })))
      (take_steps two_sessions 1 (lock ∷ []) (record { world = 0; waiting = []; events = [] }))
one_step_at_a_time_example = one_step_at_a_time two_sessions 1 (lock ∷ []) lock 0
