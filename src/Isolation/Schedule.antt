-- ===== src/Isolation/Schedule.antt =====
-- internal/isolation/isolation_test.go: the loop of permutation over its steps, with complete and finish.
-- The sessions and their goroutines are a parameter. What is printed is a list of events, each with its
-- text; none is a loop or a receive that does not end.
pub mod Calls
pub mod Books
pub mod Once
pub mod Alone
use build_postgres.Prelude.{
  ◌>>=◌, ℕ, zero, suc, Bool, Option, none, some, List, [], ◌∷◌, ◌++◌, ◌==◌, if◌then◌else◌, map,
  concat,
}
use build_postgres.Prelude.Text.{Bytes, codes, newline}
use build_postgres.Isolation.Spec.{Step}

-- A step in progress; its connection is that of its session, and its channel is told by its number.
pub record Running : Type 0 where
  pub step : Step
  pub channel : ℕ

-- What the select on r.done finds, or else r.conn.Blocked().
pub data Poll : Type 0 where
  finished : Bytes → Poll
  blocked : Poll
  busy : Poll

-- start, with the number of the channel that it makes; one turn of a polling loop, which may sleep; and a receive from r.done.
pub record World (State : Type 0) : Type 0 where
  pub start : State → Step → State × ℕ
  pub poll : State → Running → State × Poll
  pub receive : State → Running → Option (State × Bytes)

pub data Event : Type 0 where
  ran : Step → Bytes → Event
  waits : Step → Event
  completed : Step → Bytes → Event

-- The text that is printed for an event.
unfoldable pub event_text : Event → Bytes
event_text (ran st res) = codes "step " ++ st.name ++ codes ": " ++ st.sql ++ newline ++ res
event_text (waits st) = codes "step " ++ st.name ++ codes ": " ++ st.sql ++ codes " <waiting ...>\n"
event_text (completed st res) = codes "step " ++ st.name ++ codes ": <... completed>\n" ++ res

-- The variables: the world, the waiting steps, and what has been printed.
pub record Sched (State : Type 0) : Type 0 where
  pub world : State
  pub waiting : List Running
  pub events : List Event

-- How a polling loop ends.
pub data Settled : Type 0 where
  over : Bytes → Settled
  stuck : Settled

module _ {State : Type 0} (w : World State) where
  abbrev pub after_poll :
      State × Poll → (State → Option (State × Settled)) → Option (State × Settled)
  after_poll (s, finished res) more = some (s, over res)
  after_poll (s, blocked) more = some (s, stuck)
  after_poll (s, busy) more = more s

  -- The loop around a select, on fuel.
  unfoldable pub settle : ℕ → State → Running → Option (State × Settled)
  settle zero s r = none
  settle (suc fuel) s r = after_poll (w.poll s r) (λ t. settle fuel t r)

  -- complete
  unfoldable pub complete : Running → Sched State → Option (Sched State)
  complete r c = do
    (s, res) ← w.receive c.world r
    some (record c { world = s; events = c.events ++ completed r.step res ∷ [] })

  -- still = append(still, r)
  abbrev pub keep : Running → Sched State → Option (Sched State)
  keep r c = some (record c { waiting = c.waiting ++ r ∷ [] })

  -- The loop before a step of a session, on the waiting steps that are left; c.waiting is still.
  unfoldable pub release : ℕ → List Running → Sched State → Option (Sched State)
  unfolding complete
  release session [] c = some c
  release session (r ∷ rs) c =
      (if r.step.session == session then complete r c else keep r c) >>= λ d. release session rs d

  abbrev pub finish_one : Running → Sched State → State × Settled → Option (Sched State)
  finish_one r c (s, over res) =
      some (record c { world = s; events = c.events ++ completed r.step res ∷ [] })
  finish_one r c (s, stuck) = keep r (record c { world = s })

  -- finish, on the waiting steps that are left.
  unfoldable pub finish : ℕ → List Running → Sched State → Option (Sched State)
  unfolding settle
  finish fuel [] c = some c
  finish fuel (r ∷ rs) c = do
    polled ← settle fuel c.world r
    d ← finish_one r c polled
    finish fuel rs d

  -- What the polling loop behind start prints and keeps.
  abbrev pub begun : Running → Sched State → State × Settled → Sched State
  begun r c (s, over res) = record c { world = s; events = c.events ++ ran r.step res ∷ [] }
  begun r c (s, stuck) = record {
    world = s;
    waiting = c.waiting ++ r ∷ [];
    events = c.events ++ waits r.step ∷ [];
  }

  -- A step of the permutation.
  unfoldable pub take_step : ℕ → Step → Sched State → Option (Sched State)
  unfolding release settle finish
  take_step fuel st c = do
    d ← release st.session c.waiting (record c { waiting = [] })
    (s, channel) ← some (w.start d.world st)
    polled ← settle fuel s (record { step = st; channel = channel })
    e ← some (begun (record { step = st; channel = channel }) d polled)
    finish fuel e.waiting (record e { waiting = [] })

  unfoldable pub take_steps : ℕ → List Step → Sched State → Option (Sched State)
  unfolding take_step
  take_steps fuel [] c = some c
  take_steps fuel (st ∷ sts) c = do d ← take_step fuel st c; take_steps fuel sts d

  -- The loop behind the steps.
  unfoldable pub complete_all : List Running → Sched State → Option (Sched State)
  unfolding complete
  complete_all [] c = some c
  complete_all (r ∷ rs) c = do d ← complete r c; complete_all rs d

  -- Both loops.
  unfoldable pub schedule : ℕ → List Step → State → Option (Sched State)
  unfolding take_steps complete_all
  schedule fuel perm s = do
    c ← take_steps fuel perm (record { world = s; waiting = []; events = [] })
    complete_all c.waiting (record c { waiting = [] })
