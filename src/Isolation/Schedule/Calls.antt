-- ===== src/Isolation/Schedule/Calls.antt =====
-- internal/isolation/isolation_test.go: the calls behind what permutation prints, and behind a run that does not
-- end.
use build_postgres.Prelude.{◌>>=◌, ℕ, zero, suc, ◌≡◌, refl, subst, Option, none, some}
use mathlib.Core.Option.{some-injective}
use build_postgres.Prelude.Text.{Bytes}
use build_postgres.Isolation.Schedule.{
  Running, Poll, finished, blocked, busy, World, Event, ran, waits, completed, Settled, over, stuck,
  after_poll, settle,
}

-- A value that is good, or none for a reason.
pub data Outcome {A : Type 0} (Bad : Type 0) (Good : A → Type 0) : Option A → Type 0 where
  ends : {a : A} → Good a → Outcome Bad Good (some a)
  stalls : Bad → Outcome Bad Good none

pub Outcome-bind :
    {A B Bad : Type 0} {Good : A → Type 0} {Fine : B → Type 0} {o : Option A} (f : A → Option B)
    → Outcome Bad Good o
    → ((a : A) → Good a → Outcome Bad Fine (f a))
    → Outcome Bad Fine (o >>= f)
Outcome-bind f (ends {a} g) k = k a g
Outcome-bind f (stalls b) k = stalls b

pub Outcome-map :
    {A Bad : Type 0} {Good Fine : A → Type 0} {o : Option A}
    → Outcome Bad Good o
    → ((a : A) → Good a → Fine a)
    → Outcome Bad Fine o
Outcome-map (ends {a} g) k = ends (k a g)
Outcome-map (stalls b) k = stalls b

pub Outcome-blame :
    {A Bad Worse : Type 0} {Good : A → Type 0} {o : Option A}
    → (Bad → Worse)
    → Outcome Bad Good o
    → Outcome Worse Good o
Outcome-blame f (ends g) = ends g
Outcome-blame f (stalls b) = stalls (f b)

module _ {State : Type 0} (w : World State) where
  -- The channel is that of a start of the step.
  pub record Begun (r : Running) : Type 0 where
    pub before : State
    pub starts : (w.start before r.step).1 ≡ r.channel

  -- Behind an event stands a step that was started, and a look at it or a receive that found what is printed.
  pub data Told : Event → Type 0 where
    at_once :
        (r : Running) (res : Bytes) (s t : State)
        → Begun r
        → w.poll s r ≡ (t, finished res)
        → Told (ran r.step res)
    held_up :
        (r : Running) (s t : State) → Begun r → w.poll s r ≡ (t, blocked) → Told (waits r.step)
    let_go :
        (r : Running) (res : Bytes) (s t : State)
        → Begun r
        → w.poll s r ≡ (t, finished res)
        → Told (completed r.step res)
    received :
        (r : Running) (res : Bytes) (s t : State)
        → Begun r
        → w.receive s r ≡ some (t, res)
        → Told (completed r.step res)

  -- A receive from a step that was started, or a polling loop on it, does not end.
  pub data Stalled (fuel : ℕ) : Type 0 where
    no_result : (r : Running) (s : State) → Begun r → w.receive s r ≡ none → Stalled fuel
    no_end : (r : Running) (s : State) → Begun r → settle w fuel s r ≡ none → Stalled fuel

  -- The look that ends a polling loop.
  pub data SettledBy (r : Running) : State × Settled → Type 0 where
    over_by :
        {u : State} {res : Bytes} (s t : State)
        → w.poll s r ≡ (t, finished res)
        → SettledBy r (u, over res)
    stuck_by : {u : State} (s t : State) → w.poll s r ≡ (t, blocked) → SettledBy r (u, stuck)

  polled-By :
      (s : State) (r : Running) (y : State × Poll) (x : State × Settled)
      (more : State → Option (State × Settled))
      → w.poll s r ≡ y
      → ((t : State) → more t ≡ some x → SettledBy r x)
      → after_poll w y more ≡ some x
      → SettledBy r x
  polled-By s r (t, finished res) x more q k e =
      subst (SettledBy r) (some-injective _ _ e) (over_by s t q)
  polled-By s r (t, blocked) x more q k e =
      subst (SettledBy r) (some-injective _ _ e) (stuck_by s t q)
  polled-By s r (t, busy) x more q k e = k t e

  settle-By :
      (fuel : ℕ) (s : State) (r : Running) (x : State × Settled)
      → settle w fuel s r ≡ some x
      → SettledBy r x
  unfolding settle
  settle-By zero s r x e = cc
  settle-By (suc fuel) s r x e =
      polled-By s r (w.poll s r) x (λ t. settle w fuel t r) refl (λ t k. settle-By fuel t r x k) e

  pub receive-Outcome :
      (fuel : ℕ) (s : State) (r : Running)
      → Begun r
      → Outcome (Stalled fuel) (λ x. w.receive s r ≡ some x) (w.receive s r)
  receive-Outcome fuel s r b = by_cases (w.receive s r) refl
    where
      by_cases :
          (o : Option (State × Bytes))
          → w.receive s r ≡ o
          → Outcome (Stalled fuel) (λ x. w.receive s r ≡ some x) o
      by_cases none e = stalls (no_result r s b e)
      by_cases (some x) e = ends e

  pub settle-Outcome :
      (fuel : ℕ) (s : State) (r : Running)
      → Begun r
      → Outcome (Stalled fuel) (SettledBy r) (settle w fuel s r)
  settle-Outcome fuel s r b = by_cases (settle w fuel s r) refl
    where
      by_cases :
          (o : Option (State × Settled))
          → settle w fuel s r ≡ o
          → Outcome (Stalled fuel) (SettledBy r) o
      by_cases none e = stalls (no_end r s b e)
      by_cases (some x) e = ends (settle-By fuel s r x e)
