-- ===== src/Isolation/Play/Total.antt =====
-- internal/isolation/isolation_test.go: what the test of a file comes to.
use build_postgres.Prelude.{All, ℕ, ◌≡◌, Bool, some, List, [], ◌∷◌, ◌++◌, map, concat}
use build_postgres.Prelude.Text.{Bytes, codes}
use build_postgres.Prelude.Result.{Result, ok, err}
use build_postgres.Isolation.Spec.{Step, Spec, parse}
use build_postgres.Isolation.Spec.Shape.{WellFormed}
use build_postgres.Isolation.Schedule.{Event, event_text}
use build_postgres.Isolation.Schedule.Books.{count, started, ended}
use build_postgres.Isolation.Schedule.Calls.{Stalled}
use build_postgres.Isolation.Play.Connected.{Connected}
use build_postgres.Isolation.Play.Shown.{Shown}
use build_postgres.Isolation.Play.Faults.{Fault}
use build_postgres.Isolation.Play.{Host, world, close_all, heading, close_all, with_count}

-- The text of permutations: for each a heading, and the texts of events that start its steps in order and
-- complete each as often as it stands there, counted by p, each event with the calls behind it.
pub data Played (width : Bytes → ℕ) {State : Type 0} (host : Host State) (p : Step → Bool)
    (sp : Spec) : List (List Step) → Bytes → Type 0 where
  over : Played width host p sp [] []
  next :
      {perm : List Step} {perms : List (List Step)} {rest out : Bytes} (events : List Event)
      (conns : List ℕ)
      → Connected width host sp conns
      → started events ≡ perm
      → count p (ended events) ≡ count p perm
      → All (Shown width host conns) events
      → out ≡ heading perm ++ concat (map event_text events) ++ rest
      → Played width host p sp perms rest
      → Played width host p sp (perm ∷ perms) out

-- What run comes to: the message of a call that failed, or the number of sessions and the text of the
-- permutations.
pub data Ran (width : Bytes → ℕ) {State : Type 0} (host : Host State) (p : Step → Bool) (sp : Spec)
    : Result Bytes Bytes → Type 0 where
  stopped : {e : Bytes} → Fault host sp e → Ran width host p sp (err e)
  ran :
      {out : Bytes}
      → Played width host p sp sp.permutations out
      → Ran width host p sp (with_count sp (ok out))

-- What the test of a file comes to.
pub data Tested (width : Bytes → ℕ) {State : Type 0} (host : Host State) (p : Step → Bool)
    (quote : Bytes → Bytes) (file src : Bytes) : Result Bytes Bytes → Type 0 where
  unread :
      {e : Bytes}
      → parse quote src ≡ some (err e)
      → Tested width host p quote file src (err (file ++ codes ": " ++ e))
  read :
      {sp : Spec} {r : Result Bytes Bytes}
      → parse quote src ≡ some (ok sp)
      → WellFormed sp
      → Ran width host p sp r
      → Tested width host p quote file src r

-- A receive from a started step, or a polling loop on one, does not end.
pub data Stuck (width : Bytes → ℕ) {State : Type 0} (host : Host State) (fuel : ℕ) : Type 0 where
  stuck_at : (conns : List ℕ) → Stalled (world width host conns) fuel → Stuck width host fuel

module _ (width : Bytes → ℕ) {State : Type 0} (host : Host State) (fuel : ℕ) (p : Step → Bool)
    (sp : Spec) where
  -- What permutation comes to: an error, or the events of the steps.
  data Once (perm : List Step) : Result Bytes (State × List Event) → Type 0 where
    failed : {e : Bytes} → Fault host sp e → Once perm (err e)
    once :
        {s : State} {events : List Event} (conns : List ℕ)
        → Connected width host sp conns
        → started events ≡ perm
        → count p (ended events) ≡ count p perm
        → All (Shown width host conns) events
        → Once perm (ok (s, events))

  -- What is printed of a permutation and those behind it.
  data Rest (perms : List (List Step)) : Result Bytes Bytes → Type 0 where
    fatal : {e : Bytes} → Fault host sp e → Rest perms (err e)
    shown : {out : Bytes} → Played width host p sp perms out → Rest perms (ok out)
