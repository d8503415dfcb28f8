-- ===== src/Isolation/Schedule/Books.antt =====
-- internal/isolation/isolation_test.go: the steps that permutation has started, completed and waits for.
use build_postgres.Prelude.{
  ℕ, ◌+◌, ◌≡◌, refl, ◌∙◌, ap, Bool, List, [], ◌∷◌, ◌++◌, if◌then◌else◌, append-nil, arith, All,
  All-append,
}
use build_postgres.Prelude.Text.{Bytes}
use build_postgres.Isolation.Spec.{Step}
use build_postgres.Isolation.Schedule.Calls.{Begun, Told}
use build_postgres.Isolation.Schedule.{Running, World, Event, ran, waits, completed, Sched}

-- The steps that the events start, and those that they complete.
unfoldable pub started : List Event → List Step
started [] = []
started (ran st res ∷ evs) = st ∷ started evs
started (waits st ∷ evs) = st ∷ started evs
started (completed st res ∷ evs) = started evs

unfoldable pub ended : List Event → List Step
ended [] = []
ended (ran st res ∷ evs) = st ∷ ended evs
ended (waits st ∷ evs) = ended evs
ended (completed st res ∷ evs) = st ∷ ended evs

-- How many steps a test accepts.
unfoldable pub count : (Step → Bool) → List Step → ℕ
count p [] = 0
count p (st ∷ sts) = (if p st then 1 else 0) + count p sts

pub started-append : (xs ys : List Event) → started (xs ++ ys) ≡ started xs ++ started ys
unfolding started
started-append [] ys = refl
started-append (ran st res ∷ xs) ys = ap (λ l. st ∷ l) (started-append xs ys)
started-append (waits st ∷ xs) ys = ap (λ l. st ∷ l) (started-append xs ys)
started-append (completed st res ∷ xs) ys = started-append xs ys

pub count-append :
    (p : Step → Bool) (xs ys : List Step) → count p (xs ++ ys) ≡ count p xs + count p ys
unfolding count
count-append p [] ys = omega arith
count-append p (x ∷ xs) ys = omega (arith, count-append p xs ys)

pub ended-append : (xs ys : List Event) → ended (xs ++ ys) ≡ ended xs ++ ended ys
unfolding ended
ended-append [] ys = refl
ended-append (ran st res ∷ xs) ys = ap (λ l. st ∷ l) (ended-append xs ys)
ended-append (waits st ∷ xs) ys = ended-append xs ys
ended-append (completed st res ∷ xs) ys = ap (λ l. st ∷ l) (ended-append xs ys)

-- The waiting steps that a test accepts.
unfoldable pub owed : (Step → Bool) → List Running → ℕ
owed p [] = 0
owed p (r ∷ rs) = (if p r.step then 1 else 0) + owed p rs

pub owed-append :
    (p : Step → Bool) (xs ys : List Running) → owed p (xs ++ ys) ≡ owed p xs + owed p ys
unfolding owed
owed-append p [] ys = omega arith
owed-append p (x ∷ xs) ys = omega (arith, owed-append p xs ys)

module _ {State : Type 0} (w : World State) (p : Step → Bool) where
  -- n accepted steps are completed or wait, the steps started are ss, and the calls behind the events and the
  -- waiting steps were made.
  pub record Books (n : ℕ) (ss : List Step) (c : Sched State) : Type 0 where
    pub total : count p (ended c.events) + owed p c.waiting ≡ n
    pub order : started c.events ≡ ss
    pub told : All (Told w) c.events
    pub begins : All (Begun w) c.waiting

  pub recount :
      {n m : ℕ} {ss ts : List Step} {c : Sched State}
      → Books n ss c
      → n ≡ m
      → ss ≡ ts
      → Books m ts c
  recount b e k = record {
    total = b.total ∙ e;
    order = b.order ∙ k;
    told = b.told;
    begins = b.begins;
  }

  -- The books without the waiting steps, which a loop goes through.
  pub cleared :
      (n : ℕ) (ss : List Step) (c : Sched State)
      → Books n ss c
      → Books (count p (ended c.events)) ss (record c { waiting = [] })
  unfolding owed
  cleared n ss c b = record { total = omega arith; order = b.order; told = b.told; begins = tt }

  pub all_ended :
      {n : ℕ} {ss : List Step} {c : Sched State}
      → Books n ss c
      → c.waiting ≡ []
      → count p (ended c.events) ≡ n
  unfolding owed
  all_ended {c = c} b h = omega (arith, b.total, ap (owed p) h)

  -- A completion takes a waiting step off the debt.
  pub completion :
      (n : ℕ) (ss : List Step) (c : Sched State) (r : Running) (s : State) (res : Bytes)
      → Told w (completed r.step res)
      → Books n ss c
      → Books
          ((if p r.step then 1 else 0) + n)
          ss
          (record c { world = s; events = c.events ++ completed r.step res ∷ [] })
  unfolding ended started count
  completion n ss c r s res t b = record {
    total = omega (
      arith,
      b.total,
      count-append p (ended c.events) (r.step ∷ []),
      ap (count p) (ended-append c.events (completed r.step res ∷ [])),
    );
    order =
        started-append c.events (completed r.step res ∷ [])
        ∙ append-nil (started c.events)
        ∙ b.order;
    told = All-append (Told w) c.events (completed r.step res ∷ []) b.told (t, tt);
    begins = b.begins;
  }

  pub keeping :
      (n : ℕ) (ss : List Step) (c : Sched State) (r : Running)
      → Begun w r
      → Books n ss c
      → Books ((if p r.step then 1 else 0) + n) ss (record c { waiting = c.waiting ++ r ∷ [] })
  unfolding owed
  keeping n ss c r g b = record {
    total = omega (arith, b.total, owed-append p c.waiting (r ∷ []));
    order = b.order;
    told = b.told;
    begins = All-append (Begun w) c.waiting (r ∷ []) b.begins (g, tt);
  }

  pub moved :
      {n : ℕ} {ss : List Step} {c : Sched State} (s : State)
      → Books n ss c
      → Books n ss (record c { world = s })
  moved s b = record { total = b.total; order = b.order; told = b.told; begins = b.begins }
