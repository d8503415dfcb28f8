-- ===== src/Isolation/Schedule/Once.antt =====
-- internal/isolation/isolation_test.go: permutation starts its steps in order and completes each once.
use build_postgres.Prelude.{
  ℕ, ◌+◌, ◌≡◌, refl, sym, ◌∙◌, ap, Bool, true, false, Option, List, [], ◌∷◌, ◌++◌, ◌==◌,
  if◌then◌else◌, append_assoc, append-nil, arith, All, All-append,
}
use build_postgres.Isolation.Spec.{Step}
use build_postgres.Isolation.Schedule.Calls.{
  Outcome, ends, Outcome-bind, Outcome-map, Begun, Told, at_once, held_up, let_go, received,
  Stalled, SettledBy, over_by, stuck_by, settle-Outcome, receive-Outcome,
}
use build_postgres.Isolation.Schedule.{
  Running, World, ran, waits, Sched, Settled, complete, keep, release, finish_one, finish, begun,
  take_step, take_steps, complete_all, schedule,
}
use build_postgres.Isolation.Schedule.Books.{
  started, ended, count, owed, started-append, count-append, ended-append, owed-append, Books,
  recount, cleared, all_ended, completion, keeping, moved,
}

module _ {State : Type 0} (w : World State) (p : Step → Bool) (fuel : ℕ) where
  -- A run that ends with such books, or a call that does not end.
  abbrev Balanced : ℕ → List Step → Option (Sched State) → Type 0
  Balanced n ss o = Outcome (Stalled w fuel) (Books w p n ss) o

  complete-Balanced :
      (n : ℕ) (ss : List Step) (r : Running) (c : Sched State)
      → Begun w r
      → Books w p n ss c
      → Balanced ((if p r.step then 1 else 0) + n) ss (complete w r c)
  unfolding complete
  complete-Balanced n ss r c g b =
      Outcome-bind _ (receive-Outcome w fuel c.world r g)
        (λ x e. ends (completion w p n ss c r x.0 x.1 (received r x.1 c.world x.0 g e) b))

  -- A step that is completed or kept.
  either-Balanced :
      (n : ℕ) (ss : List Step) (r : Running) (c : Sched State) (here : Bool)
      → Begun w r
      → Books w p n ss c
      → Balanced ((if p r.step then 1 else 0) + n) ss (if here then complete w r c else keep w r c)
  either-Balanced n ss r c true g b = complete-Balanced n ss r c g b
  either-Balanced n ss r c false g b = ends (keeping w p n ss c r g b)

  release-Balanced :
      (session n m : ℕ) (ss : List Step) (rs : List Running) (c : Sched State)
      → All (Begun w) rs
      → Books w p n ss c
      → n + owed p rs ≡ m
      → Balanced m ss (release w session rs c)
  unfolding release owed
  release-Balanced session n m ss [] c g b e = ends (recount w p b (omega arith) refl)
  release-Balanced session n m ss (r ∷ rs) c (g, gs) b e =
      Outcome-bind _ (either-Balanced n ss r c (r.step.session == session) g b) (λ d b'.
        release-Balanced session ((if p r.step then 1 else 0) + n) m ss rs d gs b' (omega arith))

  finish_one-Balanced :
      (n : ℕ) (ss : List Step) (r : Running) (c : Sched State) (x : State × Settled)
      → Begun w r
      → SettledBy w r x
      → Books w p n ss c
      → Balanced ((if p r.step then 1 else 0) + n) ss (finish_one w r c x)
  finish_one-Balanced n ss r c _ g (over_by {u} {res} s t q) b =
      ends (completion w p n ss c r u res (let_go r res s t g q) b)
  finish_one-Balanced n ss r c _ g (stuck_by {u} s t q) b =
      ends (keeping w p n ss (record c { world = u }) r g (moved w p u b))

  finish-Balanced :
      (n m : ℕ) (ss : List Step) (rs : List Running) (c : Sched State)
      → All (Begun w) rs
      → Books w p n ss c
      → n + owed p rs ≡ m
      → Balanced m ss (finish w fuel rs c)
  unfolding finish owed
  finish-Balanced n m ss [] c g b e = ends (recount w p b (omega arith) refl)
  finish-Balanced n m ss (r ∷ rs) c (g, gs) b e =
      Outcome-bind _ (settle-Outcome w fuel c.world r g) (λ x k.
        Outcome-bind _ (finish_one-Balanced n ss r c x g k b)
          (λ d b'. finish-Balanced ((if p r.step then 1 else 0) + n) m ss rs d gs b' (omega arith)))

  begun-Books :
      (n : ℕ) (ss : List Step) (r : Running) (c : Sched State) (x : State × Settled)
      → Begun w r
      → SettledBy w r x
      → Books w p n ss c
      → Books w p ((if p r.step then 1 else 0) + n) (ss ++ r.step ∷ []) (begun w r c x)
  unfolding ended started count owed
  begun-Books n ss r c _ g (over_by {u} {res} s t q) b = record {
    total = omega (
      arith,
      b.total,
      count-append p (ended c.events) (r.step ∷ []),
      ap (count p) (ended-append c.events (ran r.step res ∷ [])),
    );
    order = started-append c.events (ran r.step res ∷ []) ∙ ap (λ l. l ++ r.step ∷ []) b.order;
    told = All-append (Told w) c.events (ran r.step res ∷ []) b.told (at_once r res s t g q, tt);
    begins = b.begins;
  }
  begun-Books n ss r c _ g (stuck_by {u} s t q) b = record {
    total = omega (
      arith,
      b.total,
      owed-append p c.waiting (r ∷ []),
      count-append p (ended c.events) [],
      ap (count p) (ended-append c.events (waits r.step ∷ [])),
    );
    order = started-append c.events (waits r.step ∷ []) ∙ ap (λ l. l ++ r.step ∷ []) b.order;
    told = All-append (Told w) c.events (waits r.step ∷ []) b.told (held_up r s t g q, tt);
    begins = All-append (Begun w) c.waiting (r ∷ []) b.begins (g, tt);
  }

  take_step-Balanced :
      (n : ℕ) (ss : List Step) (st : Step) (c : Sched State)
      → Books w p n ss c
      → Balanced ((if p st then 1 else 0) + n) (ss ++ st ∷ []) (take_step w fuel st c)
  unfolding take_step
  take_step-Balanced n ss st c b =
      Outcome-bind _
        (release-Balanced st.session (count p (ended c.events)) n ss c.waiting
          (record c { waiting = [] }) b.begins (cleared w p n ss c b) b.total)
        (λ d bd.
          let r : Running = record { step = st; channel = (w.start d.world st).1 } in
          let g : Begun w r = record { before = d.world; starts = refl } in
          Outcome-bind _ (settle-Outcome w fuel (w.start d.world st).0 r g) (λ x k.
            let e = begun w r d x in
            let be = begun-Books n ss r d x g k bd in
            finish-Balanced (count p (ended e.events)) ((if p st then 1 else 0) + n) (ss ++ st ∷ [])
              e.waiting (record e { waiting = [] }) be.begins (cleared w p _ _ e be) be.total))

  take_steps-Balanced :
      (n : ℕ) (ss sts : List Step) (c : Sched State)
      → Books w p n ss c
      → Balanced (n + count p sts) (ss ++ sts) (take_steps w fuel sts c)
  unfolding take_steps count
  take_steps-Balanced n ss [] c b = ends (recount w p b (omega arith) (sym (append-nil ss)))
  take_steps-Balanced n ss (st ∷ sts) c b = Outcome-bind _ (take_step-Balanced n ss st c b) (λ d bd.
      Outcome-map (take_steps-Balanced ((if p st then 1 else 0) + n) (ss ++ st ∷ []) sts d bd)
        (λ e be. recount w p be (omega arith) (append_assoc ss (st ∷ []) sts)))

  complete-emptied :
      (n : ℕ) (ss : List Step) (r : Running) (c : Sched State)
      → Begun w r
      → Books w p n ss c
      → c.waiting ≡ []
      → Outcome
          (Stalled w fuel)
          (λ d. Books w p ((if p r.step then 1 else 0) + n) ss d × (d.waiting ≡ []))
          (complete w r c)
  unfolding complete
  complete-emptied n ss r c g b h =
      Outcome-bind _ (receive-Outcome w fuel c.world r g)
        (λ x e. ends (completion w p n ss c r x.0 x.1 (received r x.1 c.world x.0 g e) b, h))

  -- The last loop leaves nothing waiting.
  complete_all-Balanced :
      (n m : ℕ) (ss : List Step) (rs : List Running) (c : Sched State)
      → All (Begun w) rs
      → Books w p n ss c
      → n + owed p rs ≡ m
      → c.waiting ≡ []
      → Outcome (Stalled w fuel) (λ d. Books w p m ss d × (d.waiting ≡ [])) (complete_all w rs c)
  unfolding complete_all complete owed
  complete_all-Balanced n m ss [] c g b e h = ends (recount w p b (omega arith) refl, h)
  complete_all-Balanced n m ss (r ∷ rs) c (g, gs) b e h =
      Outcome-bind _ (complete-emptied n ss r c g b h) (λ d (b', h').
        complete_all-Balanced ((if p r.step then 1 else 0) + n) m ss rs d gs b' (omega arith) h')

  -- What permutation's loops come to.
  pub record Completed (perm : List Step) (d : Sched State) : Type 0 where
    pub in_order : started d.events ≡ perm
    pub each_once : count p (ended d.events) ≡ count p perm
    pub none_left : d.waiting ≡ []
    pub behind : All (Told w) d.events

  -- The loops of permutation end with no step waiting, or at a receive from a started step or a polling loop on
  -- one that does not end. Where they end, the steps are started in the order of the permutation, and each is
  -- completed as often as it stands there, at once or after its wait, whatever test picks the steps that are
  -- counted; and every text that is printed is what a look at the step or a receive from it found, on the channel
  -- of a start of that very step.
  pub schedule_completes :
      (perm : List Step) (s : State)
      → Outcome (Stalled w fuel) (Completed perm) (schedule w fuel perm s)
  unfolding schedule owed ended started count
  schedule_completes perm s =
      Outcome-bind _
        (take_steps-Balanced 0 [] perm (record { world = s; waiting = []; events = [] })
          (record { total = refl; order = refl; told = tt; begins = tt }))
        (λ c b.
          Outcome-map
            (complete_all-Balanced (count p (ended c.events)) (count p perm) perm c.waiting
              (record c { waiting = [] }) b.begins (cleared w p _ _ c b) (omega (arith, b.total))
              refl)
            (λ d (bd, left). record {
              in_order = bd.order;
              each_once = all_ended w p bd left;
              none_left = left;
              behind = bd.told;
            }))
