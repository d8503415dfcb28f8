-- ===== src/Isolation/Schedule/Alone.antt =====
-- internal/isolation/isolation_test.go: permutation has one step of a session in progress at a time.
use build_postgres.Prelude.{
  ℕ, ◌≡◌, refl, sym, subst, ◌≢◌, Bool, true, false, List, [], ◌∷◌, ◌++◌, ◌==◌, if◌then◌else◌,
  append_assoc, append-nil, arith, All, All-append,
}
use build_postgres.Isolation.Spec.{Step}
use build_postgres.Isolation.Schedule.{
  Running, World, Sched, Settled, over, stuck, complete, keep, release, finish_one, finish, begun,
  take_step, take_steps,
}
use build_postgres.Isolation.Schedule.Calls.{
  Outcome, ends, Outcome-bind, Outcome-map, Begun, Stalled, settle-Outcome, receive-Outcome,
}

-- No waiting step is of the session.
abbrev pub Free : ℕ → List Running → Type 0
Free session rs = All (λ r. r.step.session ≢ session) rs

-- No two waiting steps are of one session.
pub Alone : List Running → Type 0
Alone [] = Unit
Alone (r ∷ rs) = Free r.step.session rs × Alone rs

Free-left : (session : ℕ) (xs ys : List Running) → Free session (xs ++ ys) → Free session xs
Free-left session [] ys h = tt
Free-left session (x ∷ xs) ys (hx, h) = (hx, Free-left session xs ys h)

Free-right : (session : ℕ) (xs ys : List Running) → Free session (xs ++ ys) → Free session ys
Free-right session [] ys h = h
Free-right session (x ∷ xs) ys (_, h) = Free-right session xs ys h

-- A step less.
Free-without :
    (session : ℕ) (xs : List Running) (r : Running) (ys : List Running)
    → Free session (xs ++ r ∷ ys)
    → Free session (xs ++ ys)
Free-without session [] r ys (_, h) = h
Free-without session (x ∷ xs) r ys (hx, h) = (hx, Free-without session xs r ys h)

Alone-without :
    (xs : List Running) (r : Running) (ys : List Running) → Alone (xs ++ r ∷ ys) → Alone (xs ++ ys)
unfolding Alone
Alone-without [] r ys (_, h) = h
Alone-without (x ∷ xs) r ys (f, h) =
    (Free-without x.step.session xs r ys f, Alone-without xs r ys h)

-- A step of a free session more.
Alone-more :
    (xs : List Running) (r : Running) → Alone xs → Free r.step.session xs → Alone (xs ++ r ∷ [])
unfolding Alone
Alone-more [] r h f = (tt, tt)
Alone-more (x ∷ xs) r (g, h) (fx, f) = (
  All-append (λ q. q.step.session ≢ x.step.session) xs (r ∷ []) g ((λ e. fx (sym e)), tt),
  Alone-more xs r h f,
)

module _ {State : Type 0} (w : World State) (fuel : ℕ) where
  -- Waiting steps of different sessions, all of them started.
  abbrev Fine : List Running → Type 0
  Fine rs = Alone rs × All (Begun w) rs

  release_one :
      (session : ℕ) (r : Running) (rs : List Running) (c : Sched State) (here : Bool)
      → (r.step.session == session) ≡ here
      → Begun w r
      → Alone (c.waiting ++ r ∷ rs)
      → Free session c.waiting
      → All (Begun w) c.waiting
      → Outcome
          (Stalled w fuel)
          (λ d. Alone (d.waiting ++ rs) × Free session d.waiting × All (Begun w) d.waiting)
          (if here then complete w r c else keep w r c)
  unfolding complete
  release_one session r rs c true e g h f b =
      Outcome-bind _ (receive-Outcome w fuel c.world r g)
        (λ x k. ends (Alone-without c.waiting r rs h, f, b))
  release_one session r rs c false e g h f b = ends (
    subst Alone (sym (append_assoc c.waiting (r ∷ []) rs)) h,
    All-append (λ q. q.step.session ≢ session) c.waiting (r ∷ []) f ((λ k. ground arith), tt),
    All-append (Begun w) c.waiting (r ∷ []) b (g, tt),
  )

  -- The waiting steps after the loop before a step of the session.
  release-Free :
      (session : ℕ) (rs : List Running) (c : Sched State)
      → Alone (c.waiting ++ rs)
      → Free session c.waiting
      → All (Begun w) c.waiting
      → All (Begun w) rs
      → Outcome
          (Stalled w fuel)
          (λ d. Free session d.waiting × Fine d.waiting)
          (release w session rs c)
  unfolding release
  release-Free session [] c h f b g = ends (f, (subst Alone (append-nil c.waiting) h, b))
  release-Free session (r ∷ rs) c h f b (g, gs) =
      Outcome-bind _ (release_one session r rs c (r.step.session == session) refl g h f b)
        (λ d (h', f', b'). release-Free session rs d h' f' b' gs)

  finish_one-Alone :
      (r : Running) (rs : List Running) (c : Sched State) (x : State × Settled)
      → Begun w r
      → Alone (c.waiting ++ r ∷ rs)
      → All (Begun w) c.waiting
      → Outcome
          (Stalled w fuel)
          (λ d. Alone (d.waiting ++ rs) × All (Begun w) d.waiting)
          (finish_one w r c x)
  finish_one-Alone r rs c (s, over res) g h b = ends (Alone-without c.waiting r rs h, b)
  finish_one-Alone r rs c (s, stuck) g h b = ends (
    subst Alone (sym (append_assoc c.waiting (r ∷ []) rs)) h,
    All-append (Begun w) c.waiting (r ∷ []) b (g, tt),
  )

  finish-Alone :
      (rs : List Running) (c : Sched State)
      → Alone (c.waiting ++ rs)
      → All (Begun w) c.waiting
      → All (Begun w) rs
      → Outcome (Stalled w fuel) (λ d. Fine d.waiting) (finish w fuel rs c)
  unfolding finish
  finish-Alone [] c h b g = ends (subst Alone (append-nil c.waiting) h, b)
  finish-Alone (r ∷ rs) c h b (g, gs) = Outcome-bind _ (settle-Outcome w fuel c.world r g) (λ x k.
      Outcome-bind _ (finish_one-Alone r rs c x g h b) (λ d (h', b'). finish-Alone rs d h' b' gs))

  begun-Alone :
      (r : Running) (c : Sched State) (x : State × Settled)
      → Begun w r
      → Fine c.waiting
      → Free r.step.session c.waiting
      → Fine (begun w r c x).waiting
  begun-Alone r c (s, over res) g h f = h
  begun-Alone r c (s, stuck) g (h, b) f =
      (Alone-more c.waiting r h f, All-append (Begun w) c.waiting (r ∷ []) b (g, tt))

  take_step-Alone :
      (st : Step) (c : Sched State)
      → Fine c.waiting
      → Outcome (Stalled w fuel) (λ e. Fine e.waiting) (take_step w fuel st c)
  unfolding take_step
  take_step-Alone st c (h, g) =
      Outcome-bind _ (release-Free st.session c.waiting (record c { waiting = [] }) h tt tt g)
        (λ d (f, fine).
          let r : Running = record { step = st; channel = (w.start d.world st).1 } in
          let k : Begun w r = record { before = d.world; starts = refl } in
          Outcome-bind _ (settle-Outcome w fuel (w.start d.world st).0 r k) (λ x q.
            let b = begun w r d x in
            let (a, bs) = begun-Alone r d x k fine f in
            finish-Alone b.waiting (record b { waiting = [] }) a tt bs))

  take_steps-Alone :
      (sts : List Step) (c : Sched State)
      → Fine c.waiting
      → Outcome (Stalled w fuel) (λ d. Fine d.waiting) (take_steps w fuel sts c)
  unfolding take_steps
  take_steps-Alone [] c h = ends h
  take_steps-Alone (st ∷ sts) c h =
      Outcome-bind _ (take_step-Alone st c h) (λ d hd. take_steps-Alone sts d hd)

  -- The steps of a permutation end, or come to a receive from a started step or a polling loop on one that does not
  -- end. After them no two waiting steps are of one session; and when the next step is started, behind the loop
  -- before it, which ends in the same way, no waiting step is of its session.
  pub one_step_at_a_time :
      (perm : List Step) (st : Step) (s : State)
      → Outcome
          (Stalled w fuel)
          (λ c.
            Alone c.waiting
            × Outcome
                (Stalled w fuel)
                (λ d. Free st.session d.waiting)
                (release w st.session c.waiting (record c { waiting = [] })))
          (take_steps w fuel perm (record { world = s; waiting = []; events = [] }))
  unfolding Alone
  one_step_at_a_time perm st s =
      Outcome-map (take_steps-Alone perm (record { world = s; waiting = []; events = [] }) (tt, tt))
        (λ c (h, g). (
          h,
          Outcome-map (release-Free st.session c.waiting (record c { waiting = [] }) h tt tt g)
              (λ d (f, fine). f),
        ))
