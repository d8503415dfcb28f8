-- ===== src/Isolation/Play/Shown.antt =====
-- internal/isolation/isolation_test.go: the calls of sessions behind what permutation prints.
use build_postgres.Prelude.{
  ℕ, ◌≡◌, refl, ap, ◌∙◌, arith, Option, some, List, get_or, inl, inr, Option-cases,
}
use build_postgres.Prelude.Text.{Bytes}
use build_postgres.Session.{Reply, ExecError}
use build_postgres.Isolation.Spec.{Step}
use build_postgres.Isolation.Schedule.{Event, ran, waits, completed, finished, blocked}
use build_postgres.Isolation.Schedule.Calls.{Told, at_once, held_up, let_go, received}
use build_postgres.Isolation.Play.{
  Host, Answer, replied, stuck, sleeping, world, poll_of, step_text,
}

module _ (width : Bytes → ℕ) {State : Type 0} (host : Host State) (conns : List ℕ) where
  -- The connection of a step's session.
  abbrev conn_of : Step → ℕ
  conn_of st = get_or conns st.session 0

  -- The channel of a goroutine that runs the SQL of the step on the connection of its session.
  abbrev Opened : Step → ℕ → Type 0
  Opened st channel = (s : State) × ((host.begin s (conn_of st) st.sql).1 ≡ channel)

  -- What Exec returned, as a look at the goroutine or a receive from its channel found it, makes up the text of
  -- the event; a step that waits was found blocked.
  pub data Shown : Event → Type 0 where
    shown_ran :
        (st : Step) (res : Bytes) (channel : ℕ) (s t : State) (rs : List Reply)
        (e : Option ExecError)
        → Opened st channel
        → host.look s (conn_of st) channel ≡ (t, replied rs e)
        → step_text width rs e ≡ some res
        → Shown (ran st res)
    shown_waits :
        (st : Step) (channel : ℕ) (s t : State)
        → Opened st channel
        → host.look s (conn_of st) channel ≡ (t, stuck)
        → Shown (waits st)
    shown_let_go :
        (st : Step) (res : Bytes) (channel : ℕ) (s t : State) (rs : List Reply)
        (e : Option ExecError)
        → Opened st channel
        → host.look s (conn_of st) channel ≡ (t, replied rs e)
        → step_text width rs e ≡ some res
        → Shown (completed st res)
    shown_received :
        (st : Step) (res : Bytes) (channel : ℕ) (s t : State) (rs : List Reply)
        (e : Option ExecError)
        → Opened st channel
        → host.receive s (conn_of st) channel ≡ some (t, rs, e)
        → step_text width rs e ≡ some res
        → Shown (completed st res)

  -- The answer behind a poll.
  finished_answer :
      (y : State × Answer) (t : State) (res : Bytes)
      → poll_of width host y ≡ (t, finished res)
      → (u : State) × (rs : List Reply) × (e : Option ExecError) × (y ≡ (u, replied rs e))
        × (step_text width rs e ≡ some res)
  finished_answer (s, replied rs e) t res q = elim (Option-cases (step_text width rs e)) [
    | inl k ↦ absurd (ground arith)
    | inr (x, k) ↦ let same : x ≡ res = ground arith in (s, rs, e, refl, k ∙ ap (λ z. some z) same)
  ]
  finished_answer (s, stuck) t res q = absurd (ground arith)
  finished_answer (s, sleeping) t res q = absurd (ground arith)

  blocked_answer :
      (y : State × Answer) (t : State)
      → poll_of width host y ≡ (t, blocked)
      → (u : State) × (y ≡ (u, stuck))
  blocked_answer (s, replied rs e) t q = elim (Option-cases (step_text width rs e)) [
    | inl k ↦ absurd (ground arith)
    | inr (x, k) ↦ absurd (ground arith)
  ]
  blocked_answer (s, stuck) t q = (s, refl)
  blocked_answer (s, sleeping) t q = absurd (ground arith)

  pub Told-Shown : (ev : Event) → Told (world width host conns) ev → Shown ev
  Told-Shown _ (at_once r res s t g q) =
      let (u, rs, e, look, text) =
        finished_answer (host.look s (conn_of r.step) r.channel) t res q in
      shown_ran r.step res r.channel s u rs e (g.before, g.starts) look text
  Told-Shown _ (held_up r s t g q) =
      let (u, look) = blocked_answer (host.look s (conn_of r.step) r.channel) t q in
      shown_waits r.step r.channel s u (g.before, g.starts) look
  Told-Shown _ (let_go r res s t g q) =
      let (u, rs, e, look, text) =
        finished_answer (host.look s (conn_of r.step) r.channel) t res q in
      shown_let_go r.step res r.channel s u rs e (g.before, g.starts) look text
  Told-Shown _ (received r res s t g q) =
      elim (Option-cases (host.receive s (conn_of r.step) r.channel)) [
        | inl k ↦ absurd (ground arith)
        | inr ((u, rs, e), k) ↦ elim (Option-cases (step_text width rs e)) [
          | inl x ↦ absurd (ground arith)
          | inr (x, h) ↦
              let same : x ≡ res = ground arith in
              shown_received r.step res r.channel s u rs e (g.before, g.starts) k
                (h ∙ ap (λ z. some z) same)
        ]
      ]
