-- ===== src/Isolation/Spec/Runs.antt =====
-- internal/isolation/isolation_test.go: the loop of parse on the tokens of a line.
use build_postgres.Prelude.{
  ℕ, zero, suc, ◌≤◌, ◌≡◌, refl, sym, subst, true, false, none, some, List, [], ◌∷◌, ◌++◌, arith,
  length, All, map,
}
use build_postgres.Prelude.Text.{Bytes, codes, newline, equal}
use build_postgres.Prelude.Result.{ok}
use build_postgres.Isolation.Spec.{
  Step, SessionSpec, Parsing, find_step, change, block, assign, declare_sql, add_step, declare_step,
  read_permutation, handle, read,
}
use build_postgres.Isolation.Spec.Shape.{Unique, Declared, equal_sym, find_step_other}
use build_postgres.Isolation.Spec.Text.{setup_line, teardown_line, step_line, line_tokens, Word}

pub change_last :
    (ss : List SessionSpec) (s : SessionSpec) (f : SessionSpec → SessionSpec)
    → change (length ss) f (ss ++ s ∷ []) ≡ ss ++ f s ∷ []
unfolding change
change_last [] s f = refl
change_last (x ∷ ss) s f = rw (change_last ss s f)

pub change_at :
    (i : ℕ) (ss : List SessionSpec) (s : SessionSpec) (f : SessionSpec → SessionSpec)
    → i ≡ length ss
    → change i f (ss ++ s ∷ []) ≡ ss ++ f s ∷ []
change_at i ss s f e =
    subst (λ k. change k f (ss ++ s ∷ []) ≡ ss ++ f s ∷ []) (sym e) (change_last ss s f)

find_step_before :
    (name : Bytes) (before : List Step) (st : Step) (after : List Step)
    → find_step name (before ++ st ∷ after) ≡ none
    → equal st.name name ≡ false
find_step_before name [] st after h = (find_step_other name st after h).0
find_step_before name (x ∷ before) st after h =
    find_step_before name before st after (find_step_other name x (before ++ st ∷ after) h).1

-- A step among steps with unique names is not found before it.
pub new_name :
    (before : List Step) (st : Step) (after : List Step)
    → Unique (before ++ st ∷ after)
    → find_step st.name before ≡ none
unfolding find_step
new_name [] st after u = refl
new_name (x ∷ before) st after (new, u) =
    let apart = equal_sym st.name x.name (find_step_before x.name before st after new) in
    rw apart (new_name before st after u)

-- A line has no newline in its names.
pub Word-apart : (w : Bytes) → Word w → equal w newline ≡ false
unfolding equal
Word-apart [] h = absurd h
Word-apart (c ∷ w) h = ground (arith, h.0)

pub read_names :
    (steps perm : List Step) (toks : List Bytes)
    → All (λ st. Declared steps st) perm
    → All Word (map (λ st. st.name) perm)
    → read_permutation steps (map (λ st. st.name) perm ++ newline ∷ toks)
      ≡ ok (perm, newline ∷ toks)
unfolding read_permutation
read_names steps [] toks d h = refl
read_names steps (st ∷ perm) toks (d, ds) (h, hs) =
    rw (Word-apart st.name h, d, read_names steps perm toks ds hs)

module _ (quote : Bytes → Bytes) where
  -- What the loop leaves of these tokens, on enough fuel.
  abbrev pub Runs : List Bytes → Parsing → Parsing → Type 0
  Runs toks p q = (f : ℕ) → length toks ≤ f → read quote f toks p ≡ some (ok q)

  pub handle-Runs :
      {q r : Parsing} {rest : List Bytes} (t : Bytes) (toks : List Bytes) (p : Parsing)
      → handle quote t toks p ≡ ok (q, rest)
      → length rest ≤ length toks
      → Runs rest q r
      → Runs (t ∷ toks) p r
  unfolding read
  handle-Runs t toks p e few k zero h = absurd (omega arith)
  handle-Runs t toks p e few k (suc f) h = rw e (k f (omega arith))

  pub newline-Runs :
      {r : Parsing} (toks : List Bytes) (p : Parsing) → Runs toks p r → Runs (newline ∷ toks) p r
  unfolding handle
  newline-Runs toks p k = handle-Runs newline toks p refl (omega arith) k

  pub setup-Runs :
      {r : Parsing} (sql : Bytes) (toks : List Bytes) (p : Parsing)
      → Runs toks (record p { spec = assign true sql p.cur p.spec }) r
      → Runs (line_tokens (setup_line sql) toks) p r
  unfolding handle line_tokens block declare_sql
  setup-Runs sql toks p k =
      handle-Runs (codes "setup") ((b'{' ∷ sql) ∷ newline ∷ toks) p refl (omega arith)
        (newline-Runs toks (record p { spec = assign true sql p.cur p.spec }) k)

  pub teardown-Runs :
      {r : Parsing} (sql : Bytes) (toks : List Bytes) (p : Parsing)
      → Runs toks (record p { spec = assign false sql p.cur p.spec }) r
      → Runs (line_tokens (teardown_line sql) toks) p r
  unfolding handle line_tokens block declare_sql
  teardown-Runs sql toks p k =
      handle-Runs (codes "teardown") ((b'{' ∷ sql) ∷ newline ∷ toks) p refl (omega arith)
        (newline-Runs toks (record p { spec = assign false sql p.cur p.spec }) k)

  pub step-Runs :
      {r : Parsing} (st : Step) (toks : List Bytes) (p : Parsing)
      → p.cur ≡ some st.session
      → find_step st.name p.spec.steps ≡ none
      → Runs toks
          (record p {
            spec = record p.spec {
              steps = p.spec.steps ++ st ∷ [];
              sessions =
                  change st.session (λ s. record s { steps = s.steps ++ st ∷ [] }) p.spec.sessions;
            };
          })
          r
      → Runs (line_tokens (step_line st.name st.sql) toks) p r
  unfolding handle line_tokens block declare_step add_step
  step-Runs st toks p c new k =
      handle-Runs (codes "step") (st.name ∷ (b'{' ∷ st.sql) ∷ newline ∷ toks) p
        (rw c (rw (new, add_step) refl)) (omega arith) (newline-Runs toks _ k)
