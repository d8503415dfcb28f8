-- ===== src/Isolation/Spec/Keep.antt =====
-- Every case of parse's switch keeps the specification well formed, and takes no token back.
use build_postgres.Prelude.{
  ℕ, suc, ◌≤◌, ◌≡◌, refl, sym, ap, ◌∙◌, Bool, true, ◌||◌, false, Option, none, some, List, [], ◌∷◌,
  ◌++◌, arith, Bool-cases, length, All, All-append, All-map, length-append, Option-cases, inl, inr,
  subst, if◌then◌else◌,
}
use build_postgres.Prelude.Text.{equal-eq, Bytes, codes, equal, newline}
use build_postgres.Prelude.Result.{Result, ok, err, Result-cases}
use build_postgres.Isolation.Spec.{
  Step, SessionSpec, Spec, Parsing, After, find_step, change, block, assign, declare_sql,
  open_session, add_step, declare_step, name_step, read_permutation, add_permutation, handle,
}
use build_postgres.Isolation.Spec.Shape.{
  Good, Current, outside, inside, Declared, find_step-append_some, Unique-append, steps_of-change,
  steps_of-change_same, length-change, Owned-change, Owned-append, steps_of-append,
}

-- What a case leaves of the tokens: an error, or good variables and no more tokens than there were.
pub data Fine (toks : List Bytes) : After → Type 0 where
  refused : {e : Bytes} → Fine toks (err e)
  moved :
      {q : Parsing} {rest : List Bytes}
      → Good q
      → length rest ≤ length toks
      → Fine toks (ok (q, rest))

block_shorter :
    (last : Bytes) (toks : List Bytes) (sql : Bytes) (rest : List Bytes)
    → block last toks ≡ ok (sql, rest)
    → length rest ≤ length toks
unfolding block
block_shorter last [] sql rest e = cc
block_shorter last (t ∷ toks) sql rest e = elim (Bool-cases (equal t newline)) [
  | inl line ↦ omega (arith, block_shorter t toks sql rest (ground arith))
  | inr other ↦
      let same : toks ≡ rest = ground arith in
      let len : length toks ≡ length rest = ap length same in omega arith
]

same_steps :
    (setup : Bool) (sql : Bytes) (s : SessionSpec)
    → (if setup then record s { setup = sql } else record s { teardown = sql }).steps ≡ s.steps
same_steps true sql s = refl
same_steps false sql s = refl

Current-last :
    (i : ℕ) (o : Option ℕ) (ss : List SessionSpec) → Current o ss → o ≡ some i → length ss ≡ suc i
Current-last i none [] outside e = cc
Current-last i none (s ∷ ss) h e = elim h [ ]
Current-last i (some j) ss (inside h) e = cc

-- The session at i gets other texts and the same steps.
change-Good :
    (i : ℕ) (f : SessionSpec → SessionSpec) (cur : Option ℕ) (sp : Spec)
    → ((s : SessionSpec) → (f s).steps ≡ s.steps)
    → cur ≡ some i
    → Good (record { spec = sp; cur = cur })
    → Good (record { spec = record sp { sessions = change i f sp.sessions }; cur = cur })
change-Good i f cur sp same c g = record {
  well = record {
    in_order = steps_of-change_same i sp.sessions f same ∙ g.well.in_order;
    unique = g.well.unique;
    owned =
        Owned-change i 0 i sp.sessions f (omega arith)
          (λ s h. subst (λ xs. All (λ st. st.session ≡ i) xs) (sym (same s)) h) g.well.owned;
    declared = g.well.declared;
  };
  current =
      rw c (inside (length-change i sp.sessions f ∙ Current-last i cur sp.sessions g.current c));
}

assign-Good :
    (setup : Bool) (sql : Bytes) (cur : Option ℕ) (sp : Spec)
    → Good (record { spec = sp; cur = cur })
    → Good (record { spec = assign setup sql cur sp; cur = cur })
unfolding assign
assign-Good true sql none sp g = record {
  well = record {
    in_order = g.well.in_order;
    unique = g.well.unique;
    owned = g.well.owned;
    declared = g.well.declared;
  };
  current = g.current;
}
assign-Good false sql none sp g = record {
  well = record {
    in_order = g.well.in_order;
    unique = g.well.unique;
    owned = g.well.owned;
    declared = g.well.declared;
  };
  current = g.current;
}
assign-Good setup sql (some i) sp g =
    change-Good i (λ s. if setup then record s { setup = sql } else record s { teardown = sql })
      (some i) sp (same_steps setup sql) refl g

declare_sql-Fine :
    (t : Bytes) (toks : List Bytes) (p : Parsing) → Good p → Fine toks (declare_sql t toks p)
unfolding declare_sql
declare_sql-Fine t toks p g = elim (Result-cases (block t toks)) [
  | inl (e, q) ↦ rw (q, declare_sql) refused
  | inr ((sql, rest), q) ↦
      rw (q, declare_sql)
        (moved (assign-Good (equal t (codes "setup")) sql p.cur p.spec g)
          (block_shorter t toks sql rest q))
]

open_session-Fine : (toks : List Bytes) (p : Parsing) → Good p → Fine toks (open_session toks p)
unfolding open_session
open_session-Fine [] p g = refused
open_session-Fine (name ∷ toks) p g =
    moved
      (record {
        well = record {
          in_order = steps_of-append p.spec.sessions _ refl ∙ g.well.in_order;
          unique = g.well.unique;
          owned = Owned-append 0 p.spec.sessions _ refl g.well.owned;
          declared = g.well.declared;
        };
        current = inside (
            omega (
              arith,
              length-append p.spec.sessions
                  (record { name = name; setup = []; teardown = []; steps = [] } ∷ []),
            ));
      })
      (omega arith)

new_step-Good :
    (i : ℕ) (st : Step) (p : Parsing)
    → Good p
    → p.cur ≡ some i
    → st.session ≡ i
    → find_step st.name p.spec.steps ≡ none
    → Good (record p {
      spec = record p.spec {
        steps = p.spec.steps ++ st ∷ [];
        sessions = change i (λ s. record s { steps = s.steps ++ st ∷ [] }) p.spec.sessions;
      };
    })
new_step-Good i st p g c own new =
    let last = Current-last i p.cur p.spec.sessions g.current c in
    record {
      well = record {
        in_order =
            steps_of-change i p.spec.sessions st last ∙ ap (λ xs. xs ++ st ∷ []) g.well.in_order;
        unique = Unique-append p.spec.steps st new g.well.unique;
        owned =
            Owned-change i 0 i p.spec.sessions _ (omega arith)
              (λ s h. All-append (λ x. x.session ≡ i) s.steps (st ∷ []) h (own, tt)) g.well.owned;
        declared =
            All-map (λ perm h. All-map (λ x. find_step-append_some x.name p.spec.steps st x) perm h)
              p.spec.permutations g.well.declared;
      };
      current = rw c (
          inside (
            length-change i p.spec.sessions (λ s. record s { steps = s.steps ++ st ∷ [] }) ∙ last));
    }

Fine-fewer :
    {toks more : List Bytes} {r : After} → length toks ≤ length more → Fine toks r → Fine more r
Fine-fewer h refused = refused
Fine-fewer h (moved g k) = moved g (omega arith)

add_step-Fine :
    (i : ℕ) (st : Step) (toks : List Bytes) (p : Parsing)
    → Good p
    → p.cur ≡ some i
    → st.session ≡ i
    → Fine toks (add_step i st toks p)
unfolding add_step
add_step-Fine i st toks p g c own = elim (Option-cases (find_step st.name p.spec.steps)) [
  | inr (dup, q) ↦ rw (q, add_step) refused
  | inl q ↦ rw (q, add_step) (moved (new_step-Good i st p g c own q) (omega arith))
]

declare_step-Fine :
    (cur : Option ℕ) (toks : List Bytes) (p : Parsing)
    → p.cur ≡ cur
    → Good p
    → Fine toks (declare_step cur toks p)
unfolding declare_step
declare_step-Fine none toks p c g = refused
declare_step-Fine (some i) [] p c g = refused
declare_step-Fine (some i) (name ∷ toks) p c g = elim (Result-cases (block name toks)) [
  | inl (e, q) ↦ rw (q, declare_step) refused
  | inr ((sql, rest), q) ↦
      let few = block_shorter name toks sql rest q in
      rw (q, declare_step)
        (Fine-fewer (omega arith)
          (add_step-Fine i (record { name = name; sql = sql; session = i }) rest p g c refl))
]

-- What a permutation's line leaves: an error, or declared steps and no more tokens than there were.
data Permuted (steps : List Step) (toks : List Bytes)
    : Result Bytes (List Step × List Bytes) → Type 0 where
  unknown : {e : Bytes} → Permuted steps toks (err e)
  named :
      {perm : List Step} {left : List Bytes}
      → All (λ st. Declared steps st) perm
      → length left ≤ length toks
      → Permuted steps toks (ok (perm, left))

find_step_name :
    (name : Bytes) (steps : List Step) (st : Step) → find_step name steps ≡ some st → st.name ≡ name
unfolding find_step
find_step_name name [] st e = cc
find_step_name name (x ∷ steps) st e = elim (Bool-cases (equal x.name name)) [
  | inl same ↦
      let here : x ≡ st = ground arith in ap (λ y. y.name) (sym here) ∙ equal-eq x.name name same
  | inr other ↦ find_step_name name steps st (ground arith)
]

find_step-Declared :
    (name : Bytes) (steps : List Step) (st : Step)
    → find_step name steps ≡ some st
    → Declared steps st
find_step-Declared name steps st e =
    subst (λ n. find_step n steps ≡ some st) (sym (find_step_name name steps st e)) e

name_step-Permuted :
    (steps : List Step) (toks : List Bytes) (o : Option Step) (t : Bytes)
    (r : Result Bytes (List Step × List Bytes))
    → ((st : Step) → o ≡ some st → Declared steps st)
    → Permuted steps toks r
    → Permuted steps (t ∷ toks) (name_step o t r)
name_step-Permuted steps toks none t r h q = unknown
name_step-Permuted steps toks (some st) t (err e) h q = unknown
name_step-Permuted steps toks (some st) t (ok (perm, left)) h (named ps few) =
    named (h st refl, ps) (omega arith)

read_permutation-Permuted :
    (steps : List Step) (toks : List Bytes) → Permuted steps toks (read_permutation steps toks)
unfolding read_permutation
read_permutation-Permuted steps [] = named tt (omega arith)
read_permutation-Permuted steps (t ∷ toks) = elim (Bool-cases (equal t newline)) [
  | inl line ↦ rw (line, read_permutation) (named tt (omega arith))
  | inr other ↦
      rw (other, read_permutation)
        (name_step-Permuted steps toks (find_step t steps) t (read_permutation steps toks)
          (find_step-Declared t steps) (read_permutation-Permuted steps toks))
]

add_permutation-Fine :
    (toks : List Bytes) (p : Parsing) → Good p → Fine toks (add_permutation toks p)
unfolding add_permutation
add_permutation-Fine toks p g =
    go (read_permutation p.spec.steps toks) refl (read_permutation-Permuted p.spec.steps toks)
  where
    go :
        (r : Result Bytes (List Step × List Bytes))
        → read_permutation p.spec.steps toks ≡ r
        → Permuted p.spec.steps toks r
        → Fine toks (add_permutation toks p)
    go (err e) q unknown = rw (q, add_permutation) refused
    go (ok (perm, left)) q (named ps few) =
        rw (q, add_permutation)
          (moved
            (record {
              well = record {
                in_order = g.well.in_order;
                unique = g.well.unique;
                owned = g.well.owned;
                declared = All-append _ p.spec.permutations (perm ∷ []) g.well.declared (ps, tt);
              };
              current = g.current;
            })
            few)

if-Fine :
    {toks : List Bytes} {x y : After} (b : Bool)
    → Fine toks x
    → Fine toks y
    → Fine toks (if b then x else y)
if-Fine true h k = h
if-Fine false h k = k

module _ (quote : Bytes → Bytes) where
  pub handle-Fine :
      (t : Bytes) (toks : List Bytes) (p : Parsing) → Good p → Fine toks (handle quote t toks p)
  unfolding handle
  handle-Fine t toks p g = if-Fine (equal t newline) (moved g (omega arith)) (
      if-Fine (equal t (codes "setup") || equal t (codes "teardown")) (declare_sql-Fine t toks p g)
        (if-Fine (equal t (codes "session")) (open_session-Fine toks p g) (
          if-Fine (equal t (codes "step")) (declare_step-Fine p.cur toks p refl g)
            (if-Fine (equal t (codes "permutation")) (add_permutation-Fine toks p g) refused))))
