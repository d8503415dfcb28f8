-- ===== src/Isolation/Spec/Order.antt =====
-- internal/isolation/isolation_test.go: what runs without a permutation.
use build_postgres.Prelude.{
  ℕ, zero, suc, ◌≤◌, ◌≡◌, refl, sym, ap, ◌∙◌, Bool, true, false, Option, none, some, List, [], ◌∷◌,
  arith, Bool-cases, length, All, inl, inr, subst, ◌||◌, if◌then◌else◌, Option-cases,
}
use build_postgres.Prelude.Text.{Bytes, codes, equal, newline}
use build_postgres.Prelude.Result.{Result, ok, err, Result-cases}
use build_postgres.Isolation.Scan.{tokens}
use build_postgres.Isolation.Spec.{
  Step, Spec, Parsing, After, handle, read, complete, start, parse_tokens, parse, SessionSpec,
  complete_from, go_on, complete_read, find_step, block, assign, declare_sql, open_session,
  add_step, declare_step,
}
use build_postgres.Isolation.Spec.Shape.{WellFormed, Good, steps_of}
use build_postgres.Isolation.Spec.Keep.{Fine, handle-Fine}
use build_postgres.Isolation.Spec.Total.{start-Good}

abbrev pub NoPermutation : Bytes → Type 0
NoPermutation t = equal t (codes "permutation") ≡ false

-- What a case leaves where no permutation is declared.
data Plain (p : Parsing) : After → Type 0 where
  refused : {e : Bytes} → Plain p (err e)
  moved :
      {q : Parsing} {rest : List Bytes}
      → q.spec.permutations ≡ p.spec.permutations
      → All NoPermutation rest
      → Plain p (ok (q, rest))

block_All :
    (last : Bytes) (toks : List Bytes) (sql : Bytes) (rest : List Bytes)
    → block last toks ≡ ok (sql, rest)
    → All NoPermutation toks
    → All NoPermutation rest
unfolding block
block_All last [] sql rest e h = cc
block_All last (t ∷ toks) sql rest e (h, hs) = elim (Bool-cases (equal t newline)) [
  | inl line ↦ block_All t toks sql rest (ground arith) hs
  | inr other ↦ let same : toks ≡ rest = ground arith in subst (λ x. All NoPermutation x) same hs
]

assign_permutations :
    (setup : Bool) (sql : Bytes) (cur : Option ℕ) (sp : Spec)
    → (assign setup sql cur sp).permutations ≡ sp.permutations
unfolding assign
assign_permutations true sql none sp = refl
assign_permutations false sql none sp = refl
assign_permutations setup sql (some i) sp = refl

declare_sql-Plain :
    (t : Bytes) (toks : List Bytes) (p : Parsing)
    → All NoPermutation toks
    → Plain p (declare_sql t toks p)
unfolding declare_sql
declare_sql-Plain t toks p h = elim (Result-cases (block t toks)) [
  | inl (e, q) ↦ rw (q, declare_sql) refused
  | inr ((sql, rest), q) ↦
      rw (q, declare_sql)
        (moved (assign_permutations (equal t (codes "setup")) sql p.cur p.spec)
          (block_All t toks sql rest q h))
]

open_session-Plain :
    (toks : List Bytes) (p : Parsing) → All NoPermutation toks → Plain p (open_session toks p)
unfolding open_session
open_session-Plain [] p h = refused
open_session-Plain (name ∷ toks) p (h, hs) = moved refl hs

add_step-Plain :
    (i : ℕ) (st : Step) (toks : List Bytes) (p : Parsing)
    → All NoPermutation toks
    → Plain p (add_step i st toks p)
unfolding add_step
add_step-Plain i st toks p h = elim (Option-cases (find_step st.name p.spec.steps)) [
  | inr (dup, q) ↦ rw (q, add_step) refused
  | inl q ↦ rw (q, add_step) (moved refl h)
]

declare_step-Plain :
    (cur : Option ℕ) (toks : List Bytes) (p : Parsing)
    → All NoPermutation toks
    → Plain p (declare_step cur toks p)
unfolding declare_step
declare_step-Plain none toks p h = refused
declare_step-Plain (some i) [] p h = refused
declare_step-Plain (some i) (name ∷ toks) p (h, hs) = elim (Result-cases (block name toks)) [
  | inl (e, q) ↦ rw (q, declare_step) refused
  | inr ((sql, rest), q) ↦
      rw (q, declare_step)
        (add_step-Plain i (record { name = name; sql = sql; session = i }) rest p
          (block_All name toks sql rest q hs))
]

if-Plain :
    {p : Parsing} {x y : After} (b : Bool) → Plain p x → Plain p y → Plain p (if b then x else y)
if-Plain true h k = h
if-Plain false h k = k

-- What parse returns where no permutation is declared.
pub data InOrder : Result Bytes Spec → Type 0 where
  rejected : {e : Bytes} → InOrder (err e)
  in_order : {sp : Spec} → sp.permutations ≡ sp.steps ∷ [] → InOrder (ok sp)

data Read : Result Bytes Parsing → Type 0 where
  stopped : {e : Bytes} → Read (err e)
  finished : {p : Parsing} → Good p → p.spec.permutations ≡ [] → Read (ok p)

complete-InOrder :
    (ss : List SessionSpec) (perms : List (List Step)) (sp : Spec)
    → sp.sessions ≡ ss
    → perms ≡ []
    → WellFormed sp
    → InOrder (complete_from ss perms sp)
complete-InOrder [] perms sp e f w = rejected
complete-InOrder (s ∷ ss) [] sp e f w =
    in_order (ap (λ x. x ∷ []) (ap steps_of (sym e) ∙ w.in_order))
complete-InOrder (s ∷ ss) (perm ∷ perms) sp e f w = cc

module _ (quote : Bytes → Bytes) where
  handle-Plain :
      (t : Bytes) (toks : List Bytes) (p : Parsing)
      → NoPermutation t
      → All NoPermutation toks
      → Plain p (handle quote t toks p)
  unfolding handle
  handle-Plain t toks p n h = if-Plain (equal t newline) (moved refl h) (
      if-Plain (equal t (codes "setup") || equal t (codes "teardown"))
        (declare_sql-Plain t toks p h)
        (if-Plain (equal t (codes "session")) (open_session-Plain toks p h)
          (if-Plain (equal t (codes "step")) (declare_step-Plain p.cur toks p h) (rw n refused))))

  go_on-Read :
      (next : List Bytes → Parsing → Option (Result Bytes Parsing)) (p : Parsing)
      (toks : List Bytes) (a : After)
      → Fine toks a
      → Plain p a
      → p.spec.permutations ≡ []
      → ((rest : List Bytes) (q : Parsing)
          → length rest ≤ length toks
          → Good q
          → q.spec.permutations ≡ []
          → All NoPermutation rest
          → (r : Result Bytes Parsing) × (next rest q ≡ some r) × Read r)
      → (r : Result Bytes Parsing) × (go_on next a ≡ some r) × Read r
  go_on-Read next p toks (err e) f q n h = (err e, refl, stopped)
  go_on-Read next p toks (ok (q, rest)) (Fine.moved g few) (moved same plain) n h =
      h rest q few g (same ∙ n) plain

  read-Read :
      (f : ℕ) (toks : List Bytes) (p : Parsing)
      → Good p
      → p.spec.permutations ≡ []
      → All NoPermutation toks
      → length toks ≤ f
      → (r : Result Bytes Parsing) × (read quote f toks p ≡ some r) × Read r
  unfolding read
  read-Read f [] p g n h few = (ok p, refl, finished g n)
  read-Read zero (t ∷ toks) p g n h few = absurd (omega arith)
  read-Read (suc f) (t ∷ toks) p g n (h, hs) few =
      go_on-Read (λ rest q. read quote f rest q) p toks (handle quote t toks p)
        (handle-Fine quote t toks p g) (handle-Plain t toks p h hs) n
        (λ rest q less k m plain. read-Read f rest q k m plain (omega arith))

  complete_read-InOrder :
      (o : Option (Result Bytes Parsing)) (r : Result Bytes Parsing)
      → o ≡ some r
      → Read r
      → (s : Result Bytes Spec) × (complete_read o ≡ some s) × InOrder s
  unfolding complete
  complete_read-InOrder o (err x) e stopped = (err x, ap complete_read e, rejected)
  complete_read-InOrder o (ok q) e (finished g n) = (
    complete q.spec,
    ap complete_read e,
    complete-InOrder q.spec.sessions q.spec.permutations q.spec refl n g.well,
  )

  -- Where none of its tokens is the word permutation, parse ends with an error, or with a specification
  -- whose only permutation is every declared step once, in the order declared.
  pub default_permutation :
      (src : Bytes) (toks : List Bytes)
      → tokens src ≡ some (ok toks)
      → All NoPermutation toks
      → (r : Result Bytes Spec) × (parse quote src ≡ some r) × InOrder r
  unfolding parse parse_tokens
  default_permutation src toks e h =
      let (r, run, k) = read-Read (length toks) toks start start-Good refl h (omega arith) in
      let (s, done, d) = complete_read-InOrder (read quote (length toks) toks start) r run k in
      (s, rw e done, d)
