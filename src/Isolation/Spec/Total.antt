-- ===== src/Isolation/Spec/Total.antt =====
-- internal/isolation/isolation_test.go: parse ends, and what it accepts is well formed.
use build_postgres.Prelude.{
  ℕ, zero, suc, ◌≤◌, ◌≡◌, refl, sym, ap, ◌∙◌, ◌≢◌, Option, none, some, List, [], ◌∷◌, arith, length,
  All, subst,
}
use build_postgres.Prelude.Text.{Bytes}
use build_postgres.Prelude.Result.{Result, ok, err}
use build_postgres.Isolation.Scan.{tokens}
use build_postgres.Isolation.Scan.Words.{tokens_total}
use build_postgres.Isolation.Spec.{
  Step, Spec, Parsing, After, handle, read, complete, start, parse_tokens, parse, SessionSpec,
  complete_from, go_on, complete_read,
}
use build_postgres.Isolation.Spec.Shape.{
  WellFormed, Good, outside, Unique-Declared, steps_of, Declared,
}
use build_postgres.Isolation.Spec.Keep.{Fine, refused, moved, handle-Fine}

-- What the loop leaves.
data Read : Result Bytes Parsing → Type 0 where
  stopped : {e : Bytes} → Read (err e)
  finished : {p : Parsing} → Good p → Read (ok p)

abbrev Reads : Option (Result Bytes Parsing) → Type 0
Reads o = (r : Result Bytes Parsing) × (o ≡ some r) × Read r

-- What parse returns: an error, or a specification that has sessions and permutations and is well formed.
pub data Parsed : Result Bytes Spec → Type 0 where
  rejected : {e : Bytes} → Parsed (err e)
  accepted : {sp : Spec} → sp.sessions ≢ [] → sp.permutations ≢ [] → WellFormed sp → Parsed (ok sp)

pub start-Good : Good start
start-Good = record {
  well = record { in_order = refl; unique = tt; owned = tt; declared = tt };
  current = outside;
}

complete-Parsed :
    (ss : List SessionSpec) (perms : List (List Step)) (sp : Spec)
    → sp.sessions ≡ ss
    → sp.permutations ≡ perms
    → WellFormed sp
    → Parsed (complete_from ss perms sp)
complete-Parsed [] perms sp e f w = rejected
complete-Parsed (s ∷ ss) [] sp e f w =
    accepted (λ q. cc) (λ q. cc)
      (record {
        in_order = w.in_order;
        unique = w.unique;
        owned = w.owned;
        declared = (
          subst (λ xs. All (λ st. Declared sp.steps st) xs) (sym (ap steps_of (sym e) ∙ w.in_order))
              (Unique-Declared sp.steps w.unique),
          tt,
        );
      })
complete-Parsed (s ∷ ss) (perm ∷ perms) sp e f w = accepted (λ q. cc) (λ q. cc) w

go_on-total :
    (next : List Bytes → Parsing → Option (Result Bytes Parsing)) (toks : List Bytes) (a : After)
    → Fine toks a
    → ((rest : List Bytes) (q : Parsing) → length rest ≤ length toks → Good q → Reads (next rest q))
    → Reads (go_on next a)
go_on-total next toks (err e) refused h = (err e, refl, stopped)
go_on-total next toks (ok (q, rest)) (moved g few) h = h rest q few g

complete_read-total :
    (o : Option (Result Bytes Parsing))
    → Reads o
    → (r : Result Bytes Spec) × (complete_read o ≡ some r) × Parsed r
unfolding complete
complete_read-total none (r, e, q) = cc
complete_read-total (some (err x)) (r, e, q) = (err x, refl, rejected)
complete_read-total (some (ok p)) (r, e, stopped) = cc
complete_read-total (some (ok p)) (r, e, finished {p = q} g) = (
  complete q.spec,
  ap complete_read e,
  complete-Parsed q.spec.sessions q.spec.permutations q.spec refl refl g.well,
)

module _ (quote : Bytes → Bytes) where
  read_total :
      (f : ℕ) (toks : List Bytes) (p : Parsing)
      → Good p
      → length toks ≤ f
      → Reads (read quote f toks p)
  unfolding read
  read_total f [] p g h = (ok p, refl, finished g)
  read_total zero (t ∷ toks) p g h = absurd (omega arith)
  read_total (suc f) (t ∷ toks) p g h =
      go_on-total (λ rest q. read quote f rest q) toks (handle quote t toks p)
        (handle-Fine quote t toks p g) (λ rest q few k. read_total f rest q k (omega arith))

  parse_tokens_total :
      (o : Option (Result Bytes (List Bytes))) (r : Result Bytes (List Bytes))
      → o ≡ some r
      → (s : Result Bytes Spec) × (parse_tokens quote o ≡ some s) × Parsed s
  unfolding parse_tokens
  parse_tokens_total none r e = cc
  parse_tokens_total (some (err x)) r e = (err x, refl, rejected)
  parse_tokens_total (some (ok toks)) r e =
      complete_read-total (read quote (length toks) toks start)
        (read_total (length toks) toks start start-Good (omega arith))

  -- parse ends on every source. It returns an error or a specification with at least one session and one
  -- permutation, in which no two steps have a name in common, the steps of the sessions, one session behind
  -- the other, are the steps in the order declared, each step names the session that holds it, and each
  -- step of a permutation is a declared one.
  pub parse_total : (src : Bytes) → (r : Result Bytes Spec) × (parse quote src ≡ some r) × Parsed r
  unfolding parse
  parse_total src = let (r, e, s) = tokens_total src in parse_tokens_total (tokens src) r e
