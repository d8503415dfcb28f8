-- ===== src/Isolation/Spec.antt =====
-- internal/isolation/isolation_test.go: parse. A pointer to a session is its position in the list of
-- sessions, and the map of steps the list of the steps in the order declared.
pub mod Shape
pub mod Keep
pub mod Total
pub mod Order
pub mod Text
pub mod Runs
pub mod RoundTrip
use build_postgres.Prelude.{
  ℕ, zero, suc, Bool, ◌||◌, Option, none, some, List, [], ◌∷◌, ◌++◌, if◌then◌else◌, length, drop,
  concat, map,
}
use build_postgres.Prelude.Text.{Bytes, codes, equal, has_prefix, newline}
use build_postgres.Prelude.Result.{Result, ok, err}
use build_postgres.Isolation.Scan.{tokens}

-- step; its session is the position of that session.
pub record Step : Type 0 where
  pub name : Bytes
  pub sql : Bytes
  pub session : ℕ

pub record SessionSpec : Type 0 where
  pub name : Bytes
  pub setup : Bytes
  pub teardown : Bytes
  pub steps : List Step

pub record Spec : Type 0 where
  pub setup : Bytes
  pub teardown : Bytes
  pub sessions : List SessionSpec
  pub steps : List Step
  pub permutations : List (List Step)

-- The variables of the loop; cur is nil or the position of a session.
pub record Parsing : Type 0 where
  pub spec : Spec
  pub cur : Option ℕ

-- What a case of the switch leaves: the variables and the tokens behind it.
abbrev pub After : Type 0
After = Result Bytes (Parsing × List Bytes)

-- sp.steps[name]
unfoldable pub find_step : Bytes → List Step → Option Step
unfolding equal
find_step name [] = none
find_step name (st ∷ steps) =
    let rest = find_step name steps in if equal st.name name then some st else rest

-- The session at a position is changed.
unfoldable pub change : ℕ → (SessionSpec → SessionSpec) → List SessionSpec → List SessionSpec
change i f [] = []
change zero f (s ∷ ss) = f s ∷ ss
change (suc i) f (s ∷ ss) = s ∷ change i f ss

-- block, on the token before the tokens that are left; with the tokens behind the block.
unfoldable pub block : Bytes → List Bytes → Result Bytes (Bytes × List Bytes)
unfolding equal has_prefix
block last [] = err (codes "expected { SQL } after " ++ last)
block last (t ∷ toks) =
    let rest = block t toks in
    if equal t newline
    then rest
    else if has_prefix t (codes "{")
    then ok (drop 1 t, toks)
    else err (codes "expected { SQL } after " ++ last)

-- sp.setup = sql, or the three assignments beside it.
unfoldable pub assign : Bool → Bytes → Option ℕ → Spec → Spec
unfolding change
assign setup sql none sp = if setup then record sp { setup = sql } else record sp { teardown = sql }
assign setup sql (some i) sp = record sp {
  sessions =
      change i (λ s. if setup then record s { setup = sql } else record s { teardown = sql })
        sp.sessions;
}

-- The case "setup", "teardown".
unfoldable pub declare_sql : Bytes → List Bytes → Parsing → After
unfolding block assign
declare_sql t toks p = elim (block t toks) [
  | err e ↦ err e
  | ok (sql, rest) ↦
      ok (record p { spec = assign (equal t (codes "setup")) sql p.cur p.spec }, rest)
]

-- The case "session".
unfoldable pub open_session : List Bytes → Parsing → After
open_session [] p = err (codes "session without a name")
open_session (name ∷ toks) p =
    let s : SessionSpec = record { name = name; setup = []; teardown = []; steps = [] } in
    ok (
      record {
        spec = record p.spec { sessions = p.spec.sessions ++ s ∷ [] };
        cur = some (length p.spec.sessions);
      },
      toks,
    )

-- A step of the session at i, if its name is new.
unfoldable pub add_step : ℕ → Step → List Bytes → Parsing → After
unfolding find_step change
add_step i st toks p = elim (find_step st.name p.spec.steps) [
  | some dup ↦ err (codes "step " ++ st.name ++ codes " declared twice")
  | none ↦ ok (
    record p {
      spec = record p.spec {
        steps = p.spec.steps ++ st ∷ [];
        sessions = change i (λ s. record s { steps = s.steps ++ st ∷ [] }) p.spec.sessions;
      };
    },
    toks,
  )
]

-- The case "step".
unfoldable pub declare_step : Option ℕ → List Bytes → Parsing → After
unfolding block add_step
declare_step none toks p = err (codes "step outside a session")
declare_step (some i) [] p = err (codes "step without a name")
declare_step (some i) (name ∷ toks) p = elim (block name toks) [
  | err e ↦ err e
  | ok (sql, rest) ↦ add_step i (record { name = name; sql = sql; session = i }) rest p
]

-- A step that a permutation names, before the steps that it names behind it.
abbrev pub name_step :
    Option Step
    → Bytes
    → Result Bytes (List Step × List Bytes)
    → Result Bytes (List Step × List Bytes)
name_step none t rest = err (codes "permutation names unknown step " ++ t)
name_step (some st) t (err e) = err e
name_step (some st) t (ok (perm, left)) = ok (st ∷ perm, left)

-- The loop of the case "permutation": its steps, and the tokens from the newline on.
unfoldable pub read_permutation : List Step → List Bytes → Result Bytes (List Step × List Bytes)
unfolding find_step equal
read_permutation steps [] = ok ([], [])
read_permutation steps (t ∷ toks) =
    let rest = read_permutation steps toks in
    if equal t newline then ok ([], t ∷ toks) else name_step (find_step t steps) t rest

-- The case "permutation".
unfoldable pub add_permutation : List Bytes → Parsing → After
unfolding read_permutation
add_permutation toks p = elim (read_permutation p.spec.steps toks) [
  | err e ↦ err e
  | ok (perm, rest) ↦
      ok (
        record p { spec = record p.spec { permutations = p.spec.permutations ++ perm ∷ [] } },
        rest,
      )
]

-- What follows the loop: sessions there must be, and without a permutation every step runs once.
abbrev pub complete_from : List SessionSpec → List (List Step) → Spec → Result Bytes Spec
complete_from [] perms sp = err (codes "no sessions")
complete_from (s ∷ ss) [] sp =
    ok (record sp { permutations = concat (map (λ x. x.steps) (s ∷ ss)) ∷ [] })
complete_from (s ∷ ss) (perm ∷ perms) sp = ok sp

unfoldable pub complete : Spec → Result Bytes Spec
complete sp = complete_from sp.sessions sp.permutations sp

-- Whether the loop goes on behind a case.
abbrev pub go_on :
    (List Bytes → Parsing → Option (Result Bytes Parsing)) → After → Option (Result Bytes Parsing)
go_on next (err e) = some (err e)
go_on next (ok (q, rest)) = next rest q

abbrev pub complete_read : Option (Result Bytes Parsing) → Option (Result Bytes Spec)
complete_read none = none
complete_read (some (err e)) = some (err e)
complete_read (some (ok p)) = some (complete p.spec)

abbrev pub start : Parsing
start = record {
  spec = record { setup = []; teardown = []; sessions = []; steps = []; permutations = [] };
  cur = none;
}

-- quote is the verb %q of fmt.
module _ (quote : Bytes → Bytes) where
  -- A round of the loop: the switch on a token, with the tokens behind it.
  unfoldable pub handle : Bytes → List Bytes → Parsing → After
  unfolding equal declare_sql open_session declare_step add_permutation
  handle t toks p =
      if equal t newline
      then ok (p, toks)
      else if equal t (codes "setup") || equal t (codes "teardown")
      then declare_sql t toks p
      else if equal t (codes "session")
      then open_session toks p
      else if equal t (codes "step")
      then declare_step p.cur toks p
      else if equal t (codes "permutation")
      then add_permutation toks p
      else err (codes "unexpected " ++ quote t)

  -- The loop; none means that the fuel ran out.
  unfoldable pub read : ℕ → List Bytes → Parsing → Option (Result Bytes Parsing)
  unfolding handle
  read f [] p = some (ok p)
  read zero (t ∷ toks) p = none
  read (suc f) (t ∷ toks) p = go_on (λ rest q. read f rest q) (handle t toks p)

  -- parse, on the result of tokens.
  unfoldable pub parse_tokens : Option (Result Bytes (List Bytes)) → Option (Result Bytes Spec)
  unfolding read complete
  parse_tokens none = none
  parse_tokens (some (err e)) = some (err e)
  parse_tokens (some (ok toks)) = complete_read (read (length toks) toks start)

  -- parse
  unfoldable pub parse : Bytes → Option (Result Bytes Spec)
  unfolding tokens parse_tokens
  parse src = parse_tokens (tokens src)
