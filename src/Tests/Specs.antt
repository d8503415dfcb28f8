-- ===== src/Tests/Specs.antt =====
-- Files that declare sessions, steps and permutations.
use build_postgres.Prelude.{◌≡◌, refl, some, List, [], ◌∷◌, ◌++◌, All}
use build_postgres.Prelude.Text.{Bytes, codes, equal, newline}
use build_postgres.Prelude.Result.{Result, ok, err}
use build_postgres.Isolation.Scan.{tokens}
use build_postgres.Isolation.Scan.Words.{Reads, tokens_total}
use build_postgres.Isolation.Spec.{Spec, Step, parse}
use build_postgres.Isolation.Spec.Total.{Parsed, parse_total}
use build_postgres.Isolation.Spec.Order.{NoPermutation, InOrder, default_permutation}

-- %q on a text without characters to escape.
abbrev quote : Bytes → Bytes
quote t = 34 ∷ (t ++ 34 ∷ [])

abbrev two_sessions : Bytes
two_sessions =
    codes "setup { CREATE }\nsession a # first\nstep x { SELECT }\nsession b\nstep y\n{ COMMIT }\n"

abbrev two_tokens : List Bytes
two_tokens =
    codes "setup"
    ∷ codes "{CREATE"
    ∷ newline
    ∷ codes "session"
    ∷ codes "a"
    ∷ newline
    ∷ codes "step"
    ∷ codes "x"
    ∷ codes "{SELECT"
    ∷ newline
    ∷ codes "session"
    ∷ codes "b"
    ∷ newline
    ∷ codes "step"
    ∷ codes "y"
    ∷ newline
    ∷ codes "{COMMIT"
    ∷ newline
    ∷ []

two_tokens_read : tokens two_sessions ≡ some (ok two_tokens)
unfolding tokens
two_tokens_read = refl

two_tokens_plain : All NoPermutation two_tokens
unfolding equal
two_tokens_plain = (
  refl,
  (
    refl,
    (
      refl,
      (
        refl,
        (
          refl,
          (
            refl,
            (
              refl,
              (
                refl,
                (refl, (refl, (refl, (refl, (refl, (refl, (refl, (refl, (refl, (refl, tt)))))))))),
              ),
            ),
          ),
        ),
      ),
    ),
  ),
)

tokens_total_example :
    (r : Result Bytes (List Bytes)) × (tokens two_sessions ≡ some r) × Reads two_sessions r
tokens_total_example = tokens_total two_sessions

parse_total_example : (r : Result Bytes Spec) × (parse quote two_sessions ≡ some r) × Parsed r
parse_total_example = parse_total quote two_sessions

default_permutation_example :
    (r : Result Bytes Spec) × (parse quote two_sessions ≡ some r) × InOrder r
default_permutation_example =
    default_permutation quote two_sessions two_tokens two_tokens_read two_tokens_plain

abbrev x : Step
x = record { name = codes "x"; sql = codes "SELECT"; session = 0 }

abbrev y : Step
y = record { name = codes "y"; sql = codes "COMMIT"; session = 1 }

two_parsed :
    parse quote two_sessions
    ≡ some (
        ok (record {
          setup = codes "CREATE";
          teardown = [];
          sessions =
              record { name = codes "a"; setup = []; teardown = []; steps = x ∷ [] }
              ∷ record { name = codes "b"; setup = []; teardown = []; steps = y ∷ [] }
              ∷ [];
          steps = x ∷ y ∷ [];
          permutations = (x ∷ y ∷ []) ∷ [];
        }))
unfolding parse tokens
two_parsed = refl

-- A permutation may repeat a step, but not name one that is not declared.
unknown_step :
    parse quote (codes "session a\nstep x { S }\npermutation x x z\n")
    ≡ some (err (codes "permutation names unknown step z"))
unfolding parse tokens
unknown_step = refl

unexpected_word : parse quote (codes "steps") ≡ some (err (codes "unexpected \"steps\""))
unfolding parse tokens
unexpected_word = refl

-- The name of a session is the token behind the word, and a newline is a token.
nameless :
    parse quote (codes "session\n")
    ≡ some (
        ok (record {
          setup = [];
          teardown = [];
          sessions = record { name = newline; setup = []; teardown = []; steps = [] } ∷ [];
          steps = [];
          permutations = [] ∷ [];
        }))
unfolding parse tokens
nameless = refl
