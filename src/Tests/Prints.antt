-- ===== src/Tests/Prints.antt =====
-- A specification with two sessions, as text, read back and played.
use build_postgres.Prelude.{
  ℕ, suc, ◌≡◌, refl, Bool, true, none, some, [], ◌∷◌, ◌++◌, All, ◌==◌, ◌&&◌, ltb, false, length,
}
use build_postgres.Prelude.Text.{Bytes, codes, trim_space, join}
use build_postgres.Prelude.Decimal.{itoa}
use build_postgres.Prelude.Result.{ok}
use build_postgres.Isolation.Spec.{Step, Spec, parse, find_step}
use build_postgres.Isolation.Spec.Shape.{WellFormed}
use build_postgres.Isolation.Spec.Text.{Printable, Sql}
use build_postgres.Isolation.Schedule.{schedule}
use build_postgres.Isolation.Play.{Answer, replied, stuck, Host, step_text, run, test, test}
use build_postgres.Isolation.Spec.RoundTrip.{print, lines_of, parse-print}

-- %q on a text without characters to escape.
abbrev quote : Bytes → Bytes
quote t = 34 ∷ (t ++ 34 ∷ [])

abbrev x : Step
x = record { name = codes "x"; sql = codes "S"; session = 0 }

abbrev y : Step
y = record { name = codes "y"; sql = codes "C"; session = 1 }

abbrev two_sessions : Spec
two_sessions = record {
  setup = [];
  teardown = codes "D";
  sessions =
      record { name = codes "a"; setup = codes "B"; teardown = []; steps = x ∷ [] }
      ∷ record { name = codes "b"; setup = []; teardown = []; steps = y ∷ [] }
      ∷ [];
  steps = x ∷ y ∷ [];
  permutations = (y ∷ x ∷ y ∷ []) ∷ [] ∷ [];
}

two_printed :
    print two_sessions
    ≡ codes "setup {}\nteardown {D}\nsession a\nsetup {B}\nteardown {}\nstep x {S}\n"
      ++ codes "session b\nsetup {}\nteardown {}\nstep y {C}\npermutation y x y\npermutation\n"
unfolding print
two_printed = refl

two-WellFormed : WellFormed two_sessions
unfolding find_step
two-WellFormed = record {
  in_order = refl;
  unique = (refl, (refl, tt));
  owned = ((refl, tt), ((refl, tt), tt));
  declared = ((refl, (refl, (refl, tt))), (tt, tt));
}

no_text : Sql []
unfolding trim_space
no_text = record { trimmed = refl; open_ended = tt }

letter : (c : Bytes) → trim_space c ≡ c → All (λ d. (d == b'}') ≡ false) c → Sql c
letter c t o = record { trimmed = t; open_ended = o }

two-Printable : All Printable (lines_of two_sessions)
unfolding lines_of trim_space
two-Printable = (
  no_text,
  (
    letter (codes "D") refl (refl, tt),
    (
      (refl, tt),
      (
        letter (codes "B") refl (refl, tt),
        (
          no_text,
          (
            ((refl, tt), letter (codes "S") refl (refl, tt)),
            (
              (refl, tt),
              (
                no_text,
                (
                  no_text,
                  (
                    ((refl, tt), letter (codes "C") refl (refl, tt)),
                    (((refl, tt), ((refl, tt), ((refl, tt), tt))), (tt, tt)),
                  ),
                ),
              ),
            ),
          ),
        ),
      ),
    ),
  ),
)

parse-print_example : parse quote (print two_sessions) ≡ some (ok two_sessions)
parse-print_example =
    parse-print quote two_sessions (λ e. cc) (λ e. cc) two-WellFormed two-Printable

-- Connections and channels are numbered from 1 on; the session b, with the connection 3, is blocked until the
-- counter is at 6.
abbrev blocked_look : Bool → ℕ → ℕ × Answer
blocked_look true s = (s, stuck)
blocked_look false s = (s, replied [] none)

abbrev host : Host ℕ
host = record {
  open_cluster = λ s. (s, none);
  connect = λ s. (suc s, ok s);
  exec = λ s c sql. (s, none);
  close = λ s c. s;
  close_cluster = λ s. s;
  begin = λ s c sql. (suc s, s);
  look = λ s c channel. blocked_look (c == 3 && ltb s 6) s;
  receive = λ s c channel. some (s, [], none);
}

-- utf8.RuneCountInString on ASCII text.
abbrev width : Bytes → ℕ
width s = length s

played :
    run width host 1 two_sessions 1
    ≡ some (
        ok (
          codes "Parsed test spec with 2 sessions\n\nstarting permutation: y x y\n"
          ++ codes "step y: C <waiting ...>\nstep x: S\nstep y: <... completed>\nstep y: C\n"
          ++ codes "\nstarting permutation: \n"))
unfolding run schedule step_text itoa join
played = refl
