-- ===== src/Tests/Sessions.antt =====
-- A session that keeps the statements that it is given, and a Split that knows no strings or comments.
use build_postgres.Prelude.{
  ◌<◌, ◌≡◌, refl, ap, inl, inr, true, false, Option, none, some, List, [], ◌∷◌, ◌++◌, arith, ◌==◌,
  if◌then◌else◌, Bool-cases, Option-cases, length, All,
}
use build_postgres.Prelude.Text.{Bytes, codes, has_prefix, trim_space, skip}
use mathlib.Core.Option
use build_postgres.Prelude.Text.{trim_left}
use build_postgres.Tests.Blanks.{trim_space-nil, skip_plain, skip-append}
use build_postgres.Prelude.Result.{Result}
use build_postgres.Session.{Session, SplitLaws, ExecError}
use build_postgres.Pgdb.Repl.{Shell, repl}
use build_postgres.Pgdb.Repl.Order.{NoCommand}

-- Up to and with the first semicolon.
cut : Bytes → Option (Bytes × Bytes)
cut [] = none
cut (c ∷ s) =
    let rest = cut s in
    if c == b';' then some (c ∷ [], s) else Option.map (λ x. (c ∷ x.0, x.1)) rest

unfoldable pub split : Bytes → Option (Bytes × Bytes)
unfolding cut skip
split s = Option.map (λ x. (trim_left x.0, x.1)) (cut s)

cut_shorter : (s stmt rest : Bytes) → cut s ≡ some (stmt, rest) → length rest < length s
unfolding cut
cut_shorter [] stmt rest e = cc
cut_shorter (c ∷ s) stmt rest e = elim (Bool-cases (c == b';')) [
  | inl semi ↦ let q : s ≡ rest = ground arith in let l = ap length q in omega (arith, l)
  | inr other ↦ elim (Option-cases (cut s)) [
    | inl q ↦ absurd (ground arith)
    | inr ((x, y), q) ↦
        let k = cut_shorter s x y q in
        let r : y ≡ rest = ground arith in let l = ap length r in omega (arith, k, l)
  ]
]

split_shorter : (s stmt rest : Bytes) → split s ≡ some (stmt, rest) → length rest < length s
unfolding split
split_shorter s stmt rest e = elim (Option-cases (cut s)) [
  | inl q ↦ absurd (ground arith)
  | inr ((x, y), q) ↦
      let k = cut_shorter s x y q in
      let r : y ≡ rest = ground arith in let l = ap length r in omega (arith, k, l)
]

cut-append :
    (s stmt rest more : Bytes)
    → cut s ≡ some (stmt, rest)
    → cut (s ++ more) ≡ some (stmt, rest ++ more)
unfolding cut
cut-append [] stmt rest more e = cc
cut-append (c ∷ s) stmt rest more e = elim (Bool-cases (c == b';')) [
  | inl semi ↦ ground arith
  | inr other ↦ elim (Option-cases (cut s)) [
    | inl q ↦ absurd (ground arith)
    | inr ((x, y), q) ↦ let k = cut-append s x y more q in ground arith
  ]
]

split-append :
    (s stmt rest more : Bytes)
    → split s ≡ some (stmt, rest)
    → split (s ++ more) ≡ some (stmt, rest ++ more)
unfolding split
split-append s stmt rest more e = elim (Option-cases (cut s)) [
  | inl q ↦ absurd (ground arith)
  | inr ((x, y), q) ↦ let k = cut-append s x y more q in ground arith
]

cut_past :
    (s t : Bytes)
    → All (λ c. (c == b';') ≡ false) s
    → cut (s ++ t) ≡ Option.map (λ x. (s ++ x.0, x.1)) (cut t)
unfolding cut
cut_past [] t h = elim (Option-cases (cut t)) [ inl q ↦ rw q refl | inr (x, q) ↦ rw q refl ]
cut_past (c ∷ s) t (h, hs) =
    rw (h, cut_past s t hs)
      (elim (Option-cases (cut t)) [ inl q ↦ rw q refl | inr (x, q) ↦ rw q refl ])

split_blank : (s t : Bytes) → trim_space s ≡ [] → split (s ++ t) ≡ split t
unfolding split
split_blank s t e =
    let k = trim_space-nil s e in
    elim (Option-cases (cut t)) [
      | inl q ↦ rw (cut_past s t (skip_plain s k), q) refl
      | inr ((x, y), q) ↦
          rw (cut_past s t (skip_plain s k), q)
            (ap (λ u. some (u, y)) (skip-append 0 s x k (omega arith)))
    ]

pub laws : SplitLaws split
laws = record {
  split_shorter = split_shorter;
  split-append = split-append;
  split_blank = split_blank;
}

abbrev pub diary : Session
diary = record {
  State = List Bytes;
  exec = λ s stmt. (stmt ∷ s, [], none);
  tables = λ s. (s, Result.err (ExecError.other_error []));
  describe = λ s name. (s, Result.err (ExecError.other_error name));
  split = split;
  render = λ r. r.tag;
  report = λ e. e.msg;
}

-- A statement over two lines, and two on a line, the second not finished.
abbrev pub script : List Bytes
script = codes "select" ∷ codes "1; select 2; sel" ∷ codes "ect 3;" ∷ []

abbrev fresh : Shell (List Bytes)
fresh = record { session = []; out = []; err_out = [] }

pub script_plain : All NoCommand script
unfolding has_prefix trim_space
script_plain = (refl, (refl, (refl, tt)))

-- A command ends the shell before the statement behind it.
quit_ends :
    repl diary true none (codes "a;" ∷ codes " \\q" ∷ codes "b;" ∷ []) [] fresh
    ≡ some (record { session = codes "a;" ∷ []; out = codes "pgdb=# pgdb=# "; err_out = [] }, none)
unfolding repl split
quit_ends = refl
