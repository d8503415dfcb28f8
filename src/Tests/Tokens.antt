-- ===== src/Tests/Tokens.antt =====
-- A lexer of tokens of one byte.
use build_postgres.Storage.Heap.{tm_string, tm_updated}
use build_postgres.Storage.Txn.{status_string}
use build_postgres.Storage.Verdicts.{tm_string_injective}
use build_postgres.Prelude.{
  ◌+◌, ◌≤◌, ◌<◌, ◌≡◌, refl, inl, inr, false, none, some, List, [], arith, ltb, if◌then◌else◌,
  ltb→lt, Bool-cases, length,
}
use build_postgres.Prelude.Text.{codes}
use build_postgres.Prelude.Decimal.{itoa, itoa_int}
use build_postgres.Prelude.Int.{pos, negsuc}
use build_postgres.Prelude.Int.{equal_int}
use build_postgres.Prelude.Result.{Result, ok}
use build_postgres.Lexer.{
  Token, Error, Lexer, Scanner, ScannerLaws, Kind, eof, ident, star, tokenize, kind_string,
  unknown_kind,
}
use build_postgres.Lexer.Tokens.{Outcome, tokenize_total}
use build_postgres.Lexer.Kinds.{kind_string_injective}

abbrev token : Kind → Lexer → Token
token k l = record {
  kind = k;
  text = [];
  loc = record { offset = l.off; line = l.line; column = l.col };
}

next : Lexer → Lexer × Result Error Token
next l =
    if ltb l.off (length l.src)
    then (record l { off = l.off + 1; col = l.col + 1 }, ok (token ident l))
    else (l, ok (token eof l))

abbrev letters : Scanner
letters = record {
  new = λ src. record { src = src; off = 0; line = 1; col = 1; failed = none };
  next = next;
}

next_advances :
    (l : Lexer) (t : Token)
    → (next l).1 ≡ ok t
    → equal_int t.kind eof ≡ false
    → ((next l).0.src ≡ l.src) × (l.off < (next l).0.off) × ((next l).0.off ≤ length l.src)
unfolding next
next_advances l t e k = elim (Bool-cases (ltb l.off (length l.src))) [
  | inl more ↦ rw more (refl, omega arith, omega (arith, ltb→lt l.off (length l.src) more))
  | inr done ↦ absurd (ground arith)
]

letters_laws : ScannerLaws letters
letters_laws = record { new_start = λ src. (refl, refl); next_advances = next_advances }

tokenize_total_example :
    (r : Result Error (List Token)) × (tokenize letters (codes "ab") ≡ some r)
    × Outcome letters (letters.new (codes "ab")) [] r
tokenize_total_example = tokenize_total letters letters_laws (codes "ab")

kind_string_injective_example : star ≡ star
kind_string_injective_example = kind_string_injective star star refl

kind_string_runs :
    (kind_string star ≡ codes "*")
    × (kind_string (pos 20) ≡ codes "Kind(20)")
    × (kind_string (negsuc 0) ≡ codes "Kind(-1)")
unfolding kind_string unknown_kind itoa_int
kind_string_runs = (refl, refl, refl)

tm_string_injective_example : tm_updated ≡ tm_updated
tm_string_injective_example = tm_string_injective tm_updated tm_updated refl

-- Texts of values with and without a name.
verdicts_run :
    (tm_string tm_updated ≡ codes "updated")
    × (tm_string (negsuc 1) ≡ codes "TM(-2)")
    × (status_string 3 ≡ codes "Status(3)")
unfolding tm_string status_string itoa_int itoa
verdicts_run = (refl, refl, refl)
