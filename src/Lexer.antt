-- ===== src/Lexer.antt =====
-- internal/sql/lexer/lexer.go: the kinds of token and their names, the reserved words, lexical
-- errors, and Tokenize. Next, whose body is an exercise of the repository, is a field of `Scanner`;
-- `ScannerLaws` states what its comment promises.
pub mod Kinds
pub mod Keywords
pub mod Tokens
use build_postgres.Prelude.{
  ℕ, zero, suc, ◌≤◌, ◌<◌, ◌≡◌, false, Option, none, some, List, [], ◌∷◌, ◌++◌, leb, if◌then◌else◌,
  length, get_or,
}
use build_postgres.Prelude.Text.{Bytes, codes}
use build_postgres.Prelude.Decimal.{itoa, itoa_int}
use build_postgres.Prelude.Int.{ℤ, pos, negsuc}
use build_postgres.Prelude.Int.{equal_int}
use build_postgres.Prelude.Result.{Result, ok, err}

-- A Go int with named values.
abbrev pub Kind : Type 0
Kind = ℤ

abbrev pub eof : Kind
eof = pos 0

abbrev pub ident : Kind
ident = pos 1

abbrev pub keyword : Kind
keyword = pos 2

abbrev pub integer : Kind
integer = pos 3

abbrev pub string : Kind
string = pos 4

abbrev pub eq : Kind
eq = pos 5

abbrev pub ne : Kind
ne = pos 6

abbrev pub lt : Kind
lt = pos 7

abbrev pub le : Kind
le = pos 8

abbrev pub gt : Kind
gt = pos 9

abbrev pub ge : Kind
ge = pos 10

abbrev pub plus : Kind
plus = pos 11

abbrev pub minus : Kind
minus = pos 12

abbrev pub star : Kind
star = pos 13

abbrev pub slash : Kind
slash = pos 14

abbrev pub l_paren : Kind
l_paren = pos 15

abbrev pub r_paren : Kind
r_paren = pos 16

abbrev pub comma : Kind
comma = pos 17

abbrev pub semicolon : Kind
semicolon = pos 18

abbrev pub dot : Kind
dot = pos 19

-- The array kindNames, in the order of the constants.
abbrev pub kind_names : List Bytes
kind_names =
    codes "end of input"
    ∷ codes "identifier"
    ∷ codes "keyword"
    ∷ codes "integer"
    ∷ codes "string"
    ∷ codes "="
    ∷ codes "<>"
    ∷ codes "<"
    ∷ codes "<="
    ∷ codes ">"
    ∷ codes ">="
    ∷ codes "+"
    ∷ codes "-"
    ∷ codes "*"
    ∷ codes "/"
    ∷ codes "("
    ∷ codes ")"
    ∷ codes ","
    ∷ codes ";"
    ∷ codes "."
    ∷ []

-- fmt.Sprintf("Kind(%d)", int(k))
unfoldable pub unknown_kind : Kind → Bytes
unknown_kind k = codes "Kind(" ++ itoa_int k ++ codes ")"

-- Kind.String
unfoldable pub kind_string : Kind → Bytes
kind_string (negsuc n) = unknown_kind (negsuc n)
kind_string (pos n) =
    if leb (length kind_names) n then unknown_kind (pos n) else get_or kind_names n []

pub record Pos : Type 0 where
  pub offset : ℕ
  pub line : ℕ
  pub column : ℕ

pub record Token : Type 0 where
  pub kind : Kind
  pub text : Bytes
  pub loc : Pos

pub data Sentinel : Type 0 where
  unterminated_string unterminated_ident unterminated_comment : Sentinel
  empty_ident trailing_junk bad_char : Sentinel

unfoldable pub message : Sentinel → Bytes
message unterminated_string = codes "unterminated quoted string"
message unterminated_ident = codes "unterminated quoted identifier"
message unterminated_comment = codes "unterminated /* comment"
message empty_ident = codes "zero-length delimited identifier"
message trailing_junk = codes "trailing junk after numeric literal"
message bad_char = codes "unexpected character"

-- The struct Error; Unwrap is its field `cause`.
pub record Error : Type 0 where
  pub at : Pos
  pub cause : Sentinel

-- Error.Error
unfoldable pub error_text : Error → Bytes
unfolding message
error_text e =
    message e.cause ++ codes " at line " ++ itoa e.at.line ++ codes ", column " ++ itoa e.at.column

-- The struct Lexer. Its field err is the error that Next goes on returning.
pub record Lexer : Type 0 where
  pub src : Bytes
  pub off : ℕ
  pub line : ℕ
  pub col : ℕ
  pub failed : Option Error

-- The functions New and Next.
pub record Scanner : Type 0 where
  pub new : Bytes → Lexer
  pub next : Lexer → Lexer × Result Error Token

-- A lexer starts at the start of its source, and a token other than EOF takes at least one byte of
-- the source, which it leaves as it is.
pub record ScannerLaws (s : Scanner) : Type 0 where
  pub new_start : (src : Bytes) → ((s.new src).src ≡ src) × ((s.new src).off ≡ 0)
  pub next_advances :
      (l : Lexer) (t : Token)
      → (s.next l).1 ≡ ok t
      → equal_int t.kind eof ≡ false
      → ((s.next l).0.src ≡ l.src) × (l.off < (s.next l).0.off) × ((s.next l).0.off ≤ length l.src)

module _ (s : Scanner) where
  -- The loop of Tokenize; none means that the fuel ran out.
  unfoldable pub collect : ℕ → Lexer → List Token → Option (Result Error (List Token))
  collect zero l toks = none
  collect (suc f) l toks = elim (s.next l).1 [
    | err e ↦ some (err e)
    | ok t ↦
        let more = collect f (s.next l).0 (toks ++ t ∷ []) in
        if equal_int t.kind eof then some (ok (toks ++ t ∷ [])) else more
  ]

  -- Tokenize
  unfoldable pub tokenize : Bytes → Option (Result Error (List Token))
  unfolding collect
  tokenize src = collect (suc (length src)) (s.new src) []
