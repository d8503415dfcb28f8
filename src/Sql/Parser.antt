-- ===== src/Sql/Parser.antt =====
-- internal/sql/parser/parser.go: errors, type names, binding powers and the nesting limit.
use build_postgres.Prelude.{ℕ, ◌⊎◌, Option, none, some, List, [], ◌∷◌, ◌++◌, if◌then◌else◌}
use build_postgres.Prelude.Text.{Bytes, codes, equal}
use build_postgres.Prelude.Result.{Result}
use build_postgres.Sql.Ast
use build_postgres.Prelude.Decimal.{itoa}
use build_postgres.Lexer.{Pos}
use build_postgres.Tuple.{int4, int8, bool, text}

pub data Sentinel : Type 0 where
  syntax unknown_type stack_depth : Sentinel

unfoldable pub message : Sentinel → Bytes
message syntax = codes "syntax error"
message unknown_type = codes "type does not exist"
message stack_depth = codes "stack depth limit exceeded"

abbrev pub max_expr_depth : ℕ
max_expr_depth = 1000

-- The struct Error.
pub record Error : Type 0 where
  pub at : Pos
  pub cause : Sentinel
  pub expected : Bytes
  pub found : Bytes

abbrev place : Error → Bytes
place e =
    message e.cause ++ codes " at line " ++ itoa e.at.line ++ codes ", column " ++ itoa e.at.column

-- Error.Unwrap
unfoldable pub unwrap : Error → Sentinel
unwrap e = e.cause

-- Error.Error
unfoldable pub error_text : Error → Bytes
unfolding message equal
error_text e =
    if equal e.expected []
    then place e
    else place e ++ codes ": expected " ++ e.expected ++ codes ", found " ++ e.found

-- typeNames
abbrev pub type_names : List (Bytes × ℕ)
type_names =
    (codes "int4", int4)
    ∷ (codes "int", int4)
    ∷ (codes "integer", int4)
    ∷ (codes "int8", int8)
    ∷ (codes "bigint", int8)
    ∷ (codes "bool", bool)
    ∷ (codes "boolean", bool)
    ∷ (codes "text", text)
    ∷ []

-- typeNames[name]
unfoldable pub find_type : Bytes → List (Bytes × ℕ) → Option ℕ
unfolding equal
find_type name [] = none
find_type name ((n, typ) ∷ names) = if equal n name then some typ else find_type name names

-- Binding powers, lowest first.
abbrev pub prec_or : ℕ
prec_or = 1

abbrev pub prec_and : ℕ
prec_and = 2

abbrev pub prec_not : ℕ
prec_not = 3

abbrev pub prec_is : ℕ
prec_is = 4

abbrev pub prec_cmp : ℕ
prec_cmp = 5

abbrev pub prec_add : ℕ
prec_add = 6

abbrev pub prec_mul : ℕ
prec_mul = 7

abbrev pub prec_neg : ℕ
prec_neg = 8

-- Parse and ParseExpr; an error is the parser's, or the lexer's unchanged.
pub record ParserOps (LexError : Type 0) : Type 0 where
  pub parse : Bytes → Result (Error ⊎ LexError) (List Ast.Stmt)
  pub parse_expr : Bytes → Result (Error ⊎ LexError) Ast.Expr
