-- ===== src/Sql/Query.antt =====
-- internal/sql/query/query.go: the bound statement tree, and the type of an expression.
use build_postgres.Prelude.{ℕ, Bool, true, false, Option, List}
use build_postgres.Prelude.Text.{Bytes}
use build_postgres.Prelude.Int.{ℤ}
use build_postgres.Tuple.{Desc, bool}
use build_postgres.Catalog.{RelationInfo}
use build_postgres.Sql.Ast.{BinOp, eq, ne, lt, le, gt, ge, add, sub, mul, div}

pub record RangeEntry : Type 0 where
  pub index : ℕ
  pub alias : Bytes
  pub rel : RelationInfo

pub record Var : Type 0 where
  pub rel : ℕ
  pub attr : ℕ
  pub typ : ℕ
  pub alias : Bytes
  pub column : Bytes

-- tuple.Datum: an int32, int64, bool or string.
pub data Datum : Type 0 where
  int32_value int64_value : ℤ → Datum
  bool_value : Bool → Datum
  string_value : Bytes → Datum

pub record Const : Type 0 where
  pub typ : ℕ
  pub value : Option Datum
  pub null : Bool

-- BoolOp
pub data BoolOp : Type 0 where
  and_op or_op not_op : BoolOp

-- Expr, and the list of expressions that a BoolExpr holds. The arguments of a constructor are the
-- fields of the struct.
mutual
  pub data Expr : Type 0 where
    var : Var → Expr
    const : Const → Expr
    op_expr : BinOp → ℕ → Expr → Expr → Expr
    bool_expr : BoolOp → Exprs → Expr
    neg : Expr → Expr
    null_test : Expr → Bool → Expr
    cast : Expr → ℕ → Expr

  pub data Exprs : Type 0 where
    nil : Exprs
    cons : Expr → Exprs → Exprs

-- The methods Type.
unfoldable pub type_of : Expr → ℕ
type_of (var e) = e.typ
type_of (const e) = e.typ
type_of (op_expr op typ left right) = typ
type_of (bool_expr op args) = bool
type_of (neg x) = type_of x
type_of (null_test x negated) = bool
type_of (cast x typ) = typ

pub record Target : Type 0 where
  pub name : Bytes
  pub expr : Expr

pub record SortKey : Type 0 where
  pub expr : Expr
  pub desc : Bool

pub record Select : Type 0 where
  pub range : List RangeEntry
  pub targets : List Target
  pub where_cond : Option Expr
  pub order_by : List SortKey
  pub limit : Option Expr

pub record Insert : Type 0 where
  pub rel : RangeEntry
  pub rows : List (List Expr)

pub record Assignment : Type 0 where
  pub attr : ℕ
  pub value : Expr

pub record Update : Type 0 where
  pub rel : RangeEntry
  pub assignments : List Assignment
  pub where_cond : Option Expr

pub record Delete : Type 0 where
  pub rel : RangeEntry
  pub where_cond : Option Expr

-- The primary key is -1 where there is none.
pub record CreateTable : Type 0 where
  pub name : Bytes
  pub desc : Desc
  pub primary_key : ℤ

pub record CreateIndex : Type 0 where
  pub name : Bytes
  pub rel : RelationInfo
  pub attr : ℕ
  pub unique : Bool

pub record DropTable : Type 0 where
  pub name : Bytes

pub record DropIndex : Type 0 where
  pub name : Bytes

-- No relation is the whole database.
pub record Analyze : Type 0 where
  pub rel : Option RelationInfo

-- Stmt; the arguments of explain are the fields of the struct Explain.
pub data Stmt : Type 0 where
  select : Select → Stmt
  insert : Insert → Stmt
  update : Update → Stmt
  delete : Delete → Stmt
  create_table : CreateTable → Stmt
  drop_table : DropTable → Stmt
  begin commit rollback : Stmt
  explain : Stmt → Bool → Stmt
  create_index : CreateIndex → Stmt
  drop_index : DropIndex → Stmt
  analyze : Analyze → Stmt

abbrev pub is_arithmetic : BinOp → Bool
is_arithmetic add = true
is_arithmetic sub = true
is_arithmetic mul = true
is_arithmetic div = true
is_arithmetic _ = false

abbrev pub is_comparison : BinOp → Bool
is_comparison eq = true
is_comparison ne = true
is_comparison lt = true
is_comparison le = true
is_comparison gt = true
is_comparison ge = true
is_comparison _ = false

-- The methods String of statements and expressions.
pub record DumpOps : Type 0 where
  pub stmt_text : Stmt → Bytes
  pub expr_text : Expr → Bytes
