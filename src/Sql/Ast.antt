-- ===== src/Sql/Ast.antt =====
-- internal/sql/ast/ast.go: the syntax tree. A nil expression, list item or text that may be absent is
-- an Option where Go has nil, and the empty text where Go has one. An interface with its marker methods
-- (stmtNode, exprNode, tableExpr) is a data type with a constructor for each implementation.
use build_postgres.Prelude.{ℕ, Bool, Option, List}
use build_postgres.Prelude.Text.{Bytes}
use build_postgres.Lexer.{Pos}

-- BinOp
pub data BinOp : Type 0 where
  eq ne lt le gt ge add sub mul div and or : BinOp

-- UnOp
pub data UnOp : Type 0 where
  neg not_op : UnOp

pub record IntLit : Type 0 where
  pub loc : Pos
  pub text : Bytes

pub record StrLit : Type 0 where
  pub loc : Pos
  pub value : Bytes

pub record BoolLit : Type 0 where
  pub loc : Pos
  pub value : Bool

pub record NullLit : Type 0 where
  pub loc : Pos

pub record ColumnRef : Type 0 where
  pub loc : Pos
  pub table : Bytes
  pub name : Bytes

pub record Star : Type 0 where
  pub loc : Pos

-- Expr. The structs BinaryExpr, UnaryExpr and IsNull hold expressions: their fields are the
-- constructors' arguments, in order.
pub data Expr : Type 0 where
  int_lit : IntLit → Expr
  str_lit : StrLit → Expr
  bool_lit : BoolLit → Expr
  null_lit : NullLit → Expr
  column_ref : ColumnRef → Expr
  star : Star → Expr
  binary_expr : Pos → BinOp → Expr → Expr → Expr
  unary_expr : Pos → UnOp → Expr → Expr
  is_null : Pos → Expr → Bool → Expr

-- The methods Pos of the expressions.
unfoldable pub expr_pos : Expr → Pos
expr_pos (int_lit e) = e.loc
expr_pos (str_lit e) = e.loc
expr_pos (bool_lit e) = e.loc
expr_pos (null_lit e) = e.loc
expr_pos (column_ref e) = e.loc
expr_pos (star e) = e.loc
expr_pos (binary_expr loc op left right) = loc
expr_pos (unary_expr loc op x) = loc
expr_pos (is_null loc x negated) = loc

pub record ColumnDef : Type 0 where
  pub name : Bytes
  pub typ : ℕ
  pub not_null : Bool
  pub primary_key : Bool

pub record CreateTable : Type 0 where
  pub name : Bytes
  pub columns : List ColumnDef

pub record Insert : Type 0 where
  pub loc : Pos
  pub table : Bytes
  pub columns : Option (List Bytes)
  pub column_locs : List Pos
  pub rows : List (List Expr)

pub record SelectItem : Type 0 where
  pub expr : Expr
  pub alias : Bytes

pub record OrderItem : Type 0 where
  pub expr : Expr
  pub desc : Bool

pub record TableRef : Type 0 where
  pub loc : Pos
  pub name : Bytes
  pub alias : Bytes

-- TableExpr; the arguments of join are the fields of the struct Join.
pub data TableExpr : Type 0 where
  table_ref : TableRef → TableExpr
  join_expr : TableExpr → TableExpr → Expr → TableExpr

pub record Select : Type 0 where
  pub items : List SelectItem
  pub from : List TableExpr
  pub where_cond : Option Expr
  pub order_by : List OrderItem
  pub limit : Option Expr

pub record Assignment : Type 0 where
  pub column : Bytes
  pub value : Expr
  pub loc : Pos

pub record Update : Type 0 where
  pub loc : Pos
  pub table : Bytes
  pub assignments : List Assignment
  pub where_cond : Option Expr

pub record Delete : Type 0 where
  pub loc : Pos
  pub table : Bytes
  pub where_cond : Option Expr

-- Isolation
pub data Isolation : Type 0 where
  default_isolation read_committed repeatable_read : Isolation

pub record CreateIndex : Type 0 where
  pub name : Bytes
  pub table : Bytes
  pub column : Bytes
  pub unique : Bool

pub record DropTable : Type 0 where
  pub name : Bytes

pub record Begin : Type 0 where
  pub isolation : Isolation

pub record DropIndex : Type 0 where
  pub name : Bytes

-- The empty name is the whole database.
pub record Analyze : Type 0 where
  pub table : Bytes

-- Stmt; the arguments of explain are the fields of the struct Explain.
pub data Stmt : Type 0 where
  create_table : CreateTable → Stmt
  drop_table : DropTable → Stmt
  insert : Insert → Stmt
  select : Select → Stmt
  update : Update → Stmt
  delete : Delete → Stmt
  begin : Begin → Stmt
  commit rollback : Stmt
  explain : Stmt → Bool → Stmt
  create_index : CreateIndex → Stmt
  drop_index : DropIndex → Stmt
  analyze : Analyze → Stmt

-- QuoteIdent and QuoteString, and the methods String of statements and expressions.
pub record PrintOps : Type 0 where
  pub quote_ident : Bytes → Bytes
  pub quote_string : Bytes → Bytes
  pub stmt_text : Stmt → Bytes
  pub table_text : TableExpr → Bytes
  pub expr_text : Expr → Bytes
