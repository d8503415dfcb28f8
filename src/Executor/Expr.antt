-- ===== src/Executor/Expr.antt =====
-- internal/executor/expr/expr.go: errors, rows, layouts and compiled expressions.
use build_postgres.Prelude.{Bool, Option, List}
use build_postgres.Prelude.Text.{Bytes, codes}
use build_postgres.Prelude.Int.{ℤ}
use build_postgres.Prelude.Result.{Result}
use build_postgres.Sql.Query.{Datum, RangeEntry, Var, Expr}

pub data Sentinel : Type 0 where
  out_of_range division_by_zero : Sentinel

unfoldable pub message : Sentinel → Bytes
message out_of_range = codes "out of range"
message division_by_zero = codes "division by zero"

pub record Error : Type 0 where
  pub cause : Sentinel
  pub msg : Bytes

-- Error.Error
unfoldable pub error_text : Error → Bytes
error_text e = e.msg

-- Error.Unwrap
unfoldable pub unwrap : Error → Sentinel
unwrap e = e.cause

-- The struct Row. A null's value is any.
pub record ValueRow : Type 0 where
  pub values : List Datum
  pub nulls : List Bool

-- The slot of the first column of each range entry, -1 for one that the row does not hold, and the width.
abbrev pub Layout : Type 0
Layout = List ℤ

-- The value and whether it is NULL, or an error.
abbrev pub Func : Type 0
Func = ValueRow → Result Error (Datum × Bool)

-- NewLayout, Slot and Width.
pub record LayoutOps : Type 0 where
  pub new_layout : List RangeEntry → Layout
  pub slot : Layout → Var → ℤ
  pub width : Layout → ℤ

-- Qual, Compile and Compare. A panic is none: a node or a type that they do not know.
pub record ExprOps : Type 0 where
  pub qual : Func → ValueRow → Result Error Bool
  pub compile : Expr → Layout → Option Func
  pub compare_values : Datum → Datum → Option ℤ
