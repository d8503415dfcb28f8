-- ===== src/Sql/Analyzer.antt =====
-- internal/sql/analyzer/analyzer.go: errors, and the catalog that the analyzer asks.
use build_postgres.Prelude.{◌⊎◌}
use build_postgres.Sql.Ast
use build_postgres.Sql.Query
use build_postgres.Prelude.Text.{Bytes, codes}
use build_postgres.Prelude.Result.{Result}
use build_postgres.Lexer.{Pos}
use build_postgres.Catalog.{RelationInfo}

-- The interface Catalog.
pub record Catalog (E : Type 0) : Type 0 where
  pub lookup : Bytes → Result E RelationInfo

pub data Sentinel : Type 0 where
  undefined_table undefined_column ambiguous_column duplicate_alias : Sentinel
  duplicate_column undefined_operator type_mismatch invalid_column_ref : Sentinel
  invalid_input out_of_range not_null syntax table_definition wrong_object_type : Sentinel

unfoldable pub message : Sentinel → Bytes
message undefined_table = codes "undefined table"
message undefined_column = codes "undefined column"
message ambiguous_column = codes "ambiguous column"
message duplicate_alias = codes "duplicate alias"
message duplicate_column = codes "duplicate column"
message undefined_operator = codes "undefined operator"
message type_mismatch = codes "datatype mismatch"
message invalid_column_ref = codes "invalid column ref"
message invalid_input = codes "invalid input syntax"
message out_of_range = codes "out of range"
message not_null = codes "not-null violation"
message syntax = codes "syntax error"
message table_definition = codes "invalid table definition"
message wrong_object_type = codes "wrong object type"

-- The struct Error, with the position that the shell points at.
pub record Error : Type 0 where
  pub at : Pos
  pub cause : Sentinel
  pub msg : Bytes

-- Error.Error
unfoldable pub error_text : Error → Bytes
error_text e = e.msg

-- Error.Unwrap
unfoldable pub unwrap : Error → Sentinel
unwrap e = e.cause

-- Analyze, which asks the catalog; an error of the catalog is returned unchanged.
pub record AnalyzerOps (E : Type 0) : Type 0 where
  pub analyze : Ast.Stmt → Catalog E → Result (Error ⊎ E) Query.Stmt
