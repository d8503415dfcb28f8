-- ===== src/Sql/Planner.antt =====
-- internal/planner/planner.go: errors, and the constants of the cost model. A float64 constant stands as
-- the fraction that is written, before it is rounded.
use build_postgres.Prelude.{ℕ}
use build_postgres.Prelude.Result.{Result}
use build_postgres.Sql.Query.{Stmt}
use build_postgres.Sql.Plan.{Node}
use build_postgres.Prelude.Text.{Bytes, codes}

pub data PlannerError : Type 0 where
  utility too_many_relations : PlannerError

unfoldable pub message : PlannerError → Bytes
message utility = codes "planner: utility statement"
message too_many_relations = codes "too many range table entries"

pub record Fraction : Type 0 where
  pub numerator : ℕ
  pub denominator : ℕ

-- n thousandths of a tenth
abbrev ten_thousandths : ℕ → Fraction
ten_thousandths n = record { numerator = n; denominator = 10000 }

abbrev pub seq_page_cost : Fraction
seq_page_cost = ten_thousandths 10000

abbrev pub random_page_cost : Fraction
random_page_cost = ten_thousandths 40000

abbrev pub cpu_tuple_cost : Fraction
cpu_tuple_cost = ten_thousandths 100

abbrev pub cpu_index_tuple_cost : Fraction
cpu_index_tuple_cost = ten_thousandths 50

abbrev pub cpu_operator_cost : Fraction
cpu_operator_cost = ten_thousandths 25

abbrev pub default_eq_sel : Fraction
default_eq_sel = ten_thousandths 50

abbrev pub default_ineq_sel : Fraction
default_ineq_sel = record { numerator = 1; denominator = 3 }

abbrev pub default_range_ineq_sel : Fraction
default_range_ineq_sel = ten_thousandths 50

abbrev pub default_unk_sel : Fraction
default_unk_sel = ten_thousandths 50

abbrev pub default_bool_sel : Fraction
default_bool_sel = ten_thousandths 5000

abbrev pub default_pages : ℕ
default_pages = 10

abbrev pub default_num_distinct : ℕ
default_num_distinct = 200

-- The function that plans a statement.
pub record PlannerOps (Float : Type 0) : Type 0 where
  pub plan : Stmt → Result PlannerError (Node Float)
