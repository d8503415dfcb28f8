-- ===== src/Sql.antt =====
-- internal/sql and the packages of plans: the trees that parser, analyzer and planner hand on.
pub mod Ast
pub mod Parser
pub mod Query
pub mod Plan
pub mod Analyzer
pub mod Planner
