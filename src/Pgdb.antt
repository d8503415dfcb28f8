-- ===== src/Pgdb.antt =====
-- cmd/pgdb: the SQL shell and the page inspector.
pub mod Dump
pub mod Repl
pub mod Sample
pub mod Main
