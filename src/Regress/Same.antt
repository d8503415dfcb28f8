-- ===== src/Regress/Same.antt =====
-- The regression runner and the shell run the same statements of a script.
use build_postgres.Session.{Session}
