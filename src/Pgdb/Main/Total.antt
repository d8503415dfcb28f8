-- ===== src/Pgdb/Main/Total.antt =====
-- cmd/pgdb: no arguments, files or input make the program panic or hang.
use build_postgres.Prelude.Result.{Result}
use build_postgres.Session.{Session}
use build_postgres.Pgdb.Main.Ends.{Ends}
