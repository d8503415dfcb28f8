-- ===== src/Pgdb/Repl/Order.antt =====
-- cmd/pgdb/main.go: repl ends, and runs the statements of its input whatever its lines.
use build_postgres.Prelude.{◌≡◌, refl, false, Option, []}
use build_postgres.Prelude.Text.{Bytes, codes, has_prefix, trim_space}
use mathlib.Core.Option
use build_postgres.Session.{Session}
use build_postgres.Pgdb.Repl.{exec}

-- A line that is no backslash command wherever it stands.
abbrev pub NoCommand : Bytes → Type 0
NoCommand line = has_prefix (trim_space line) (codes "\\") ≡ false

trim_space-nil : trim_space [] ≡ []
unfolding trim_space
trim_space-nil = refl

module _ (db : Session) where
  -- What a statement does to the session, without what is printed.
  abbrev pub effect : db.State → Bytes → db.State
  effect s stmt = (db.exec s stmt).0
