-- ===== src/Pgdb/Dump/File/Base.antt =====
-- path/filepath.Base, as cmd/pgdb/dump.go calls it.
use build_postgres.Prelude.{ℕ, ◌≡◌, refl, [], ◌∷◌, ◌==◌, if◌then◌else◌}
use build_postgres.Prelude.Text.{Bytes, codes}
use mathlib.Core.List.{reverse}

abbrev slash : ℕ
slash = b'/'

-- A path backwards, without the slashes that it ends in.
drop_slashes : Bytes → Bytes
drop_slashes [] = []
drop_slashes (c ∷ s) = let rest = drop_slashes s in if c == slash then rest else c ∷ s

up_to_slash : Bytes → Bytes
up_to_slash [] = []
up_to_slash (c ∷ s) = let rest = up_to_slash s in if c == slash then [] else c ∷ rest

base_of : Bytes → Bytes
base_of [] = slash ∷ []
base_of (c ∷ s) = reverse (up_to_slash (c ∷ s))

-- Base: the last element of a path; "." for the empty path and "/" for slashes alone.
unfoldable pub base_name : Bytes → Bytes
unfolding drop_slashes base_of up_to_slash
base_name [] = codes "."
base_name (c ∷ s) = base_of (drop_slashes (reverse (c ∷ s)))

base_name_runs : base_name (codes "data/base/16384") ≡ codes "16384"
unfolding base_name
base_name_runs = refl
