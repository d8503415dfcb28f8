-- ===== src/Tests/Texts.antt =====
-- Type names, plans, chapters and differences.
use build_postgres.Prelude.{
  ℕ, zero, suc, ◌+◌, ◌<◌, ◌≡◌, refl, ◌≢◌, ◌↔◌, none, some, List, [], ◌∷◌, map, arith, length, All,
}
use build_postgres.Prelude.Text.{Bytes, codes}
use build_postgres.Prelude.Decimal.{itoa}
use build_postgres.Prelude.Int.{pos}
use build_postgres.Prelude.Result.{ok}
use build_postgres.Catalog.{rel_kind_table}
use build_postgres.Sql.Parser.{find_type, type_names}
use build_postgres.Sql.Query.{RangeEntry}
use build_postgres.Sql.Plan.{Node, Estimate, seq_scan, joining, nest_loop, materialize, range}
use build_postgres.Regress.Chapters.{IsChapter, chosen, up_to_chapter, up_to_chapter_lem}
use build_postgres.Regress.Diff.{split_lines, diff, diff_panics_iff, line_of}
use build_postgres.Pgdb.Dump.File.Base.{base_name}
use build_postgres.Tuple.{int8}

bigint_found : find_type (codes "bigint") type_names ≡ some int8
unfolding find_type
bigint_found = refl

abbrev entry : ℕ → Bytes → RangeEntry
entry i name = record {
  index = i;
  alias = name;
  rel = record {
    oid = 16384 + i;
    name = name;
    kind = rel_kind_table;
    pages = pos 1;
    tuples = pos 3;
    desc = record { attrs = [] };
    indexes = [];
  };
}

-- Costs in hundredths.
abbrev cost : ℕ → Estimate ℕ
cost c = record { startup_cost = 0; total_cost = c; rows = 3; width = 4 }

abbrev joined : Node ℕ
joined = joining (
    nest_loop (seq_scan (entry 1 (codes "u")) (cost 103))
      (joining (materialize (seq_scan (entry 0 (codes "t")) (cost 103)) (cost 105))) none
      (cost 220))

outer_first : range joined ≡ entry 1 (codes "u") ∷ entry 0 (codes "t") ∷ []
unfolding range
outer_first = refl

abbrev files : List (Bytes × ℕ)
files = (codes "sql/ch11_select.sql", 11) ∷ (codes "sql/ch15_joins.sql", 15) ∷ []

files_named : All (λ f. IsChapter f.0 f.1) files
unfolding base_name
files_named = (
  record {
    tens = 1;
    ones = 1;
    rest = codes "_select.sql";
    tens_digit = omega arith;
    ones_digit = omega arith;
    named = refl;
    value = refl;
  },
  (
    record {
      tens = 1;
      ones = 5;
      rest = codes "_joins.sql";
      tens_digit = omega arith;
      ones_digit = omega arith;
      named = refl;
      value = refl;
    },
    tt,
  ),
)

up_to_chapter_lem_example :
    up_to_chapter (itoa 11) (map (λ f. f.0) files) ≡ some (ok (chosen 11 files))
up_to_chapter_lem_example = up_to_chapter_lem 11 files (omega arith) files_named

-- The expected output goes on with an empty line and another one after the output has ended.
abbrev wanted : Bytes
wanted = codes "a\n\n\nb"

abbrev got : Bytes
got = codes "a"

same_before : (j : ℕ) → j < 3 → line_of (split_lines wanted) j ≡ line_of (split_lines got) j
unfolding split_lines
same_before zero h = refl
same_before (suc zero) h = refl
same_before (suc (suc zero)) h = refl
same_before (suc (suc (suc j))) h = absurd (omega arith)

differs_at : line_of (split_lines wanted) 3 ≢ line_of (split_lines got) 3
unfolding split_lines
differs_at e = cc

diff_panics_iff_example : (diff wanted got ≡ none) ↔ (length (split_lines got) < 3)
diff_panics_iff_example =
    diff_panics_iff wanted got 3 (record { same = same_before; differs = differs_at })

diff_runs : diff (codes "a\nb\nc") (codes "a\nx\nc") ≡ some (codes "line 2:\n  a\n- b\n+ x")
unfolding diff itoa
diff_runs = refl
