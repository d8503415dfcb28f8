-- ===== src/Isolation/Print.antt =====
-- internal/isolation/isolation_test.go: format and pad. The cells of a row are the texts that FormatDatum
-- gives; none is a panic: an index past the end, or a negative count of strings.Repeat.
pub mod Padded
use build_postgres.Prelude.{
  ◌>>=◌, ℕ, ◌-◌, Bool, false, ◌||◌, Option, none, some, List, [], ◌∷◌, ◌++◌, map, ltb, ◌==◌,
  if◌then◌else◌, length, max, replicate,
}
use build_postgres.Prelude.Text.{Bytes, codes, join, spaces, newline}
use build_postgres.Prelude.Decimal.{itoa}
use build_postgres.Tuple.{int4, int8}
use build_postgres.Session.{Column}

-- typ == tuple.Int4 || typ == tuple.Int8
abbrev pub numeric : Column → Bool
numeric c = c.typ == int4 || c.typ == int8

unfoldable pub row_count : ℕ → Bytes
row_count n = if n == 1 then codes "(1 row)\n\n" else codes "(" ++ itoa n ++ codes " rows)\n\n"

-- count is utf8.RuneCountInString.
module _ (count : Bytes → ℕ) where
  unfoldable pub pad : Bytes → ℕ → Bool → Option Bytes
  pad s width right =
      let fill = spaces (width - count s) in
      if ltb width (count s) then none else some (if right then fill ++ s else s ++ fill)

  -- widths[j] = max(widths[j], …) over the cells of a row.
  unfoldable pub widen : List ℕ → List Bytes → Option (List ℕ)
  widen ws [] = some ws
  widen [] (s ∷ ss) = none
  widen (w ∷ ws) (s ∷ ss) = (do vs ← widen ws ss; some (max w (count s) ∷ vs))

  unfoldable pub widths : List ℕ → List (List Bytes) → Option (List ℕ)
  unfolding widen
  widths ws [] = some ws
  widths ws (row ∷ rows) = (do vs ← widen ws row; widths vs rows)

  -- The cells of a row, each padded to the width of its column.
  unfoldable pub pad_row : (Column → Bool) → List Column → List ℕ → List Bytes → Option (List Bytes)
  unfolding pad
  pad_row right cols ws [] = some []
  pad_row right [] ws (s ∷ ss) = none
  pad_row right (c ∷ cols) [] (s ∷ ss) = none
  pad_row right (c ∷ cols) (w ∷ ws) (s ∷ ss) = do
    p ← pad s w (right c)
    ps ← pad_row right cols ws ss
    some (p ∷ ps)

  unfoldable pub print_rows : List Column → List ℕ → List (List Bytes) → Option Bytes
  unfolding pad_row
  print_rows cols ws [] = some []
  print_rows cols ws (row ∷ rows) = do
    ps ← pad_row numeric cols ws row
    out ← print_rows cols ws rows
    some ((join (codes "|") ps ++ newline) ++ out)

  -- What follows the widths of the columns.
  unfoldable pub print_table : List Column → List ℕ → List (List Bytes) → Option Bytes
  unfolding pad_row print_rows row_count
  print_table cols ws rows = do
    head ← pad_row (λ c. false) cols ws (map (λ c. c.name) cols)
    out ← print_rows cols ws rows
    some (
        join (codes "|") head
        ++ newline
        ++ join (codes "+") (map (λ w. replicate w b'-') ws)
        ++ newline
        ++ out
        ++ row_count (length rows))

  -- format, on Columns and Rows.
  unfoldable pub format : Option (List Column) → List (List Bytes) → Option Bytes
  unfolding widths print_table
  format none rows = some []
  format (some cols) rows = do
    ws ← widths (map (λ c. count c.name) cols) rows
    print_table cols ws rows
