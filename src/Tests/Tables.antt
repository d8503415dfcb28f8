-- ===== src/Tests/Tables.antt =====
-- A table of two columns.
use build_postgres.Prelude.{
  ◌≡◌, refl, ◌≤◌, some, List, [], ◌∷◌, arith, length, length-append, length-replicate, All, ℕ,
  false, map,
}
use build_postgres.Prelude.Text.{Bytes, codes, spaces, join}
use build_postgres.Prelude.Decimal.{itoa}
use build_postgres.Tuple.{int4, text}
use build_postgres.Session.{Column}
use build_postgres.Isolation.Print.{format}
use build_postgres.Isolation.Print.Padded.{CountLaws, Padded, Lines, layout, format-Padded}

-- RuneCountInString of ASCII text.
abbrev count : Bytes → ℕ
count s = length s

count_laws : CountLaws count
count_laws = record {
  blanks_before = λ n s. omega (arith, length-append (spaces n) s, length-replicate {A = ℕ} n 32);
  blanks_behind = λ n s. omega (arith, length-append s (spaces n), length-replicate {A = ℕ} n 32);
}

abbrev columns : List Column
columns = record { name = codes "a"; typ = int4 } ∷ record { name = codes "note"; typ = text } ∷ []

abbrev rows : List (List Bytes)
rows = (codes "17" ∷ codes "x" ∷ []) ∷ (codes "2" ∷ codes "longer" ∷ []) ∷ []

rows_short : All (λ row. length row ≤ length columns) rows
rows_short = (omega arith, (omega arith, tt))

format-Padded_example :
    (ws : List ℕ) × (head : List Bytes) × (body : List (List Bytes)) × (format count
        (some columns)
        rows
      ≡ some (layout ws head body))
    × (length ws ≡ length columns)
    × (length body ≡ length rows)
    × Padded count (λ c. false) columns ws (map (λ c. c.name) columns) head
    × Lines count columns ws rows body
format-Padded_example = format-Padded count columns rows count_laws rows_short

format_runs :
    format count (some columns) rows
    ≡ some (codes "a |note  \n--+------\n17|x     \n 2|longer\n(2 rows)\n\n")
unfolding format join itoa
format_runs = refl
