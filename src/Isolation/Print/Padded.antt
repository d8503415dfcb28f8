-- ===== src/Isolation/Print/Padded.antt =====
-- internal/isolation/isolation_test.go: format does not panic, and its columns are aligned.
use build_postgres.Prelude.{
  ℕ, suc, ◌+◌, ◌-◌, ◌≤◌, ◌≡◌, refl, sym, if◌then◌else◌, ◌∙◌, ap, Bool, true, false, some, List, [],
  ◌∷◌, ◌++◌, map, arith, ltb, length, max, replicate, All, All-map, length-map, concat,
}
use build_postgres.Prelude.Text.{Bytes, codes, join, spaces, newline}
use build_postgres.Session.{Column}
use build_postgres.Isolation.Print.{
  numeric, row_count, pad, widen, widths, pad_row, print_rows, print_table, format,
}

-- A run of blanks counts its length, on either side of a text.
pub record CountLaws (count : Bytes → ℕ) : Type 0 where
  pub blanks_before : (n : ℕ) (s : Bytes) → count (spaces n ++ s) ≡ n + count s
  pub blanks_behind : (n : ℕ) (s : Bytes) → count (s ++ spaces n) ≡ count s + n

-- Widths that are at least those before.
abbrev Grows : List ℕ → List ℕ → Type 0
Grows [] vs = Unit
Grows (w ∷ ws) [] = ⊥
Grows (w ∷ ws) (v ∷ vs) = (w ≤ v) × Grows ws vs

Grows-refl : (ws : List ℕ) → Grows ws ws
Grows-refl [] = tt
Grows-refl (w ∷ ws) = (omega arith, Grows-refl ws)

Grows-trans : (us vs ws : List ℕ) → Grows us vs → Grows vs ws → Grows us ws
Grows-trans [] vs ws h k = tt
Grows-trans (u ∷ us) (v ∷ vs) (w ∷ ws) (h, hs) (k, ks) = (omega arith, Grows-trans us vs ws hs ks)
Grows-trans (u ∷ us) [] ws h k = absurd h
Grows-trans (u ∷ us) (v ∷ vs) [] h k = absurd k

module _ (count : Bytes → ℕ) where
  -- Texts that are no wider than their columns.
  abbrev pub Fits : List ℕ → List Bytes → Type 0
  Fits ws [] = Unit
  Fits [] (s ∷ ss) = ⊥
  Fits (w ∷ ws) (s ∷ ss) = (count s ≤ w) × Fits ws ss

  -- Texts with blanks in front, where the column asks for that, or else behind them, that are exactly as wide as
  -- their columns.
  pub data Padded (right : Column → Bool)
      : List Column → List ℕ → List Bytes → List Bytes → Type 0 where
    no_more : {cols : List Column} {ws : List ℕ} → Padded right cols ws [] []
    cell :
        {cols : List Column} {ws : List ℕ} {ss ps : List Bytes} (c : Column) (w : ℕ) (s p : Bytes)
        (n : ℕ)
        → p ≡ (if right c then spaces n ++ s else s ++ spaces n)
        → count p ≡ w
        → Padded right cols ws ss ps
        → Padded right (c ∷ cols) (w ∷ ws) (s ∷ ss) (p ∷ ps)

  -- The rows, each padded, those of number columns on the left.
  pub data Lines (cols : List Column) (ws : List ℕ)
      : List (List Bytes) → List (List Bytes) → Type 0 where
    no_lines : Lines cols ws [] []
    row_line :
        {rows body : List (List Bytes)} {row ps : List Bytes}
        → Padded numeric cols ws row ps
        → Lines cols ws rows body
        → Lines cols ws (row ∷ rows) (ps ∷ body)

  Fits-grow : (ws vs : List ℕ) (ss : List Bytes) → Grows ws vs → Fits ws ss → Fits vs ss
  Fits-grow ws vs [] g h = tt
  Fits-grow [] vs (s ∷ ss) g h = absurd h
  Fits-grow (w ∷ ws) [] (s ∷ ss) g h = absurd g
  Fits-grow (w ∷ ws) (v ∷ vs) (s ∷ ss) (g, gs) (h, hs) = (omega arith, Fits-grow ws vs ss gs hs)

  Fits-names : (cols : List Column) → Fits (map (λ c. count c.name) cols) (map (λ c. c.name) cols)
  Fits-names [] = tt
  Fits-names (c ∷ cols) = (omega arith, Fits-names cols)

  widen-Fits :
      (ws : List ℕ) (ss : List Bytes)
      → length ss ≤ length ws
      → (vs : List ℕ) × (widen count ws ss ≡ some vs)
        × (length vs ≡ length ws)
        × Grows ws vs
        × Fits vs ss
  unfolding widen
  widen-Fits ws [] h = (ws, refl, refl, Grows-refl ws, tt)
  widen-Fits [] (s ∷ ss) h = absurd (omega arith)
  widen-Fits (w ∷ ws) (s ∷ ss) h =
      let (vs, e, len, g, f) = widen-Fits ws ss (omega arith) in
      (max w (count s) ∷ vs, rw e, ap suc len, (omega arith, g), (omega arith, f))

  widths-Fits :
      (ws : List ℕ) (rows : List (List Bytes))
      → All (λ row. length row ≤ length ws) rows
      → (vs : List ℕ) × (widths count ws rows ≡ some vs)
        × (length vs ≡ length ws)
        × Grows ws vs
        × All (λ row. Fits vs row) rows
  unfolding widths
  widths-Fits ws [] h = (ws, refl, refl, Grows-refl ws, tt)
  widths-Fits ws (row ∷ rows) (h, hs) =
      let (us, e, len, g, f) = widen-Fits ws row h in
      let (vs, d, len2, g2, fs) =
        widths-Fits us rows (All-map (λ x k. omega (arith, len)) rows hs) in
      (vs, rw (e, d), len2 ∙ len, Grows-trans ws us vs g g2, (Fits-grow us vs row g2 f, fs))

  module _ (laws : CountLaws count) where
    pad-count :
        (s : Bytes) (w : ℕ) (right : Bool)
        → count s ≤ w
        → (p : Bytes) × (n : ℕ) × (pad count s w right ≡ some p)
          × (p ≡ (if right then spaces n ++ s else s ++ spaces n))
          × (count p ≡ w)
    unfolding pad
    pad-count s w true h =
        let small : ltb w (count s) ≡ false = ground arith in
        (
          spaces (w - count s) ++ s,
          w - count s,
          rw small,
          refl,
          omega (arith, laws.blanks_before (w - count s) s),
        )
    pad-count s w false h =
        let small : ltb w (count s) ≡ false = ground arith in
        (
          s ++ spaces (w - count s),
          w - count s,
          rw small,
          refl,
          omega (arith, laws.blanks_behind (w - count s) s),
        )

    pad_row-Padded :
        (right : Column → Bool) (cols : List Column) (ws : List ℕ) (ss : List Bytes)
        → length cols ≡ length ws
        → Fits ws ss
        → (ps : List Bytes) × (pad_row count right cols ws ss ≡ some ps)
          × Padded right cols ws ss ps
    unfolding pad_row
    pad_row-Padded right cols ws [] e f = ([], refl, no_more)
    pad_row-Padded right cols [] (s ∷ ss) e f = absurd f
    pad_row-Padded right [] (w ∷ ws) (s ∷ ss) e f = absurd (omega arith)
    pad_row-Padded right (c ∷ cols) (w ∷ ws) (s ∷ ss) e (f, fs) =
        let (p, n, q, blanks, k) = pad-count s w (right c) f in
        let (ps, qs, more) = pad_row-Padded right cols ws ss (omega arith) fs in
        (p ∷ ps, rw (q, qs), cell c w s p n blanks k more)

    -- The lines of the rows.
    print_rows-Lines :
        (cols : List Column) (ws : List ℕ) (rows : List (List Bytes))
        → length cols ≡ length ws
        → All (λ row. Fits ws row) rows
        → (body : List (List Bytes)) × (print_rows count cols ws rows
            ≡ some (concat (map (λ ps. join (codes "|") ps ++ newline) body)))
          × Lines cols ws rows body
          × (length body ≡ length rows)
    unfolding print_rows
    print_rows-Lines cols ws [] e h = ([], refl, no_lines, refl)
    print_rows-Lines cols ws (row ∷ rows) e (h, hs) =
        let (ps, q, a) = pad_row-Padded numeric cols ws row e h in
        let (body, qs, each, lens) = print_rows-Lines cols ws rows e hs in
        (ps ∷ body, rw (q, qs), row_line a each, ap suc lens)

-- The text of a table: the header, the rule under it, the rows, and their number.
abbrev pub layout : List ℕ → List Bytes → List (List Bytes) → Bytes
layout ws head body =
    join (codes "|") head
    ++ newline
    ++ join (codes "+") (map (λ w. replicate w b'-') ws)
    ++ newline
    ++ concat (map (λ ps. join (codes "|") ps ++ newline) body)
    ++ row_count (length body)

-- On rows that are no longer than the columns, and where blanks count one each, format does not panic. It
-- prints a header, a rule, a line for each row and the number of rows: the cells of the header are the names of
-- the columns with blanks behind them, those of a row its texts with blanks in front of them in number columns and
-- behind them in others, and each cell is exactly as wide as the rule is in its column.
pub format-Padded :
    (count : Bytes → ℕ) (cols : List Column) (rows : List (List Bytes))
    → CountLaws count
    → All (λ row. length row ≤ length cols) rows
    → (ws : List ℕ) × (head : List Bytes) × (body : List (List Bytes)) × (format count
          (some cols)
          rows
        ≡ some (layout ws head body))
      × (length ws ≡ length cols)
      × (length body ≡ length rows)
      × Padded count (λ c. false) cols ws (map (λ c. c.name) cols) head
      × Lines count cols ws rows body
unfolding format print_table
format-Padded count cols rows laws short =
    let names = map (λ c. count c.name) cols in
    let as_long = length-map cols (λ c. count c.name) in
    let (ws, e, len, g, fits) =
      widths-Fits count names rows (All-map (λ x k. omega (arith, as_long)) rows short) in
    let same : length cols ≡ length ws = omega (arith, as_long) in
    let (head, q, a) =
      pad_row-Padded count laws (λ c. false) cols ws (map (λ c. c.name) cols) same
        (Fits-grow count names ws _ g (Fits-names count cols)) in
    let (body, d, each, lens) = print_rows-Lines count laws cols ws rows same fits in
    (ws, head, body, rw (e, q, d, lens), sym same, lens, a, each)
