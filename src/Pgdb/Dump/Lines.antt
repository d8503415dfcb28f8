-- ===== src/Pgdb/Dump/Lines.antt =====
-- cmd/pgdb/dump.go: dumpPage never panics, and prints a line for every line pointer.
use build_postgres.Prelude.{
  ℕ, zero, suc, ◌+◌, ◌-◌, ◌%◌, ◌≤◌, ◌<◌, ◌≡◌, refl, inl, inr, Option, none, some, [], ◌++◌, arith,
  leb, leb→le, le→leb, lt→leb_false, Bool-cases, length,
}
use build_postgres.Prelude.Text.{Bytes, spaces, newline, count_byte, count_byte-append}
use build_postgres.Prelude.Decimal.{lines-itoa, lines-hex4, right_align, left_align}
use build_postgres.Page.{PageReader, PageLaws, InRange, ItemId, slice, page_size}
use build_postgres.Tuple.{HeaderReader, HeaderLaws, Header, fixed_header_size}
use build_postgres.Pgdb.Dump.Guards.{heap_item_lem, length-slice, PointsAtHeader}
use build_postgres.Pgdb.Dump.{
  no_tuple, heap_item, rows, index_row, heap_row, flag_name, pointer_columns, header_columns,
  read_header, item_columns, summary,
}

abbrev pub lines : Bytes → ℕ
lines = count_byte 10

lines-spaces : (n : ℕ) → lines (spaces n) ≡ 0
unfolding count_byte
lines-spaces zero = refl
lines-spaces (suc n) = omega (arith, lines-spaces n)

lines-right_align : (w : ℕ) (s : Bytes) → lines (right_align w s) ≡ lines s
unfolding right_align
lines-right_align w s = rw (count_byte-append, lines-spaces) (omega arith)

lines-left_align : (w : ℕ) (s : Bytes) → lines (left_align w s) ≡ lines s
unfolding left_align
lines-left_align w s = rw (count_byte-append, lines-spaces) (omega arith)

lines-flag_name : (f : ℕ) → lines (flag_name f) ≡ 0
unfolding count_byte flag_name
lines-flag_name f = ground arith

ruleset layout = (
  count_byte-append, lines-right_align, lines-left_align, lines-itoa, lines-hex4, lines-flag_name,
)

lines-pointer_columns : (n : ℕ) (id : ItemId) → lines (pointer_columns n id) ≡ 0
unfolding count_byte pointer_columns
lines-pointer_columns n id = simp layout

pub lines-summary : (r : PageReader) (p : Bytes) → lines (summary r p) ≡ 1
unfolding count_byte summary
lines-summary r p = simp layout

lines-header_columns : (t : Header) → lines (header_columns t) ≡ 1
unfolding count_byte header_columns
lines-header_columns t = simp layout

-- A computation that prints so many lines, and does not panic.
abbrev pub Prints : Option Bytes → ℕ → Type 0
Prints o n = (out : Bytes) × (o ≡ some out) × (lines out ≡ n)

module _ (h : HeaderReader) (header : Bytes → Header) (hlaws : HeaderLaws h header) where
  read_header_lem : (t : Bytes) → fixed_header_size ≤ length t → read_header h t ≡ some (header t)
  unfolding read_header
  read_header_lem t long = rw (
    hlaws.ctid_lem t long,
    hlaws.xmin_lem t long,
    hlaws.xmax_lem t long,
    hlaws.natts_lem t long,
    hlaws.hoff_lem t long,
    hlaws.infomask_lem t long,
  )

  item_columns-Prints :
      (item : Option Bytes)
      → ((t : Bytes) → item ≡ some t → fixed_header_size ≤ length t)
      → Prints (item_columns h item) 1
  unfolding item_columns count_byte
  item_columns-Prints none long = (no_tuple, refl, refl)
  item_columns-Prints (some t) long = (
    header_columns (header t),
    rw (read_header_lem t (long t refl)),
    lines-header_columns (header t),
  )

  module _ (r : PageReader) (laws : PageLaws r) (p : Bytes) (size : length p ≡ page_size) where
    pub index_row-Prints : (n : ℕ) → InRange r p n → Prints (index_row r p n) 1
    unfolding index_row count_byte
    index_row-Prints n range =
        let (id, e) = laws.item_id_lem p n range in
        (pointer_columns n id ++ flag_name id.flags ++ newline, rw e, simp layout)

    heap_item-Prints :
        (n : ℕ) (id : ItemId)
        → r.item_id p n ≡ some id
        → (item : Option Bytes) × (heap_item r p n id ≡ some item) × Prints (item_columns h item) 1
    heap_item-Prints n id e = elim (heap_item_lem r laws p n id size e) [
      | inl (w, got) ↦ (some (slice p id), got, item_columns-Prints _ λ t q. long w q)
      | inr (w, got) ↦ (none, got, item_columns-Prints none (λ t q. cc))
    ]
      where
        long :
            {t : Bytes}
            → PointsAtHeader id
            → some (slice p id) ≡ some t
            → fixed_header_size ≤ length t
        long {t} w q =
            let same : length t ≡ length (slice p id) = cc in
            let len = length-slice p id (ground arith) in ground arith

    pub heap_row-Prints : (n : ℕ) → InRange r p n → Prints (heap_row r h p n) 1
    unfolding heap_row count_byte
    heap_row-Prints n range =
        let (id, e) = laws.item_id_lem p n range in
        let (item, got, tail) = heap_item-Prints n id e in
        let (rest, printed, one) = tail in
        (
          pointer_columns n id ++ left_align 8 (flag_name id.flags) ++ rest,
          rw (e, got, printed),
          simp layout (omega (arith, one)),
        )

rows_step :
    (row : ℕ → Option Bytes) (last f n : ℕ) (line more : Bytes)
    → n ≤ last
    → last < 65535
    → row n ≡ some line
    → rows row f (n + 1) last ≡ some more
    → rows row (suc f) n last ≡ some (line ++ more)
unfolding rows
rows_step row last f n line more inside small e d =
    let wrap : (n + 1) % 65536 ≡ n + 1 = omega arith in rw (le→leb n last inside, wrap, e, d)

rows_end : (row : ℕ → Option Bytes) (last f n : ℕ) → last < n → rows row (suc f) n last ≡ some []
unfolding rows
rows_end row last f n past = rw (lt→leb_false n last past)

-- A loop whose rows print a line each prints a line for every number from n to the last, and the
-- uint16 counter does not wrap.
pub rows-Prints :
    (row : ℕ → Option Bytes) (last : ℕ)
    → last < 65535
    → ((n : ℕ) → 1 ≤ n → n ≤ last → Prints (row n) 1)
    → (f n : ℕ) → 1 ≤ n
    → n ≤ last + 1
    → n + f ≡ last + 2
    → Prints (rows row f n last) (last + 1 - n)
unfolding count_byte
rows-Prints row last small each zero n low high e = absurd (omega arith)
rows-Prints row last small each (suc f) n low high e = elim (Bool-cases (leb n last)) [
  | inr past ↦ ([], rows_end row last f n (ground arith), ground arith)
  | inl t ↦
      let inside = leb→le n last t in
      let (line, printed, one) = each n low inside in
      let (more, done, count) =
        rows-Prints row last small each f (n + 1) (omega arith) (omega arith) (omega arith) in
      (
        line ++ more,
        rows_step row last f n line more inside small printed done,
        rw count_byte-append (omega (arith, one, count)),
      )
]
