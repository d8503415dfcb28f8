-- ===== src/Pgdb/Dump/Total.antt =====
-- cmd/pgdb/dump.go: dumpPage never panics, and prints a line for every line pointer.
use build_postgres.Prelude.{
  ℕ, suc, ◌+◌, ◌≤◌, ◌<◌, ◌≡◌, inl, inr, true, not, Option, ◌++◌, arith, ◌==◌, if◌then◌else◌,
  Bool-cases, length,
}
use build_postgres.Prelude.Text.{Bytes, codes, newline, count_byte, count_byte-append}
use build_postgres.Prelude.Decimal.{itoa, lines-itoa}
use build_postgres.Page.{PageReader, PageLaws, page_size}
use build_postgres.Tuple.{HeaderReader, HeaderLaws, Header}
use build_postgres.Pgdb.Dump.Guards.{valid_header_iff}
use build_postgres.Pgdb.Dump.Lines.{
  Prints, lines-summary, index_row-Prints, heap_row-Prints, rows-Prints,
}
use build_postgres.Pgdb.Dump.{
  valid_header, rows, index_row, heap_row, table, page_body, dump_page, summary, index_columns,
  heap_columns,
}

-- The lines that a page takes behind the line with its block number.
abbrev pub body_lines : PageReader → Bytes → ℕ
body_lines r p =
    if r.is_new p
    then 1
    else if not (valid_header r p)
    then 2
    else if r.num_items p == 0
    then 1
    else 2 + r.num_items p

module _ (h : HeaderReader) (header : Bytes → Header) (hlaws : HeaderLaws h header) (r : PageReader)
    (laws : PageLaws r) (p : Bytes) (size : length p ≡ page_size) where
  few_items : valid_header r p ≡ true → r.num_items p < 65535
  few_items v = omega (arith, (valid_header_iff r laws p).0 v)

  all_rows :
      (row : ℕ → Option Bytes)
      → valid_header r p ≡ true
      → ((n : ℕ) → 1 ≤ n → n ≤ r.num_items p → Prints (row n) 1)
      → Prints (rows row (suc (r.num_items p)) 1 (r.num_items p)) (r.num_items p)
  all_rows row v each =
      let (out, done, count) =
        rows-Prints row (r.num_items p) (few_items v) each (suc (r.num_items p)) 1 (omega arith)
          (omega arith) (omega arith) in
      (out, done, omega (arith, count))

  table-Prints : valid_header r p ≡ true → Prints (table r h p) (1 + r.num_items p)
  unfolding table count_byte
  table-Prints v = elim (Bool-cases (r.special p == page_size)) [
    | inl heap ↦
        let (out, done, count) =
          all_rows (heap_row r h p) v
            (λ n low high. heap_row-Prints h header hlaws r laws p size n (low, high)) in
        (heap_columns ++ out, rw (heap, done), omega (arith, count))
    | inr index ↦
        let (out, done, count) =
          all_rows (index_row r p) v
            (λ n low high. index_row-Prints h header hlaws r laws p size n (low, high)) in
        (index_columns ++ out, rw (index, done), omega (arith, count))
  ]

  page_body-Prints : Prints (page_body r h p) (body_lines r p)
  unfolding page_body count_byte
  page_body-Prints = elim (Bool-cases (r.is_new p)) [
    | inl new ↦ (codes "  new: all zero bytes, never initialised\n", rw new, rw new)
    | inr old ↦ elim (Bool-cases (valid_header r p)) [
      | inr bad ↦ (
        summary r p ++ codes "  corrupt: the header offsets are out of range\n",
        rw (old, bad),
        rw (old, bad) (rw (count_byte-append, lines-summary r p)),
      )
      | inl good ↦ elim (Bool-cases (r.num_items p == 0)) [
        | inl empty ↦
            (summary r p, rw (old, good, empty), rw (old, good, empty) (lines-summary r p))
        | inr some_items ↦
            let (out, done, count) = table-Prints good in
            (
              summary r p ++ out,
              rw (old, good, some_items, done),
              rw (old, good, some_items)
                  (rw (count_byte-append, lines-summary r p) (omega (arith, count))),
            )
      ]
    ]
  ]

  -- dumpPage does not panic on any page of full size, whatever its bytes: it prints an empty line
  -- and the block number; then one line for a new page, two for a page with a corrupt header, and
  -- otherwise one for the header, and, if there are line pointers, one for the column names and one
  -- for each line pointer. PageLaws and HeaderLaws are what the methods' comments promise.
  pub dump_page-Prints : (blk : ℕ) → Prints (dump_page r h blk p) (2 + body_lines r p)
  unfolding dump_page count_byte
  dump_page-Prints blk =
      let (out, done, count) = page_body-Prints in
      (
        codes "\nblock " ++ itoa blk ++ newline ++ out,
        rw done,
        simp (count_byte-append, lines-itoa) (omega (arith, count)),
      )
