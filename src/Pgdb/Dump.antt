-- ===== src/Pgdb/Dump.antt =====
-- cmd/pgdb/dump.go: what dump prints of a page. A none is a panic: an item number that ItemID
-- refuses, or a header method on a slice that is too short.
pub mod Guards
pub mod Lines
pub mod Total
pub mod File
use build_postgres.Prelude.{
  ◌>>=◌, ℕ, zero, suc, ◌+◌, ◌-◌, ◌%◌, Bool, not, ◌&&◌, ◌||◌, Option, none, some, [], ◌++◌, ltb, leb,
  ◌==◌, if◌then◌else◌, length,
}
use build_postgres.Prelude.Text.{Bytes, codes, newline}
use build_postgres.Prelude.Decimal.{itoa, right_align, left_align, hex4}
use build_postgres.Prelude.Result.{Result, ok, err}
use build_postgres.Page.{
  PageError, PageReader, ItemId, page_size, header_size, line_pointer_size, item_unused,
  item_normal, item_redirect,
}
use build_postgres.Tuple.{HeaderReader, Header, Tid, fixed_header_size}

-- flagName
unfoldable pub flag_name : ℕ → Bytes
flag_name f =
    if f == item_unused
    then codes "unused"
    else if f == item_normal
    then codes "normal"
    else if f == item_redirect
    then codes "redirect"
    else codes "dead"

-- %Nd
abbrev pub number : ℕ → ℕ → Bytes
number width n = right_align width (itoa n)

-- The line of column names, and what stands for the tuple columns of a line pointer without one.
abbrev pub index_columns : Bytes
index_columns = codes "    n   offset    len flags\n"

abbrev pub heap_columns : Bytes
heap_columns =
    codes "    n   offset    len flags      xmin   xmax     ctid  natts  hoff  infomask\n"

abbrev pub no_tuple : Bytes
no_tuple = codes "      -      -        -      -     -         -\n"

-- fmt.Sprintf("(%d,%d)", ctid.Block, ctid.Off)
unfoldable pub ctid_text : Tid → Bytes
ctid_text t = codes "(" ++ itoa t.block ++ codes "," ++ itoa t.off ++ codes ")"

unfoldable pub infomask_text : ℕ → Bytes
infomask_text m = codes "0x" ++ hex4 m

-- What heapItem makes of the result of GetItem.
unfoldable pub whole_header : Result PageError Bytes → Option Bytes
whole_header (err e) = none
whole_header (ok item) = if ltb (length item) fixed_header_size then none else some item

-- The columns of a line pointer in both tables.
unfoldable pub pointer_columns : ℕ → ItemId → Bytes
pointer_columns n id =
    codes "  "
    ++ number 3 n
    ++ codes " "
    ++ number 8 id.off
    ++ codes " "
    ++ number 6 id.len
    ++ codes " "

-- for n := page.OffsetNumber(1); n <= p.NumItems(); n++: the counter is a uint16. The fuel is one
-- more than the rounds; none is a panic of a row.
unfoldable pub rows : (ℕ → Option Bytes) → ℕ → ℕ → ℕ → Option Bytes
rows row zero n last = none
rows row (suc f) n last =
    let rest = rows row f ((n + 1) % 65536) last in
    if leb n last then (row n >>= λ line. rest >>= λ lines. some (line ++ lines)) else some []

module _ (r : PageReader) where
  -- validHeader
  unfoldable pub valid_header : Bytes → Bool
  valid_header p =
      leb header_size (r.lower p)
      && leb (r.lower p) (r.upper p)
      && leb (r.upper p) (r.special p)
      && leb (r.special p) page_size
      && (r.lower p - header_size) % line_pointer_size == 0

  -- heapItem; some none is its answer false.
  unfoldable pub heap_item : Bytes → ℕ → ItemId → Option (Option Bytes)
  unfolding whole_header
  heap_item p n id =
      if ltb id.off header_size || ltb page_size (id.off + id.len)
      then some none
      else do res ← r.get_item p n; some (whole_header res)

  unfoldable pub index_row : Bytes → ℕ → Option Bytes
  unfolding pointer_columns flag_name
  index_row p n = do
    id ← r.item_id p n
    some (pointer_columns n id ++ flag_name id.flags ++ newline)

  unfoldable pub summary : Bytes → Bytes
  summary p =
      codes "  lsn "
      ++ itoa (r.lsn p)
      ++ codes "  lower "
      ++ itoa (r.lower p)
      ++ codes "  upper "
      ++ itoa (r.upper p)
      ++ codes "  special "
      ++ itoa (r.special p)
      ++ codes "  free "
      ++ itoa (r.free_space p)
      ++ codes "  items "
      ++ itoa (r.num_items p)
      ++ newline

-- The columns of a tuple header.
unfoldable pub header_columns : Header → Bytes
unfolding ctid_text infomask_text
header_columns t =
    codes " "
    ++ number 6 t.xmin
    ++ codes " "
    ++ number 6 t.xmax
    ++ codes " "
    ++ right_align 8 (ctid_text t.ctid)
    ++ codes " "
    ++ number 6 t.natts
    ++ codes " "
    ++ number 5 t.hoff
    ++ codes " "
    ++ right_align 9 (infomask_text t.infomask)
    ++ newline

module _ (h : HeaderReader) where
  -- The header fields, read in the order of the call's arguments.
  unfoldable pub read_header : Bytes → Option Header
  read_header t = do
    ctid ← h.ctid t
    xmin ← h.xmin t
    xmax ← h.xmax t
    natts ← h.natts t
    hoff ← h.hoff t
    infomask ← h.infomask t
    some (record {
      xmin = xmin;
      xmax = xmax;
      ctid = ctid;
      natts = natts;
      hoff = hoff;
      infomask = infomask;
    })

  -- The end of a line of the heap table.
  unfoldable pub item_columns : Option Bytes → Option Bytes
  unfolding read_header header_columns
  item_columns none = some no_tuple
  item_columns (some item) = do t ← read_header item; some (header_columns t)

module _ (r : PageReader) (h : HeaderReader) where
  unfoldable pub heap_row : Bytes → ℕ → Option Bytes
  unfolding pointer_columns flag_name heap_item item_columns
  heap_row p n = do
    id ← r.item_id p n
    item ← heap_item r p n id
    rest ← item_columns h item
    some (pointer_columns n id ++ left_align 8 (flag_name id.flags) ++ rest)

  -- The table of line pointers: for an index page without the tuple columns.
  unfoldable pub table : Bytes → Option Bytes
  unfolding rows index_row heap_row
  table p =
      if not (r.special p == page_size)
      then (do
        lines ← rows (index_row r p) (suc (r.num_items p)) 1 (r.num_items p)
        some (index_columns ++ lines))
      else (do
        lines ← rows (heap_row p) (suc (r.num_items p)) 1 (r.num_items p)
        some (heap_columns ++ lines))

  -- What dumpPage prints behind the block number.
  unfoldable pub page_body : Bytes → Option Bytes
  unfolding valid_header summary table
  page_body p =
      if r.is_new p
      then some (codes "  new: all zero bytes, never initialised\n")
      else if not (valid_header r p)
      then some (summary r p ++ codes "  corrupt: the header offsets are out of range\n")
      else if r.num_items p == 0
      then some (summary r p)
      else (do lines ← table p; some (summary r p ++ lines))

  -- dumpPage
  unfoldable pub dump_page : ℕ → Bytes → Option Bytes
  unfolding page_body
  dump_page blk p = do body ← page_body p; some (codes "\nblock " ++ itoa blk ++ newline ++ body)
