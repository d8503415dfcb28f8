-- ===== src/Tests/Pages.antt =====
-- A reader of pages and tuple headers that follows the layout of the chapters, and a page whose one line
-- pointer shows past its end.
use build_postgres.Prelude.{
  ℕ, ◌+◌, ◌-◌, ◌*◌, ◌/◌, ◌%◌, ◌≤◌, ◌≡◌, refl, ◌≢◌, ◌↔◌, ◌⊎◌, true, false, ◌&&◌, Option, none, some,
  ◌∷◌, ◌++◌, arith, ltb, leb, ◌==◌, if◌then◌else◌, le→leb, length, get_or, replicate,
}
use build_postgres.Prelude.Text.{Bytes, codes}
use build_postgres.Prelude.Decimal.{itoa, right_align, left_align}
use build_postgres.Prelude.Result.{Result, ok, err}
use build_postgres.Page.{
  PageReader, PageLaws, ItemId, PageError, InRange, slice, page_size, header_size,
  line_pointer_size, item_normal, item_unused_error, invalid_offset,
}
use build_postgres.Tuple.{HeaderReader, HeaderLaws, Header, fixed_header_size}
use build_postgres.Pgdb.Dump.{valid_header, heap_item, dump_page}
use build_postgres.Pgdb.Dump.Guards.{valid_header_iff, heap_item_lem, PointsAtHeader}
use build_postgres.Pgdb.Dump.Lines.{Prints}
use build_postgres.Pgdb.Dump.Total.{dump_page-Prints, body_lines}

abbrev pub byte : Bytes → ℕ → ℕ
byte p i = get_or p i 0

abbrev pub u16 : Bytes → ℕ → ℕ
u16 p i = byte p i + 256 * byte p (i + 1)

abbrev pub u32 : Bytes → ℕ → ℕ
u32 p i = u16 p i + 65536 * u16 p (i + 2)

abbrev pub items : Bytes → ℕ
items p = (u16 p 12 - header_size) / line_pointer_size

-- 15 bits of offset, 2 of flags and 15 of length
unfoldable pub decode : ℕ → ItemId
decode w = record { off = w % 32768; len = w / 131072; flags = w / 32768 % 4 }

unfoldable pub pointer : Bytes → ℕ → Option ItemId
unfolding decode
pointer p n = if leb 1 n && leb n (items p) then some (decode (u32 p (20 + 4 * n))) else none

unfoldable pub fetch : Bytes → Option ItemId → Option (Result PageError Bytes)
fetch p none = some (err invalid_offset)
fetch p (some id) =
    if id.flags == item_normal
    then (if leb (id.off + id.len) (length p) then some (ok (slice p id)) else none)
    else some (err item_unused_error)

abbrev pub disk_pages : PageReader
disk_pages = record {
  is_new = λ p. u16 p 14 == 0;
  lsn = λ p. u32 p 0;
  lower = λ p. u16 p 12;
  upper = λ p. u16 p 14;
  special = λ p. u16 p 16;
  num_items = items;
  item_id = pointer;
  free_space = λ p. u16 p 14 - u16 p 12 - line_pointer_size;
  get_item = λ p n. fetch p (pointer p n);
}

pointer-some :
    (p : Bytes) (n : ℕ) → InRange disk_pages p n → (id : ItemId) × (pointer p n ≡ some id)
unfolding pointer
pointer-some p n range = (decode (u32 p (20 + 4 * n)), ground arith)

fetch_unused :
    (p : Bytes) (id : ItemId)
    → id.flags ≢ item_normal
    → fetch p (some id) ≡ some (err item_unused_error)
unfolding fetch
fetch_unused p id h = ground arith

fetch_normal :
    (p : Bytes) (id : ItemId)
    → id.flags ≡ item_normal
    → id.off + id.len ≤ length p
    → fetch p (some id) ≡ some (ok (slice p id))
unfolding fetch
fetch_normal p id h k = rw h (rw (le→leb _ _ k))

pub disk_pages_laws : PageLaws disk_pages
disk_pages_laws = record {
  num_items_lem = λ p. refl;
  item_id_lem = pointer-some;
  get_item_unused = λ p n id e h. rw e (fetch_unused p id h);
  get_item_normal = λ p n id e h k. rw e (fetch_normal p id h k);
}

unfoldable pub whole : {A : Type 0} → Bytes → A → Option A
whole t a = if ltb (length t) fixed_header_size then none else some a

abbrev pub disk_header : Bytes → Header
disk_header t = record {
  xmin = u32 t 0;
  xmax = u32 t 4;
  ctid = record { block = u32 t 8; off = u16 t 12 };
  natts = u16 t 14 % 2048;
  hoff = byte t 18;
  infomask = u16 t 16;
}

abbrev pub disk_headers : HeaderReader
disk_headers = record {
  xmin = λ t. whole t (disk_header t).xmin;
  xmax = λ t. whole t (disk_header t).xmax;
  ctid = λ t. whole t (disk_header t).ctid;
  natts = λ t. whole t (disk_header t).natts;
  hoff = λ t. whole t (disk_header t).hoff;
  infomask = λ t. whole t (disk_header t).infomask;
}

whole_lem : {A : Type 0} (t : Bytes) (a : A) → fixed_header_size ≤ length t → whole t a ≡ some a
unfolding whole
whole_lem t a h = let long : ltb (length t) fixed_header_size ≡ false = ground arith in rw long

pub disk_headers_laws : HeaderLaws disk_headers disk_header
disk_headers_laws = record {
  xmin_lem = λ t h. whole_lem t (disk_header t).xmin h;
  xmax_lem = λ t h. whole_lem t (disk_header t).xmax h;
  ctid_lem = λ t h. whole_lem t (disk_header t).ctid h;
  natts_lem = λ t h. whole_lem t (disk_header t).natts h;
  hoff_lem = λ t h. whole_lem t (disk_header t).hoff h;
  infomask_lem = λ t h. whole_lem t (disk_header t).infomask h;
}

-- lower 28, upper 8192, special 8192; offset 8100, normal, length 200
abbrev pub torn_page : Bytes
torn_page =
    replicate 12 0
    ++ (28 ∷ 0 ∷ 0 ∷ 32 ∷ 0 ∷ 32 ∷ 0 ∷ 0 ∷ 0 ∷ 0 ∷ 0 ∷ 0 ∷ 164 ∷ 159 ∷ 144 ∷ 1 ∷ replicate 8164 0)

pub torn_page_size : length torn_page ≡ page_size
torn_page_size = refl

abbrev torn_pointer : ItemId
torn_pointer = record { off = 8100; len = 200; flags = 1 }

torn_page_pointer : disk_pages.item_id torn_page 1 ≡ some torn_pointer
unfolding pointer
torn_page_pointer = refl

dump_page-Prints_example :
    Prints (dump_page disk_pages disk_headers 0 torn_page) (2 + body_lines disk_pages torn_page)
dump_page-Prints_example =
    dump_page-Prints disk_headers disk_header disk_headers_laws disk_pages disk_pages_laws torn_page
      torn_page_size 0

heap_item_lem_example :
    (PointsAtHeader torn_pointer
      × (heap_item disk_pages torn_page 1 torn_pointer
          ≡ some (some (slice torn_page torn_pointer))))
    ⊎ ((¬ PointsAtHeader torn_pointer)
        × (heap_item disk_pages torn_page 1 torn_pointer ≡ some none))
heap_item_lem_example =
    heap_item_lem disk_pages disk_pages_laws torn_page 1 torn_pointer torn_page_size
      torn_page_pointer

valid_header_iff_example : (valid_header disk_pages torn_page ≡ true) ↔ (
    (header_size + line_pointer_size * disk_pages.num_items torn_page ≡ disk_pages.lower torn_page)
    × (disk_pages.lower torn_page ≤ disk_pages.upper torn_page)
    × (disk_pages.upper torn_page ≤ disk_pages.special torn_page)
    × (disk_pages.special torn_page ≤ page_size))
valid_header_iff_example = valid_header_iff disk_pages disk_pages_laws torn_page

-- What TestDumpItemPointerOutOfRange expects.
torn_page_dump :
    dump_page disk_pages disk_headers 0 torn_page
    ≡ some (
        codes "\nblock 0\n"
        ++ codes "  lsn 0  lower 28  upper 8192  special 8192  free 8160  items 1\n"
        ++ codes "    n   offset    len flags      xmin   xmax     ctid  natts  hoff  infomask\n"
        ++ codes "    1     8100    200 normal        -      -        -      -     -         -\n")
unfolding dump_page pointer itoa right_align left_align
torn_page_dump = refl
