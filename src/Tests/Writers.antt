-- ===== src/Tests/Writers.antt =====
-- A writer of pages and tuples that follows the layout of the chapters, and the file that sample writes
-- with it.
use build_postgres.Prelude.{
  ℕ, zero, suc, ◌&&◌, ◌+◌, ◌*◌, ◌/◌, ◌%◌, ◌≤◌, ◌≡◌, ◌≢◌, refl, Option, none, some, List, [], ◌∷◌,
  ◌++◌, true, false, Bool, ltb, leb, ◌==◌, ==_iff, le→leb, if◌then◌else◌, length, drop, replicate,
  arith, length-take, length-drop, Bool-cases, inl, inr, sym, ap, ◌∙◌, subst,
}
use build_postgres.Prelude.Text.{Bytes, codes}
use build_postgres.Prelude.Decimal.{itoa, right_align, left_align, hex4}
use build_postgres.Prelude.Int.{pos}
use build_postgres.Prelude.Result.{Result, ok, err}
use build_postgres.Page.{
  PageError, ItemId, slice, no_space, item_unused_error, invalid_offset, item_normal, page_size,
}
use build_postgres.Tuple.{Desc, fixed_header_size}
use build_postgres.Sql.Query.{Datum, int32_value, string_value}
use build_postgres.Pgdb.Sample.{
  PageWriter, TupleWriter, FileSystem, Sampled, made, wrote, sample, rows_text,
}
use build_postgres.Pgdb.Sample.Total.{WriterLaws, Ended, sample_total}
use build_postgres.Pgdb.Dump.{heap_row}
use build_postgres.Tests.Pages.{disk_pages, disk_headers, u16, items, pointer, fetch, whole}

abbrev le16 : ℕ → Bytes
le16 n = n % 256 ∷ n / 256 % 256 ∷ []

abbrev le32 : ℕ → Bytes
le32 n = le16 n ++ le16 (n / 65536)

-- Bytes written over others; past the end nothing is.
pub put : ℕ → Bytes → Bytes → Bytes
put off bs [] = []
put zero [] (x ∷ p) = x ∷ p
put zero (b ∷ bs) (x ∷ p) = b ∷ put zero bs p
put (suc off) bs (x ∷ p) = x ∷ put off bs p

length-put : (off : ℕ) (bs p : Bytes) → length (put off bs p) ≡ length p
unfolding put
length-put zero bs [] = refl
length-put (suc off) bs [] = refl
length-put zero [] (x ∷ p) = refl
length-put zero (b ∷ bs) (x ∷ p) = ap suc (length-put zero bs p)
length-put (suc off) bs (x ∷ p) = ap suc (length-put off bs p)

-- A line pointer that shows a part of the page.
abbrev shown : Bytes → ItemId → Bool
shown p id = id.flags == item_normal && leb 1 id.len && length (slice p id) == id.len

pub inside : Bytes → Option ItemId → Result PageError (ℕ × ℕ)
inside p none = err invalid_offset
inside p (some id) = if shown p id then ok (id.off, id.len) else err item_unused_error

-- The page with the item at upper and a line pointer more: the items stand in the order added.
placed : Bytes → Bytes → ℕ → ℕ → Bytes
placed p t lower upper =
    put 12 (le16 (lower + 4) ++ le16 (upper + length t))
      (put upper t (put lower (le32 (upper + 32768 + 131072 * length t)) p))

-- The writer looks at what it wrote.
checked : Bytes → Bytes → Bytes → ℕ → Result PageError (ℕ × ℕ) → Bytes × Result PageError ℕ
checked p q t n (err e) = (q, err e)
checked p q t n (ok (at, len)) = (q, if len == length t then ok n else err no_space)

pub append_item : Bytes → Bytes → Bytes × Result PageError ℕ
unfolding put placed checked inside pointer
append_item p t =
    let q = placed p t (u16 p 12) (u16 p 14) in
    if ltb page_size (u16 p 14 + length t)
    then (p, err no_space)
    else checked p q t (items q) (inside q (pointer q (items q)))

abbrev pub disk_writer : PageWriter
disk_writer = record {
  new =
      λ s. replicate 12 0 ++ (24 ∷ 0 ∷ 128 ∷ 0 ∷ 0 ∷ 32 ∷ 0 ∷ 0 ∷ 0 ∷ 0 ∷ 0 ∷ 0 ∷ replicate 8168 0);
  add_item = append_item;
  item_at = λ p n. inside p (pointer p n);
}

bound_of : (p : Bytes) (id : ItemId) → shown p id ≡ true → id.off + id.len ≤ length p
bound_of p id h = ground (arith, length-take id.len (drop id.off p), length-drop id.off p)

abbrev length_of : Result PageError (ℕ × ℕ) → ℕ
length_of (err e) = 0
length_of (ok (at, len)) = len

abbrev start_of : Result PageError (ℕ × ℕ) → ℕ
start_of (err e) = 0
start_of (ok (at, len)) = at

shown_bound :
    (p : Bytes) (id : ItemId) (b : Bool) (at len : ℕ)
    → shown p id ≡ b
    → (let yes : Result PageError (ℕ × ℕ) = ok (id.off, id.len) in
        if b then yes else err item_unused_error)
      ≡ ok (at, len)
    → at + len ≤ length p
shown_bound p id false at len e h = absurd (ground arith)
shown_bound p id true at len e h = omega (arith, bound_of p id e, ap start_of h, ap length_of h)

inside-bound :
    (p : Bytes) (o : Option ItemId) (at len : ℕ) → inside p o ≡ ok (at, len) → at + len ≤ length p
unfolding inside
inside-bound p none at len h = absurd (ground arith)
inside-bound p (some id) at len h = shown_bound p id (shown p id) at len refl h

length-placed : (p t : Bytes) (lower upper : ℕ) → length (placed p t lower upper) ≡ length p
unfolding placed
length-placed p t lower upper =
    let low = put lower (le32 (upper + 32768 + 131072 * length t)) p in
    length-put 12 (le16 (lower + 4) ++ le16 (upper + length t)) (put upper t low)
    ∙ length-put upper t low
    ∙ length-put lower (le32 (upper + 32768 + 131072 * length t)) p

checked_size :
    (p q t : Bytes) (m : ℕ) (r : Result PageError (ℕ × ℕ))
    → length q ≡ length p
    → length (checked p q t m r).0 ≡ length p
unfolding checked
checked_size p q t m (err e) h = h
checked_size p q t m (ok (at, len)) h = h

abbrev number_of : Result PageError ℕ → ℕ
number_of (err e) = 0
number_of (ok n) = n

-- What the writer has looked at is what is read again.
seen_len :
    (q t : Bytes) (m n at len at' len' : ℕ) (b : Bool)
    → (len' == length t) ≡ b
    → ok (at', len') ≡ inside q (pointer q m)
    → (if b then ok m else err no_space) ≡ ok n
    → inside q (pointer q n) ≡ ok (at, len)
    → len ≡ length t
seen_len q t m n at len at' len' false e h k i = absurd (ground arith)
seen_len q t m n at len at' len' true e h k i =
    let same : m ≡ n = ap number_of k in
    let again = subst (λ x. ok (at', len') ≡ inside q (pointer q x)) same h ∙ i in
    sym (ap length_of again) ∙ (==_iff len' (length t)).0 e

checked_len :
    (p q t : Bytes) (m n at len : ℕ) (r : Result PageError (ℕ × ℕ))
    → r ≡ inside q (pointer q m)
    → (checked p q t m r).1 ≡ ok n
    → inside (checked p q t m r).0 (pointer (checked p q t m r).0 n) ≡ ok (at, len)
    → len ≡ length t
unfolding checked
checked_len p q t m n at len (err e) h k i = absurd (ground arith)
checked_len p q t m n at len (ok (at', len')) h k i =
    seen_len q t m n at len at' len' (len' == length t) refl h k i

length-append_item : (p t : Bytes) → length (append_item p t).0 ≡ length p
unfolding append_item
length-append_item p t = elim (Bool-cases (ltb page_size (u16 p 14 + length t))) [
  | inl e ↦ rw e
  | inr e ↦ rw e (
      checked_size p (placed p t (u16 p 12) (u16 p 14)) t _ _
        (length-placed p t (u16 p 12) (u16 p 14)))
]

append_item_len :
    (p t : Bytes) (full : Bool) (n at len : ℕ)
    → let q = placed p t (u16 p 12) (u16 p 14) in
      let a : Bytes × Result PageError ℕ =
        if full
        then (p, err no_space)
        else checked p q t (items q) (inside q (pointer q (items q))) in
      a.1 ≡ ok n → inside a.0 (pointer a.0 n) ≡ ok (at, len) → len ≡ length t
append_item_len p t true n at len k i = absurd (ground arith)
append_item_len p t false n at len k i =
    let q = placed p t (u16 p 12) (u16 p 14) in
    checked_len p q t (items q) n at len (inside q (pointer q (items q))) refl k i

-- A header of 24 bytes, the integer, and the length and the bytes of the string.
abbrev form_row : ℕ → Bytes → Bytes
form_row a s =
    (0 ∷ 0 ∷ 0 ∷ 0 ∷ 0 ∷ 0 ∷ 0 ∷ 0 ∷ 0 ∷ 0 ∷ 0 ∷ 0 ∷ 0 ∷ 0 ∷ 2 ∷ 0 ∷ 0 ∷ 0 ∷ 24 ∷ 0 ∷ 0 ∷ 0 ∷ 0 ∷ 0
      ∷ [])
    ++ (le32 a ++ (le32 (length s) ++ s))

abbrev form : Desc → List Datum → Result Bytes Bytes
form d (int32_value (pos a) ∷ string_value s ∷ []) = ok (form_row a s)
form d vs = err (codes "tuple: value has wrong type")

abbrev row_of : Result Bytes Bytes → Bytes
row_of (err e) = []
row_of (ok t) = t

form-Long :
    (d : Desc) (vs : List Datum) (t : Bytes) → form d vs ≡ ok t → fixed_header_size ≤ length t
form-Long d (int32_value (pos a) ∷ string_value s ∷ []) t h =
    subst (λ x. fixed_header_size ≤ length x) (ap row_of h) (omega arith)
form-Long d vs t h = absurd (ground arith)

abbrev set : Bytes → ℕ → Bytes → Option Bytes
set t off bs = if leb fixed_header_size (length t) then some (put off bs t) else none

set_lem :
    (t : Bytes) (off : ℕ) (bs : Bytes)
    → fixed_header_size ≤ length t
    → (u : Bytes) × (set t off bs ≡ some u) × (length u ≡ length t)
set_lem t off bs h = (put off bs t, rw (le→leb _ _ h), length-put off bs t)

abbrev pub disk_tuples : TupleWriter
disk_tuples = record {
  form = form;
  set_xmin = λ t x. set t 0 (le32 x);
  set_xmax = λ t x. set t 4 (le32 x);
  set_ctid = λ t id. set t 8 (le32 id.block ++ le16 id.off);
}

pub disk_writer_laws : WriterLaws disk_writer disk_tuples
unfolding append_item
disk_writer_laws = record {
  new_size = refl;
  add_size = length-append_item;
  item_inside = λ p n at len h. inside-bound p (pointer p n) at len h;
  item_size = λ p t n at len k i. append_item_len p t _ n at len k i;
  form_size = form-Long;
  set_xmin_lem = λ t x h. set_lem t 0 (le32 x) h;
  set_xmax_lem = λ t x h. set_lem t 4 (le32 x) h;
  set_ctid_lem = λ t id h. set_lem t 8 (le32 id.block ++ le16 id.off) h;
}

abbrev joined : List Bytes → Bytes
joined [] = []
joined (s ∷ []) = s
joined (s ∷ t ∷ more) = s ++ codes "/" ++ joined (t ∷ more)

-- A directory that does not exist.
abbrev pub fresh : FileSystem
fresh = record {
  read_dir = λ d. ([], some (true, codes "no such file or directory"));
  join = joined;
  dir = λ path. codes "data/base";
  mkdir_all = λ path. none;
  write_file = λ path p. none;
}

abbrev page_of : Option Sampled → Bytes
page_of none = []
page_of (some s) = elim s.calls [ _ ∷ wrote f p ∷ [] ↦ p | _ ↦ [] ]

sample_page : Bytes
unfolding append_item sample
sample_page = page_of (sample disk_writer disk_tuples fresh (codes "data"))

abbrev sample_result : Sampled
sample_result = record {
  run = record { out = codes "3 rows of (a int4, b text) in data/base/16384\n"; error = none };
  calls = made (codes "data/base") ∷ wrote (codes "data/base/16384") sample_page ∷ [];
}

sample_run : sample disk_writer disk_tuples fresh (codes "data") ≡ some sample_result
unfolding append_item sample sample_page rows_text itoa
sample_run = refl

-- The line of the last row, read again.
sample_row :
    heap_row disk_pages disk_headers sample_page 3
    ≡ some (codes "    3      201     37 normal        1      0    (0,3)      2    24    0x0000\n")
unfolding heap_row pointer fetch whole append_item itoa right_align left_align sample_page hex4
sample_row = refl

sample_total_example :
    (s : Sampled) × (sample disk_writer disk_tuples fresh (codes "data") ≡ some s)
    × Ended fresh (codes "data") s
    × ((fresh.read_dir (codes "data")).0 ≢ [] → s.calls ≡ [])
sample_total_example = sample_total fresh (codes "data") disk_writer disk_tuples disk_writer_laws
