-- ===== src/Pgdb/Sample.antt =====
-- cmd/pgdb/dump.go: sample, which writes the page of a small relation. The operating system and the
-- methods that build tuples and pages, which are exercises, are parameters; none is a panic.
pub mod Total
use build_postgres.Prelude.{
  ◌>>=◌, ℕ, ◌+◌, ◌/◌, Bool, true, false, Option, none, some, List, [], ◌∷◌, ◌++◌, length, take,
  drop,
}
use build_postgres.Prelude.Text.{Bytes, codes, newline}
use build_postgres.Prelude.Decimal.{itoa}
use build_postgres.Prelude.Int.{pos}
use build_postgres.Prelude.Result.{Result, ok, err}
use build_postgres.Page.{PageError, no_space, item_too_large, invalid_offset, item_unused_error}
use build_postgres.Tuple.{Attr, Desc, Tid, new_desc, int4, text, invalid_xid}
use build_postgres.Sql.Query.{Datum, int32_value, string_value}
use build_postgres.Pgdb.Dump.File.{Run}

-- Page.New; Page.AddItem, with the page behind it; and Page.GetItem as the bounds of the slice of the
-- page that it returns, since what is written to the slice is written to the page.
pub record PageWriter : Type 0 where
  pub new : ℕ → Bytes
  pub add_item : Bytes → Bytes → Bytes × Result PageError ℕ
  pub item_at : Bytes → ℕ → Result PageError (ℕ × ℕ)

-- tuple.Form without nulls, and the setters of the header.
pub record TupleWriter : Type 0 where
  pub form : Desc → List Datum → Result Bytes Bytes
  pub set_xmin : Bytes → ℕ → Option Bytes
  pub set_xmax : Bytes → ℕ → Option Bytes
  pub set_ctid : Bytes → Tid → Option Bytes

-- os.ReadDir with its entries and its error, of which os.IsNotExist tells the kind; filepath.Join and Dir;
-- os.MkdirAll and WriteFile with their errors.
pub record FileSystem : Type 0 where
  pub read_dir : Bytes → List Bytes × Option (Bool × Bytes)
  pub join : List Bytes → Bytes
  pub dir : Bytes → Bytes
  pub mkdir_all : Bytes → Option Bytes
  pub write_file : Bytes → Bytes → Option Bytes

-- The calls that change the file system.
pub data Call : Type 0 where
  made : Bytes → Call
  wrote : Bytes → Bytes → Call

pub record Sampled : Type 0 where
  pub run : Run
  pub calls : List Call

abbrev pub sample_oid : ℕ
sample_oid = 16384

-- The texts of the errors of package page.
unfoldable pub page_error_text : PageError → Bytes
page_error_text no_space = codes "page: no space for item"
page_error_text item_too_large = codes "page: item larger than page"
page_error_text invalid_offset = codes "page: invalid item number"
page_error_text item_unused_error = codes "page: item is unused"

unfoldable pub sample_desc : Desc
unfolding new_desc
sample_desc = new_desc (
    record { name = codes "a"; typ = int4; not_null = false }
    ∷ record { name = codes "b"; typ = text; not_null = false }
    ∷ [])

unfoldable pub sample_rows : List Datum
sample_rows =
    int32_value (pos 1)
    ∷ string_value (codes "alpha")
    ∷ int32_value (pos 2)
    ∷ string_value (codes "beta")
    ∷ int32_value (pos 3)
    ∷ string_value (codes "gamma")
    ∷ []

-- A page after a slice of it is overwritten.
abbrev pub overwrite : Bytes → ℕ × ℕ → Bytes → Bytes
overwrite p (off, len) item = take off p ++ (item ++ drop (off + len) p)

-- A panic, an error, or a page.
abbrev pub Step : Type 0
Step = Option (Result Bytes Bytes)

abbrev pub and_then : Result Bytes Bytes → (Bytes → Step) → Step
and_then (err e) k = some (err e)
and_then (ok p) k = k p

-- return err: nothing is printed.
abbrev pub stop : List Call → Bytes → Sampled
stop calls e = record { run = record { out = []; error = some e }; calls = calls }

module _ (pw : PageWriter) (tw : TupleWriter) where
  -- What follows p.GetItem(off).
  unfoldable pub point : Bytes → ℕ → Result PageError (ℕ × ℕ) → Step
  unfolding page_error_text
  point p off (err e) = some (err (page_error_text e))
  point p off (ok (at, len)) = do
    item ← tw.set_ctid (take len (drop at p)) (record { block = 0; off = off })
    some (ok (overwrite p (at, len) item))

  -- What follows p.AddItem(t).
  unfoldable pub added : Bytes × Result PageError ℕ → Step
  unfolding page_error_text point
  added (p, err e) = some (err (page_error_text e))
  added (p, ok off) = point p off (pw.item_at p off)

  -- What follows tuple.Form.
  unfoldable pub store : Bytes → Result Bytes Bytes → Step
  unfolding added
  store p (err e) = some (err e)
  store p (ok t) = do a ← tw.set_xmin t 1; b ← tw.set_xmax a invalid_xid; added (pw.add_item p b)

  -- The loop over the rows, on the values that are left.
  unfoldable pub fill : Bytes → List Datum → Step
  unfolding store sample_desc
  fill p [] = some (ok p)
  fill p (a ∷ []) = none
  fill p (a ∷ b ∷ rest) = do
    r ← store p (tw.form sample_desc (a ∷ b ∷ []))
    and_then r (λ q. fill q rest)

unfoldable pub rows_text : Bytes → Bytes
unfolding sample_rows
rows_text file =
    itoa (length sample_rows / 2) ++ codes " rows of (a int4, b text) in " ++ file ++ newline

module _ (fs : FileSystem) where
  unfoldable pub file_of : Bytes → Bytes
  file_of d = fs.join (d ∷ codes "base" ∷ itoa sample_oid ∷ [])

  abbrev pub written : Bytes → Bytes → Option Bytes → Sampled
  written file p (some e) = stop (made (fs.dir file) ∷ wrote file p ∷ []) e
  written file p none = record {
    run = record { out = rows_text file; error = none };
    calls = made (fs.dir file) ∷ wrote file p ∷ [];
  }

  abbrev pub write : Bytes → Bytes → Option Bytes → Sampled
  write file p (some e) = stop (made (fs.dir file) ∷ []) e
  write file p none = written file p (fs.write_file file p)

  -- What follows the loop over the rows.
  unfoldable pub finish : Bytes → Result Bytes Bytes → Sampled
  unfolding file_of
  finish d (err e) = stop [] e
  finish d (ok p) = write (file_of d) p (fs.mkdir_all (fs.dir (file_of d)))

  unfoldable pub not_empty : Bytes → Bytes
  not_empty d = d ++ codes ": not empty, sample needs a fresh directory"

  -- What follows os.ReadDir.
  unfoldable pub sample_in : Bytes → Step → List Bytes × Option (Bool × Bytes) → Option Sampled
  unfolding finish not_empty
  sample_in d filled (entries, some (false, e)) = some (stop [] e)
  sample_in d filled (e ∷ entries, error) = some (stop [] (not_empty d))
  sample_in d filled ([], error) = do r ← filled; some (finish d r)

unfoldable pub sample : PageWriter → TupleWriter → FileSystem → Bytes → Option Sampled
unfolding fill sample_rows sample_in
sample pw tw fs d = sample_in fs d (fill pw tw (pw.new 0) sample_rows) (fs.read_dir d)
