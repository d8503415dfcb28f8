-- ===== src/Pgdb/Dump/File.antt =====
-- cmd/pgdb/dump.go: dump, over an open file. The file is a parameter: `RelFile` has the calls that dump
-- makes of it, and `FileLaws` what os.File promises of them for a file of the given contents.
pub mod Base
pub mod Blocks
use build_postgres.Prelude.{
  ◌>>=◌, ℕ, zero, suc, ◌+◌, ◌*◌, ◌/◌, ◌%◌, Bool, false, not, Option, none, some, [], ◌++◌, leb,
  ◌==◌, if◌then◌else◌,
}
use build_postgres.Prelude.Text.{Bytes, codes, newline}
use build_postgres.Prelude.Decimal.{itoa, itoa_int}
use build_postgres.Prelude.Int.{ℤ, pos, negsuc}
use build_postgres.Pgdb.Dump.File.Base.{base_name}
use build_postgres.Prelude.Result.{Result, ok, err}
use build_postgres.Page.{PageReader, page_size}
use build_postgres.Tuple.{HeaderReader}
use build_postgres.Pgdb.Dump.{dump_page}

-- Stat().Size() and ReadAt(buf, off) for a buffer of a page. An error is its text.
pub record RelFile : Type 0 where
  pub size : Result Bytes ℕ
  pub read_at : ℕ → Result Bytes Bytes

-- What a run prints and the error that it returns.
pub record Run : Type 0 where
  pub out : Bytes
  pub error : Option Bytes

-- map[bool]string{false: "s", true: ""}[n == 1]
unfoldable pub plural : ℕ → Bytes
plural n = if n == 1 then [] else codes "s"

unfoldable pub size_error : Bytes → ℕ → Bytes
size_error path size =
    path ++ codes ": " ++ itoa size ++ codes " bytes is not a multiple of " ++ itoa page_size

unfoldable pub block_error : Bytes → ℤ → ℕ → Bytes
unfolding plural
block_error path blk nblocks =
    path
    ++ codes ": no block "
    ++ itoa_int blk
    ++ codes ", the file has "
    ++ itoa nblocks
    ++ codes " block"
    ++ plural nblocks

unfoldable pub heading : Bytes → ℕ → Bytes
unfolding plural base_name
heading path nblocks =
    base_name path ++ codes ": " ++ itoa nblocks ++ codes " block" ++ plural nblocks ++ newline

-- blk >= n
abbrev pub at_least : ℤ → ℕ → Bool
at_least (pos b) n = leb n b
at_least (negsuc b) n = false

-- blk >= 0 && b != blk
abbrev pub skipped : ℤ → ℕ → Bool
skipped (pos k) b = not (b == k)
skipped (negsuc k) b = false

module _ (r : PageReader) (h : HeaderReader) (f : RelFile) where
  -- A round of the loop that does not skip the block, with the rounds behind it.
  unfoldable pub dump_block : ℕ → Result Bytes Bytes → Option Run → Option Run
  dump_block b (err e) rest = some (record { out = []; error = some e })
  dump_block b (ok buf) rest = do
    out ← dump_page r h b buf
    more ← rest
    some (record { out = out ++ more.out; error = more.error })

  -- The loop from block b on, with `count` blocks left; none is a panic.
  unfoldable pub dump_blocks : ℤ → ℕ → ℕ → Option Run
  unfolding dump_block
  dump_blocks blk b zero = some (record { out = []; error = none })
  dump_blocks blk b (suc count) =
      let rest = dump_blocks blk (b + 1) count in
      if skipped blk b then rest else dump_block b (f.read_at (b * page_size)) rest

  -- dump behind os.Open and Stat.
  unfoldable pub dump_sized : Bytes → ℤ → ℕ → Option Run
  unfolding dump_blocks size_error block_error heading
  dump_sized path blk size =
      let nblocks = size / page_size in
      if not (size % page_size == 0)
      then some (record { out = []; error = some (size_error path size) })
      else if at_least blk nblocks
      then some (record { out = []; error = some (block_error path blk nblocks) })
      else (do
        rest ← dump_blocks blk 0 nblocks
        some (record { out = heading path nblocks ++ rest.out; error = rest.error }))

-- dump; the file is what os.Open returns.
unfoldable pub dump : PageReader → HeaderReader → Result Bytes RelFile → Bytes → ℤ → Option Run
unfolding dump_sized
dump r h (err e) path blk = some (record { out = []; error = some e })
dump r h (ok f) path blk = elim f.size [
  | err e ↦ some (record { out = []; error = some e })
  | ok size ↦ dump_sized r h f path blk size
]
