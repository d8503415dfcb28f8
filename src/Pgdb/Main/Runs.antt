-- ===== src/Pgdb/Main/Runs.antt =====
-- cmd/pgdb/main.go: what main does from its arguments to its exit status.
use build_postgres.Prelude.{
  ℕ, ◌*◌, ◌^◌, ◌-◌, ◌≤◌, ◌<◌, ◌≡◌, Bool, Option, none, some, List, [], ◌∷◌, ◌++◌, append-nil,
  length, lt→leb_false,
}
use build_postgres.Prelude.Text.{Bytes, codes, equal}
use build_postgres.Prelude.Decimal.{itoa, atoi-itoa}
use build_postgres.Prelude.Int.{pos}
use build_postgres.Prelude.Result.{Result, ok}
use mathlib.Core.Option
use build_postgres.Page.{PageReader, PageLaws, page_size}
use build_postgres.Tuple.{HeaderReader, HeaderLaws, Header}
use build_postgres.Session.{Session}
use build_postgres.Pgdb.Sample.{PageWriter, TupleWriter, FileSystem}
use build_postgres.Pgdb.Dump.{dump_page}
use build_postgres.Pgdb.Dump.File.{RelFile, heading}
use build_postgres.Pgdb.Dump.File.Blocks.{FileLaws, Printed, page, nothing, block_of, dump_lem}
use build_postgres.Pgdb.Main.{choose, main, dump_file, run_command, fail_with, perform}

choose_block :
    (path : Bytes) (b : ℕ)
    → b ≤ 2 ^ 63 - 1
    → choose (codes "dump" ∷ path ∷ itoa b ∷ []) ≡ dump_file path (pos b)
unfolding choose equal
choose_block path b small = rw (atoi-itoa b small)

Printed-one :
    {r : PageReader} {h : HeaderReader} {contents : Bytes} {b : ℕ} {out : Bytes}
    → Printed r h contents (b ∷ []) out
    → dump_page r h b (block_of contents b) ≡ some out
Printed-one (page e nothing) = rw append-nil e

module _ (h : HeaderReader) (header : Bytes → Header) (hlaws : HeaderLaws h header) (r : PageReader)
    (laws : PageLaws r) (db : Session) (open_file : Bytes → Result Bytes RelFile) (pw : PageWriter)
    (tw : TupleWriter) (fs : FileSystem) (open_session : Bytes → Result Bytes db.State)
    (close : db.State → Option Bytes) (interactive : Bool) (lines : List Bytes)
    (failed : Option Bytes) where
  -- The command dump FILE BLOCK, the block written in decimal, on a file of n whole pages and a block below
  -- n, exits with status 0, prints the heading and that page as dumpPage prints it, and no error.
  pub main_dump_block :
      (path contents : Bytes) (f : RelFile) (n b : ℕ)
      → open_file path ≡ ok f
      → FileLaws f contents
      → length contents ≡ n * page_size
      → b < n
      → b ≤ 2 ^ 63 - 1
      → (out : Bytes) × (dump_page r h b (block_of contents b) ≡ some out)
        × (main r h db open_file pw tw fs open_session close interactive lines failed
              (codes "dump" ∷ path ∷ itoa b ∷ [])
            ≡ some (record { out = heading path n ++ out; err_out = []; status = 0 }))
  unfolding main perform run_command fail_with
  main_dump_block path contents f n b opened flaws size low small =
      let (out, run, pages) =
        dump_lem h header hlaws r laws f contents flaws path (pos b) n size
          (lt→leb_false n b low) in
      (out, Printed-one pages, rw (choose_block path b small, opened, run))

-- The status of a shell, from the error of its input and the error of closing the database.
abbrev pub shell_status : Option Bytes → Option Bytes → ℕ
shell_status none none = 0
shell_status none (some e) = 1
shell_status (some e) cerr = 1
