-- ===== src/Tests/Mains.antt =====
-- main on the arguments of a dump, of a shell, and on arguments that it refuses.
use build_postgres.Prelude.{
  ◌≡◌, refl, ◌++◌, none, some, List, [], ◌∷◌, Option, arith, true, false, ℕ, ◌+◌, if◌then◌else◌,
  leb, length, take, drop,
}
use build_postgres.Prelude.Text.{Bytes, codes, equal}
use build_postgres.Prelude.Decimal.{itoa, atoi}
use build_postgres.Prelude.Result.{Result, ok, err}
use build_postgres.Pgdb.Dump.{dump_page}
use build_postgres.Pgdb.Dump.File.{RelFile, heading}
use build_postgres.Pgdb.Dump.File.Blocks.{block_of}
use build_postgres.Page.{page_size}
use build_postgres.Pgdb.Main.{Exit, main}
use build_postgres.Pgdb.Main.Arguments.{Valid, dump_block, main_refuses}
use build_postgres.Pgdb.Main.Runs.{main_dump_block}
use build_postgres.Tests.Pages.{
  disk_pages, disk_pages_laws, disk_headers, disk_headers_laws, disk_header, torn_page,
  torn_page_size,
}
use build_postgres.Tests.Writers.{disk_writer, disk_tuples, fresh}
use build_postgres.Tests.Files.{one_page, one_page_laws}
use build_postgres.Tests.Sessions.{diary, script}

abbrev files : Bytes → Result Bytes RelFile
files path = ok one_page

abbrev empty_diary : Bytes → Result Bytes (List Bytes)
empty_diary d = ok []

abbrev torn_close : List Bytes → Option Bytes
torn_close s = some (codes "close: disk full")

main_dump_block_example :
    (out : Bytes) × (dump_page disk_pages disk_headers 0 (block_of torn_page 0) ≡ some out)
    × (main disk_pages disk_headers diary files disk_writer disk_tuples fresh empty_diary torn_close
          false script none
          (codes "dump" ∷ codes "base/1259" ∷ itoa 0 ∷ [])
        ≡ some (record { out = heading (codes "base/1259") 1 ++ out; err_out = []; status = 0 }))
main_dump_block_example =
    main_dump_block disk_headers disk_header disk_headers_laws disk_pages disk_pages_laws diary
      files disk_writer disk_tuples fresh empty_diary torn_close false script none
      (codes "base/1259") torn_page one_page 1 0 refl one_page_laws torn_page_size (omega arith)
      (omega arith)

-- A block that is no number.
abbrev minus_block : List Bytes
minus_block = codes "dump" ∷ codes "base/1259" ∷ codes "-1" ∷ []

minus_block_bad : ¬ Valid minus_block
unfolding atoi
minus_block_bad (dump_block f t b e) = cc

main_refuses_example :
    (x : Exit) × (main disk_pages disk_headers diary files disk_writer disk_tuples fresh empty_diary
        torn_close true script none minus_block
      ≡ some x)
    × (x.status ≡ 2)
    × (x.out ≡ [])
main_refuses_example =
    main_refuses disk_pages disk_headers diary files disk_writer disk_tuples fresh empty_diary
      torn_close true script none minus_block minus_block_bad

-- A file of one page whose ReadAt fails past its end.
abbrev read_torn : ℕ → Result Bytes Bytes
read_torn off =
    if leb (off + page_size) (length torn_page)
    then ok (take page_size (drop off torn_page))
    else err (codes "EOF")

abbrev short_file : RelFile
short_file = record { size = ok (length torn_page); read_at = read_torn }

-- The only file is relation 1259.
abbrev base : Bytes → Result Bytes RelFile
base path = if equal path (codes "base/1259") then ok short_file else err (codes "no such file")
