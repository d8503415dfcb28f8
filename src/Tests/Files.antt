-- ===== src/Tests/Files.antt =====
-- dump of a file of one page.
use build_postgres.Prelude.{◌≡◌, refl, some, ◌++◌, length, take, drop}
use build_postgres.Prelude.Text.{Bytes, codes}
use build_postgres.Prelude.Int.{pos}
use build_postgres.Prelude.Result.{ok}
use build_postgres.Page.{page_size}
use build_postgres.Pgdb.Dump.File.{RelFile, dump, heading}
use build_postgres.Pgdb.Dump.File.Blocks.{FileLaws, Printed, wanted, done, dump_lem}
use build_postgres.Tests.Pages.{
  disk_pages, disk_pages_laws, disk_headers, disk_headers_laws, disk_header, torn_page,
  torn_page_size,
}

abbrev pub one_page : RelFile
one_page = record {
  size = ok (length torn_page);
  read_at = λ off. ok (take page_size (drop off torn_page));
}

pub one_page_laws : FileLaws one_page torn_page
one_page_laws = record { size_lem = refl; read_at_lem = λ b h. refl }

dump_lem_example :
    (out : Bytes) × (dump disk_pages disk_headers (ok one_page) (codes "base/1259") (pos 0)
      ≡ some (done (heading (codes "base/1259") 1 ++ out)))
    × Printed disk_pages disk_headers torn_page (wanted (pos 0) 1) out
dump_lem_example =
    dump_lem disk_headers disk_header disk_headers_laws disk_pages disk_pages_laws one_page
      torn_page one_page_laws (codes "base/1259") (pos 0) 1 torn_page_size refl
