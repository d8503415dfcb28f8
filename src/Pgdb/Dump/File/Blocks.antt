-- ===== src/Pgdb/Dump/File/Blocks.antt =====
-- cmd/pgdb/dump.go: dump prints the pages that it is asked for, and refuses before it prints.
use build_postgres.Prelude.{
  ℕ, zero, suc, ◌+◌, ◌*◌, ◌/◌, ◌%◌, ◌≤◌, ◌<◌, ◌≡◌, refl, ◌∙◌, subst, inl, inr, true, false, none,
  some, List, [], ◌∷◌, ◌++◌, arith, ◌==◌, ==_iff, Bool-cases, length, take, drop, length-take,
  length-drop,
}
use build_postgres.Prelude.Text.{Bytes}
use build_postgres.Prelude.Int.{ℤ, pos, negsuc}
use build_postgres.Prelude.Result.{ok}
use build_postgres.Page.{PageReader, PageLaws, page_size}
use build_postgres.Tuple.{HeaderReader, HeaderLaws, Header}
use build_postgres.Pgdb.Dump.{dump_page}
use build_postgres.Pgdb.Dump.Total.{dump_page-Prints}
use build_postgres.Pgdb.Dump.File.{
  RelFile, Run, dump, dump_sized, dump_blocks, at_least, skipped, heading,
}

-- The page at a block of the contents.
abbrev pub block_of : Bytes → ℕ → Bytes
block_of contents b = take page_size (drop (b * page_size) contents)

-- A file that is not changed meanwhile has the size of its contents, and a page inside it is read whole.
pub record FileLaws (f : RelFile) (contents : Bytes) : Type 0 where
  pub size_lem : f.size ≡ ok (length contents)
  pub read_at_lem :
      (b : ℕ)
      → b * page_size + page_size ≤ length contents
      → f.read_at (b * page_size) ≡ ok (block_of contents b)

-- The blocks b, b + 1, … of which there are count.
abbrev pub from_block : ℕ → ℕ → List ℕ
from_block b zero = []
from_block b (suc count) = b ∷ from_block (b + 1) count

-- The blocks that dump prints of a file of n blocks: all, or the one asked for.
abbrev pub wanted : ℤ → ℕ → List ℕ
wanted (pos b) n = b ∷ []
wanted (negsuc b) n = from_block 0 n

-- A list of pages printed one behind the other.
pub data Printed (r : PageReader) (h : HeaderReader) (contents : Bytes)
    : List ℕ → Bytes → Type 0 where
  nothing : Printed r h contents [] []
  page :
      {b : ℕ} {bs : List ℕ} {out more : Bytes}
      → dump_page r h b (block_of contents b) ≡ some out
      → Printed r h contents bs more
      → Printed r h contents (b ∷ bs) (out ++ more)

-- A run that ends without an error.
abbrev pub done : Bytes → Run
done out = record { out = out; error = none }

module _ (h : HeaderReader) (header : Bytes → Header) (hlaws : HeaderLaws h header) (r : PageReader)
    (laws : PageLaws r) (f : RelFile) (contents : Bytes) (flaws : FileLaws f contents) where
  length-block_of :
      (b : ℕ)
      → b * page_size + page_size ≤ length contents
      → length (block_of contents b) ≡ page_size
  length-block_of b inside = omega (
    arith,
    length-take page_size (drop (b * page_size) contents),
    length-drop (b * page_size) contents,
  )

  -- A block inside the file is printed, and the loop goes on.
  round :
      (blk : ℤ) (b count : ℕ) (more : Bytes)
      → skipped blk b ≡ false
      → b * page_size + page_size ≤ length contents
      → dump_blocks r h f blk (b + 1) count ≡ some (done more)
      → (out : Bytes) × (dump_page r h b (block_of contents b) ≡ some out)
        × (dump_blocks r h f blk b (suc count) ≡ some (done (out ++ more)))
  unfolding dump_blocks
  round blk b count more keep inside rest =
      let (out, printed, lines) =
        dump_page-Prints h header hlaws r laws (block_of contents b) (length-block_of b inside) b in
      (out, printed, rw (keep, flaws.read_at_lem b inside, printed, rest))

  skip :
      (blk : ℤ) (b count : ℕ)
      → skipped blk b ≡ true
      → dump_blocks r h f blk b (suc count) ≡ dump_blocks r h f blk (b + 1) count
  unfolding dump_blocks
  skip blk b count e = rw e

  all_blocks :
      (k count b n : ℕ)
      → b + count ≡ n
      → n * page_size ≤ length contents
      → (out : Bytes) × (dump_blocks r h f (negsuc k) b count ≡ some (done out))
        × Printed r h contents (from_block b count) out
  unfolding dump_blocks
  all_blocks k zero b n e inside = ([], refl, nothing)
  all_blocks k (suc count) b n e inside =
      let (more, rest, pages) = all_blocks k count (b + 1) n (omega arith) inside in
      let (out, printed, run) = round (negsuc k) b count more refl (grind arith) rest in
      (out ++ more, run, page printed pages)

  no_block : (k count b : ℕ) → k < b → dump_blocks r h f (pos k) b count ≡ some (done [])
  unfolding dump_blocks
  no_block k zero b past = refl
  no_block k (suc count) b past =
      skip (pos k) b count (ground arith) ∙ no_block k count (b + 1) (omega arith)

  here_block :
      (b count n : ℕ)
      → b + suc count ≡ n
      → n * page_size ≤ length contents
      → (out : Bytes) × (dump_blocks r h f (pos b) b (suc count) ≡ some (done out))
        × Printed r h contents (b ∷ []) out
  here_block b count n e inside =
      let rest = no_block b count (b + 1) (omega arith) in
      let (out, printed, run) = round (pos b) b count [] (ground arith) (grind arith) rest in
      (out ++ [], run, page printed nothing)

  one_block :
      (k count b n : ℕ)
      → b + count ≡ n
      → b ≤ k
      → k < n
      → n * page_size ≤ length contents
      → (out : Bytes) × (dump_blocks r h f (pos k) b count ≡ some (done out))
        × Printed r h contents (k ∷ []) out
  one_block k zero b n e low high inside = absurd (omega arith)
  one_block k (suc count) b n e low high inside = elim (Bool-cases (b == k)) [
    | inr other ↦
        let (out, run, pages) =
          one_block k count (b + 1) n (omega arith) (ground arith) high inside in
        (out, skip (pos k) b count (ground arith) ∙ run, pages)
    | inl here ↦
        let same = (==_iff b k).0 here in
        subst
          (λ j.
            (out : Bytes) × (dump_blocks r h f (pos j) b (suc count) ≡ some (done out))
            × Printed r h contents (j ∷ []) out)
          same (here_block b count n e inside)
  ]

  wanted_blocks :
      (blk : ℤ) (n : ℕ)
      → at_least blk n ≡ false
      → n * page_size ≤ length contents
      → (out : Bytes) × (dump_blocks r h f blk 0 n ≡ some (done out))
        × Printed r h contents (wanted blk n) out
  wanted_blocks (negsuc k) n ask inside = all_blocks k n 0 n (omega arith) inside
  wanted_blocks (pos k) n ask inside =
      one_block k n 0 n (omega arith) (omega arith) (ground arith) inside

  -- On a file of n whole pages dump does not panic and ends without an error: it prints the heading and
  -- then the pages of the file, each as dumpPage prints it: every page in order if blk is negative,
  -- and otherwise the page blk alone, which must be below n.
  pub dump_lem :
      (path : Bytes) (blk : ℤ) (n : ℕ)
      → length contents ≡ n * page_size
      → at_least blk n ≡ false
      → (out : Bytes) × (dump r h (ok f) path blk ≡ some (done (heading path n ++ out)))
        × Printed r h contents (wanted blk n) out
  unfolding dump dump_sized
  dump_lem path blk n size ask =
      let (out, run, pages) = wanted_blocks blk n ask (omega arith) in
      let whole : length contents % page_size ≡ 0 = omega arith in
      let count : length contents / page_size ≡ n = omega arith in
      (out, rw (flaws.size_lem, whole, count, ask, run), pages)
