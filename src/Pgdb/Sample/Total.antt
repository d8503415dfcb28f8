-- ===== src/Pgdb/Sample/Total.antt =====
-- cmd/pgdb/dump.go: sample ends on every directory.
use build_postgres.Prelude.{
  ◌≢◌, ℕ, ◌+◌, ◌%◌, ◌≤◌, ◌≡◌, refl, ◌∙◌, Bool, true, false, Option, none, some, List, [], ◌∷◌, ◌++◌,
  arith, length, take, drop, length-append, length-take, length-drop,
}
use build_postgres.Prelude.Text.{Bytes}
use build_postgres.Prelude.Result.{Result, ok, err}
use build_postgres.Page.{PageError, page_size}
use build_postgres.Tuple.{Desc, Tid, fixed_header_size, invalid_xid}
use build_postgres.Sql.Query.{Datum}
use build_postgres.Pgdb.Dump.File.Blocks.{done}
use build_postgres.Pgdb.Sample.{
  PageWriter, TupleWriter, FileSystem, made, wrote, Sampled, Step, overwrite, and_then, stop, point,
  added, store, fill, rows_text, file_of, written, write, finish, not_empty, sample_in, sample,
  sample_rows, sample_desc,
}

-- The setters write a header that is there in full, in place; a tuple that Form returns has one; New makes a
-- page, AddItem and GetItem stay inside of it, and GetItem returns the bytes that AddItem stored.
pub record WriterLaws (pw : PageWriter) (tw : TupleWriter) : Type 0 where
  pub new_size : length (pw.new 0) ≡ page_size
  pub add_size : (p t : Bytes) → length (pw.add_item p t).0 ≡ length p
  pub item_inside : (p : Bytes) (n at len : ℕ) → pw.item_at p n ≡ ok (at, len) → at + len ≤ length p
  pub item_size :
      (p t : Bytes) (n at len : ℕ)
      → (pw.add_item p t).1 ≡ ok n
      → pw.item_at (pw.add_item p t).0 n ≡ ok (at, len)
      → len ≡ length t
  pub form_size :
      (d : Desc) (vs : List Datum) (t : Bytes) → tw.form d vs ≡ ok t → fixed_header_size ≤ length t
  pub set_xmin_lem :
      (t : Bytes) (x : ℕ)
      → fixed_header_size ≤ length t
      → (u : Bytes) × (tw.set_xmin t x ≡ some u) × (length u ≡ length t)
  pub set_xmax_lem :
      (t : Bytes) (x : ℕ)
      → fixed_header_size ≤ length t
      → (u : Bytes) × (tw.set_xmax t x ≡ some u) × (length u ≡ length t)
  pub set_ctid_lem :
      (t : Bytes) (id : Tid)
      → fixed_header_size ≤ length t
      → (u : Bytes) × (tw.set_ctid t id ≡ some u) × (length u ≡ length t)

-- An error, or a page of full size.
abbrev pub Paged : Result Bytes Bytes → Type 0
Paged (err e) = Unit
Paged (ok p) = length p ≡ page_size

-- A step that ends so.
abbrev pub Pages : Step → Type 0
Pages s = (r : Result Bytes Bytes) × (s ≡ some r) × Paged r

pub length-overwrite :
    (p item : Bytes) (at len : ℕ)
    → at + len ≤ length p
    → length item ≡ len
    → length (overwrite p (at, len) item) ≡ length p
length-overwrite p item at len h k = omega (
  arith,
  length-append (take at p) (item ++ drop (at + len) p),
  length-append item (drop (at + len) p),
  length-take at p,
  length-drop (at + len) p,
)

length-item : (p : Bytes) (at len : ℕ) → at + len ≤ length p → length (take len (drop at p)) ≡ len
length-item p at len h = omega (arith, length-take len (drop at p), length-drop at p)

module _ (pw : PageWriter) (tw : TupleWriter) (laws : WriterLaws pw tw) where
  point-Pages :
      (p : Bytes) (off : ℕ) (r : Result PageError (ℕ × ℕ))
      → length p ≡ page_size
      → ((at len : ℕ) → r ≡ ok (at, len) → (at + len ≤ length p) × (fixed_header_size ≤ len))
      → Pages (point pw tw p off r)
  unfolding point
  point-Pages p off (err e) h k = (_, refl, tt)
  point-Pages p off (ok (at, len)) h k =
      let (inside, long) = k at len refl in
      let size = length-item p at len inside in
      let (u, e, same) =
        laws.set_ctid_lem (take len (drop at p)) (record { block = 0; off = off }) (omega arith) in
      (ok (overwrite p (at, len) u), rw e, length-overwrite p u at len inside (same ∙ size) ∙ h)

  added-Pages :
      (t : Bytes) (a : Bytes × Result PageError ℕ)
      → fixed_header_size ≤ length t
      → length a.0 ≡ page_size
      → ((n at len : ℕ) → a.1 ≡ ok n → pw.item_at a.0 n ≡ ok (at, len) → len ≡ length t)
      → Pages (added pw tw a)
  unfolding added
  added-Pages t (p, err e) long h k = (_, refl, tt)
  added-Pages t (p, ok n) long h k =
      point-Pages p n (pw.item_at p n) h
        (λ at len e. (laws.item_inside p n at len e, omega (arith, k n at len refl e)))

  store-Pages :
      (p : Bytes) (r : Result Bytes Bytes)
      → length p ≡ page_size
      → ((t : Bytes) → r ≡ ok t → fixed_header_size ≤ length t)
      → Pages (store pw tw p r)
  unfolding store
  store-Pages p (err e) h k = (_, refl, tt)
  store-Pages p (ok t) h k =
      let (a, ea, sa) = laws.set_xmin_lem t 1 (k t refl) in
      let (b, eb, sb) = laws.set_xmax_lem a invalid_xid (omega (arith, k t refl)) in
      rw (ea, eb)
        (added-Pages b (pw.add_item p b) (omega (arith, k t refl)) (laws.add_size p b ∙ h)
          (λ n at len e i. laws.item_size p b n at len e i))

  go :
      (r : Result Bytes Bytes) {k : Bytes → Step}
      → Paged r
      → ((q : Bytes) → length q ≡ page_size → Pages (k q))
      → Pages (and_then r k)
  go (err e) h k = (err e, refl, tt)
  go (ok q) h k = k q h

  fill-Pages :
      (p : Bytes) (rows : List Datum)
      → length p ≡ page_size
      → length rows % 2 ≡ 0
      → Pages (fill pw tw p rows)
  unfolding fill
  fill-Pages p [] h even = (ok p, refl, h)
  fill-Pages p (a ∷ []) h even = absurd (omega arith)
  fill-Pages p (a ∷ b ∷ rest) h even =
      let values = a ∷ b ∷ [] in
      let (r, e, paged) =
        store-Pages p (tw.form sample_desc values) h
          (λ t f. laws.form_size sample_desc values t f) in
      rw e (go r paged (λ q size. fill-Pages q rest size (omega arith)))

-- How sample ends: before it writes, at the directory, at the file, or with the page written.
pub data Ended (fs : FileSystem) (d : Bytes) : Sampled → Type 0 where
  refused : (e : Bytes) → Ended fs d (stop [] e)
  no_directory : (e : Bytes) → Ended fs d (stop (made (fs.dir (file_of fs d)) ∷ []) e)
  no_file :
      (p e : Bytes)
      → Ended fs d (stop (made (fs.dir (file_of fs d)) ∷ wrote (file_of fs d) p ∷ []) e)
  sampled :
      (p : Bytes)
      → length p ≡ page_size
      → Ended fs d (record {
        run = done (rows_text (file_of fs d));
        calls = made (fs.dir (file_of fs d)) ∷ wrote (file_of fs d) p ∷ [];
      })

module _ (fs : FileSystem) (d : Bytes) where
  written-Ended :
      (p : Bytes) (e : Option Bytes)
      → length p ≡ page_size
      → Ended fs d (written fs (file_of fs d) p e)
  written-Ended p none h = sampled p h
  written-Ended p (some e) h = no_file p e

  write-Ended :
      (p : Bytes) (e : Option Bytes)
      → length p ≡ page_size
      → Ended fs d (write fs (file_of fs d) p e)
  write-Ended p none h = written-Ended p (fs.write_file (file_of fs d) p) h
  write-Ended p (some e) h = no_directory e

  finish-Ended : (r : Result Bytes Bytes) → Paged r → Ended fs d (finish fs d r)
  unfolding finish
  finish-Ended (err e) h = refused e
  finish-Ended (ok p) h = write-Ended p (fs.mkdir_all (fs.dir (file_of fs d))) h

  -- It ends, and leaves a directory with entries alone.
  abbrev pub Finishes : List Bytes → Option Sampled → Type 0
  Finishes entries o = (s : Sampled) × (o ≡ some s) × Ended fs d s × (entries ≢ [] → s.calls ≡ [])

  sample_in-Finishes :
      (filled : Step) (dir : List Bytes × Option (Bool × Bytes))
      → Pages filled
      → Finishes dir.0 (sample_in fs d filled dir)
  unfolding sample_in
  sample_in-Finishes filled ([], some (false, e)) h = (_, refl, refused e, λ k. refl)
  sample_in-Finishes filled (x ∷ xs, some (false, e)) h = (_, refl, refused e, λ k. refl)
  sample_in-Finishes filled (x ∷ xs, some (true, e)) h =
      (_, refl, refused (not_empty fs d), λ k. refl)
  sample_in-Finishes filled (x ∷ xs, none) h = (_, refl, refused (not_empty fs d), λ k. refl)
  sample_in-Finishes filled ([], some (true, e)) (r, q, paged) =
      (finish fs d r, rw q, finish-Ended r paged, λ k. absurd (k refl))
  sample_in-Finishes filled ([], none) (r, q, paged) =
      (finish fs d r, rw q, finish-Ended r paged, λ k. absurd (k refl))

  -- Where the setters, New, AddItem and GetItem do what their comments promise, sample does not panic: it
  -- prints nothing and returns an error, or writes a page of full size to base/16384 of the directory and
  -- reports its three rows. It makes no directory and writes no file where the directory has entries.
  pub sample_total :
      (pw : PageWriter) (tw : TupleWriter)
      → WriterLaws pw tw
      → (s : Sampled) × (sample pw tw fs d ≡ some s)
        × Ended fs d s
        × ((fs.read_dir d).0 ≢ [] → s.calls ≡ [])
  unfolding sample sample_rows
  sample_total pw tw laws =
      sample_in-Finishes (fill pw tw (pw.new 0) sample_rows) (fs.read_dir d)
        (fill-Pages pw tw laws (pw.new 0) sample_rows laws.new_size refl)
