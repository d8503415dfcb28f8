-- ===== src/Pgdb/Main/Ends.antt =====
-- cmd/pgdb: dump and repl end, whatever the file and the input.
use build_postgres.Prelude.{
  ◌>>=◌, ℕ, zero, suc, ◌+◌, ◌*◌, ◌≡◌, refl, ◌∙◌, Bool, true, false, inl, inr, Option, none, some,
  List, [], ◌∷◌, ◌++◌, arith, Bool-cases, length, ◌/◌, ◌%◌, ◌==◌, if◌then◌else◌, not,
}
use build_postgres.Prelude.Text.{Bytes, trim_space}
use build_postgres.Prelude.Int.{ℤ}
use build_postgres.Prelude.Result.{Result, ok, err, Result-cases}
use build_postgres.Page.{PageReader, PageLaws, page_size}
use build_postgres.Tuple.{HeaderReader, HeaderLaws, Header}
use build_postgres.Session.{Session, SplitLaws}
use build_postgres.Session.Script.{feed, run_all}
use build_postgres.Session.Script.Chunks.{feed_total}
use build_postgres.Pgdb.Dump.Total.{dump_page-Prints}
use build_postgres.Pgdb.Dump.File.{
  RelFile, Run, dump, dump_sized, dump_blocks, dump_block, skipped, at_least, heading,
}
use build_postgres.Pgdb.Repl.{Shell, repl, exec, command, prompt, is_command, reset}

-- ReadAt fills the buffer of a page, or fails.
abbrev pub FullReads : RelFile → Type 0
FullReads f = (off : ℕ) (buf : Bytes) → f.read_at off ≡ ok buf → length buf ≡ page_size

-- A run without a panic.
abbrev pub Ends {ℓ} : {A : Type ℓ} → Option A → Type ℓ
Ends {A = A} o = (a : A) × (o ≡ some a)

if-Ends {ℓ} : {A : Type ℓ} {x y : Option A} (b : Bool) → Ends x → Ends y → Ends (if b then x else y)
if-Ends true h k = h
if-Ends false h k = k

Ends-some {ℓ κ} :
    {A : Type ℓ} {B : Type κ} (o : Option A) (g : A → B) → Ends o → Ends (o >>= λ x. some (g x))
Ends-some none g (x, e) = cc
Ends-some (some x) g e = (g x, refl)

module _ (h : HeaderReader) (header : Bytes → Header) (hlaws : HeaderLaws h header) (r : PageReader)
    (laws : PageLaws r) where
  dump_block-Ends :
      (f : RelFile) (b : ℕ) (x : Result Bytes Bytes) (rest : Option Run)
      → ((buf : Bytes) → x ≡ ok buf → length buf ≡ page_size)
      → Ends rest
      → Ends (dump_block r h f b x rest)
  unfolding dump_block
  dump_block-Ends f b (err e) rest full ends = (record { out = []; error = some e }, refl)
  dump_block-Ends f b (ok buf) rest full (more, e) =
      let (out, printed, lines) = dump_page-Prints h header hlaws r laws buf (full buf refl) b in
      (record { out = out ++ more.out; error = more.error }, rw (printed, e))

  dump_blocks-Ends :
      (f : RelFile) → FullReads f → (blk : ℤ) (b count : ℕ) → Ends (dump_blocks r h f blk b count)
  unfolding dump_blocks
  dump_blocks-Ends f full blk b zero = (record { out = []; error = none }, refl)
  dump_blocks-Ends f full blk b (suc count) =
      let rest = dump_blocks-Ends f full blk (b + 1) count in
      if-Ends (skipped blk b) rest (
        dump_block-Ends f b (f.read_at (b * page_size)) (dump_blocks r h f blk (b + 1) count)
          (full (b * page_size)) rest)

  dump_sized-Ends :
      (f : RelFile)
      → FullReads f
      → (path : Bytes) (blk : ℤ) (size : ℕ) → Ends (dump_sized r h f path blk size)
  unfolding dump_sized
  dump_sized-Ends f full path blk size =
      if-Ends (not (size % page_size == 0)) (_, refl)
        (if-Ends (at_least blk (size / page_size)) (_, refl)
          (Ends-some (dump_blocks r h f blk 0 (size / page_size))
            (λ rest. record {
              out = heading path (size / page_size) ++ rest.out;
              error = rest.error;
            })
            (dump_blocks-Ends f full blk 0 (size / page_size))))

  dump_size :
      (f : RelFile) (path : Bytes) (blk : ℤ) (size : ℕ)
      → f.size ≡ ok size
      → dump r h (ok f) path blk ≡ dump_sized r h f path blk size
  unfolding dump
  dump_size f path blk size e = ground arith

  dump_no_size :
      (f : RelFile) (path : Bytes) (blk : ℤ) (e : Bytes)
      → f.size ≡ err e
      → dump r h (ok f) path blk ≡ some (record { out = []; error = some e })
  unfolding dump
  dump_no_size f path blk e q = ground arith

  pub dump-Ends :
      (o : Result Bytes RelFile)
      → ((f : RelFile) → o ≡ ok f → FullReads f)
      → (path : Bytes) (blk : ℤ) → Ends (dump r h o path blk)
  unfolding dump
  dump-Ends (err e) full path blk = (record { out = []; error = some e }, refl)
  dump-Ends (ok f) full path blk = elim (Result-cases f.size) [
    | inl (e, q) ↦ (record { out = []; error = some e }, dump_no_size f path blk e q)
    | inr (size, q) ↦
        let (x, done) = dump_sized-Ends f (full f refl) path blk size in
        (x, dump_size f path blk size q ∙ done)
  ]

module _ (db : Session) where
  repl-quit :
      (interactive : Bool) (failed : Option Bytes) (line : Bytes) (lines : List Bytes) (buf : Bytes)
      (s : Shell db.State)
      → is_command buf line ≡ true
      → (command db (prompt db interactive buf s) (trim_space line)).1 ≡ false
      → repl db interactive failed (line ∷ lines) buf s
        ≡ some ((command db (prompt db interactive buf s) (trim_space line)).0, none)
  unfolding repl
  repl-quit interactive failed line lines buf s c q = ground arith

  repl-command :
      (interactive : Bool) (failed : Option Bytes) (line : Bytes) (lines : List Bytes) (buf : Bytes)
      (s : Shell db.State)
      → is_command buf line ≡ true
      → (command db (prompt db interactive buf s) (trim_space line)).1 ≡ true
      → repl db interactive failed (line ∷ lines) buf s
        ≡ repl db interactive failed lines buf
            (command db (prompt db interactive buf s) (trim_space line)).0
  unfolding repl
  repl-command interactive failed line lines buf s c q = ground arith

  repl-fed :
      (interactive : Bool) (failed : Option Bytes) (line : Bytes) (lines : List Bytes) (buf : Bytes)
      (s : Shell db.State) (left : Bytes) (u : Shell db.State)
      → is_command buf line ≡ false
      → feed db.split (exec db) buf line (prompt db interactive buf s) ≡ some (left, u)
      → repl db interactive failed (line ∷ lines) buf s
        ≡ repl db interactive failed lines (reset left) u
  unfolding repl
  repl-fed interactive failed line lines buf s left u c fed = ground arith

module _ (db : Session) (laws : SplitLaws db.split) where
  pub repl-Ends :
      (interactive : Bool) (failed : Option Bytes) (lines : List Bytes) (buf : Bytes)
      (s : Shell db.State)
      → Ends (repl db interactive failed lines buf s)
  unfolding repl
  repl-Ends interactive failed [] buf s = (_, refl)
  repl-Ends interactive failed (line ∷ lines) buf s =
      let t = prompt db interactive buf s in
      elim (Bool-cases (is_command buf line)) [
        | inl c ↦ elim (Bool-cases (command db t (trim_space line)).1) [
          | inr q ↦ (_, repl-quit db interactive failed line lines buf s c q)
          | inl q ↦
              let (x, e) =
                repl-Ends interactive failed lines buf (command db t (trim_space line)).0 in
              (x, repl-command db interactive failed line lines buf s c q ∙ e)
        ]
        | inr c ↦
            let (stmts, left, cuts, fed) = feed_total db.split laws (exec db) buf line t in
            let (x, e) =
              repl-Ends interactive failed lines (reset left) (run_all (exec db) stmts t) in
            (x, repl-fed db interactive failed line lines buf s left _ c fed ∙ e)
      ]
