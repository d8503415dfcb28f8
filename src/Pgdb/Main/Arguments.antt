-- ===== src/Pgdb/Main/Arguments.antt =====
-- cmd/pgdb/main.go: the arguments that main takes.
use build_postgres.Prelude.{
  ℕ, ◌≡◌, refl, ◌≢◌, inl, inr, false, Bool, Option, none, some, List, [], ◌∷◌, Bool-cases, subst,
}
use build_postgres.Prelude.Text.{Bytes, codes, equal, equal-eq, equal_iff, has_prefix}
use build_postgres.Prelude.Decimal.{atoi}
use build_postgres.Prelude.Int.{ℤ, pos, negsuc}
use build_postgres.Prelude.Result.{Result}
use build_postgres.Page.{PageReader}
use build_postgres.Tuple.{HeaderReader}
use build_postgres.Session.{Session}
use build_postgres.Pgdb.Sample.{PageWriter, TupleWriter, FileSystem}
use build_postgres.Pgdb.Dump.File.{RelFile}
use build_postgres.Pgdb.Main.{
  Command, Exit, choose, main, usage_error, bad_block, sample_into, dump_file, shell, sample_args,
  dump_args, block_arg, shell_args, perform, usage,
}

-- The arguments that main takes: sample DIR, dump FILE, dump FILE BLOCK, and DATADIR.
pub data Valid : List Bytes → Type 0 where
  sample_dir : (d : Bytes) → Valid (codes "sample" ∷ d ∷ [])
  dump_all : (f : Bytes) → Valid (codes "dump" ∷ f ∷ [])
  dump_block : (f t : Bytes) (b : ℕ) → atoi t ≡ some (pos b) → Valid (codes "dump" ∷ f ∷ t ∷ [])
  data_dir :
      (d : Bytes)
      → d ≢ codes "sample"
      → d ≢ codes "dump"
      → has_prefix d (codes "-") ≡ false
      → Valid (d ∷ [])

-- Arguments that are not taken.
data Refused : Command → Type 0 where
  usage_refused : Refused usage_error
  block_refused : Refused bad_block

choose_sample : (args : List Bytes) → choose (codes "sample" ∷ args) ≡ sample_args args
unfolding choose equal
choose_sample args = refl

choose_dump : (args : List Bytes) → choose (codes "dump" ∷ args) ≡ dump_args args
unfolding choose equal
choose_dump args = refl

Refused-sample : (args : List Bytes) → ¬ Valid (codes "sample" ∷ args) → Refused (sample_args args)
Refused-sample [] h = usage_refused
Refused-sample (d ∷ []) h = absurd (h (sample_dir d))
Refused-sample (d ∷ x ∷ more) h = usage_refused

Refused-block :
    (f t : Bytes) (o : Option ℤ)
    → atoi t ≡ o
    → ¬ Valid (codes "dump" ∷ f ∷ t ∷ [])
    → Refused (block_arg f o)
Refused-block f t none e h = block_refused
Refused-block f t (some (negsuc n)) e h = block_refused
Refused-block f t (some (pos n)) e h = absurd (h (dump_block f t n e))

Refused-dump : (args : List Bytes) → ¬ Valid (codes "dump" ∷ args) → Refused (dump_args args)
Refused-dump [] h = usage_refused
Refused-dump (f ∷ []) h = absurd (h (dump_all f))
Refused-dump (f ∷ t ∷ []) h = Refused-block f t (atoi t) refl h
Refused-dump (f ∷ t ∷ x ∷ more) h = usage_refused

Refused-shell :
    (a : Bytes) (args : List Bytes)
    → a ≢ codes "sample"
    → a ≢ codes "dump"
    → ¬ Valid (a ∷ args)
    → Refused (shell_args a args)
Refused-shell a [] s d h = elim (Bool-cases (has_prefix a (codes "-"))) [
  | inl dash ↦ rw dash usage_refused
  | inr plain ↦ absurd (h (data_dir a s d plain))
]
Refused-shell a (x ∷ more) s d h = usage_refused

equal-ne : (s t : Bytes) → equal s t ≡ false → s ≢ t
equal-ne s t h e = cc (h, (equal_iff s t).1 e)

choose-Refused : (args : List Bytes) → ¬ Valid args → Refused (choose args)
unfolding choose
choose-Refused [] h = usage_refused
choose-Refused (a ∷ args) h = elim (Bool-cases (equal a (codes "sample"))) [
  | inl s ↦
      let same = equal-eq a (codes "sample") s in
      rw s (Refused-sample args (subst (λ x. ¬ Valid (x ∷ args)) same h))
  | inr ns ↦ elim (Bool-cases (equal a (codes "dump"))) [
    | inl d ↦
        let same = equal-eq a (codes "dump") d in
        rw (ns, d) (Refused-dump args (subst (λ x. ¬ Valid (x ∷ args)) same h))
    | inr nd ↦
        rw (ns, nd)
          (Refused-shell a args (equal-ne a (codes "sample") ns) (equal-ne a (codes "dump") nd) h)
  ]
]

module _ (r : PageReader) (h : HeaderReader) (db : Session)
    (open_file : Bytes → Result Bytes RelFile) (pw : PageWriter) (tw : TupleWriter)
    (fs : FileSystem) (open_session : Bytes → Result Bytes db.State)
    (close : db.State → Option Bytes) (interactive : Bool) (lines : List Bytes)
    (failed : Option Bytes) where
  perform-Refused :
      (c : Command)
      → Refused c
      → (x : Exit) × (perform r h db open_file pw tw fs open_session close interactive lines failed
            c
          ≡ some x)
        × (x.status ≡ 2)
        × (x.out ≡ [])
  unfolding perform usage
  perform-Refused usage_error usage_refused = (usage, refl, refl, refl)
  perform-Refused bad_block block_refused = (
    record { out = []; err_out = codes "pgdb: BLOCK must be a block number\n"; status = 2 },
    refl,
    refl,
    refl,
  )
  perform-Refused (sample_into d) c = elim c [ ]
  perform-Refused (dump_file f b) c = elim c [ ]
  perform-Refused (shell d) c = elim c [ ]

  -- On arguments other than sample DIR, dump FILE, dump FILE BLOCK with a BLOCK that Atoi reads as a
  -- number from 0 on, and a DATADIR that is none of these two words and does not begin with a dash, main
  -- exits with status 2 and prints nothing to the standard output.
  pub main_refuses :
      (args : List Bytes)
      → ¬ Valid args
      → (x : Exit) × (main r h db open_file pw tw fs open_session close interactive lines failed
            args
          ≡ some x)
        × (x.status ≡ 2)
        × (x.out ≡ [])
  unfolding main
  main_refuses args bad = perform-Refused (choose args) (choose-Refused args bad)
