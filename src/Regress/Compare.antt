-- ===== src/Regress/Compare.antt =====
-- internal/regress/regress_test.go: what the test of a file does with the output that it got, which
-- internal/isolation/isolation_test.go repeats word for word.
use build_postgres.Prelude.{
  ◌≡◌, ◌≢◌, refl, sym, ◌∙◌, ◌⊎◌, inl, inr, arith, Bool, true, false, Option, none, some, ◌++◌,
  if◌then◌else◌, drop, ap, get_or, ◌∷◌, [], Option-cases, Bool-cases,
}
use build_postgres.Prelude.Text.{Bytes, codes, equal, equal_refl}
use build_postgres.Prelude.Result.{ok, err, Result-cases}
use build_postgres.Regress.Diff.{diff}
use build_postgres.Regress.Disk.{Disk, DiskLaws}

-- How a test ends: fatal is t.Fatal and t.Fatalf, differs t.Errorf.
pub data Outcome : Type 0 where
  passed : Outcome
  fatal differs : Bytes → Outcome

-- strings.TrimSuffix
unfoldable pub trim_suffix : Bytes → Bytes → Bytes
unfolding equal
trim_suffix suffix [] = []
trim_suffix suffix (c ∷ s) =
    let rest = trim_suffix suffix s in if equal suffix (c ∷ s) then [] else c ∷ rest

module _ {State : Type 0} (disk : Disk State) (root : Bytes) where
  abbrev pub result_path : Bytes → Bytes
  result_path name = root ++ (codes "/results/" ++ (name ++ codes ".out"))

  abbrev pub expected_path : Bytes → Bytes
  expected_path name = root ++ (codes "/expected/" ++ (name ++ codes ".out"))

  -- The comparison with the expected output; none is the panic of diff.
  unfoldable pub compare : Bytes → Bytes → State → Option (State × Outcome)
  unfolding equal diff
  compare name got s = elim (disk.read s (expected_path name)) [
    | err e ↦ some (s, fatal (e ++ codes " (run with -update to create it)"))
    | ok want ↦ if equal got want then some (s, passed) else elim (diff want got) [
      | none ↦ none
      | some lines ↦ some (
        s,
        differs (
            codes "output differs from "
            ++ expected_path name
            ++ codes ":\n"
            ++ lines
            ++ codes "\nfull output in "
            ++ result_path name),
      )
    ]
  ]

  -- With -update: the output becomes the expected one.
  unfoldable pub update_expected : Bytes → Bytes → State → State × Outcome
  update_expected name got s =
      let (t, failed) = disk.write s (expected_path name) got in
      (t, elim failed [ none ↦ passed | some e ↦ fatal e ])

  -- The test of a file from its output on.
  unfoldable pub check : Bool → Bytes → Bytes → State → Option (State × Outcome)
  unfolding compare update_expected
  check update name got s =
      let (t, failed) = disk.write s (result_path name) got in
      elim failed [
        | some e ↦ some (t, fatal e)
        | none ↦ if update then some (update_expected name got t) else compare name got t
      ]

apart : (root x y : Bytes) → root ++ (codes "/results/" ++ x) ≢ root ++ (codes "/expected/" ++ y)
apart [] x y e = let q : 114 ≡ 101 = ap (λ s. get_or s 1 0) e in omega (arith, q)
apart (c ∷ root) x y e = apart root x y (ap (drop 1) e)

module _ {State : Type 0} (disk : Disk State) (root : Bytes) (laws : DiskLaws disk) where
  compare_same :
      (name got : Bytes) (s t : State) (o : Outcome)
      → compare disk root name got s ≡ some (t, o)
      → t ≡ s
  unfolding compare
  compare_same name got s t o e = elim (Result-cases (disk.read s (expected_path disk root name))) [
    | inl (m, r) ↦ ground arith
    | inr (want, r) ↦ elim (Bool-cases (equal got want)) [
      | inl q ↦ ground arith
      | inr q ↦ elim (Option-cases (diff want got)) [
        | inl d ↦ absurd (ground arith)
        | inr (m, d) ↦ ground arith
      ]
    ]
  ]

  expected-result : (name : Bytes) → expected_path disk root name ≢ result_path disk root name
  expected-result name e = apart root (name ++ codes ".out") (name ++ codes ".out") (sym e)

  -- A check with -update that passes leaves the output where the next one looks for it.
  pub check-update :
      (name got : Bytes) (s t : State)
      → check disk root true name got s ≡ some (t, passed)
      → disk.read t (expected_path disk root name) ≡ ok got
  unfolding check update_expected
  check-update name got s t e =
      let r = disk.write s (result_path disk root name) got in
      let x = disk.write r.0 (expected_path disk root name) got in
      elim (Option-cases r.1) [
        | inr (m, f) ↦ absurd (ground arith)
        | inl f ↦ elim (Option-cases x.1) [
          | inr (m, g) ↦ absurd (ground arith)
          | inl g ↦
              let q : t ≡ x.0 = ground arith in
              rw q (laws.read-write r.0 (expected_path disk root name) got g)
        ]
      ]

  pub check_same :
      (name got : Bytes) (s : State)
      → disk.read s (expected_path disk root name) ≡ ok got
      → (t : State) × (o : Outcome) × (check disk root false name got s ≡ some (t, o))
        × ((o ≡ passed)
            ⊎ ((e : Bytes) × ((disk.write s (result_path disk root name) got).1 ≡ some e)
                × (o ≡ fatal e)))
  unfolding check compare
  check_same name got s h =
      let r = disk.write s (result_path disk root name) got in
      let k =
        laws.write_keeps s (result_path disk root name) (expected_path disk root name) got
          (expected-result name) in
      elim (Option-cases r.1) [
        | inr (m, f) ↦ (r.0, fatal m, rw (check, f) refl, inr (m, f, refl))
        | inl f ↦ (r.0, passed, rw (check, f, compare, k, h, equal_refl got) refl, inl refl)
      ]

  -- A check writes no other file.
  pub check_keeps :
      (update : Bool) (name got other : Bytes) (s t : State) (o : Outcome)
      → other ≢ result_path disk root name
      → other ≢ expected_path disk root name
      → check disk root update name got s ≡ some (t, o)
      → disk.read t other ≡ disk.read s other
  unfolding check update_expected
  check_keeps true name got other s t o a b e =
      let r = disk.write s (result_path disk root name) got in
      let k = laws.write_keeps s (result_path disk root name) other got a in
      let x = disk.write r.0 (expected_path disk root name) got in
      let l = laws.write_keeps r.0 (expected_path disk root name) other got b in
      elim (Option-cases r.1) [
        | inr (m, f) ↦ let q : t ≡ r.0 = ground arith in rw q k
        | inl f ↦ let q : t ≡ x.0 = ground arith in rw q (l ∙ k)
      ]
  check_keeps false name got other s t o a b e =
      let r = disk.write s (result_path disk root name) got in
      let k = laws.write_keeps s (result_path disk root name) other got a in
      elim (Option-cases r.1) [
        | inr (m, f) ↦ let q : t ≡ r.0 = ground arith in rw q k
        | inl f ↦ let q : t ≡ r.0 = compare_same name got r.0 t o (ground arith) in rw q k
      ]
