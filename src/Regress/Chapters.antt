-- ===== src/Regress/Chapters.antt =====
-- internal/regress/regress_test.go: upToChapter.
use build_postgres.Prelude.{
  ℕ, ◌+◌, ◌-◌, ◌*◌, ◌^◌, ◌≤◌, ◌<◌, ◌≡◌, refl, inl, inr, Bool, true, false, Option, none, some, List,
  [], ◌∷◌, map, arith, ltb, leb, if◌then◌else◌, Bool-cases, length, take, drop, All,
}
use build_postgres.Prelude.Text.{Bytes, codes, equal, equal-eq, has_prefix}
use build_postgres.Prelude.Decimal.{itoa, scan_digits, itoa-ne-nil, atoi-itoa, atoi}
use build_postgres.Prelude.Int.{ℤ, pos, negsuc}
use build_postgres.Prelude.Result.{Result, ok, err}
use build_postgres.Pgdb.Dump.File.Base.{base_name}

-- The two calls of t.Fatalf, which end the test.
pub data ChapterError : Type 0 where
  bad_limit bad_name : Bytes → ChapterError

-- strings.TrimPrefix(s, "ch")
unfoldable pub trim_ch : Bytes → Bytes
unfolding has_prefix
trim_ch s = if has_prefix s (codes "ch") then drop 2 s else s

-- The number in a file name of at least four bytes; none is the error of a name that does not start
-- with chNN_.
unfoldable pub chapter_of : Bytes → Option ℤ
unfolding trim_ch has_prefix atoi
chapter_of name = if has_prefix name (codes "ch") then atoi (trim_ch (take 4 name)) else none

-- a <= b
abbrev pub le_int : ℤ → ℤ → Bool
le_int (pos a) (pos b) = leb a b
le_int (pos a) (negsuc b) = false
le_int (negsuc a) (pos b) = true
le_int (negsuc a) (negsuc b) = leb b a

-- A file that is kept stands before what is kept of the files behind it.
unfoldable pub keep_if :
    Bool → Bytes → Result ChapterError (List Bytes) → Result ChapterError (List Bytes)
keep_if b file (err e) = err e
keep_if b file (ok kept) = ok (if b then file ∷ kept else kept)

-- The loop of upToChapter: err is Fatalf, and none a panic, name[:4] of a shorter name.
unfoldable pub keep : ℤ → List Bytes → Option (Result ChapterError (List Bytes))
unfolding keep_if
keep last [] = some (ok [])
keep last (file ∷ files) =
    let name = base_name file in
    let rest = keep last files in
    if ltb (length name) 4 then none else elim (chapter_of name) [
      | none ↦ some (err (bad_name name))
      | some ch ↦ elim rest [ none ↦ none | some kept ↦ some (keep_if (le_int ch last) file kept) ]
    ]

-- upToChapter, given the value of REGRESS_CHAPTER.
unfoldable pub up_to_chapter : Bytes → List Bytes → Option (Result ChapterError (List Bytes))
unfolding keep equal atoi
up_to_chapter limit files =
    if equal limit []
    then some (ok files)
    else elim (atoi limit) [ none ↦ some (err (bad_limit limit)) | some last ↦ keep last files ]

-- A path whose last element is chNN followed by anything, N being digits.
pub record IsChapter (file : Bytes) (n : ℕ) : Type 0 where
  pub tens : ℕ
  pub ones : ℕ
  pub rest : Bytes
  pub tens_digit : tens < 10
  pub ones_digit : ones < 10
  pub named : base_name file ≡ 99 ∷ 104 ∷ (48 + tens) ∷ (48 + ones) ∷ rest
  pub value : n ≡ tens * 10 + ones

chapter_of_named :
    (a b : ℕ) (rest : Bytes)
    → a < 10
    → b < 10
    → chapter_of (99 ∷ 104 ∷ (48 + a) ∷ (48 + b) ∷ rest) ≡ some (pos (a * 10 + b))
unfolding chapter_of scan_digits
chapter_of_named a b rest ha hb = ground arith

-- The files of the chapters up to the last, each file being given with its chapter.
abbrev pub chosen : ℕ → List (Bytes × ℕ) → List Bytes
chosen last [] = []
chosen last ((file, n) ∷ files) =
    let rest = chosen last files in if leb n last then file ∷ rest else rest

keep_named :
    (last : ℕ) (file : Bytes) (a b : ℕ) (rest : Bytes) (files kept : List Bytes)
    → base_name file ≡ 99 ∷ 104 ∷ (48 + a) ∷ (48 + b) ∷ rest
    → a < 10
    → b < 10
    → keep (pos last) files ≡ some (ok kept)
    → keep (pos last) (file ∷ files)
      ≡ some (ok (if leb (a * 10 + b) last then file ∷ kept else kept))
unfolding keep
keep_named last file a b rest files kept e ha hb h =
    rw (e, chapter_of_named a b rest ha hb, h) (ground arith)

keep_chapters :
    (last : ℕ) (files : List (Bytes × ℕ))
    → All (λ f. IsChapter f.0 f.1) files
    → keep (pos last) (map (λ f. f.0) files) ≡ some (ok (chosen last files))
unfolding keep
keep_chapters last [] h = refl
keep_chapters last ((file, n) ∷ files) (c, cs) = rw c.value (
    keep_named last file c.tens c.ones c.rest (map (λ f. f.0) files) (chosen last files) c.named
      c.tens_digit c.ones_digit (keep_chapters last files cs))

-- On files whose names start with ch and two digits, and with REGRESS_CHAPTER a number in decimal,
-- upToChapter keeps, in order, exactly the files whose two digits are at most that number.
pub up_to_chapter_lem :
    (last : ℕ) (files : List (Bytes × ℕ))
    → last ≤ 2 ^ 63 - 1
    → All (λ f. IsChapter f.0 f.1) files
    → up_to_chapter (itoa last) (map (λ f. f.0) files) ≡ some (ok (chosen last files))
unfolding up_to_chapter
up_to_chapter_lem last files small h =
    rw (itoa_given last, atoi-itoa last small) (keep_chapters last files h)
  where
    itoa_given : (n : ℕ) → equal (itoa n) [] ≡ false
    itoa_given n = elim (Bool-cases (equal (itoa n) [])) [
      | inl e ↦ absurd (itoa-ne-nil n (equal-eq _ _ e))
      | inr e ↦ e
    ]
