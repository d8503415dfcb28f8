-- ===== src/Prelude/Labels.antt =====
-- The String methods of the source's enumerations: a table of names, and a text with the number for a
-- value that has none.
use build_postgres.Prelude.{
  ℕ, zero, suc, ◌≤◌, ◌<◌, ◌≡◌, refl, sym, ap, ◌∙◌, ◌≢◌, ◌⊎◌, inl, inr, Bool, true, not, ◌&&◌, List,
  [], ◌∷◌, ◌++◌, arith, leb, ltb, if◌then◌else◌, ltb→lt, le→leb, lt→leb_false, Bool-cases, length,
  get_or,
}
use mathlib.Core.List.{append_cancel_left, append_cancel_right}
use build_postgres.Prelude.Text.{Bytes, codes, equal, equal_iff, has_prefix}
use build_postgres.Prelude.Decimal.{itoa_int, itoa_int_injective}
use build_postgres.Prelude.Int.{ℤ, pos, negsuc}

-- tag is the text before the number, with its opening parenthesis.
abbrev pub unnamed : Bytes → ℤ → Bytes
unnamed tag k = tag ++ (itoa_int k ++ codes ")")

unfoldable pub label : List Bytes → Bytes → ℤ → Bytes
label names tag (negsuc n) = unnamed tag (negsuc n)
label names tag (pos n) = if leb (length names) n then unnamed tag (pos n) else get_or names n []

-- No two names are alike, and none begins with the tag.
unfoldable pub fresh : Bytes → List Bytes → Bool
unfolding equal
fresh s [] = true
fresh s (n ∷ names) = not (equal s n) && fresh s names

unfoldable pub distinct : Bytes → List Bytes → Bool
unfolding fresh has_prefix
distinct tag [] = true
distinct tag (n ∷ names) = not (has_prefix n tag) && fresh n names && distinct tag names

fresh-get_or :
    (s : Bytes) (names : List Bytes) (i : ℕ)
    → fresh s names ≡ true
    → i < length names
    → s ≢ get_or names i []
unfolding fresh
fresh-get_or s [] i h lt e = absurd (omega arith)
fresh-get_or s (n ∷ names) zero h lt e = ground (arith, (equal_iff s n).1 e)
fresh-get_or s (n ∷ names) (suc i) h lt e = fresh-get_or s names i (ground arith) (omega arith) e

get_or_injective :
    (tag : Bytes) (names : List Bytes) (i j : ℕ)
    → distinct tag names ≡ true
    → i < length names
    → j < length names
    → get_or names i [] ≡ get_or names j []
    → i ≡ j
unfolding distinct
get_or_injective tag [] i j h hi hj e = absurd (omega arith)
get_or_injective tag (n ∷ names) zero zero h hi hj e = refl
get_or_injective tag (n ∷ names) zero (suc j) h hi hj e =
    absurd (fresh-get_or n names j (ground arith) (omega arith) e)
get_or_injective tag (n ∷ names) (suc i) zero h hi hj e =
    absurd (fresh-get_or n names i (ground arith) (omega arith) (sym e))
get_or_injective tag (n ∷ names) (suc i) (suc j) h hi hj e =
    ap suc (get_or_injective tag names i j (ground arith) (omega arith) (omega arith) e)

has_prefix-append : (tag s : Bytes) → has_prefix (tag ++ s) tag ≡ true
unfolding has_prefix
has_prefix-append [] s = refl
has_prefix-append (c ∷ tag) s = ground (arith, has_prefix-append tag s)

get_or-ne-tag :
    (tag : Bytes) (names : List Bytes) (i : ℕ) (s : Bytes)
    → distinct tag names ≡ true
    → i < length names
    → get_or names i [] ≢ tag ++ s
unfolding distinct
get_or-ne-tag tag [] i s h lt e = absurd (omega arith)
get_or-ne-tag tag (n ∷ names) zero s h lt e =
    let starts : has_prefix n tag ≡ true = rw e (has_prefix-append tag s) in ground arith
get_or-ne-tag tag (n ∷ names) (suc i) s h lt e =
    get_or-ne-tag tag names i s (ground arith) (omega arith) e

unnamed_injective : (tag : Bytes) (j k : ℤ) → unnamed tag j ≡ unnamed tag k → j ≡ k
unnamed_injective tag j k e = itoa_int_injective j k (
    append_cancel_right (itoa_int j) (itoa_int k) (codes ")")
      (append_cancel_left tag (itoa_int j ++ codes ")") (itoa_int k ++ codes ")") e))

label_pos :
    (names : List Bytes) (tag : Bytes) (n : ℕ)
    → n < length names
    → label names tag (pos n) ≡ get_or names n []
unfolding label
label_pos names tag n h = rw (lt→leb_false (length names) n h)

label_past :
    (names : List Bytes) (tag : Bytes) (n : ℕ)
    → length names ≤ n
    → label names tag (pos n) ≡ unnamed tag (pos n)
unfolding label
label_past names tag n h = rw (le→leb (length names) n h)

-- A value has a name of the table, or none.
label_cases :
    (names : List Bytes) (tag : Bytes) (k : ℤ)
    → ((n : ℕ) × (n < length names) × (k ≡ pos n) × (label names tag k ≡ get_or names n []))
      ⊎ (label names tag k ≡ unnamed tag k)
unfolding label
label_cases names tag (negsuc n) = inr refl
label_cases names tag (pos n) = elim (Bool-cases (ltb n (length names))) [
  | inl t ↦ inl (n, ltb→lt _ _ t, refl, label_pos names tag n (ltb→lt _ _ t))
  | inr f ↦ inr (label_past names tag n (ground arith))
]

-- Two values with one text are one value.
pub label_injective :
    (names : List Bytes) (tag : Bytes)
    → distinct tag names ≡ true
    → (j k : ℤ) → label names tag j ≡ label names tag k
    → j ≡ k
label_injective names tag d j k e = elim (label_cases names tag j) [
  | inl (m, hm, ej, sj) ↦ elim (label_cases names tag k) [
    | inl (n, hn, ek, sk) ↦ cc (get_or_injective tag names m n d hm hn (sym sj ∙ e ∙ sk))
    | inr sk ↦ absurd (get_or-ne-tag tag names m (itoa_int k ++ codes ")") d hm (sym sj ∙ e ∙ sk))
  ]
  | inr sj ↦ elim (label_cases names tag k) [
    | inl (n, hn, ek, sk) ↦
        absurd (get_or-ne-tag tag names n (itoa_int j ++ codes ")") d hn (sym sk ∙ sym e ∙ sj))
    | inr sk ↦ unnamed_injective tag j k (sym sj ∙ e ∙ sk)
  ]
]
