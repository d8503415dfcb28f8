-- ===== src/Tests/Blanks.antt =====
-- strings.TrimSpace: lemmas on the white space that a text begins with, and runs.
use build_postgres.Prelude.{
  ◌⊎◌, take, ℕ, zero, suc, ◌≤◌, ◌≡◌, refl, sym, ◌∙◌, ap, inl, inr, true, false, [], ◌∷◌, ◌++◌,
  arith, ◌==◌, Bool-cases, length, All,
}
use build_postgres.Prelude.Text.{
  Bytes, codes, equal, equal-eq, is_space, two_space, three_space, space_size, skip, trim_right,
  trim_space,
}

-- White space at the front is within the text and is the same whatever follows.
space_size-append :
    (s t : Bytes) (m : ℕ)
    → space_size s ≡ suc m
    → (suc m ≤ length s) × (space_size (s ++ t) ≡ suc m)
unfolding space_size
space_size-append [] t m e = absurd (ground arith)
space_size-append (a ∷ []) [] m e = (ground arith, e)
space_size-append (a ∷ []) (x ∷ []) m e = (ground arith, ground arith)
space_size-append (a ∷ []) (x ∷ y ∷ t) m e = (ground arith, ground arith)
space_size-append (a ∷ b ∷ []) [] m e = (ground arith, e)
space_size-append (a ∷ b ∷ []) (x ∷ t) m e = (ground arith, ground arith)
space_size-append (a ∷ b ∷ c ∷ s) t m e = (ground arith, e)

size_cases : (n : ℕ) → (n ≡ 0) ⊎ ((m : ℕ) × (n ≡ suc m))
size_cases zero = inl refl
size_cases (suc m) = inr (m, refl)

skip_none : (c : ℕ) (s : Bytes) → space_size (c ∷ s) ≡ 0 → skip 0 (c ∷ s) ≡ c ∷ s
unfolding skip
skip_none c s e = rw (skip, e) refl

skip_some : (c m : ℕ) (s : Bytes) → space_size (c ∷ s) ≡ suc m → skip 0 (c ∷ s) ≡ skip m s
unfolding skip
skip_some c m s e = rw (skip, e) refl

-- A text of white space alone is taken off whatever follows.
pub skip-append : (k : ℕ) (s t : Bytes) → skip k s ≡ [] → k ≤ length s → skip k (s ++ t) ≡ skip 0 t
unfolding skip
skip-append zero [] t e h = refl
skip-append (suc k) [] t e h = absurd (omega arith)
skip-append (suc k) (c ∷ s) t e h = skip-append k s t e (omega arith)
skip-append zero (c ∷ s) t e h = elim (size_cases (space_size (c ∷ s))) [
  | inl q ↦ absurd (ground (arith, skip_none c s q))
  | inr (m, q) ↦
      let (a, b) = space_size-append (c ∷ s) t m q in
      skip_some c m (s ++ t) b ∙ skip-append m s t (sym (skip_some c m s q) ∙ e) (omega (arith, a))
]

abbrev NoSemicolon : ℕ → Type 0
NoSemicolon c = (c == b';') ≡ false

one_plain : (a m : ℕ) (s : Bytes) → m ≡ 0 → NoSemicolon a → All NoSemicolon (take (suc m) (a ∷ s))
one_plain a zero s e h = (h, tt)
one_plain a (suc m) s e h = absurd (omega (arith, e))

two_plain :
    (a b m : ℕ) (s : Bytes)
    → m ≡ 1
    → NoSemicolon a
    → NoSemicolon b
    → All NoSemicolon (take (suc m) (a ∷ b ∷ s))
two_plain a b zero s e h k = absurd (omega (arith, e))
two_plain a b (suc m) s e h k = (h, one_plain b m s (omega (arith, e)) k)

three_plain :
    (a b c m : ℕ) (s : Bytes)
    → m ≡ 2
    → NoSemicolon a
    → NoSemicolon b
    → NoSemicolon c
    → All NoSemicolon (take (suc m) (a ∷ b ∷ c ∷ s))
three_plain a b c zero s e h k l = absurd (omega (arith, e))
three_plain a b c (suc m) s e h k l = (h, two_plain b c m s (omega (arith, e)) k l)

is_space_plain : (a : ℕ) → is_space a ≡ true → NoSemicolon a
unfolding is_space
is_space_plain a h = ground arith

two_space_plain : (a b : ℕ) → two_space a b ≡ true → NoSemicolon a × NoSemicolon b
unfolding two_space
two_space_plain a b h = (ground arith, ground arith)

three_space_plain :
    (a b c : ℕ) → three_space a b c ≡ true → NoSemicolon a × NoSemicolon b × NoSemicolon c
unfolding three_space
three_space_plain a b c h = (ground arith, ground arith, ground arith)

-- White space holds no semicolon.
space_size_plain : (s : Bytes) (m : ℕ) → space_size s ≡ suc m → All NoSemicolon (take (suc m) s)
unfolding space_size
space_size_plain [] m e = absurd (ground arith)
space_size_plain (a ∷ []) m e = elim (Bool-cases (is_space a)) [
  | inl h ↦ one_plain a m [] (ground arith) (is_space_plain a h)
  | inr h ↦ absurd (ground arith)
]
space_size_plain (a ∷ b ∷ []) m e = elim (Bool-cases (is_space a)) [
  | inl h ↦ one_plain a m _ (ground arith) (is_space_plain a h)
  | inr h ↦ elim (Bool-cases (two_space a b)) [
    | inl k ↦ let (p, q) = two_space_plain a b k in two_plain a b m [] (ground arith) p q
    | inr k ↦ absurd (ground arith)
  ]
]
space_size_plain (a ∷ b ∷ c ∷ s) m e = elim (Bool-cases (is_space a)) [
  | inl h ↦ one_plain a m _ (ground arith) (is_space_plain a h)
  | inr h ↦ elim (Bool-cases (two_space a b)) [
    | inl k ↦ let (p, q) = two_space_plain a b k in two_plain a b m _ (ground arith) p q
    | inr k ↦ elim (Bool-cases (three_space a b c)) [
      | inl l ↦
          let (p, q, r) = three_space_plain a b c l in three_plain a b c m s (ground arith) p q r
      | inr l ↦ absurd (ground arith)
    ]
  ]
]

plain_behind : (k : ℕ) (s : Bytes) → skip k s ≡ [] → All NoSemicolon (take k s) → All NoSemicolon s
unfolding skip
plain_behind k [] e h = tt
plain_behind (suc k) (c ∷ s) e (p, h) = (p, plain_behind k s e h)
plain_behind zero (c ∷ s) e h = elim (size_cases (space_size (c ∷ s))) [
  | inl q ↦ absurd (ground (arith, skip_none c s q))
  | inr (m, q) ↦
      let (p, ps) = space_size_plain (c ∷ s) m q in
      (p, plain_behind m s (sym (skip_some c m s q) ∙ e) ps)
]

pub skip_plain : (s : Bytes) → skip 0 s ≡ [] → All NoSemicolon s
skip_plain s e = plain_behind 0 s e tt

-- What is left begins with no white space.
skip_stops : (k : ℕ) (s : Bytes) → skip 0 (skip k s) ≡ skip k s
unfolding skip
skip_stops k [] = refl
skip_stops (suc k) (c ∷ s) = skip_stops k s
skip_stops zero (c ∷ s) = elim (size_cases (space_size (c ∷ s))) [
  | inl q ↦ ap (skip 0) (skip_none c s q)
  | inr (m, q) ↦ rw (skip_some c m s q) (skip_stops m s)
]

trim_right-nil : (s : Bytes) → trim_right s ≡ [] → skip 0 s ≡ []
unfolding trim_right
trim_right-nil [] e = refl
trim_right-nil (c ∷ s) e = elim (Bool-cases (equal (skip 0 (c ∷ s)) [])) [
  | inl q ↦ equal-eq (skip 0 (c ∷ s)) [] q
  | inr q ↦ absurd (ground arith)
]

pub trim_space-nil : (s : Bytes) → trim_space s ≡ [] → skip 0 s ≡ []
unfolding trim_space
trim_space-nil s e = sym (skip_stops 0 s) ∙ trim_right-nil (skip 0 s) e

-- No-break spaces, an em space and a line separator around letters; bytes that are no encoding stay.
trims :
    (trim_space (194 ∷ 160 ∷ 32 ∷ 92 ∷ 113 ∷ 226 ∷ 128 ∷ 131 ∷ []) ≡ codes "\\q")
    × (trim_space (226 ∷ 128 ∷ 168 ∷ 10 ∷ 194 ∷ 133 ∷ []) ≡ [])
    × (trim_space (160 ∷ 226 ∷ 128 ∷ []) ≡ 160 ∷ 226 ∷ 128 ∷ [])
unfolding trim_space
trims = (refl, refl, refl)
