-- ===== src/Isolation/Scan/Words.antt =====
-- internal/isolation/isolation_test.go: tokens ends, and what it takes a source for.
use build_postgres.Prelude.{
  ℕ, zero, suc, ◌≤◌, ◌<◌, ◌≡◌, refl, sym, ◌∙◌, subst, ap, ◌++◌, inl, inr, Bool, true, false, ◌||◌,
  Option, none, some, List, [], ◌∷◌, arith, ◌==◌, Bool-cases, Option-cases, length, All,
}
use build_postgres.Prelude.Text.{Bytes, codes, newline, trim_space}
use build_postgres.Prelude.Result.{Result, ok, err}
use build_postgres.Isolation.Scan.{
  skip_comment, cut_brace, ends_word, cut_word, put, Class, line_end, blank, comment, block, letter,
  class_of, Next, scan_block, round, scan, tokens,
}

-- The characters that end a word or a comment stand before the text.
abbrev pub Stops : (ℕ → Bool) → Bytes → Type 0
Stops stop [] = Unit
Stops stop (c ∷ s) = stop c ≡ true

abbrev pub added : Bytes → Result Bytes (List Bytes) → Result Bytes (List Bytes)
added t (err e) = err e
added t (ok toks) = ok (t ∷ toks)

-- The tokens of a text, or the error: newlines, the texts between braces, trimmed and behind their opening brace,
-- and words as long as can be, between white space and comments.
pub data Reads : Bytes → Result Bytes (List Bytes) → Type 0 where
  finished : Reads [] (ok [])
  line_token :
      {s : Bytes} {r : Result Bytes (List Bytes)} → Reads s r → Reads (10 ∷ s) (added newline r)
  blanked :
      {s : Bytes} {r : Result Bytes (List Bytes)} (c : ℕ)
      → (c == 32 || c == 9 || c == 13) ≡ true
      → Reads s r
      → Reads (c ∷ s) r
  commented :
      {s : Bytes} {r : Result Bytes (List Bytes)} (text : Bytes)
      → All (λ x. (x == 10) ≡ false) text
      → Stops (λ x. x == 10) s
      → Reads s r
      → Reads (b'#' ∷ (text ++ s)) r
  unterminated :
      {s : Bytes}
      → All (λ x. (x == b'}') ≡ false) s
      → Reads (b'{' ∷ s) (err (codes "unterminated {"))
  block_token :
      {s : Bytes} {r : Result Bytes (List Bytes)} (sql : Bytes)
      → All (λ x. (x == b'}') ≡ false) sql
      → Reads s r
      → Reads (b'{' ∷ (sql ++ b'}' ∷ s)) (added (b'{' ∷ trim_space sql) r)
  word_token :
      {s : Bytes} {r : Result Bytes (List Bytes)} (c : ℕ) (w : Bytes)
      → All (λ x. ends_word x ≡ false) (c ∷ w)
      → Stops (λ x. ends_word x) s
      → Reads s r
      → Reads (c ∷ (w ++ s)) (added (c ∷ w) r)

abbrev Ends : Bytes → Option (Result Bytes (List Bytes)) → Type 0
Ends s o = (r : Result Bytes (List Bytes)) × (o ≡ some r) × Reads s r

put-added :
    (t : Bytes) (o : Option (Result Bytes (List Bytes))) (r : Result Bytes (List Bytes))
    → o ≡ some r
    → put t o ≡ some (added t r)
put-added t none r e = cc
put-added t (some (err m)) (err n) e = e
put-added t (some (err m)) (ok ts) e = cc
put-added t (some (ok toks)) (err n) e = cc
put-added t (some (ok toks)) (ok ts) e = ap (put t) e

-- What is cut off and what is left make up the text.
skip_comment_parts :
    (s : Bytes)
    → (text : Bytes) × (s ≡ text ++ skip_comment s)
      × All (λ x. (x == 10) ≡ false) text
      × Stops (λ x. x == 10) (skip_comment s)
unfolding skip_comment
skip_comment_parts [] = ([], refl, tt, tt)
skip_comment_parts (c ∷ s) = elim (Bool-cases (c == 10)) [
  | inl e ↦ rw (e, skip_comment) ([], refl, tt, e)
  | inr e ↦
      let (text, q, a, b) = skip_comment_parts s in
      rw (e, skip_comment) (c ∷ text, ap (λ x. c ∷ x) q, (e, a), b)
]

cut_word_parts :
    (s : Bytes)
    → (s ≡ (cut_word s).0 ++ (cut_word s).1)
      × All (λ x. ends_word x ≡ false) (cut_word s).0
      × Stops (λ x. ends_word x) (cut_word s).1
unfolding cut_word
cut_word_parts [] = (refl, tt, tt)
cut_word_parts (c ∷ s) = elim (Bool-cases (ends_word c)) [
  | inl e ↦ rw (e, cut_word) (refl, tt, e)
  | inr e ↦ let (q, a, b) = cut_word_parts s in rw (e, cut_word) (ap (λ x. c ∷ x) q, (e, a), b)
]

cut_brace-none : (s : Bytes) → cut_brace s ≡ none → All (λ x. (x == b'}') ≡ false) s
unfolding cut_brace
cut_brace-none [] e = tt
cut_brace-none (c ∷ s) e = elim (Bool-cases (c == b'}')) [
  | inl h ↦ absurd (ground arith)
  | inr h ↦ elim (Option-cases (cut_brace s)) [
    | inl q ↦ (h, cut_brace-none s q)
    | inr (x, q) ↦ absurd (ground arith)
  ]
]

cut_brace-some :
    (s sql rest : Bytes)
    → cut_brace s ≡ some (sql, rest)
    → (s ≡ sql ++ b'}' ∷ rest) × All (λ x. (x == b'}') ≡ false) sql
unfolding cut_brace
cut_brace-some [] sql rest e = cc
cut_brace-some (c ∷ s) sql rest e = elim (Bool-cases (c == b'}')) [
  | inl h ↦
      let l : [] ≡ sql = ground arith in
      let r : s ≡ rest = ground arith in
      let k : c ≡ b'}' = ground arith in rw (← l, ← r, k) (refl, tt)
  | inr h ↦ elim (Option-cases (cut_brace s)) [
    | inl q ↦ absurd (ground arith)
    | inr ((x, y), q) ↦
        let (k, a) = cut_brace-some s x y q in
        let l : c ∷ x ≡ sql = ground arith in
        let r : y ≡ rest = ground arith in rw (← l, ← r) (ap (λ z. c ∷ z) k, (h, a))
  ]
]

skip_comment_shorter : (s : Bytes) → length (skip_comment s) ≤ length s
unfolding skip_comment
skip_comment_shorter [] = omega arith
skip_comment_shorter (c ∷ s) = ground (arith, skip_comment_shorter s)

cut_brace_shorter : (s sql rest : Bytes) → cut_brace s ≡ some (sql, rest) → length rest < length s
unfolding cut_brace
cut_brace_shorter [] sql rest e = cc
cut_brace_shorter (c ∷ s) sql rest e = elim (Bool-cases (c == b'}')) [
  | inl t ↦
      let same : s ≡ rest = ground arith in
      let len : length s ≡ length rest = ap length same in omega arith
  | inr f ↦ elim (Option-cases (cut_brace s)) [
    | inl q ↦ ground arith
    | inr ((x, y), q) ↦
        let same : y ≡ rest = ground arith in
        let len : length y ≡ length rest = ap length same in
        omega (arith, cut_brace_shorter s x y q)
  ]
]

cut_word_shorter : (s : Bytes) → length (cut_word s).1 ≤ length s
unfolding cut_word
cut_word_shorter [] = omega arith
cut_word_shorter (c ∷ s) = ground (arith, cut_word_shorter s)

-- The class of a character and the end of a word agree.
letter_class : (c : ℕ) → class_of c ≡ letter → ends_word c ≡ false
unfolding class_of
letter_class c e = ground arith

line_class : (c : ℕ) → class_of c ≡ line_end → c ≡ 10
unfolding class_of
line_class c e = ground arith

blank_class : (c : ℕ) → class_of c ≡ blank → (c == 32 || c == 9 || c == 13) ≡ true
unfolding class_of
blank_class c e = ground arith

comment_class : (c : ℕ) → class_of c ≡ comment → c ≡ b'#'
unfolding class_of
comment_class c e = ground arith

block_class : (c : ℕ) → class_of c ≡ block → c ≡ b'{'
unfolding class_of
block_class c e = ground arith

cut_word_letter :
    (c : ℕ) (s : Bytes)
    → ends_word c ≡ false
    → cut_word (c ∷ s) ≡ (c ∷ (cut_word s).0, (cut_word s).1)
unfolding cut_word
cut_word_letter c s e = rw e

skip_comment_hash : (c : ℕ) (s : Bytes) → c ≡ b'#' → skip_comment (c ∷ s) ≡ skip_comment s
unfolding skip_comment
skip_comment_hash c s e = rw e refl

round-Ends :
    (next : Next) (k : Class) (c : ℕ) (s : Bytes)
    → class_of c ≡ k
    → ((rest : Bytes) → length rest ≤ length s → Ends rest (next rest))
    → Ends (c ∷ s) (round next k c s)
unfolding round
round-Ends next line_end c s e h =
    let (r, q, d) = h s (omega arith) in
    rw (line_class c e) (added newline r, put-added newline (next s) r q, line_token d)
round-Ends next blank c s e h =
    let (r, q, d) = h s (omega arith) in (r, q, blanked c (blank_class c e) d)
round-Ends next comment c s e h =
    let (text, parts, plain, stop) = skip_comment_parts s in
    let (r, q, d) = h (skip_comment s) (skip_comment_shorter s) in
    (
      r,
      ap next (skip_comment_hash c s (comment_class c e)) ∙ q,
      rw (comment_class c e)
          (subst (λ x. Reads (b'#' ∷ x) r) (sym parts) (commented text plain stop d)),
    )
round-Ends next block c s e h = elim (Option-cases (cut_brace s)) [
  | inl q ↦ (
    err (codes "unterminated {"),
    ap (scan_block next) q,
    rw (block_class c e) (unterminated (cut_brace-none s q)),
  )
  | inr ((sql, rest), q) ↦
      let shorter = cut_brace_shorter s sql rest q in
      let (parts, plain) = cut_brace-some s sql rest q in
      let (r, k, d) = h rest (omega arith) in
      (
        added (b'{' ∷ trim_space sql) r,
        ap (scan_block next) q ∙ put-added (b'{' ∷ trim_space sql) (next rest) r k,
        rw (block_class c e) (
            subst (λ x. Reads (b'{' ∷ x) (added (b'{' ∷ trim_space sql) r)) (sym parts)
              (block_token sql plain d)),
      )
]
round-Ends next letter c s e h =
    let (parts, plain, stop) = cut_word_parts s in
    let (r, q, d) = h (cut_word s).1 (cut_word_shorter s) in
    let w = (cut_word s).0 in
    (
      added (c ∷ w) r,
      ap (λ x. put x.0 (next x.1)) (cut_word_letter c s (letter_class c e))
          ∙ put-added (c ∷ w) (next (cut_word s).1) r q,
      subst (λ x. Reads (c ∷ x) (added (c ∷ w) r)) (sym parts)
          (word_token c w (letter_class c e, plain) stop d),
    )

scan-Ends : (f : ℕ) (s : Bytes) → length s ≤ f → Ends s (scan f s)
unfolding scan
scan-Ends f [] h = (ok [], refl, finished)
scan-Ends zero (c ∷ s) h = absurd (omega arith)
scan-Ends (suc f) (c ∷ s) h =
    round-Ends (λ rest. scan f rest) (class_of c) c s refl
      (λ rest k. scan-Ends f rest (omega arith))

-- tokens ends on every source with what the source reads as: newlines, the trimmed texts between braces behind
-- their opening brace, and the longest words without white space, opening braces and #, in order, with white space
-- and comments between them; or the error, where an opening brace is reached that no closing one follows.
pub tokens_total :
    (src : Bytes) → (r : Result Bytes (List Bytes)) × (tokens src ≡ some r) × Reads src r
unfolding tokens
tokens_total src = scan-Ends (length src) src (omega arith)
