-- ===== src/Isolation/Spec/Text.antt =====
-- internal/isolation/isolation_test.go: the text of a specification, a declaration to a line, and its tokens.
use build_postgres.Prelude.{
  ℕ, zero, suc, ◌≤◌, ◌≡◌, refl, true, false, some, List, [], ◌∷◌, ◌++◌, arith, ◌==◌, length, All,
  length-append,
}
use build_postgres.Prelude.Text.{Bytes, codes, newline, trim_space}
use build_postgres.Prelude.Result.{ok}
use build_postgres.Isolation.Scan.{
  ends_word, cut_word, cut_brace, class_of, letter, round, scan, tokens,
}

-- A line of the text.
pub data Line : Type 0 where
  setup_line teardown_line session_line : Bytes → Line
  step_line : Bytes → Bytes → Line
  permutation_line : List Bytes → Line

abbrev braced : Bytes → Bytes → Bytes
braced sql rest = b' ' ∷ b'{' ∷ (sql ++ b'}' ∷ 10 ∷ rest)

abbrev spaced : List Bytes → Bytes → Bytes
spaced [] rest = rest
spaced (n ∷ names) rest = b' ' ∷ (n ++ spaced names rest)

-- The text of a line, before the rest of the text.
unfoldable pub line_text : Line → Bytes → Bytes
line_text (setup_line sql) rest = codes "setup" ++ braced sql rest
line_text (teardown_line sql) rest = codes "teardown" ++ braced sql rest
line_text (session_line name) rest = codes "session" ++ b' ' ∷ (name ++ 10 ∷ rest)
line_text (step_line name sql) rest = codes "step" ++ b' ' ∷ (name ++ braced sql rest)
line_text (permutation_line names) rest = codes "permutation" ++ spaced names (10 ∷ rest)

unfoldable pub line_tokens : Line → List Bytes → List Bytes
line_tokens (setup_line sql) toks = codes "setup" ∷ (b'{' ∷ sql) ∷ newline ∷ toks
line_tokens (teardown_line sql) toks = codes "teardown" ∷ (b'{' ∷ sql) ∷ newline ∷ toks
line_tokens (session_line name) toks = codes "session" ∷ name ∷ newline ∷ toks
line_tokens (step_line name sql) toks = codes "step" ∷ name ∷ (b'{' ∷ sql) ∷ newline ∷ toks
line_tokens (permutation_line names) toks = codes "permutation" ∷ (names ++ newline ∷ toks)

unfoldable pub text_of : List Line → Bytes
unfolding line_text
text_of [] = []
text_of (l ∷ ls) = line_text l (text_of ls)

unfoldable pub tokens_of : List Line → List Bytes → List Bytes
unfolding line_tokens
tokens_of [] toks = toks
tokens_of (l ∷ ls) toks = line_tokens l (tokens_of ls toks)

-- A word that is not empty and holds no white space, no opening brace and no #.
abbrev pub Word : Bytes → Type 0
Word [] = ⊥
Word (c ∷ w) = All (λ x. ends_word x ≡ false) (c ∷ w)

-- A text without a closing brace, and without white space around it.
pub record Sql (sql : Bytes) : Type 0 where
  pub trimmed : trim_space sql ≡ sql
  pub open_ended : All (λ c. (c == b'}') ≡ false) sql

abbrev pub Printable : Line → Type 0
Printable (setup_line sql) = Sql sql
Printable (teardown_line sql) = Sql sql
Printable (session_line name) = Word name
Printable (step_line name sql) = Word name × Sql sql
Printable (permutation_line names) = All Word names

-- The scan of a text that ends with these tokens, on enough fuel.
abbrev Scans : Bytes → List Bytes → Type 0
Scans s toks = (f : ℕ) → length s ≤ f → scan f s ≡ some (ok toks)

cut_word-append :
    (w : Bytes) (c : ℕ) (s : Bytes)
    → All (λ x. ends_word x ≡ false) w
    → ends_word c ≡ true
    → cut_word (w ++ c ∷ s) ≡ (w, c ∷ s)
unfolding cut_word
cut_word-append [] c s h e = rw e
cut_word-append (x ∷ w) c s (hx, h) e = rw (hx, cut_word-append w c s h e)

cut_brace-append :
    (sql s : Bytes)
    → All (λ c. (c == b'}') ≡ false) sql
    → cut_brace (sql ++ b'}' ∷ s) ≡ some (sql, s)
unfolding cut_brace
cut_brace-append [] s h = refl
cut_brace-append (x ∷ sql) s (hx, h) = rw (hx, cut_brace-append sql s h)

letter_of : (c : ℕ) → ends_word c ≡ false → class_of c ≡ letter
unfolding class_of
letter_of c e = ground arith

blank-Scans : {toks : List Bytes} (s : Bytes) → Scans s toks → Scans (b' ' ∷ s) toks
unfolding scan
blank-Scans s k zero h = absurd (omega arith)
blank-Scans s k (suc f) h = k f (omega arith)

line-Scans : {toks : List Bytes} (s : Bytes) → Scans s toks → Scans (10 ∷ s) (newline ∷ toks)
unfolding scan
line-Scans s k zero h = absurd (omega arith)
line-Scans s k (suc f) h = rw (k f (omega arith))

Word-Scans :
    {toks : List Bytes} (w : Bytes) (c : ℕ) (s : Bytes)
    → Word w
    → ends_word c ≡ true
    → Scans (c ∷ s) toks
    → Scans (w ++ c ∷ s) (w ∷ toks)
unfolding scan
Word-Scans [] c s h e k f g = absurd h
Word-Scans (x ∷ w) c s h e k zero g = absurd (omega arith)
Word-Scans (x ∷ w) c s h e k (suc f) g =
    rw (letter_of x h.0, round, cut_word-append (x ∷ w) c s h e)
      (rw (k f (omega (arith, length-append w (c ∷ s)))) refl)

block-Scans :
    {toks : List Bytes} (sql s : Bytes)
    → Sql sql
    → Scans s toks
    → Scans (b'{' ∷ (sql ++ b'}' ∷ s)) ((b'{' ∷ sql) ∷ toks)
unfolding scan
block-Scans sql s p k zero h = absurd (omega arith)
block-Scans sql s p k (suc f) h =
    rw (round, cut_brace-append sql s p.open_ended)
      (rw (p.trimmed, k f (omega (arith, length-append sql (b'}' ∷ s)))) refl)

braced-Scans :
    {toks : List Bytes} (sql s : Bytes)
    → Sql sql
    → Scans s toks
    → Scans (braced sql s) ((b'{' ∷ sql) ∷ newline ∷ toks)
braced-Scans sql s p k =
    blank-Scans (b'{' ∷ (sql ++ b'}' ∷ 10 ∷ s)) (block-Scans sql (10 ∷ s) p (line-Scans s k))

spaced-Scans :
    {toks : List Bytes} (word : Bytes) (names : List Bytes) (s : Bytes)
    → Word word
    → All Word names
    → Scans s toks
    → Scans (word ++ spaced names (10 ∷ s)) (word ∷ (names ++ newline ∷ toks))
spaced-Scans word [] s h hs k = Word-Scans word 10 s h refl (line-Scans s k)
spaced-Scans word (n ∷ names) s h (hn, hs) k =
    Word-Scans word b' ' (n ++ spaced names (10 ∷ s)) h refl
      (blank-Scans (n ++ spaced names (10 ∷ s)) (spaced-Scans n names s hn hs k))

line_text-Scans :
    {toks : List Bytes} (l : Line) (s : Bytes)
    → Printable l
    → Scans s toks
    → Scans (line_text l s) (line_tokens l toks)
unfolding line_text line_tokens
line_text-Scans (setup_line sql) s h k =
    Word-Scans (codes "setup") b' ' _ (refl, (refl, (refl, (refl, (refl, tt))))) refl
      (braced-Scans sql s h k)
line_text-Scans (teardown_line sql) s h k =
    Word-Scans (codes "teardown") b' ' _
      (refl, (refl, (refl, (refl, (refl, (refl, (refl, (refl, tt)))))))) refl
      (braced-Scans sql s h k)
line_text-Scans (session_line name) s h k =
    Word-Scans (codes "session") b' ' _ (refl, (refl, (refl, (refl, (refl, (refl, (refl, tt)))))))
      refl (blank-Scans (name ++ 10 ∷ s) (Word-Scans name 10 s h refl (line-Scans s k)))
line_text-Scans (step_line name sql) s (h, g) k =
    Word-Scans (codes "step") b' ' _ (refl, (refl, (refl, (refl, tt)))) refl
      (blank-Scans (name ++ braced sql s) (Word-Scans name b' ' _ h refl (braced-Scans sql s g k)))
line_text-Scans (permutation_line names) s h k =
    spaced-Scans (codes "permutation") names s
      (refl, (refl, (refl, (refl, (refl, (refl, (refl, (refl, (refl, (refl, (refl, tt))))))))))) h k

text_of-Scans : (ls : List Line) → All Printable ls → Scans (text_of ls) (tokens_of ls [])
unfolding text_of tokens_of scan
text_of-Scans [] h = λ f g. refl
text_of-Scans (l ∷ ls) (h, hs) = line_text-Scans l (text_of ls) h (text_of-Scans ls hs)

-- tokens reads printable lines as their tokens.
pub tokens-text_of :
    (ls : List Line) → All Printable ls → tokens (text_of ls) ≡ some (ok (tokens_of ls []))
unfolding tokens
tokens-text_of ls h = text_of-Scans ls h (length (text_of ls)) (omega arith)
