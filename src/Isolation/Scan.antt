-- ===== src/Isolation/Scan.antt =====
-- internal/isolation/isolation_test.go: tokens, on the text that is left of the source.
pub mod Words
use build_postgres.Prelude.{
  ℕ, zero, suc, ◌≤◌, ◌<◌, ◌≡◌, refl, sym, ◌∙◌, subst, ap, ◌++◌, inl, inr, Bool, true, false, ◌||◌,
  Option, none, some, List, [], ◌∷◌, arith, ◌==◌, if◌then◌else◌, Bool-cases, Option-cases, length,
  All,
}
use build_postgres.Prelude.Text.{Bytes, codes, newline, trim_space}
use build_postgres.Prelude.Result.{Result, ok, err}

-- for i < len(src) && src[i] != '\n' { i++ }
unfoldable pub skip_comment : Bytes → Bytes
skip_comment [] = []
skip_comment (c ∷ s) = let rest = skip_comment s in if c == 10 then c ∷ s else rest

abbrev before : ℕ → Option (Bytes × Bytes) → Option (Bytes × Bytes)
before c none = none
before c (some (sql, rest)) = some (c ∷ sql, rest)

-- The text before the first closing brace, and the text behind it.
unfoldable pub cut_brace : Bytes → Option (Bytes × Bytes)
cut_brace [] = none
cut_brace (c ∷ s) = let found = cut_brace s in if c == b'}' then some ([], s) else before c found

-- strings.ContainsRune(" \t\r\n{#", rune(c))
abbrev pub ends_word : ℕ → Bool
ends_word c = c == 32 || c == 9 || c == 13 || c == 10 || c == b'{' || c == b'#'

-- The word at the start of the text, and the text behind it.
unfoldable pub cut_word : Bytes → Bytes × Bytes
cut_word [] = ([], [])
cut_word (c ∷ s) = let (w, rest) = cut_word s in if ends_word c then ([], c ∷ s) else (c ∷ w, rest)

-- A token before those of the rest.
abbrev pub put : Bytes → Option (Result Bytes (List Bytes)) → Option (Result Bytes (List Bytes))
put t none = none
put t (some (err e)) = some (err e)
put t (some (ok toks)) = some (ok (t ∷ toks))

-- The cases of the switch.
pub data Class : Type 0 where
  line_end blank comment block letter : Class

unfoldable pub class_of : ℕ → Class
class_of c =
    if c == 10
    then line_end
    else if c == 32 || c == 9 || c == 13
    then blank
    else if c == b'#'
    then comment
    else if c == b'{'
    then block
    else letter

abbrev pub Next : Type 0
Next = Bytes → Option (Result Bytes (List Bytes))

-- A block, from what IndexByte finds behind its brace.
abbrev pub scan_block : Next → Option (Bytes × Bytes) → Option (Result Bytes (List Bytes))
scan_block next none = some (err (codes "unterminated {"))
scan_block next (some (sql, rest)) = put (b'{' ∷ trim_space sql) (next rest)

-- A round of the loop at the character c, with the rounds behind it.
unfoldable pub round : Next → Class → ℕ → Bytes → Option (Result Bytes (List Bytes))
unfolding skip_comment cut_brace cut_word trim_space
round next line_end c s = put newline (next s)
round next blank c s = next s
round next comment c s = next (skip_comment (c ∷ s))
round next block c s = scan_block next (cut_brace s)
round next letter c s = put (cut_word (c ∷ s)).0 (next (cut_word (c ∷ s)).1)

-- tokens on the text that is left; none means that the fuel ran out.
unfoldable pub scan : ℕ → Bytes → Option (Result Bytes (List Bytes))
unfolding round class_of
scan f [] = some (ok [])
scan zero (c ∷ s) = none
scan (suc f) (c ∷ s) = round (λ rest. scan f rest) (class_of c) c s

-- tokens
unfoldable pub tokens : Bytes → Option (Result Bytes (List Bytes))
unfolding scan
tokens src = scan (length src) src
