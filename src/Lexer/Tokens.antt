-- ===== src/Lexer/Tokens.antt =====
-- internal/sql/lexer/lexer.go: Tokenize ends, and yields the tokens of Next up to the first EOF.
use build_postgres.Prelude.{
  ℕ, zero, suc, ◌+◌, ◌≤◌, ◌<◌, ◌≡◌, sym, ap, ◌∙◌, subst, inl, inr, true, false, some, List, [], ◌∷◌,
  ◌++◌, append_assoc, arith, Bool-cases, length,
}
use build_postgres.Prelude.Text.{Bytes}
use build_postgres.Prelude.Int.{equal_int}
use build_postgres.Prelude.Result.{Result, ok, err, Result-cases}
use build_postgres.Lexer.{Token, Error, Lexer, Scanner, ScannerLaws, eof, collect, tokenize}

module _ (s : Scanner) where
  -- Calls of Next from a lexer yield these tokens: the last is EOF, and no other one is.
  pub data Yields : Lexer → List Token → Type 0 where
    last :
        {l : Lexer} {t : Token}
        → (s.next l).1 ≡ ok t
        → equal_int t.kind eof ≡ true
        → Yields l (t ∷ [])
    more :
        {l : Lexer} {t : Token} {ts : List Token}
        → (s.next l).1 ≡ ok t
        → equal_int t.kind eof ≡ false
        → Yields (s.next l).0 ts
        → Yields l (t ∷ ts)

  -- Calls of Next from a lexer yield tokens other than EOF and then an error.
  pub data Fails : Lexer → Error → Type 0 where
    now : {l : Lexer} {e : Error} → (s.next l).1 ≡ err e → Fails l e
    later :
        {l : Lexer} {t : Token} {e : Error}
        → (s.next l).1 ≡ ok t
        → equal_int t.kind eof ≡ false
        → Fails (s.next l).0 e
        → Fails l e

  -- What a run of the loop comes to.
  pub data Outcome (l : Lexer) (toks : List Token) : Result Error (List Token) → Type 0 where
    lexed : {ts : List Token} → Yields l ts → Outcome l toks (ok (toks ++ ts))
    failed : {e : Error} → Fails l e → Outcome l toks (err e)

module _ (s : Scanner) where
  collect_err :
      (f : ℕ) (l : Lexer) (toks : List Token) (e : Error)
      → (s.next l).1 ≡ err e
      → collect s (suc f) l toks ≡ some (err e)
  unfolding collect
  collect_err f l toks e h = ground arith

  collect-eof :
      (f : ℕ) (l : Lexer) (toks : List Token) (t : Token)
      → (s.next l).1 ≡ ok t
      → equal_int t.kind eof ≡ true
      → collect s (suc f) l toks ≡ some (ok (toks ++ t ∷ []))
  unfolding collect
  collect-eof f l toks t h k = ground arith

  collect_more :
      (f : ℕ) (l : Lexer) (toks : List Token) (t : Token)
      → (s.next l).1 ≡ ok t
      → equal_int t.kind eof ≡ false
      → collect s (suc f) l toks ≡ collect s f (s.next l).0 (toks ++ t ∷ [])
  unfolding collect
  collect_more f l toks t h k = ground arith

  Outcome-more :
      {l : Lexer} {t : Token} (toks : List Token) {r : Result Error (List Token)}
      → (s.next l).1 ≡ ok t
      → equal_int t.kind eof ≡ false
      → Outcome s (s.next l).0 (toks ++ t ∷ []) r
      → Outcome s l toks r
  Outcome-more {l} {t} toks h k (lexed {ts = ts} y) =
      subst (λ xs. Outcome s l toks (ok xs)) (sym (append_assoc toks (t ∷ []) ts))
        (lexed (more h k y))
  Outcome-more toks h k (failed y) = failed (later h k y)

  -- With fuel for the bytes that are left the loop ends, with what Next yields.
  collect_total :
      ScannerLaws s
      → (f : ℕ) (l : Lexer) (toks : List Token) → l.off ≤ length l.src
      → length l.src < l.off + f
      → (r : Result Error (List Token)) × (collect s f l toks ≡ some r) × Outcome s l toks r
  collect_total laws zero l toks b h = absurd (omega arith)
  collect_total laws (suc f) l toks b h = elim (Result-cases (s.next l).1) [
    | inl (e, q) ↦ (err e, collect_err f l toks e q, failed (now q))
    | inr (t, q) ↦ elim (Bool-cases (equal_int t.kind eof)) [
      | inl k ↦ (ok (toks ++ t ∷ []), collect-eof f l toks t q k, lexed (last q k))
      | inr k ↦
          let (same, grows, within) = laws.next_advances l t q k in
          let kept : length (s.next l).0.src ≡ length l.src = ap length same in
          let (r, done, y) =
            collect_total laws f (s.next l).0 (toks ++ t ∷ []) (omega arith) (omega arith) in
          (r, collect_more f l toks t q k ∙ done, Outcome-more toks q k y)
    ]
  ]

  -- Tokenize ends on every source, with the tokens of Next as far as the first EOF, which is the
  -- last token and the only EOF among them, or with the first error of Next, no EOF having come
  -- before it; given that Next takes at least a byte for each token that is not EOF.
  pub tokenize_total :
      ScannerLaws s
      → (src : Bytes)
      → (r : Result Error (List Token)) × (tokenize s src ≡ some r) × Outcome s (s.new src) [] r
  unfolding tokenize
  tokenize_total laws src =
      let (same, start) = laws.new_start src in
      let kept : length (s.new src).src ≡ length src = ap length same in
      collect_total laws (suc (length src)) (s.new src) [] (omega arith) (omega arith)
