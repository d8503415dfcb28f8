-- ===== src/Session/Script/Chunks.antt =====
-- The statements that are run do not depend on the lines in which a text arrives.
use build_postgres.Prelude.{
  ℕ, zero, suc, ◌<◌, ◌≡◌, refl, sym, ◌∙◌, subst, inl, inr, Option, none, some, List, [], ◌∷◌, ◌++◌,
  arith, Option-cases, length,
}
use build_postgres.Prelude.Text.{Bytes, newline}
use build_postgres.Session.{SplitLaws}
use build_postgres.Session.Script.{drain, feed, run_all}

-- The complete statements of a text, in order.
pub data Statements (split : Bytes → Option (Bytes × Bytes)) : Bytes → List Bytes → Type 0 where
  stop : {t : Bytes} → split t ≡ none → Statements split t []
  next :
      {t stmt rest : Bytes} {stmts : List Bytes}
      → split t ≡ some (stmt, rest)
      → Statements split rest stmts
      → Statements split t (stmt ∷ stmts)

-- The statements cut off a text, and the text that is left, which has none.
pub data Cuts (split : Bytes → Option (Bytes × Bytes)) : Bytes → List Bytes → Bytes → Type 0 where
  stop : {t : Bytes} → split t ≡ none → Cuts split t [] t
  next :
      {t stmt rest left : Bytes} {stmts : List Bytes}
      → split t ≡ some (stmt, rest)
      → Cuts split rest stmts left
      → Cuts split t (stmt ∷ stmts) left

module _ {ℓ} {S : Type ℓ} (split : Bytes → Option (Bytes × Bytes)) (laws : SplitLaws split)
    (run : S → Bytes → S) where
  drain_stop :
      (f : ℕ) (t : Bytes) (s : S) → split t ≡ none → drain split run (suc f) t s ≡ some (t, s)
  unfolding drain
  drain_stop f t s e = ground arith

  drain_next :
      (f : ℕ) (t stmt rest : Bytes) (s : S)
      → split t ≡ some (stmt, rest)
      → drain split run (suc f) t s ≡ drain split run f rest (run s stmt)
  unfolding drain
  drain_next f t stmt rest s e = ground arith

  -- The loop ends, with all statements run.
  pub drain_total :
      (f : ℕ) (t : Bytes) (s : S)
      → length t < f
      → (stmts : List Bytes) × (left : Bytes) × Cuts split t stmts left
        × (drain split run f t s ≡ some (left, run_all run stmts s))
  unfolding run_all
  drain_total zero t s h = absurd (omega arith)
  drain_total (suc f) t s h = elim (Option-cases (split t)) [
    | inl e ↦ ([], t, stop e, drain_stop f t s e)
    | inr ((stmt, rest), e) ↦
        let (stmts, left, cuts, done) =
          drain_total f rest (run s stmt) (omega (arith, laws.split_shorter t stmt rest e)) in
        (stmt ∷ stmts, left, next e cuts, drain_next f t stmt rest s e ∙ done)
  ]

  -- A line that is read: its statements are run, and the rest stays in the buffer.
  pub feed_total :
      (buf line : Bytes) (s : S)
      → (stmts : List Bytes) × (left : Bytes) × Cuts split (buf ++ (line ++ newline)) stmts left
        × (feed split run buf line s ≡ some (left, run_all run stmts s))
  unfolding feed
  feed_total buf line s =
      let text = buf ++ (line ++ newline) in drain_total (suc (length text)) text s (omega arith)

module _ (split : Bytes → Option (Bytes × Bytes)) (laws : SplitLaws split) where
  -- What is left of a text has no complete statement.
  pub Cuts_left :
      {t left : Bytes} {stmts : List Bytes} → Cuts split t stmts left → split left ≡ none
  Cuts_left (stop e) = e
  Cuts_left (next e cuts) = Cuts_left cuts

  pub split-nil : split [] ≡ none
  split-nil = elim (Option-cases (split [])) [
    | inl e ↦ e
    | inr ((stmt, rest), e) ↦ absurd (omega (arith, laws.split_shorter [] stmt rest e))
  ]

  -- Text that begins alike has the same statements.
  pub Statements_cong :
      {t u : Bytes} {stmts : List Bytes}
      → split t ≡ split u
      → Statements split t stmts
      → Statements split u stmts
  Statements_cong e (stop h) = stop (sym e ∙ h)
  Statements_cong e (next h more) = next (sym e ∙ h) more

  -- The statements of a text are those cut off its beginning and those of what is left and the rest.
  pub Cuts-append :
      {t left : Bytes} {first : List Bytes} (more : Bytes) {second : List Bytes}
      → Cuts split t first left
      → Statements split (left ++ more) second
      → Statements split (t ++ more) (first ++ second)
  Cuts-append more (stop e) rest = rest
  Cuts-append more (next {t = t} {stmt = stmt} {rest = r} e cuts) rest =
      next (laws.split-append t stmt r more e) (Cuts-append more cuts rest)

  -- A text has one list of statements.
  pub Statements_unique :
      {t : Bytes} {xs ys : List Bytes} → Statements split t xs → Statements split t ys → xs ≡ ys
  Statements_unique (stop e) (stop h) = refl
  Statements_unique (stop e) (next h more) = cc
  Statements_unique (next e more) (stop h) = cc
  Statements_unique (next {rest = r} {stmts = xs} e more) (next {rest = q} {stmts = ys} h other) =
      let same : r ≡ q = cc in
      let tail = Statements_unique (subst (λ u. Statements split u xs) same more) other in cc

module _ {ℓ} {S : Type ℓ} (run : S → Bytes → S) where
  pub run_all-append :
      (xs ys : List Bytes) (s : S) → run_all run (xs ++ ys) s ≡ run_all run ys (run_all run xs s)
  unfolding run_all
  run_all-append [] ys s = refl
  run_all-append (x ∷ xs) ys s = run_all-append xs ys (run s x)
