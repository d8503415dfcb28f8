-- ===== src/Session/Script.antt =====
-- The loop that cmd/pgdb/main.go and internal/regress/regress_test.go share: a line of input is added
-- to a buffer, and every statement that is complete is cut off the buffer and run.
pub mod Chunks
use build_postgres.Prelude.{ℕ, zero, suc, Option, none, some, List, [], ◌∷◌, ◌++◌, length}
use build_postgres.Prelude.Text.{Bytes, newline}

module _ {ℓ} {S : Type ℓ} (split : Bytes → Option (Bytes × Bytes)) (run : S → Bytes → S) where
  -- for { stmt, rest, ok := session.Split(buf); if !ok { break }; buf = rest; … }; none means that the
  -- fuel ran out.
  unfoldable pub drain : ℕ → Bytes → S → Option (Bytes × S)
  drain zero buf s = none
  drain (suc f) buf s = elim (split buf) [
    | none ↦ some (buf, s)
    | some (stmt, rest) ↦ drain f rest (run s stmt)
  ]

  -- A line is read: buf += line + "\n", and the loop.
  unfoldable pub feed : Bytes → Bytes → S → Option (Bytes × S)
  unfolding drain
  feed buf line s = let text = buf ++ (line ++ newline) in drain (suc (length text)) text s

module _ {ℓ} {S : Type ℓ} (run : S → Bytes → S) where
  -- Statements run in order.
  unfoldable pub run_all : List Bytes → S → S
  run_all [] s = s
  run_all (stmt ∷ stmts) s = run_all stmts (run s stmt)

-- The text that the lines of an input make up.
unfoldable pub unlines : List Bytes → Bytes
unlines [] = []
unlines (line ∷ lines) = (line ++ newline) ++ unlines lines
