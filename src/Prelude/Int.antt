-- ===== src/Prelude/Int.antt =====
-- Signed integers over the native numbers: Go's `int` where the source stores negative values.
-- `negsuc n` is -(n + 1).
use build_postgres.Prelude.{ℕ, Bool, true, false, ◌==◌, ◌≡◌, arith}

pub data ℤ : Type 0 where
  pos : ℕ → ℤ
  negsuc : ℕ → ℤ

-- a == b
abbrev pub equal_int : ℤ → ℤ → Bool
equal_int (pos m) (pos n) = m == n
equal_int (pos m) (negsuc n) = false
equal_int (negsuc m) (pos n) = false
equal_int (negsuc m) (negsuc n) = m == n

pub equal_int-eq : (a b : ℤ) → equal_int a b ≡ true → a ≡ b
equal_int-eq (pos m) (pos n) h = ground arith
equal_int-eq (pos m) (negsuc n) h = cc
equal_int-eq (negsuc m) (pos n) h = cc
equal_int-eq (negsuc m) (negsuc n) h = ground arith

pub equal_int_refl : (a : ℤ) → equal_int a a ≡ true
equal_int_refl (pos m) = ground arith
equal_int_refl (negsuc m) = ground arith
