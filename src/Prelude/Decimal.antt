-- ===== src/Prelude/Decimal.antt =====
-- Decimal numbers as strconv and fmt write and read them: Itoa, Atoi, and the verbs %d, %Nd, %-Ns
-- and %04x that the source prints with.
use build_postgres.Prelude.{
  ◌≤◌, ℕ, zero, suc, ◌+◌, ◌-◌, ◌*◌, ◌/◌, ◌%◌, ◌^◌, ◌<◌, ◌≡◌, ◌≢◌, refl, true, ◌&&◌, [], ◌∷◌, ◌++◌,
  Option, none, some, arith, ltb, leb, ◌==◌, if◌then◌else◌, length, inl, inr, Bool-cases, sym, ap,
}
use mathlib.Core.List.{append_cancel_left}
use build_postgres.Prelude.Int.{ℤ, pos, negsuc}
use build_postgres.Prelude.Text.{Bytes, codes, spaces, count_byte}

-- The digits of n before `out`. The fuel bounds the number of digits.
digits : ℕ → ℕ → Bytes → Bytes
digits zero n out = out
digits (suc f) n out =
    let more = digits f (n / 10) ((48 + n % 10) ∷ out) in if ltb n 10 then (48 + n) ∷ out else more

-- strconv.Itoa of a number that is not negative, and %d.
unfoldable pub itoa : ℕ → Bytes
unfolding digits
itoa n = digits (suc n) n []

-- %d of any integer
unfoldable pub itoa_int : ℤ → Bytes
unfolding itoa
itoa_int (pos n) = itoa n
itoa_int (negsuc n) = 45 ∷ itoa (suc n)

unfoldable pub scan_digits : Bytes → ℕ → Option ℕ
scan_digits [] acc = some acc
scan_digits (c ∷ s) acc = if leb 48 c && leb c 57 then scan_digits s (acc * 10 + (c - 48)) else none

scan_digits-digits :
    (f n : ℕ) (out : Bytes) → n < f → scan_digits (digits f n out) 0 ≡ scan_digits out n
unfolding digits scan_digits
scan_digits-digits zero n out h = elim h [ ]
scan_digits-digits (suc f) n out h = elim (Bool-cases (ltb n 10)) [
  | inl small ↦ rw small (last small)
  | inr large ↦ rw large (rw (scan_digits-digits f (n / 10) _ (ground arith)) next)
]
  where
    last : ltb n 10 ≡ true → scan_digits ((48 + n) ∷ out) 0 ≡ scan_digits out n
    last small = ground arith

    next : scan_digits ((48 + n % 10) ∷ out) (n / 10) ≡ scan_digits out n
    next = ground arith

-- Reading what Itoa wrote gives the number back.
pub scan_digits-itoa : (n : ℕ) → scan_digits (itoa n) 0 ≡ some n
unfolding itoa scan_digits
scan_digits-itoa n = scan_digits-digits (suc n) n [] (omega arith)

pub itoa_injective : (m n : ℕ) → itoa m ≡ itoa n → m ≡ n
itoa_injective m n e = cc (scan_digits-itoa m, scan_digits-itoa n)

-- %Ns of a text: filled up with spaces on the left to the width; a longer text is kept whole.
unfoldable pub right_align : ℕ → Bytes → Bytes
right_align width s = spaces (width - length s) ++ s

-- %-Ns
unfoldable pub left_align : ℕ → Bytes → Bytes
left_align width s = s ++ spaces (width - length s)

hex_digit : ℕ → ℕ
hex_digit d = if ltb d 10 then 48 + d else 87 + d

-- %04x of a number below 2 ^ 16
unfoldable pub hex4 : ℕ → Bytes
unfolding hex_digit
hex4 n =
    hex_digit (n / 4096 % 16)
    ∷ hex_digit (n / 256 % 16)
    ∷ hex_digit (n / 16 % 16)
    ∷ hex_digit (n % 16)
    ∷ []

-- strconv.Atoi of unsigned digits, as far as int64 reaches.
unsigned : Bytes → Option ℕ
unfolding scan_digits
unsigned [] = none
unsigned (c ∷ s) = scan_digits (c ∷ s) 0

abbrev max_int : ℕ
max_int = 2 ^ 63 - 1

in_range : Option ℕ → Option ℤ
in_range none = none
in_range (some n) = if leb n max_int then some (pos n) else none

negated : Option ℕ → Option ℤ
negated none = none
negated (some zero) = some (pos 0)
negated (some (suc n)) = if leb n max_int then some (negsuc n) else none

-- strconv.Atoi: an optional sign, then digits; none is an error, of syntax or of range.
unfoldable pub atoi : Bytes → Option ℤ
unfolding unsigned in_range negated
atoi [] = none
atoi (c ∷ s) =
    if c == 45
    then negated (unsigned s)
    else if c == 43
    then in_range (unsigned s)
    else in_range (unsigned (c ∷ s))

itoa_runs :
    (itoa 0 ≡ codes "0") × (itoa 8192 ≡ codes "8192") × (atoi (codes "-17") ≡ some (negsuc 16))
unfolding itoa atoi
itoa_runs = (refl, refl, refl)

scan_minus : (s : Bytes) (acc : ℕ) → scan_digits (45 ∷ s) acc ≡ none
unfolding scan_digits
scan_minus s acc = refl

-- A number never begins with a minus sign.
pub itoa-ne-minus : (n : ℕ) (s : Bytes) → itoa n ≢ 45 ∷ s
itoa-ne-minus n s e = cc (scan_digits-itoa n, scan_minus s 0)

pub itoa_int_injective : (a b : ℤ) → itoa_int a ≡ itoa_int b → a ≡ b
unfolding itoa_int
itoa_int_injective (pos m) (pos n) e = ap pos (itoa_injective m n e)
itoa_int_injective (pos m) (negsuc n) e = absurd (itoa-ne-minus m _ e)
itoa_int_injective (negsuc m) (pos n) e = absurd (itoa-ne-minus n _ (sym e))
itoa_int_injective (negsuc m) (negsuc n) e =
    let same : suc m ≡ suc n =
      itoa_injective (suc m) (suc n) (append_cancel_left (45 ∷ []) _ _ e) in
    cc

count_byte-digits : (f n : ℕ) (out : Bytes) → count_byte 10 (digits f n out) ≡ count_byte 10 out
unfolding digits count_byte
count_byte-digits zero n out = refl
count_byte-digits (suc f) n out = ground (arith, count_byte-digits f (n / 10) ((48 + n % 10) ∷ out))

-- No newline stands in a number.
pub lines-itoa : (n : ℕ) → count_byte 10 (itoa n) ≡ 0
unfolding itoa count_byte
lines-itoa n = count_byte-digits (suc n) n []

pub lines-hex4 : (n : ℕ) → count_byte 10 (hex4 n) ≡ 0
unfolding hex4 count_byte
lines-hex4 n = ground arith

-- A text that reads as a number begins with a digit, so no sign is read.
atoi-scan_digits :
    (c : ℕ) (s : Bytes) (n : ℕ)
    → scan_digits (c ∷ s) 0 ≡ some n
    → n ≤ max_int
    → atoi (c ∷ s) ≡ some (pos n)
unfolding atoi scan_digits
atoi-scan_digits c s n h small = ground arith

scan_digits-atoi :
    (s : Bytes) (n : ℕ) → scan_digits s 0 ≡ some n → s ≢ [] → n ≤ max_int → atoi s ≡ some (pos n)
scan_digits-atoi [] n h full small = absurd (full refl)
scan_digits-atoi (c ∷ s) n h full small = atoi-scan_digits c s n h small

digits-ne-nil : (f n : ℕ) (c : ℕ) (s : Bytes) → digits f n (c ∷ s) ≢ []
unfolding digits
digits-ne-nil zero n c s e = cc
digits-ne-nil (suc f) n c s e = ground (arith, digits-ne-nil f (n / 10) (48 + n % 10) (c ∷ s))

pub itoa-ne-nil : (n : ℕ) → itoa n ≢ []
unfolding itoa digits
itoa-ne-nil n e = ground (arith, digits-ne-nil n (n / 10) (48 + n % 10) [])

-- Atoi reads what Itoa wrote, as far as int64 reaches.
pub atoi-itoa : (n : ℕ) → n ≤ 2 ^ 63 - 1 → atoi (itoa n) ≡ some (pos n)
atoi-itoa n small = scan_digits-atoi (itoa n) n (scan_digits-itoa n) (itoa-ne-nil n) small
