-- ===== src/Prelude/Text.antt =====
-- Go strings as lists of bytes, and the functions of the packages strings and bytes that the
-- source calls: HasPrefix, TrimSpace, Cut, Join, Repeat and ==.
use Prim.Native.Char.{code}
use Prim.Native.String.{String}
use build_postgres.Prelude.{
  ℕ, zero, suc, ◌+◌, ◌≡◌, refl, Bool, true, false, ◌&&◌, ◌||◌, List, [], ◌∷◌, ◌++◌, ◌↔◌, arith,
  ◌==◌, if◌then◌else◌, leb, replicate,
}

abbrev pub Bytes : Type 0
Bytes = List ℕ

-- The code points of a literal: its bytes, every literal being ASCII.
abbrev pub codes : String → Bytes
codes String.[] = []
codes (String.◌∷◌ c s) = code c ∷ codes s

-- s == t
unfoldable pub equal : Bytes → Bytes → Bool
equal [] [] = true
equal [] (y ∷ ys) = false
equal (x ∷ xs) [] = false
equal (x ∷ xs) (y ∷ ys) = x == y && equal xs ys

pub equal_refl : (s : Bytes) → equal s s ≡ true
unfolding equal
equal_refl [] = refl
equal_refl (x ∷ xs) = ground (arith, equal_refl xs)

pub equal-eq : (s t : Bytes) → equal s t ≡ true → s ≡ t
unfolding equal
equal-eq [] [] h = refl
equal-eq [] (y ∷ ys) h = cc
equal-eq (x ∷ xs) [] h = cc
equal-eq (x ∷ xs) (y ∷ ys) h = ground (arith, equal-eq xs ys)

pub equal_iff : (s t : Bytes) → (equal s t ≡ true) ↔ (s ≡ t)
equal_iff s t = (equal-eq s t, λ e. subst_right e)
  where
    subst_right : s ≡ t → equal s t ≡ true
    subst_right e = rw (← e) (equal_refl s)

-- strings.HasPrefix(s, p)
unfoldable pub has_prefix : Bytes → Bytes → Bool
has_prefix s [] = true
has_prefix [] (p ∷ ps) = false
has_prefix (c ∷ s) (p ∷ ps) = c == p && has_prefix s ps

-- unicode.IsSpace on an ASCII byte
unfoldable pub is_space : ℕ → Bool
is_space c = c == 32 || (leb 9 c && leb c 13)

-- U+0085 and U+00A0 in UTF-8
unfoldable pub two_space : ℕ → ℕ → Bool
two_space a b = a == 194 && (b == 133 || b == 160)

-- U+1680, U+2000 to U+200A, U+2028, U+2029, U+202F, U+205F and U+3000 in UTF-8
unfoldable pub three_space : ℕ → ℕ → ℕ → Bool
three_space a b c =
    (a == 225 && b == 154 && c == 128)
    || (a == 226 && b == 128 && ((leb 128 c && leb c 138) || c == 168 || c == 169 || c == 175))
    || (a == 226 && b == 129 && c == 159)
    || (a == 227 && b == 128 && c == 128)

-- The number of bytes of the white space that the text begins with, and 0 where it begins with none.
unfoldable pub space_size : Bytes → ℕ
unfolding is_space two_space three_space
space_size [] = 0
space_size (a ∷ []) = if is_space a then 1 else 0
space_size (a ∷ b ∷ []) = if is_space a then 1 else if two_space a b then 2 else 0
space_size (a ∷ b ∷ c ∷ s) =
    if is_space a then 1 else if two_space a b then 2 else if three_space a b c then 3 else 0

-- What is left behind so many bytes, and the white space behind them.
unfoldable pub skip : ℕ → Bytes → Bytes
unfolding space_size
skip k [] = []
skip (suc k) (c ∷ s) = skip k s
skip zero (c ∷ s) = elim (space_size (c ∷ s)) [ zero ↦ c ∷ s | suc m ↦ skip m s ]

abbrev pub trim_left : Bytes → Bytes
trim_left s = skip 0 s

-- What stands before the white space that the text ends with.
unfoldable pub trim_right : Bytes → Bytes
unfolding skip equal
trim_right [] = []
trim_right (c ∷ s) = let rest = trim_right s in if equal (skip 0 (c ∷ s)) [] then [] else c ∷ rest

-- strings.TrimSpace
unfoldable pub trim_space : Bytes → Bytes
unfolding skip trim_right
trim_space s = trim_right (trim_left s)

-- strings.Cut(s, " "): what stands before and after the first space.
unfoldable pub cut_space : Bytes → Bytes × Bytes
cut_space [] = ([], [])
cut_space (c ∷ s) =
    let (before, after) = cut_space s in if c == 32 then ([], s) else (c ∷ before, after)

-- strings.Join(xs, sep)
unfoldable pub join : Bytes → List Bytes → Bytes
join sep [] = []
join sep (x ∷ []) = x
join sep (x ∷ y ∷ xs) = x ++ sep ++ join sep (y ∷ xs)

-- strings.Repeat(" ", n)
abbrev pub spaces : ℕ → Bytes
spaces n = replicate n 32

abbrev pub newline : Bytes
newline = 10 ∷ []

-- How many bytes of s are c.
unfoldable pub count_byte : ℕ → Bytes → ℕ
count_byte c [] = 0
count_byte c (x ∷ s) = (if x == c then 1 else 0) + count_byte c s

pub count_byte-append :
    (c : ℕ) (s t : Bytes) → count_byte c (s ++ t) ≡ count_byte c s + count_byte c t
unfolding count_byte
count_byte-append c [] t = omega arith
count_byte-append c (x ∷ s) t = omega (arith, count_byte-append c s t)
