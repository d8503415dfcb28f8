-- ===== src/Regress/Diff.antt =====
-- internal/regress/regress_test.go: diff, which internal/isolation/isolation_test.go repeats word for word.
use build_postgres.Prelude.{
  ℕ, zero, suc, ◌+◌, ◌-◌, ◌≤◌, ◌<◌, max, ◌≡◌, refl, sym, ◌∙◌, ◌≢◌, ◌↔◌, inl, inr, true, false,
  Option, none, some, List, [], ◌∷◌, ◌++◌, arith, ltb, ◌==◌, if◌then◌else◌, ltb→lt, ==_iff,
  Bool-cases, length, get_elem?, get_or,
}
use build_postgres.Prelude.Text.{Bytes, codes, equal, equal_refl, equal-eq, newline}
use build_postgres.Prelude.Decimal.{itoa}

-- strings.Split(s, "\n"): the line before the first newline, and the lines behind it.
unfoldable pub split_lines : Bytes → List Bytes
split_lines [] = [] ∷ []
split_lines (c ∷ s) = elim (split_lines s) [
  | [] ↦ []
  | l ∷ ls ↦ if c == 10 then [] ∷ l ∷ ls else (c ∷ l) ∷ ls
]

abbrev pub line_of : List Bytes → ℕ → Bytes
line_of ls i = get_or ls i []

-- for j := …; j < i; j++ { b.WriteString("  " + g[j] + "\n") } with `count` rounds left; none is the
-- panic of an index past the end.
unfoldable pub context : List Bytes → ℕ → ℕ → Option Bytes
context g j zero = some []
context g j (suc count) = elim (get_elem? g j) [
  | none ↦ none
  | some l ↦ elim (context g (j + 1) count) [
    | none ↦ none
    | some more ↦ some (codes "  " ++ l ++ newline ++ more)
  ]
]

-- max(0, i-3) on Go's int is the truncated i - 3. TrimSuffix takes off the newline behind the last line.
unfoldable pub report_line : List Bytes → List Bytes → ℕ → Option Bytes
unfolding context
report_line w g i = elim (context g (i - 3) (i - (i - 3))) [
  | none ↦ none
  | some before ↦ some (
      codes "line "
      ++ itoa (i + 1)
      ++ codes ":\n"
      ++ before
      ++ codes "- "
      ++ line_of w i
      ++ codes "\n+ "
      ++ line_of g i)
]

abbrev pub only_length : Bytes
only_length = codes "(outputs differ only in length)"

-- The loop over the lines from i on, with `count` rounds left.
unfoldable pub scan : List Bytes → List Bytes → ℕ → ℕ → Option Bytes
unfolding report_line equal
scan w g i zero = some only_length
scan w g i (suc count) =
    let rest = scan w g (i + 1) count in
    if equal (line_of w i) (line_of g i) then rest else report_line w g i

unfoldable pub diff_lines : List Bytes → List Bytes → Option Bytes
unfolding scan
diff_lines w g = scan w g 0 (max (length w) (length g))

-- diff
unfoldable pub diff : Bytes → Bytes → Option Bytes
unfolding diff_lines split_lines
diff want got = diff_lines (split_lines want) (split_lines got)

-- The lines differ first at i, a line past the end counting as empty.
pub record FirstDiff (w g : List Bytes) (i : ℕ) : Type 0 where
  pub same : (j : ℕ) → j < i → line_of w j ≡ line_of g j
  pub differs : line_of w i ≢ line_of g i

line_of_past : (ls : List Bytes) (i : ℕ) → length ls ≤ i → line_of ls i ≡ []
line_of_past [] i h = refl
line_of_past (l ∷ ls) zero h = absurd (omega arith)
line_of_past (l ∷ ls) (suc i) h = line_of_past ls i (omega arith)

get_elem?-some : (ls : List Bytes) (i : ℕ) → i < length ls → (l : Bytes) × (get_elem? ls i ≡ some l)
get_elem?-some [] i h = absurd (omega arith)
get_elem?-some (l ∷ ls) zero h = (l, refl)
get_elem?-some (l ∷ ls) (suc i) h = get_elem?-some ls i (omega arith)

get_elem?-past : (ls : List Bytes) (i : ℕ) → length ls ≤ i → get_elem? ls i ≡ none
get_elem?-past [] i h = refl
get_elem?-past (l ∷ ls) zero h = absurd (omega arith)
get_elem?-past (l ∷ ls) (suc i) h = get_elem?-past ls i (omega arith)

equal-false : (s t : Bytes) → s ≢ t → equal s t ≡ false
equal-false s t h = elim (Bool-cases (equal s t)) [
  | inl e ↦ absurd (h (equal-eq s t e))
  | inr e ↦ e
]

-- The difference lies within one of the lists.
FirstDiff-within : {w g : List Bytes} {i : ℕ} → FirstDiff w g i → i < max (length w) (length g)
FirstDiff-within {w} {g} {i} d = elim (Bool-cases (ltb i (max (length w) (length g)))) [
  | inl t ↦ ltb→lt _ _ t
  | inr f ↦
      absurd (d.differs (line_of_past w i (ground arith) ∙ sym (line_of_past g i (ground arith))))
]

-- The loop reaches the first difference.
scan_first :
    (w g : List Bytes) (i count j : ℕ)
    → FirstDiff w g i
    → j ≤ i
    → i < j + count
    → scan w g j count ≡ report_line w g i
unfolding scan
scan_first w g i zero j d low high = absurd (omega arith)
scan_first w g i (suc count) j d low high = elim (Bool-cases (j == i)) [
  | inl here ↦ let e = (==_iff j i).0 here in rw e (rw (equal-false _ _ d.differs))
  | inr other ↦
      let s : equal (line_of w j) (line_of g j) ≡ true =
        rw (d.same j (ground arith)) (equal_refl (line_of g j)) in
      rw s (scan_first w g i count (j + 1) d (ground arith) (omega arith))
]

context_next :
    (g : List Bytes) (j count : ℕ) (l more : Bytes)
    → get_elem? g j ≡ some l
    → context g (j + 1) count ≡ some more
    → context g j (suc count) ≡ some (codes "  " ++ l ++ newline ++ more)
unfolding context
context_next g j count l more e d = ground arith

context_stop :
    (g : List Bytes) (j count : ℕ) → get_elem? g j ≡ none → context g j (suc count) ≡ none
unfolding context
context_stop g j count e = ground arith

context_fail :
    (g : List Bytes) (j count : ℕ) (l : Bytes)
    → get_elem? g j ≡ some l
    → context g (j + 1) count ≡ none
    → context g j (suc count) ≡ none
unfolding context
context_fail g j count l e d = ground arith

report_none :
    (w g : List Bytes) (i : ℕ) → context g (i - 3) (i - (i - 3)) ≡ none → report_line w g i ≡ none
unfolding report_line
report_none w g i e = ground arith

report_some :
    (w g : List Bytes) (i : ℕ) (out : Bytes)
    → context g (i - 3) (i - (i - 3)) ≡ some out
    → report_line w g i ≢ none
unfolding report_line
report_some w g i out e q = ground arith

context-some :
    (g : List Bytes) (j count : ℕ)
    → j + count ≤ length g
    → (out : Bytes) × (context g j count ≡ some out)
unfolding context
context-some g j zero h = ([], refl)
context-some g j (suc count) h =
    let (l, e) = get_elem?-some g j (omega arith) in
    let (more, d) = context-some g (j + 1) count (omega arith) in
    (codes "  " ++ l ++ newline ++ more, context_next g j count l more e d)

context-none :
    (g : List Bytes) (j count : ℕ) → 0 < count → length g < j + count → context g j count ≡ none
unfolding context
context-none g j zero some_rounds h = absurd (omega arith)
context-none g j (suc count) some_rounds h = elim (Bool-cases (ltb j (length g))) [
  | inr past ↦ context_stop g j count (get_elem?-past g j (ground arith))
  | inl inside ↦
      let (l, e) = get_elem?-some g j (ltb→lt _ _ inside) in
      let d = context-none g (j + 1) count (ground arith) (omega arith) in
      context_fail g j count l e d
]

-- Where the lines differ first at i, diff panics exactly if the output that it got has fewer than i
-- lines, as it does when the expected output goes on with empty lines before the one that differs.
pub diff_panics_iff :
    (want got : Bytes) (i : ℕ)
    → FirstDiff (split_lines want) (split_lines got) i
    → (diff want got ≡ none) ↔ (length (split_lines got) < i)
unfolding diff diff_lines
diff_panics_iff want got i d = (λ h. few h, λ h. panics h)
  where
    found : diff want got ≡ report_line (split_lines want) (split_lines got) i
    found = scan_first _ _ i _ 0 d (omega arith) (omega (arith, FirstDiff-within d))

    panics : length (split_lines got) < i → diff want got ≡ none
    panics h =
        let out =
          context-none (split_lines got) (i - 3) (i - (i - 3)) (omega arith) (omega arith) in
        found ∙ report_none (split_lines want) (split_lines got) i out

    few : diff want got ≡ none → length (split_lines got) < i
    few h = elim (Bool-cases (ltb (length (split_lines got)) i)) [
      | inl t ↦ ltb→lt _ _ t
      | inr f ↦
          let (out, e) = context-some (split_lines got) (i - 3) (i - (i - 3)) (ground arith) in
          let text : diff want got ≢ none =
            λ q. report_some (split_lines want) (split_lines got) i out e (sym found ∙ q) in
          absurd (text h)
    ]
