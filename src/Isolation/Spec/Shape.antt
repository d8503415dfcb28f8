-- ===== src/Isolation/Spec/Shape.antt =====
-- What parse keeps of the sessions and steps it reads.
use build_postgres.Prelude.{
  ℕ, zero, suc, ◌+◌, ◌≡◌, refl, sym, ap, false, Option, none, some, List, [], ◌∷◌, ◌++◌, map,
  append_assoc, append-nil, arith, Bool-cases, length, concat, All, All-map, subst, inl, inr,
}
use build_postgres.Prelude.Text.{Bytes, equal, equal-eq, equal_iff, equal_refl}
use build_postgres.Isolation.Spec.{Step, SessionSpec, Spec, Parsing, find_step, change}

-- No step has the name of one behind it.
abbrev pub Unique : List Step → Type 0
Unique [] = Unit
Unique (st ∷ steps) = (find_step st.name steps ≡ none) × Unique steps

-- The steps of a session name it: the session at k and those behind it.
abbrev pub Owned : ℕ → List SessionSpec → Type 0
Owned k [] = Unit
Owned k (s ∷ ss) = All (λ st. st.session ≡ k) s.steps × Owned (suc k) ss

abbrev pub steps_of : List SessionSpec → List Step
steps_of ss = concat (map (λ s. s.steps) ss)

-- A step that is declared.
abbrev pub Declared : List Step → Step → Type 0
Declared steps st = find_step st.name steps ≡ some st

pub record WellFormed (sp : Spec) : Type 0 where
  pub in_order : steps_of sp.sessions ≡ sp.steps
  pub unique : Unique sp.steps
  pub owned : Owned 0 sp.sessions
  pub declared : All (λ perm. All (λ st. Declared sp.steps st) perm) sp.permutations

-- cur is the last session.
pub data Current : Option ℕ → List SessionSpec → Type 0 where
  outside : Current none []
  inside : {i : ℕ} {ss : List SessionSpec} → length ss ≡ suc i → Current (some i) ss

pub record Good (p : Parsing) : Type 0 where
  pub well : WellFormed p.spec
  pub current : Current p.cur p.spec.sessions

find_step-append_none :
    (name : Bytes) (steps : List Step) (st : Step)
    → find_step name steps ≡ none
    → equal st.name name ≡ false
    → find_step name (steps ++ st ∷ []) ≡ none
unfolding find_step
find_step-append_none name [] st h e = rw e
find_step-append_none name (x ∷ steps) st h e = ground (arith, find_step-append_none name steps st)

pub find_step-append_some :
    (name : Bytes) (steps : List Step) (st found : Step)
    → find_step name steps ≡ some found
    → find_step name (steps ++ st ∷ []) ≡ some found
unfolding find_step
find_step-append_some name [] st found h = cc
find_step-append_some name (x ∷ steps) st found h =
    ground (arith, find_step-append_some name steps st found)

pub equal_sym : (s t : Bytes) → equal s t ≡ false → equal t s ≡ false
equal_sym s t h = elim (Bool-cases (equal t s)) [
  | inl e ↦ ground (arith, equal-eq t s e, (equal_iff s t).1 (sym (equal-eq t s e)))
  | inr e ↦ e
]

pub find_step_other :
    (name : Bytes) (x : Step) (steps : List Step)
    → find_step name (x ∷ steps) ≡ none
    → (equal x.name name ≡ false) × (find_step name steps ≡ none)
unfolding find_step
find_step_other name x steps h = ground arith

pub Unique-append :
    (steps : List Step) (st : Step)
    → find_step st.name steps ≡ none
    → Unique steps
    → Unique (steps ++ st ∷ [])
unfolding find_step
Unique-append [] st h u = (refl, tt)
Unique-append (x ∷ steps) st h (first, rest) =
    let (apart, new) = find_step_other st.name x steps h in
    (
      find_step-append_none x.name steps st first (equal_sym x.name st.name apart),
      Unique-append steps st new rest,
    )

-- With unique names every step is the one found under its name.
Declared-cons :
    (st x : Step) (steps : List Step)
    → find_step st.name steps ≡ none
    → Declared steps x
    → Declared (st ∷ steps) x
unfolding find_step
Declared-cons st x steps new h = elim (Bool-cases (equal st.name x.name)) [
  | inl e ↦ cc (new, h, equal-eq st.name x.name e)
  | inr e ↦ ground arith
]

Declared-here : (st : Step) (steps : List Step) → Declared (st ∷ steps) st
unfolding find_step
Declared-here st steps = rw (equal_refl st.name)

pub Unique-Declared : (steps : List Step) → Unique steps → All (λ st. Declared steps st) steps
Unique-Declared [] u = tt
Unique-Declared (st ∷ steps) (new, u) = (
  Declared-here st steps,
  All-map (λ x. Declared-cons st x steps new) steps (Unique-Declared steps u),
)

pub steps_of-change :
    (i : ℕ) (ss : List SessionSpec) (st : Step)
    → length ss ≡ suc i
    → steps_of (change i (λ s. record s { steps = s.steps ++ st ∷ [] }) ss) ≡ steps_of ss ++ st ∷ []
unfolding change
steps_of-change i [] st h = cc
steps_of-change zero (s ∷ []) st h = simp (append_assoc, append-nil)
steps_of-change zero (s ∷ x ∷ ss) st h = cc
steps_of-change (suc i) (s ∷ ss) st h =
    rw (steps_of-change i ss st (omega arith)) (sym (append_assoc s.steps (steps_of ss) (st ∷ [])))

pub steps_of-change_same :
    (i : ℕ) (ss : List SessionSpec) (f : SessionSpec → SessionSpec)
    → ((s : SessionSpec) → (f s).steps ≡ s.steps)
    → steps_of (change i f ss) ≡ steps_of ss
unfolding change
steps_of-change_same i [] f h = refl
steps_of-change_same zero (s ∷ ss) f h = rw (h s)
steps_of-change_same (suc i) (s ∷ ss) f h = rw (steps_of-change_same i ss f h)

pub length-change :
    (i : ℕ) (ss : List SessionSpec) (f : SessionSpec → SessionSpec)
    → length (change i f ss) ≡ length ss
unfolding change
length-change i [] f = refl
length-change zero (s ∷ ss) f = refl
length-change (suc i) (s ∷ ss) f = ap suc (length-change i ss f)

-- The session at i keeps what it is said to own.
pub Owned-change :
    (m k i : ℕ) (ss : List SessionSpec) (f : SessionSpec → SessionSpec)
    → k + i ≡ m
    → ((s : SessionSpec)
        → All (λ st. st.session ≡ m) s.steps
        → All (λ st. st.session ≡ m) (f s).steps)
    → Owned k ss
    → Owned k (change i f ss)
unfolding change
Owned-change m k i [] f e h o = tt
Owned-change m k zero (s ∷ ss) f e h (o, os) =
    let same : k ≡ m = omega arith in
    (
      subst (λ x. All (λ st. st.session ≡ x) (f s).steps) (sym same)
          (h s (subst (λ x. All (λ st. st.session ≡ x) s.steps) same o)),
      os,
    )
Owned-change m k (suc i) (s ∷ ss) f e h (o, os) =
    (o, Owned-change m (suc k) i ss f (omega arith) h os)

pub Owned-append :
    (k : ℕ) (ss : List SessionSpec) (s : SessionSpec)
    → s.steps ≡ []
    → Owned k ss
    → Owned k (ss ++ s ∷ [])
Owned-append k [] s h o = (rw h tt, tt)
Owned-append k (x ∷ ss) s h (o, os) = (o, Owned-append (suc k) ss s h os)

pub steps_of-append :
    (ss : List SessionSpec) (s : SessionSpec) → s.steps ≡ [] → steps_of (ss ++ s ∷ []) ≡ steps_of ss
steps_of-append [] s h = rw h
steps_of-append (x ∷ ss) s h = rw (steps_of-append ss s h)
