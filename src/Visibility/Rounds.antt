-- ===== src/Visibility/Rounds.antt =====
-- internal/heap/heap_test.go: Dirty of fakeSnap names whom to wait for, and the caller waits and asks again,
-- as the comment of Dirty in internal/mvcc/mvcc.go has it.
use build_postgres.Prelude.{
  ℕ, suc, ◌≤◌, ◌≡◌, refl, sym, ◌∙◌, ap, ◌≢◌, ◌⊎◌, inl, inr, Option, none, some, arith, subst,
}
use build_postgres.Tuple.{Header}
use build_postgres.Storage.Heap.{DirtyView}
use build_postgres.Visibility.{FakeSnap, Outcome, dirty, wait}
use build_postgres.Visibility.Fates.{Fate, inserted, deleted}
use build_postgres.Visibility.Rules.{waits_for, deleter}
use build_postgres.Visibility.Methods.{dirty_lem}
use build_postgres.Visibility.Waits.{
  Ends, Calmer, After, AfterDelete, inserted_after, deleted_after,
}

-- The caller of Dirty ends after a number of waits.
pub data Asks : ℕ → FakeSnap → Header → Type 0 where
  settled :
      (f : FakeSnap) (t : Header) (o : Outcome DirtyView)
      → dirty f t ≡ some o
      → o.answer.wait_for ≡ 0
      → Asks 0 f t
  again :
      (n : ℕ) (f : FakeSnap) (t : Header) (o : Outcome DirtyView)
      → dirty f t ≡ some o
      → o.answer.wait_for ≢ 0
      → Asks n (wait o.snap o.answer.wait_for) o.tup
      → Asks (suc n) f t

abbrev Rounds : ℕ → FakeSnap → Header → Type 0
Rounds m f t = (n : ℕ) × (n ≤ m) × Asks n f t

deleter_other : (t : Header) (d : Option Fate) → d ≢ some Fate.running → deleter t d ≡ 0
deleter_other t none h = refl
deleter_other t (some Fate.mine) h = refl
deleter_other t (some Fate.running) h = absurd (h refl)
deleter_other t (some Fate.committed) h = refl
deleter_other t (some Fate.aborted) h = refl

deleter_one : (t : Header) (d : Option Fate) → deleter t d ≢ 0 → deleter t d ≡ t.xmax
deleter_one t none h = absurd (h refl)
deleter_one t (some Fate.mine) h = absurd (h refl)
deleter_one t (some Fate.running) h = refl
deleter_one t (some Fate.committed) h = absurd (h refl)
deleter_one t (some Fate.aborted) h = absurd (h refl)

-- Without a running insertion, only the deletion is waited for.
waits_deleter :
    (t : Header) (i : Fate) (d : Option Fate)
    → i ≢ Fate.running
    → (waits_for t i d ≡ 0) ⊎ (waits_for t i d ≡ deleter t d)
unfolding waits_for
waits_deleter t Fate.mine d h = inr refl
waits_deleter t Fate.committed d h = inr refl
waits_deleter t Fate.running d h = absurd (h refl)
waits_deleter t Fate.aborted d h = inl refl

module _ (f : FakeSnap) (t : Header) (i : Fate) (d : Option Fate) (hi : inserted f t ≡ some i)
    (hd : deleted f t ≡ some d) where
  settle : waits_for t i d ≡ 0 → Asks 0 f t
  settle h =
      let (o, e, a, s) = dirty_lem f t i d hi hd in settled f t o e (ap (λ v. v.wait_for) a ∙ h)

  -- A round, with what is known behind its wait.
  another :
      (m w : ℕ)
      → waits_for t i d ≡ w
      → w ≢ 0
      → Ends f.after w
      → ((g : FakeSnap) (u : Header)
          → g.after ≡ f.after
          → u.xmin ≡ t.xmin
          → u.xmax ≡ t.xmax
          → After (w ≡ t.xmin) i (inserted g u)
          → AfterDelete (w ≡ t.xmax) (deleted g u)
          → Rounds m g u)
      → Rounds (suc m) f t
  unfolding wait
  another m w e h ends k =
      let (o, q, a, s) = dirty_lem f t i d hi hd in
      let named : o.answer.wait_for ≡ w = ap (λ v. v.wait_for) a ∙ e in
      let ended : Ends o.snap.after w = subst (λ x. Ends x w) (sym s.after_eq) ends in
      let (n, l, asks) =
        k (wait o.snap w) o.tup s.after_eq s.xmin_eq s.xmax_eq
          (subst (λ x. After (w ≡ x) i (inserted (wait o.snap w) o.tup)) s.xmin_eq
            (inserted_after o.snap o.tup w i ended (s.inserted_eq ∙ hi)))
          (subst (λ x. AfterDelete (w ≡ x) (deleted (wait o.snap w) o.tup)) s.xmax_eq
            (deleted_after o.snap o.tup w d ended (s.deleted_eq ∙ hd))) in
      (
        suc n,
        omega arith,
        again n f t o q (λ z. h (sym named ∙ z))
            (subst (λ x. Asks n (wait o.snap x) o.tup) (sym named) asks),
      )

  last_round : i ≢ Fate.running → d ≢ some Fate.running → Rounds 0 f t
  last_round h k = elim (waits_deleter t i d h) [
    | inl e ↦ (0, omega arith, settle e)
    | inr e ↦ (0, omega arith, settle (e ∙ deleter_other t d k))
  ]

calm : (i j : Fate) → i ≢ Fate.running → Calmer i j → j ≢ Fate.running
calm i j h (inl e) r = h (sym e ∙ r)
calm i j h (inr k) r = k r

waits_xmax :
    (t : Header) (i : Fate) (d : Option Fate)
    → i ≢ Fate.running
    → waits_for t i d ≢ 0
    → waits_for t i d ≡ t.xmax
waits_xmax t i d h k = elim (waits_deleter t i d h) [
  | inl e ↦ absurd (k e)
  | inr e ↦ e ∙ deleter_one t d (λ z. k (e ∙ z))
]

zero_or : (n : ℕ) → (n ≡ 0) ⊎ (n ≢ 0)
zero_or n = ground arith

second_round :
    (f : FakeSnap) (t : Header) (i : Fate) (d : Option Fate)
    → inserted f t ≡ some i
    → deleted f t ≡ some d
    → Ends f.after t.xmax
    → i ≢ Fate.running
    → Rounds 1 f t
second_round f t i d hi hd ends h = elim (zero_or (waits_for t i d)) [
  | inl e ↦ (0, omega arith, settle f t i d hi hd e)
  | inr k ↦
      let x = waits_xmax t i d h k in
      another f t i d hi hd 0 t.xmax x (λ z. k (x ∙ z)) ends
        (λ g u _ _ _ (j, ij, c, _) (d', id', r). last_round g u j d' ij id' (calm i j h c) (r refl))
]

first_round :
    (f : FakeSnap) (t : Header) (d : Option Fate)
    → inserted f t ≡ some Fate.running
    → deleted f t ≡ some d
    → Ends f.after t.xmin
    → Ends f.after t.xmax
    → Rounds 2 f t
unfolding waits_for
first_round f t d hi hd ends ends_max = elim (zero_or t.xmin) [
  | inl e ↦ (0, omega arith, settle f t Fate.running d hi hd e)
  | inr k ↦
      another f t Fate.running d hi hd 1 t.xmin refl k ends (λ g u a _ x (j, ij, _, r) (d', id', _).
        second_round g u j d' ij id' (rw (a, x) ends_max) (r refl))
]

more-Rounds : (f : FakeSnap) (t : Header) → Rounds 1 f t → Rounds 2 f t
more-Rounds f t (n, l, a) = (n, omega arith, a)

-- Where the inserting and the deleting transaction of a tuple have a state, and Wait on either ends with it
-- committed or aborted, a caller that waits for whom Dirty names and asks again is told after at most two
-- waits that there is nobody to wait for.
pub dirty_settles :
    (f : FakeSnap) (t : Header) (i : Fate) (d : Option Fate)
    → inserted f t ≡ some i
    → deleted f t ≡ some d
    → Ends f.after t.xmin
    → Ends f.after t.xmax
    → (n : ℕ) × (n ≤ 2) × Asks n f t
dirty_settles f t Fate.running d hi hd ends ends_max = first_round f t d hi hd ends ends_max
dirty_settles f t Fate.mine d hi hd ends ends_max =
    more-Rounds f t (second_round f t Fate.mine d hi hd ends_max (λ e. ground arith))
dirty_settles f t Fate.committed d hi hd ends ends_max =
    more-Rounds f t (second_round f t Fate.committed d hi hd ends_max (λ e. ground arith))
dirty_settles f t Fate.aborted d hi hd ends ends_max =
    more-Rounds f t (second_round f t Fate.aborted d hi hd ends_max (λ e. ground arith))
