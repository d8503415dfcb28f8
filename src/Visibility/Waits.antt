-- ===== src/Visibility/Waits.antt =====
-- internal/heap/heap_test.go: what Wait of fakeSnap does to the states of the transactions of a tuple.
use build_postgres.Prelude.{
  ℕ, ◌≡◌, refl, sym, ◌∙◌, ap, ◌≢◌, ◌⊎◌, inl, inr, Bool, true, false, Option, none, some, ◌==◌,
  arith, Bool-cases,
}
use mathlib.Core.Option
use mathlib.Core.Option.{some-injective}
use build_postgres.Tuple.{Header}
use build_postgres.Visibility.{FakeSnap, Verdicts, wait, find, or_zero}
use build_postgres.Visibility.Fates.{
  Fate, inserted, deleted, asked, fate_of, hinted, deleted_dead, map-some,
}
use build_postgres.Visibility.Rules.{never_deleted, own_deleted, other_deleted}

-- What Wait(xid) ends with is a state of a transaction that has ended.
abbrev pub Ends : Verdicts → ℕ → Type 0
Ends after xid =
    (fate : Fate) × (fate_of (or_zero (find xid after)) ≡ some fate) × (fate ≢ Fate.running)

-- A state after a wait: the same, or no longer running.
abbrev pub Calmer : Fate → Fate → Type 0
Calmer i j = (j ≡ i) ⊎ (j ≢ Fate.running)

asked_other_lem : (f : FakeSnap) (w x : ℕ) → (w == x) ≡ false → asked (wait f w) x ≡ asked f x
unfolding asked wait
asked_other_lem f w x h = rw h

asked_waited :
    (f : FakeSnap) (w x : ℕ)
    → (w == x) ≡ true
    → (x == f.own) ≡ false
    → asked (wait f w) x ≡ fate_of (or_zero (find w f.after))
unfolding asked wait
asked_waited f w x h k = rw (k, h)

asked_own : (f : FakeSnap) (x : ℕ) → (x == f.own) ≡ true → asked f x ≡ some Fate.mine
unfolding asked
asked_own f x k = rw k

mine_ended : Fate.mine ≢ Fate.running
mine_ended e = ground arith

-- A state behind a wait for w, of a transaction that is w or not.
abbrev pub After : Type 0 → Fate → Option Fate → Type 0
After W i o = (j : Fate) × (o ≡ some j) × Calmer i j × (W → j ≢ Fate.running)

asked_after :
    (f : FakeSnap) (w x : ℕ) (i : Fate)
    → Ends f.after w
    → asked f x ≡ some i
    → After (w ≡ x) i (asked (wait f w) x)
unfolding wait
asked_after f w x i (fate, e, ended) h = elim (Bool-cases (x == f.own)) [
  | inl own ↦ (Fate.mine, asked_own (wait f w) x own, inr mine_ended, λ _. mine_ended)
  | inr other ↦ elim (Bool-cases (w == x)) [
    | inl same ↦ (fate, asked_waited f w x same other ∙ e, inr ended, λ _. ended)
    | inr differs ↦ (i, asked_other_lem f w x differs ∙ h, inl refl, λ k. absurd (ground arith))
  ]
]

committed_ended : Fate.committed ≢ Fate.running
committed_ended e = ground arith

aborted_ended : Fate.aborted ≢ Fate.running
aborted_ended e = ground arith

hinted_after :
    (W : Type 0) (bc ba : Bool) (sp sq : Option Fate) (i : Fate)
    → (sp ≡ some i → After W i sq)
    → hinted bc ba sp ≡ some i
    → After W i (hinted bc ba sq)
hinted_after W true ba sp sq i k h =
    (Fate.committed, refl, inr committed_ended, λ _. committed_ended)
hinted_after W false true sp sq i k h = (Fate.aborted, refl, inr aborted_ended, λ _. aborted_ended)
hinted_after W false false sp sq i k h = k h

pub inserted_after :
    (f : FakeSnap) (t : Header) (w : ℕ) (i : Fate)
    → Ends f.after w
    → inserted f t ≡ some i
    → After (w ≡ t.xmin) i (inserted (wait f w) t)
unfolding inserted
inserted_after f t w i ends h =
    hinted_after (w ≡ t.xmin) _ _ (asked f t.xmin) _ i (asked_after f w t.xmin i ends) h

-- The same for the deleting transaction, if there is one.
abbrev pub AfterDelete : Type 0 → Option (Option Fate) → Type 0
AfterDelete W o = (d : Option Fate) × (o ≡ some d) × (W → d ≢ some Fate.running)

some_after :
    (W : Type 0) (o : Option Fate) (i : Fate) → After W i o → AfterDelete W (Option.map some o)
some_after W o i (j, e, _, k) = (some j, ap (Option.map some) e, λ w s. k w (some-injective _ _ s))

none_ended : none ≢ some Fate.running
none_ended e = ground arith

pub deleted_after :
    (f : FakeSnap) (t : Header) (w : ℕ) (d : Option Fate)
    → Ends f.after w
    → deleted f t ≡ some d
    → AfterDelete (w ≡ t.xmax) (deleted (wait f w) t)
unfolding wait
deleted_after f t w d ends h = elim (Bool-cases (t.xmax == 0)) [
  | inl e ↦ (none, never_deleted (wait f w) t e, λ _. none_ended)
  | inr dead ↦ elim (Bool-cases (t.xmax == f.own)) [
    | inl own ↦ (
      some Fate.mine,
      own_deleted (wait f w) t dead own,
      λ _ s. mine_ended (some-injective _ _ s),
    )
    | inr other ↦
        let (fate, e) = other_deleted f t d h dead other in
        let known = map-some _ fate (sym (deleted_dead f t dead other) ∙ h ∙ ap some e) in
        rw (deleted_dead (wait f w) t dead other) (
          some_after (w ≡ t.xmax) _ fate (
            hinted_after (w ≡ t.xmax) _ _ (asked f t.xmax) _ fate (asked_after f w t.xmax fate ends)
              known))
  ]
]
