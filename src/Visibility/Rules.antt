-- ===== src/Visibility/Rules.antt =====
-- internal/heap/heap_test.go: the visibility rules that Visible, Dirty and Modify of fakeSnap follow, as
-- tables of the states of the two transactions.
use build_postgres.Prelude.{
  ℕ, ◌≡◌, refl, sym, ◌∙◌, ap, Bool, true, false, not, ◌&&◌, Option, none, some, ◌==◌, if◌then◌else◌,
  Bool-cases, inl, inr, arith, subst,
}
use mathlib.Core.Option
use mathlib.Core.Option.{some-injective}
use build_postgres.Tuple.{Tid, Header, equal_tid, xmax_committed, xmax_invalid}
use build_postgres.Storage.Heap.{
  Tm, tm_ok, tm_invisible, tm_self_modified, tm_updated, tm_deleted, tm_being_modified,
}
use build_postgres.Visibility.{FakeSnap, Outcome, xmax}
use build_postgres.Visibility.Fates.{
  Fate, deleted, Looked, hint_committed, hint_aborted, own_write, found_committed, found_aborted,
  found_running, xmax_lem, deleted_dead,
}
use build_postgres.Visibility.Kept.{Same, Same-deleted}

-- Its own writes and those of committed transactions count.
unfoldable pub counts : Fate → Bool
counts Fate.mine = true
counts Fate.committed = true
counts Fate.running = false
counts Fate.aborted = false

unfoldable pub gone : Option Fate → Bool
unfolding counts
gone none = false
gone (some d) = counts d

-- A tuple shows where its insertion counts and its deletion does not.
unfoldable pub shows : Fate → Option Fate → Bool
unfolding counts gone
shows i d = counts i && not (gone d)

abbrev pub deleter : Header → Option Fate → ℕ
deleter t (some Fate.running) = t.xmax
deleter t (some Fate.mine) = 0
deleter t (some Fate.committed) = 0
deleter t (some Fate.aborted) = 0
deleter t none = 0

-- Whom a unique check waits for; 0 is nobody.
unfoldable pub waits_for : Header → Fate → Option Fate → ℕ
waits_for t Fate.running d = t.xmin
waits_for t Fate.aborted d = 0
waits_for t Fate.mine d = deleter t d
waits_for t Fate.committed d = deleter t d

abbrev pub change_rule : Header → Tid → Option Fate → Tm
change_rule t tid none = tm_ok
change_rule t tid (some Fate.aborted) = tm_ok
change_rule t tid (some Fate.mine) = tm_self_modified
change_rule t tid (some Fate.running) = tm_being_modified
change_rule t tid (some Fate.committed) = if equal_tid t.ctid tid then tm_deleted else tm_updated

-- What a transaction may do with a tuple.
unfoldable pub may_change : Header → Tid → Fate → Option Fate → Tm
unfolding counts
may_change t tid i d = if counts i then change_rule t tid d else tm_invisible

abbrev pub byte_of : Fate → ℕ
byte_of Fate.mine = b'c'
byte_of Fate.committed = b'c'
byte_of Fate.aborted = b'a'
byte_of Fate.running = b'r'

pub Looked-byte :
    {f : FakeSnap} {t : Header} {c a : ℕ} {fate : Fate} {o : Outcome ℕ}
    → Looked f t c a fate o
    → o.answer ≡ byte_of fate
Looked-byte hint_committed = refl
Looked-byte hint_aborted = refl
Looked-byte (own_write _) = refl
Looked-byte found_committed = refl
Looked-byte (found_aborted _) = refl
Looked-byte found_running = refl

-- A call ends with an answer, and with the tuple as it was but for its hints.
abbrev pub Answers : {A : Type 0} → FakeSnap → Header → A → Option (Outcome A) → Type 0
Answers {A} f t a o = (p : Outcome A) × (o ≡ some p) × (p.answer ≡ a) × Same f t p.snap p.tup

-- How the deleting transaction stands, with the call of xmax where the methods make it.
pub data Standing (f : FakeSnap) (t : Header) : Option Fate → Type 0 where
  never : (t.xmax == 0) ≡ true → Standing f t none
  by_own : (t.xmax == 0) ≡ false → (t.xmax == f.own) ≡ true → Standing f t (some Fate.mine)
  by_other :
      (fate : Fate)
      → (t.xmax == 0) ≡ false
      → (t.xmax == f.own) ≡ false
      → (fate ≡ Fate.mine → ⊥)
      → Answers f t (byte_of fate) (xmax f t)
      → Standing f t (some fate)

Looked-other :
    {f : FakeSnap} {t : Header} {fate : Fate} {o : Outcome ℕ}
    → Looked f t xmax_committed xmax_invalid fate o
    → fate ≡ Fate.mine
    → ⊥
Looked-other hint_committed e = ground arith
Looked-other hint_aborted e = ground arith
Looked-other (own_write h) e = omega arith
Looked-other found_committed e = ground arith
Looked-other (found_aborted _) e = ground arith
Looked-other found_running e = ground arith

pub never_deleted : (f : FakeSnap) (t : Header) → (t.xmax == 0) ≡ true → deleted f t ≡ some none
unfolding deleted
never_deleted f t e = rw e

pub own_deleted :
    (f : FakeSnap) (t : Header)
    → (t.xmax == 0) ≡ false
    → (t.xmax == f.own) ≡ true
    → deleted f t ≡ some (some Fate.mine)
unfolding deleted
own_deleted f t e k = rw (e, k)

some_of :
    {A : Type 0} (o : Option A) (d : Option A) → Option.map some o ≡ some d → (a : A) × (d ≡ some a)
some_of none d h = absurd (ground arith)
some_of (some a) d h = (a, sym (some-injective _ _ h))

pub other_deleted :
    (f : FakeSnap) (t : Header) (d : Option Fate)
    → deleted f t ≡ some d
    → (t.xmax == 0) ≡ false
    → (t.xmax == f.own) ≡ false
    → (fate : Fate) × (d ≡ some fate)
other_deleted f t d h dead other = some_of _ d (sym (deleted_dead f t dead other) ∙ h)

Standing-other :
    (f : FakeSnap) (t : Header) (fate : Fate)
    → deleted f t ≡ some (some fate)
    → (t.xmax == 0) ≡ false
    → (t.xmax == f.own) ≡ false
    → Standing f t (some fate)
Standing-other f t fate h dead other =
    let (o, e, looked) = xmax_lem f t fate h dead other in
    by_other fate dead other (Looked-other looked)
      (o, e, Looked-byte looked, Same-deleted f t fate o h dead other looked)

pub standing : (f : FakeSnap) (t : Header) (d : Option Fate) → deleted f t ≡ some d → Standing f t d
standing f t d h = elim (Bool-cases (t.xmax == 0)) [
  | inl e ↦
      subst (λ x. Standing f t x) (some-injective _ _ (sym (never_deleted f t e) ∙ h)) (never e)
  | inr dead ↦ elim (Bool-cases (t.xmax == f.own)) [
    | inl own ↦
        subst (λ x. Standing f t x) (some-injective _ _ (sym (own_deleted f t dead own) ∙ h))
          (by_own dead own)
    | inr other ↦
        let (fate, e) = other_deleted f t d h dead other in
        subst (λ x. Standing f t x) (sym e) (Standing-other f t fate (h ∙ ap some e) dead other)
  ]
]
