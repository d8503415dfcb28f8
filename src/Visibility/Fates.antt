-- ===== src/Visibility/Fates.antt =====
-- internal/heap/heap_test.go: what fakeSnap knows of the transactions that inserted and deleted a tuple,
-- and that xmin and xmax report it and leave it as it is.
use build_postgres.Prelude.{
  ◌>>=◌, ℕ, ◌+◌, ◌≡◌, refl, sym, ◌∙◌, ◌⊎◌, inl, inr, Bool, true, false, Option, none, some, ◌==◌,
  if◌then◌else◌, flagged,
}
use build_postgres.Prelude.{arith}
use mathlib.Core.Option
use mathlib.Core.Option.{some-injective}
use build_postgres.Tuple.{Header, xmin_committed, xmin_invalid, xmax_committed, xmax_invalid}
use build_postgres.Visibility.{
  FakeSnap, Outcome, give, find, verdict, mark, hint, look_up, xmin, xmax,
}

-- The state of a transaction as the snapshot sees it.
pub data Fate : Type 0 where
  mine running committed aborted : Fate

unfoldable pub fate_of : ℕ → Option Fate
fate_of v =
    if v == b'c'
    then some Fate.committed
    else if v == b'a'
    then some Fate.aborted
    else if v == b'r'
    then some Fate.running
    else none

unfoldable pub asked : FakeSnap → ℕ → Option Fate
unfolding find fate_of
asked f xid = if xid == f.own then some Fate.mine else do v ← find xid f.status; fate_of v

-- A hint bit decides before the log does.
abbrev pub hinted : Bool → Bool → Option Fate → Option Fate
hinted true invalid o = some Fate.committed
hinted false true o = some Fate.aborted
hinted false false o = o

-- none is a transaction without a verdict, or with one that is no state.
unfoldable pub inserted : FakeSnap → Header → Option Fate
unfolding asked
inserted f t =
    hinted (flagged t.infomask xmin_committed) (flagged t.infomask xmin_invalid) (asked f t.xmin)

-- some none is a tuple that nobody deleted.
unfoldable pub deleted : FakeSnap → Header → Option (Option Fate)
unfolding asked
deleted f t =
    if t.xmax == 0
    then some none
    else if t.xmax == f.own
    then some (some Fate.mine)
    else Option.map some (
        hinted (flagged t.infomask xmax_committed) (flagged t.infomask xmax_invalid)
          (asked f t.xmax))

-- n more lookups
abbrev pub counted : ℕ → FakeSnap → FakeSnap
counted n f = record f { lookups = f.lookups + n }

-- What xmin and xmax leave on a tuple of a given fate, for the two flags of theirs.
pub data Looked (f : FakeSnap) (t : Header) (c a : ℕ) : Fate → Outcome ℕ → Type 0 where
  hint_committed : Looked f t c a Fate.committed (record { snap = f; tup = t; answer = b'c' })
  hint_aborted : Looked f t c a Fate.aborted (record { snap = f; tup = t; answer = b'a' })
  own_write :
      c ≡ xmin_committed → Looked f t c a Fate.mine (record { snap = f; tup = t; answer = b'c' })
  found_committed :
      Looked f t c a Fate.committed (record { snap = counted 1 f; tup = mark t c; answer = b'c' })
  found_aborted :
      flagged t.infomask c ≡ false
      → Looked f t c a Fate.aborted (record { snap = counted 1 f; tup = mark t a; answer = b'a' })
  found_running :
      Looked f t c a Fate.running (record { snap = counted 1 f; tup = t; answer = b'r' })

-- The outcome of a lookup.
abbrev pub Finds : FakeSnap → Header → ℕ → ℕ → Fate → Option (Outcome ℕ) → Type 0
Finds f t c a fate o = (p : Outcome ℕ) × (o ≡ some p) × Looked f t c a fate p

fate_of-cases :
    (v : ℕ) (fate : Fate)
    → fate_of v ≡ some fate
    → ((v ≡ b'c') × (Fate.committed ≡ fate))
      ⊎ ((v ≡ b'a') × (Fate.aborted ≡ fate))
      ⊎ ((v ≡ b'r') × (Fate.running ≡ fate))
unfolding fate_of
fate_of-cases v fate h = ground arith

settle :
    (f : FakeSnap) (t : Header) (c a v : ℕ) (fate : Fate)
    → flagged t.infomask c ≡ false
    → fate_of v ≡ some fate
    → Looked f t c a fate (record { snap = counted 1 f; tup = hint c a v t; answer = v })
unfolding hint
settle f t c a v fate clear h = elim (fate_of-cases v fate h) [
  | inl (e, k) ↦ rw (e, sym k) found_committed
  | inr (inl (e, k)) ↦ rw (e, sym k) (found_aborted clear)
  | inr (inr (e, k)) ↦ rw (e, sym k) found_running
]

look_up_found :
    (f : FakeSnap) (t : Header) (c a : ℕ) (fate : Fate) (found : Option ℕ)
    → flagged t.infomask c ≡ false
    → (found >>= fate_of) ≡ some fate
    → Finds f t c a fate (
        (do st ← found; some (counted 1 f, st)) >>= λ (g, v).
        some (record { snap = g; tup = hint c a v t; answer = v }))
look_up_found f t c a fate none clear h = absurd (ground arith)
look_up_found f t c a fate (some v) clear h = (_, refl, settle f t c a v fate clear h)

asked_other :
    (f : FakeSnap) (xid : ℕ)
    → (xid == f.own) ≡ false
    → asked f xid ≡ (find xid f.status >>= fate_of)
unfolding asked
asked_other f xid other = rw other

look_up_lem :
    (f : FakeSnap) (t : Header) (c a xid : ℕ) (fate : Fate)
    → (xid == f.own) ≡ false
    → flagged t.infomask c ≡ false
    → asked f xid ≡ some fate
    → Finds f t c a fate (look_up c a xid f t)
unfolding verdict
look_up_lem f t c a xid fate other clear h =
    rw other
      (look_up_found f t c a fate (find xid f.status) clear (sym (asked_other f xid other) ∙ h))

asked_mine : (f : FakeSnap) (xid : ℕ) → (xid == f.own) ≡ true → asked f xid ≡ some Fate.mine
unfolding asked
asked_mine f xid own = rw own

pub map-some : {A : Type 0} (o : Option A) (a : A) → Option.map some o ≡ some (some a) → o ≡ some a
map-some none a h = absurd (ground arith)
map-some (some b) a h = some-injective _ _ h

pub deleted_dead :
    (f : FakeSnap) (t : Header)
    → (t.xmax == 0) ≡ false
    → (t.xmax == f.own) ≡ false
    → deleted f t
      ≡ Option.map some (
          hinted
            (flagged t.infomask xmax_committed)
            (flagged t.infomask xmax_invalid)
            (asked f t.xmax))
unfolding deleted
deleted_dead f t dead other = rw (dead, other)

-- The hint bits decide, or what follows them does.
by_hint :
    (f : FakeSnap) (t : Header) (c a : ℕ) (fate : Fate) (bc ba : Bool) (sp : Option Fate)
    (o : Option (Outcome ℕ))
    → hinted bc ba sp ≡ some fate
    → (bc ≡ false → sp ≡ some fate → Finds f t c a fate o)
    → Finds f t c a fate (if bc then give f t b'c' else if ba then give f t b'a' else o)
by_hint f t c a fate true ba sp o h k = (_, refl, rw (sym (some-injective _ _ h)) hint_committed)
by_hint f t c a fate false true sp o h k = (_, refl, rw (sym (some-injective _ _ h)) hint_aborted)
by_hint f t c a fate false false sp o h k = k refl h

own_or :
    (f : FakeSnap) (t : Header) (c a : ℕ) (fate : Fate) (own : Bool) (o : Option (Outcome ℕ))
    → c ≡ xmin_committed
    → (own ≡ true → Fate.mine ≡ fate)
    → (own ≡ false → Finds f t c a fate o)
    → Finds f t c a fate (if own then give f t b'c' else o)
own_or f t c a fate true o e h k = (_, refl, rw (sym (h refl)) (own_write e))
own_or f t c a fate false o e h k = k refl

-- xmin ends where the inserting transaction has a state, and reports it.
pub xmin_lem :
    (f : FakeSnap) (t : Header) (fate : Fate)
    → inserted f t ≡ some fate
    → Finds f t xmin_committed xmin_invalid fate (xmin f t)
unfolding inserted xmin
xmin_lem f t fate h = by_hint f t xmin_committed xmin_invalid fate _ _ _ _ h (λ clear known.
    own_or f t xmin_committed xmin_invalid fate _ _ refl
      (λ own. some-injective _ _ (sym (asked_mine f t.xmin own) ∙ known))
      (λ other. look_up_lem f t xmin_committed xmin_invalid t.xmin fate other clear known))

-- So does xmax where the deleting transaction has one; it is not asked of a tuple that lives, nor of one
-- that the snapshot's own transaction deleted.
pub xmax_lem :
    (f : FakeSnap) (t : Header) (fate : Fate)
    → deleted f t ≡ some (some fate)
    → (t.xmax == 0) ≡ false
    → (t.xmax == f.own) ≡ false
    → Finds f t xmax_committed xmax_invalid fate (xmax f t)
unfolding deleted xmax
xmax_lem f t fate h dead other =
    by_hint f t xmax_committed xmax_invalid fate _ _ _ _
      (map-some _ fate (sym (deleted_dead f t dead other) ∙ h))
      (λ clear known. look_up_lem f t xmax_committed xmax_invalid t.xmax fate other clear known)
