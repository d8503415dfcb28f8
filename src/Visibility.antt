-- ===== src/Visibility.antt =====
-- internal/heap/heap_test.go: fakeSnap, the snapshot of the tests with a verdict for every transaction.
-- The map of verdicts is an association list, newest first; a tuple is the header that the methods read
-- and write, and none is a panic.
pub mod Fates
pub mod Kept
pub mod Rules
pub mod Methods
pub mod Agree
pub mod Waits
pub mod Rounds
use build_postgres.Prelude.{
  ◌>>=◌, ℕ, ◌+◌, Bool, true, false, not, Option, none, some, List, [], ◌∷◌, ◌++◌, ◌==◌,
  if◌then◌else◌, flagged,
}
use Prim.Native.Nat.{bit_or}
use build_postgres.Prelude.Int.{ℤ}
use build_postgres.Tuple.{
  Tid, Header, equal_tid, xmin_committed, xmin_invalid, xmax_committed, xmax_invalid,
}
use build_postgres.Storage.Heap.{
  Tm, DirtyView, tm_ok, tm_invisible, tm_self_modified, tm_updated, tm_deleted, tm_being_modified,
}

-- map[tuple.XID]byte
abbrev pub Verdicts : Type 0
Verdicts = List (ℕ × ℕ)

unfoldable pub find : ℕ → Verdicts → Option ℕ
find xid [] = none
find xid ((x, v) ∷ m) = let rest = find xid m in if x == xid then some v else rest

-- m[xid], which is 0 without an entry
abbrev pub or_zero : Option ℕ → ℕ
or_zero none = 0
or_zero (some v) = v

pub record FakeSnap : Type 0 where
  pub own : ℕ
  pub status : Verdicts
  pub after : Verdicts
  pub lookups : ℕ
  pub waited : List ℕ

-- What a method leaves: the snapshot, the tuple, and its result.
pub record Outcome (A : Type 0) : Type 0 where
  pub snap : FakeSnap
  pub tup : Header
  pub answer : A

-- return a
abbrev pub give : {A : Type 0} → FakeSnap → Header → A → Option (Outcome A)
give f t a = some (record { snap = f; tup = t; answer = a })

unfoldable pub verdict : FakeSnap → ℕ → Option (FakeSnap × ℕ)
unfolding find
verdict f xid =
    if xid == f.own
    then some (f, b'c')
    else do st ← find xid f.status; some (record f { lookups = f.lookups + 1 }, st)

-- t.SetInfomask(t.Infomask() | flag)
abbrev pub mark : Header → ℕ → Header
mark t flag = record t { infomask = bit_or t.infomask flag }

-- The switch on v in xmin and xmax.
unfoldable pub hint : ℕ → ℕ → ℕ → Header → Header
hint committed invalid v t =
    if v == b'c' then mark t committed else if v == b'a' then mark t invalid else t

-- The verdict on xid, and the hint that it leaves.
abbrev pub look_up : ℕ → ℕ → ℕ → FakeSnap → Header → Option (Outcome ℕ)
look_up committed invalid xid f t = do (g, v) ← verdict f xid; give g (hint committed invalid v t) v

unfoldable pub xmin : FakeSnap → Header → Option (Outcome ℕ)
unfolding verdict hint
xmin f t =
    if flagged t.infomask xmin_committed
    then give f t b'c'
    else if flagged t.infomask xmin_invalid
    then give f t b'a'
    else if t.xmin == f.own
    then give f t b'c'
    else look_up xmin_committed xmin_invalid t.xmin f t

unfoldable pub xmax : FakeSnap → Header → Option (Outcome ℕ)
unfolding verdict hint
xmax f t =
    if flagged t.infomask xmax_committed
    then give f t b'c'
    else if flagged t.infomask xmax_invalid
    then give f t b'a'
    else look_up xmax_committed xmax_invalid t.xmax f t

-- What follows f.xmin(t) in Visible, with f.xmax(t) behind it.
abbrev pub visible_after : Outcome ℕ → Option (Outcome Bool)
visible_after o =
    if not (o.answer == b'c')
    then give o.snap o.tup false
    else if o.tup.xmax == 0
    then give o.snap o.tup true
    else if o.tup.xmax == o.snap.own
    then give o.snap o.tup false
    else do p ← xmax o.snap o.tup; give p.snap p.tup (not (p.answer == b'c'))

unfoldable pub visible : FakeSnap → Header → Option (Outcome Bool)
unfolding xmin xmax
visible f t = do o ← xmin f t; visible_after o

-- return visible, wait, nil
abbrev pub view : Bool → ℕ → DirtyView
view b wait = record { visible = b; wait_for = wait }

-- The switch on f.xmax(t) in Dirty.
abbrev pub dirty_end : Outcome ℕ → Option (Outcome DirtyView)
dirty_end p = give p.snap p.tup (
    if p.answer == b'r'
    then view true p.tup.xmax
    else if p.answer == b'c'
    then view false 0
    else view true 0)

abbrev pub dirty_after : Outcome ℕ → Option (Outcome DirtyView)
dirty_after o =
    if o.answer == b'a'
    then give o.snap o.tup (view false 0)
    else if o.answer == b'r'
    then give o.snap o.tup (view false o.tup.xmin)
    else if o.tup.xmax == 0
    then give o.snap o.tup (view true 0)
    else if o.tup.xmax == o.snap.own
    then give o.snap o.tup (view false 0)
    else do p ← xmax o.snap o.tup; dirty_end p

unfoldable pub dirty : FakeSnap → Header → Option (Outcome DirtyView)
unfolding xmin xmax
dirty f t = do o ← xmin f t; dirty_after o

-- The switch on f.xmax(t) in Modify, and what follows it.
abbrev pub modify_end : Tid → Outcome ℕ → Option (Outcome Tm)
modify_end tid p = give p.snap p.tup (
    if p.answer == b'r'
    then tm_being_modified
    else if p.answer == b'a'
    then tm_ok
    else if equal_tid p.tup.ctid tid
    then tm_deleted
    else tm_updated)

abbrev pub modify_after : Tid → Outcome ℕ → Option (Outcome Tm)
modify_after tid o =
    if not (o.answer == b'c')
    then give o.snap o.tup tm_invisible
    else if o.tup.xmax == 0
    then give o.snap o.tup tm_ok
    else if o.tup.xmax == o.snap.own
    then give o.snap o.tup tm_self_modified
    else do p ← xmax o.snap o.tup; modify_end tid p

unfoldable pub modify : FakeSnap → Header → Tid → Option (Outcome Tm)
unfolding xmin xmax
modify f t tid = do o ← xmin f t; modify_after tid o

unfoldable pub wait : FakeSnap → ℕ → FakeSnap
unfolding find
wait f xid = record f {
  waited = f.waited ++ xid ∷ [];
  status = (xid, or_zero (find xid f.after)) ∷ f.status;
}
