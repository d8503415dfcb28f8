-- ===== src/Visibility/Methods.antt =====
-- internal/heap/heap_test.go: Visible, Dirty and Modify of fakeSnap follow the visibility rules.
use build_postgres.Prelude.{
  ◌>>=◌, ℕ, ◌≡◌, refl, ◌∙◌, ap, true, false, not, Option, none, some, ◌==◌, if◌then◌else◌, subst,
}
use build_postgres.Tuple.{Tid, Header, equal_tid}
use build_postgres.Storage.Heap.{DirtyView, tm_ok, tm_updated, tm_deleted, tm_being_modified}
use build_postgres.Visibility.{
  FakeSnap, Outcome, view, xmin, visible, visible_after, dirty, dirty_after, modify, modify_after,
}
use build_postgres.Visibility.Fates.{Fate, inserted, deleted, xmin_lem}
use build_postgres.Visibility.Kept.{Same, Same-refl, Same-trans, Same-inserted}
use build_postgres.Visibility.Rules.{
  counts, gone, shows, waits_for, deleter, change_rule, may_change, byte_of, Answers, Standing,
  standing, never, by_own, by_other, Looked-byte,
}

committed_byte : (d : Fate) → (byte_of d == b'c') ≡ counts d
unfolding counts
committed_byte Fate.mine = refl
committed_byte Fate.committed = refl
committed_byte Fate.aborted = refl
committed_byte Fate.running = refl

-- A method ends with an answer where what follows its call of xmin does.
behind_xmin :
    {A : Type 0} (f : FakeSnap) (t : Header) (i : Fate) (d : Option Fate) (a : A)
    (after : Outcome ℕ → Option (Outcome A))
    → inserted f t ≡ some i
    → deleted f t ≡ some d
    → ((g : FakeSnap) (u : Header)
        → Same f t g u
        → Standing g u d
        → Answers g u a (after (record { snap = g; tup = u; answer = byte_of i })))
    → Answers f t a (do o ← xmin f t; after o)
behind_xmin f t i d a after hi hd k =
    let (o, e, looked) = xmin_lem f t i hi in
    let s = Same-inserted f t i o hi looked in
    let (p, q, b, r) = k o.snap o.tup s (standing o.snap o.tup d (s.deleted_eq ∙ hd)) in
    (
      p,
      rw e (
          ap (λ x. after (record { snap = o.snap; tup = o.tup; answer = x })) (Looked-byte looked)
          ∙ q),
      b,
      Same-trans s r,
    )

visible_end :
    (f : FakeSnap) (t : Header) (d : Option Fate)
    → Standing f t d
    → Answers f t (not (gone d)) (visible_after (record { snap = f; tup = t; answer = b'c' }))
unfolding gone counts
visible_end f t _ (never e) = rw e (_, refl, refl, Same-refl f t)
visible_end f t _ (by_own e k) = rw (e, k) (_, refl, refl, Same-refl f t)
visible_end f t _ (by_other fate e k other (o, q, b, s)) =
    rw (e, k, q) (_, refl, rw b (ap not (committed_byte fate)), s)

visible_found :
    (f : FakeSnap) (t : Header) (i : Fate) (d : Option Fate)
    → Standing f t d
    → Answers f t (shows i d) (visible_after (record { snap = f; tup = t; answer = byte_of i }))
unfolding shows counts
visible_found f t Fate.mine d s = visible_end f t d s
visible_found f t Fate.committed d s = visible_end f t d s
visible_found f t Fate.running d s = (_, refl, refl, Same-refl f t)
visible_found f t Fate.aborted d s = (_, refl, refl, Same-refl f t)

-- Where the inserting and the deleting transaction of a tuple have a state, Visible ends without a panic,
-- says whether the insertion counts and the deletion does not, and leaves those states as they are.
pub visible_lem :
    (f : FakeSnap) (t : Header) (i : Fate) (d : Option Fate)
    → inserted f t ≡ some i
    → deleted f t ≡ some d
    → Answers f t (shows i d) (visible f t)
unfolding visible
visible_lem f t i d hi hd =
    behind_xmin f t i d (shows i d) _ hi hd (λ g u _ stand. visible_found g u i d stand)

-- waits_for reads the two transactions of a tuple alone.
deleter_same : (t u : Header) (d : Option Fate) → u.xmax ≡ t.xmax → deleter u d ≡ deleter t d
deleter_same t u none e = refl
deleter_same t u (some Fate.mine) e = refl
deleter_same t u (some Fate.running) e = e
deleter_same t u (some Fate.committed) e = refl
deleter_same t u (some Fate.aborted) e = refl

pub waits-Same :
    {f g : FakeSnap} {t u : Header} (i : Fate) (d : Option Fate)
    → Same f t g u
    → waits_for u i d ≡ waits_for t i d
unfolding waits_for
waits-Same Fate.running d s = s.xmin_eq
waits-Same Fate.aborted d s = refl
waits-Same {t = t} {u = u} Fate.mine d s = deleter_same t u d s.xmax_eq
waits-Same {t = t} {u = u} Fate.committed d s = deleter_same t u d s.xmax_eq

-- The answer of Dirty on a tuple that its own transaction, or a committed one, inserted.
abbrev live_view : Header → Option Fate → DirtyView
live_view t d = view (not (gone d)) (deleter t d)

dirty_last :
    (t : Header) (fate : Fate)
    → (fate ≡ Fate.mine → ⊥)
    → (o : Outcome ℕ) → o.answer ≡ byte_of fate
    → o.tup.xmax ≡ t.xmax
    → (if o.answer == b'r'
        then view true o.tup.xmax
        else if o.answer == b'c'
        then view false 0
        else view true 0)
      ≡ live_view t (some fate)
unfolding gone counts waits_for
dirty_last t Fate.mine other o b x = absurd (other refl)
dirty_last t Fate.running other o b x = rw (b, x)
dirty_last t Fate.committed other o b x = rw b
dirty_last t Fate.aborted other o b x = rw b

dirty_end_lem :
    (f : FakeSnap) (t : Header) (d : Option Fate)
    → Standing f t d
    → (b : ℕ) → (b == b'a') ≡ false
    → (b == b'r') ≡ false
    → Answers f t (live_view t d) (dirty_after (record { snap = f; tup = t; answer = b }))
unfolding gone counts waits_for
dirty_end_lem f t _ (never e) b ha hr = rw (ha, hr, e) (_, refl, refl, Same-refl f t)
dirty_end_lem f t _ (by_own e k) b ha hr = rw (ha, hr, e, k) (_, refl, refl, Same-refl f t)
dirty_end_lem f t _ (by_other fate e k other (o, q, p, s)) b ha hr =
    rw (ha, hr, e, k, q) (_, refl, dirty_last t fate other o p s.xmax_eq, s)

dirty_found :
    (f : FakeSnap) (t : Header) (i : Fate) (d : Option Fate)
    → Standing f t d
    → Answers f t
        (view (shows i d) (waits_for t i d))
        (dirty_after (record { snap = f; tup = t; answer = byte_of i }))
unfolding shows counts waits_for
dirty_found f t Fate.mine d s = dirty_end_lem f t d s b'c' refl refl
dirty_found f t Fate.committed d s = dirty_end_lem f t d s b'c' refl refl
dirty_found f t Fate.running d s = (_, refl, refl, Same-refl f t)
dirty_found f t Fate.aborted d s = (_, refl, refl, Same-refl f t)

-- Where the inserting and the deleting transaction of a tuple have a state, Dirty ends without a panic
-- with the answer of Visible and whom to wait for, and leaves those states as they are.
pub dirty_lem :
    (f : FakeSnap) (t : Header) (i : Fate) (d : Option Fate)
    → inserted f t ≡ some i
    → deleted f t ≡ some d
    → Answers f t (view (shows i d) (waits_for t i d)) (dirty f t)
unfolding dirty
dirty_lem f t i d hi hd =
    behind_xmin f t i d (view (shows i d) (waits_for t i d)) _ hi hd (λ g u s stand.
      subst
        (λ w.
          Answers g u (view (shows i d) w)
            (dirty_after (record { snap = g; tup = u; answer = byte_of i })))
        (waits-Same i d s) (dirty_found g u i d stand))

modify_last :
    (t : Header) (tid : Tid) (fate : Fate)
    → (fate ≡ Fate.mine → ⊥)
    → (o : Outcome ℕ) → o.answer ≡ byte_of fate
    → o.tup.ctid ≡ t.ctid
    → (if o.answer == b'r'
        then tm_being_modified
        else if o.answer == b'a'
        then tm_ok
        else if equal_tid o.tup.ctid tid
        then tm_deleted
        else tm_updated)
      ≡ change_rule t tid (some fate)
modify_last t tid Fate.mine other o b x = absurd (other refl)
modify_last t tid Fate.running other o b x = rw b
modify_last t tid Fate.committed other o b x = rw (b, x)
modify_last t tid Fate.aborted other o b x = rw b

modify_end_lem :
    (f : FakeSnap) (t : Header) (tid : Tid) (d : Option Fate)
    → Standing f t d
    → Answers f t
        (change_rule t tid d)
        (modify_after tid (record { snap = f; tup = t; answer = b'c' }))
modify_end_lem f t tid _ (never e) = rw e (_, refl, refl, Same-refl f t)
modify_end_lem f t tid _ (by_own e k) = rw (e, k) (_, refl, refl, Same-refl f t)
modify_end_lem f t tid _ (by_other fate e k other (o, q, p, s)) =
    rw (e, k, q) (_, refl, modify_last t tid fate other o p s.ctid_eq, s)

modify_found :
    (f : FakeSnap) (t : Header) (tid : Tid) (i : Fate) (d : Option Fate)
    → Standing f t d
    → Answers f t
        (may_change t tid i d)
        (modify_after tid (record { snap = f; tup = t; answer = byte_of i }))
unfolding may_change counts
modify_found f t tid Fate.mine d s = modify_end_lem f t tid d s
modify_found f t tid Fate.committed d s = modify_end_lem f t tid d s
modify_found f t tid Fate.running d s = (_, refl, refl, Same-refl f t)
modify_found f t tid Fate.aborted d s = (_, refl, refl, Same-refl f t)

change_same :
    (t u : Header) (tid : Tid) (d : Option Fate)
    → u.ctid ≡ t.ctid
    → change_rule u tid d ≡ change_rule t tid d
change_same t u tid none e = refl
change_same t u tid (some Fate.mine) e = refl
change_same t u tid (some Fate.running) e = refl
change_same t u tid (some Fate.committed) e = rw e
change_same t u tid (some Fate.aborted) e = refl

pub may_same :
    (t u : Header) (tid : Tid) (i : Fate) (d : Option Fate)
    → u.ctid ≡ t.ctid
    → may_change u tid i d ≡ may_change t tid i d
unfolding may_change
may_same t u tid i d e = rw (change_same t u tid d e)

-- Where the inserting and the deleting transaction of a tuple have a state, Modify ends without a panic:
-- the tuple is invisible unless its insertion counts, and else the state of the deleting transaction
-- decides, an updated tuple being one whose ctid is not its own. It leaves those states as they are.
pub modify_lem :
    (f : FakeSnap) (t : Header) (tid : Tid) (i : Fate) (d : Option Fate)
    → inserted f t ≡ some i
    → deleted f t ≡ some d
    → Answers f t (may_change t tid i d) (modify f t tid)
unfolding modify
modify_lem f t tid i d hi hd = behind_xmin f t i d (may_change t tid i d) _ hi hd (λ g u s stand.
    subst (λ w. Answers g u w (modify_after tid (record { snap = g; tup = u; answer = byte_of i })))
      (may_same t u tid i d s.ctid_eq) (modify_found g u tid i d stand))
