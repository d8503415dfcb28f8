-- ===== src/Visibility/Agree.antt =====
-- internal/heap/heap_test.go: Visible, Dirty and Modify of fakeSnap agree with each other, and with
-- themselves on a tuple that they have left hints on.
use build_postgres.Prelude.{
  ◌≡◌, refl, sym, ◌∙◌, ap, ◌≢◌, Bool, true, not, Option, none, some, arith, ◌↔◌, subst,
}
use build_postgres.Tuple.{Tid, Header}
use build_postgres.Storage.Heap.{Tm, DirtyView, tm_ok, tm_being_modified}
use build_postgres.Visibility.{FakeSnap, Outcome, visible, dirty, modify, view}
use build_postgres.Visibility.Fates.{Fate, inserted, deleted}
use build_postgres.Visibility.Rules.{
  counts, gone, shows, waits_for, deleter, change_rule, may_change, Standing, standing, by_other,
}
use build_postgres.Visibility.Methods.{visible_lem, dirty_lem, modify_lem, waits-Same, may_same}

-- What a running deletion stands for: a transaction.
running_deletes : (f : FakeSnap) (t : Header) → Standing f t (some Fate.running) → t.xmax ≢ 0
running_deletes f t (by_other _ dead k other o) h = ground arith

ok_live :
    (t : Header) (tid : Tid) (d : Option Fate)
    → (d ≡ some Fate.running → t.xmax ≢ 0)
    → (change_rule t tid d ≡ tm_ok) ↔ ((not (gone d) ≡ true) × (deleter t d ≡ 0))
unfolding counts gone
ok_live t tid none h = ground arith
ok_live t tid (some Fate.mine) h = ground arith
ok_live t tid (some Fate.running) h = let busy = h refl in ground arith
ok_live t tid (some Fate.committed) h = ground arith
ok_live t tid (some Fate.aborted) h = ground arith

ok_iff :
    (t : Header) (tid : Tid) (i : Fate) (d : Option Fate)
    → (d ≡ some Fate.running → t.xmax ≢ 0)
    → (may_change t tid i d ≡ tm_ok) ↔ ((shows i d ≡ true) × (waits_for t i d ≡ 0))
unfolding may_change shows counts waits_for
ok_iff t tid Fate.mine d h = ok_live t tid d h
ok_iff t tid Fate.committed d h = ok_live t tid d h
ok_iff t tid Fate.running d h = ground arith
ok_iff t tid Fate.aborted d h = ground arith

busy_live :
    (t : Header) (tid : Tid) (d : Option Fate)
    → (d ≡ some Fate.running → t.xmax ≢ 0)
    → (change_rule t tid d ≡ tm_being_modified) ↔ ((not (gone d) ≡ true) × (deleter t d ≢ 0))
unfolding counts gone
busy_live t tid none h = ground arith
busy_live t tid (some Fate.mine) h = ground arith
busy_live t tid (some Fate.running) h = let busy = h refl in ground arith
busy_live t tid (some Fate.committed) h = ground arith
busy_live t tid (some Fate.aborted) h = ground arith

busy_iff :
    (t : Header) (tid : Tid) (i : Fate) (d : Option Fate)
    → (d ≡ some Fate.running → t.xmax ≢ 0)
    → (may_change t tid i d ≡ tm_being_modified) ↔ ((shows i d ≡ true) × (waits_for t i d ≢ 0))
unfolding may_change shows counts waits_for
busy_iff t tid Fate.mine d h = busy_live t tid d h
busy_iff t tid Fate.committed d h = busy_live t tid d h
busy_iff t tid Fate.running d h = ground arith
busy_iff t tid Fate.aborted d h = ground arith

-- What the three methods say of one tuple.
pub record Agreed (v : Bool) (w : DirtyView) (m : Tm) : Type 0 where
  pub same_visible : w.visible ≡ v
  pub ok_free : (m ≡ tm_ok) ↔ ((v ≡ true) × (w.wait_for ≡ 0))
  pub busy_waits : (m ≡ tm_being_modified) ↔ ((v ≡ true) × (w.wait_for ≢ 0))

rules_agree :
    (t : Header) (tid : Tid) (i : Fate) (d : Option Fate)
    → (d ≡ some Fate.running → t.xmax ≢ 0)
    → Agreed (shows i d) (view (shows i d) (waits_for t i d)) (may_change t tid i d)
rules_agree t tid i d h = record {
  same_visible = refl;
  ok_free = ok_iff t tid i d h;
  busy_waits = busy_iff t tid i d h;
}

-- Where the inserting and the deleting transaction of a tuple have a state, none of Visible, Dirty and
-- Modify panics, and they agree: Dirty sees what Visible sees; Modify answers ok exactly for a tuple that
-- is visible and that Dirty waits for nobody on, and being modified exactly for a visible one that Dirty
-- waits on.
pub verdicts_agree :
    (f : FakeSnap) (t : Header) (tid : Tid) (i : Fate) (d : Option Fate)
    → inserted f t ≡ some i
    → deleted f t ≡ some d
    → (v : Outcome Bool) × (w : Outcome DirtyView) × (m : Outcome Tm) × (visible f t ≡ some v)
      × (dirty f t ≡ some w)
      × (modify f t tid ≡ some m)
      × Agreed v.answer w.answer m.answer
verdicts_agree f t tid i d hi hd =
    let (v, ev, av, _) = visible_lem f t i d hi hd in
    let (w, ew, aw, _) = dirty_lem f t i d hi hd in
    let (m, em, am, _) = modify_lem f t tid i d hi hd in
    let agreed =
      rules_agree t tid i d
        (λ e. running_deletes f t (subst (λ x. Standing f t x) e (standing f t d hd))) in
    (v, w, m, ev, ew, em, rw (av, aw, am) agreed)

-- Where the inserting and the deleting transaction of a tuple have a state, the hints that Visible leaves
-- on it change no answer: asked again, Visible, Dirty and Modify answer as they do without the hints.
pub hints_keep_answers :
    (f : FakeSnap) (t : Header) (tid : Tid) (i : Fate) (d : Option Fate)
    → inserted f t ≡ some i
    → deleted f t ≡ some d
    → (o : Outcome Bool) × (visible f t ≡ some o)
      × ((v : Outcome Bool) × (visible o.snap o.tup ≡ some v) × (v.answer ≡ o.answer))
      × ((w : Outcome DirtyView) × (x : Outcome DirtyView) × (dirty f t ≡ some w)
          × (dirty o.snap o.tup ≡ some x)
          × (x.answer ≡ w.answer))
      × ((m : Outcome Tm) × (n : Outcome Tm) × (modify f t tid ≡ some m)
          × (modify o.snap o.tup tid ≡ some n)
          × (n.answer ≡ m.answer))
hints_keep_answers f t tid i d hi hd =
    let (o, e, a, s) = visible_lem f t i d hi hd in
    let ki = s.inserted_eq ∙ hi in
    let kd = s.deleted_eq ∙ hd in
    let (v, ev, av, _) = visible_lem o.snap o.tup i d ki kd in
    let (w, ew, aw, _) = dirty_lem f t i d hi hd in
    let (x, ex, ax, _) = dirty_lem o.snap o.tup i d ki kd in
    let (m, em, am, _) = modify_lem f t tid i d hi hd in
    let (n, en, an, _) = modify_lem o.snap o.tup tid i d ki kd in
    (
      o,
      e,
      (v, ev, av ∙ sym a),
      (w, x, ew, ex, ax ∙ ap (view (shows i d)) (waits-Same i d s) ∙ sym aw),
      (m, n, em, en, an ∙ may_same t o.tup tid i d s.ctid_eq ∙ sym am),
    )
