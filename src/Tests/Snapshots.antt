-- ===== src/Tests/Snapshots.antt =====
-- Tuples of the transactions that internal/heap/heap_test.go sets up.
use build_postgres.Prelude.{ℕ, ◌≤◌, ◌≡◌, refl, Bool, some, [], ◌∷◌, arith}
use build_postgres.Prelude.Bits.{flagged}
use build_postgres.Tuple.{Header}
use build_postgres.Storage.Heap.{DirtyView, Tm}
use build_postgres.Visibility.{FakeSnap, Outcome, visible, dirty, modify, find}
use build_postgres.Visibility.Fates.{Fate, inserted, deleted, fate_of}
use build_postgres.Visibility.Rules.{Answers, may_change}
use build_postgres.Visibility.Agree.{Agreed, verdicts_agree, hints_keep_answers}
use build_postgres.Visibility.Methods.{modify_lem}
use build_postgres.Visibility.Rounds.{Asks, dirty_settles}
use build_postgres.Visibility.Waits.{Ends}

-- 10 committed, 12 and 22 running; Wait ends 12 committed and 22 aborted
abbrev snap : FakeSnap
snap = record {
  own = 100;
  status = (10, b'c') ∷ (12, b'r') ∷ (22, b'r') ∷ [];
  after = (12, b'c') ∷ (22, b'a') ∷ [];
  lookups = 0;
  waited = [];
}

-- inserted by 12, deleted by 22
abbrev busy : Header
busy = record {
  xmin = 12;
  xmax = 22;
  ctid = record { block = 0; off = 3 };
  natts = 2;
  hoff = 24;
  infomask = 0;
}

-- inserted by 10, deleted by 22
abbrev row_7 : Header
row_7 = record busy { xmin = 10 }

busy-inserted : inserted snap busy ≡ some Fate.running
unfolding inserted flagged
busy-inserted = refl

busy-deleted : deleted snap busy ≡ some (some Fate.running)
unfolding deleted flagged
busy-deleted = refl

row_7-inserted : inserted snap row_7 ≡ some Fate.committed
unfolding inserted flagged
row_7-inserted = refl

row_7-deleted : deleted snap row_7 ≡ some (some Fate.running)
unfolding deleted flagged
row_7-deleted = refl

wait_12 : Ends snap.after 12
unfolding fate_of find
wait_12 = (Fate.committed, refl, λ e. ground arith)

wait_22 : Ends snap.after 22
unfolding fate_of find
wait_22 = (Fate.aborted, refl, λ e. ground arith)

verdicts_agree_example :
    (v : Outcome Bool) × (w : Outcome DirtyView) × (m : Outcome Tm) × (visible snap row_7 ≡ some v)
    × (dirty snap row_7 ≡ some w)
    × (modify snap row_7 row_7.ctid ≡ some m)
    × Agreed v.answer w.answer m.answer
verdicts_agree_example =
    verdicts_agree snap row_7 row_7.ctid Fate.committed (some Fate.running) row_7-inserted
      row_7-deleted

hints_keep_answers_example :
    (o : Outcome Bool) × (visible snap row_7 ≡ some o)
    × ((v : Outcome Bool) × (visible o.snap o.tup ≡ some v) × (v.answer ≡ o.answer))
    × ((w : Outcome DirtyView) × (x : Outcome DirtyView) × (dirty snap row_7 ≡ some w)
        × (dirty o.snap o.tup ≡ some x)
        × (x.answer ≡ w.answer))
    × ((m : Outcome Tm) × (n : Outcome Tm) × (modify snap row_7 row_7.ctid ≡ some m)
        × (modify o.snap o.tup row_7.ctid ≡ some n)
        × (n.answer ≡ m.answer))
hints_keep_answers_example =
    hints_keep_answers snap row_7 row_7.ctid Fate.committed (some Fate.running) row_7-inserted
      row_7-deleted

modify_lem_example :
    Answers snap row_7
      (may_change row_7 row_7.ctid Fate.committed (some Fate.running))
      (modify snap row_7 row_7.ctid)
modify_lem_example =
    modify_lem snap row_7 row_7.ctid Fate.committed (some Fate.running) row_7-inserted row_7-deleted

dirty_settles_example : (n : ℕ) × (n ≤ 2) × Asks n snap busy
dirty_settles_example =
    dirty_settles snap busy Fate.running (some Fate.running) busy-inserted busy-deleted wait_12
      wait_22
