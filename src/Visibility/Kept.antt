-- ===== src/Visibility/Kept.antt =====
-- internal/heap/heap_test.go: the hint bits that fakeSnap writes do not change what it knows of a tuple.
use build_postgres.Prelude.{
  ℕ, ◌≡◌, refl, sym, ◌∙◌, Bool, true, false, ◌||◌, some, ◌==◌, flagged, flagged-bit_or, power,
  digit,
}
use Prim.Native.Nat.{bit_or}
use build_postgres.Tuple.{Header, xmin_committed, xmin_invalid, xmax_committed, xmax_invalid}
use build_postgres.Visibility.{FakeSnap, Outcome, mark}
use build_postgres.Visibility.Fates.{
  Fate, inserted, deleted, Looked, counted, asked, hint_committed, hint_aborted, own_write,
  found_committed, found_aborted, found_running,
}

-- What stays when hints are written: everything that the verdicts are made of.
pub record Same (f : FakeSnap) (t : Header) (g : FakeSnap) (u : Header) : Type 0 where
  pub own_eq : g.own ≡ f.own
  pub after_eq : g.after ≡ f.after
  pub status_eq : g.status ≡ f.status
  pub xmin_eq : u.xmin ≡ t.xmin
  pub xmax_eq : u.xmax ≡ t.xmax
  pub ctid_eq : u.ctid ≡ t.ctid
  pub inserted_eq : inserted g u ≡ inserted f t
  pub deleted_eq : deleted g u ≡ deleted f t

or_true : (b : Bool) → (b || true) ≡ true
or_true true = refl
or_true false = refl

or_false : (b : Bool) → (b || false) ≡ b
or_false true = refl
or_false false = refl

pub set_flag :
    (k m : ℕ) → (digit k (power k) == 1) ≡ true → flagged (bit_or m (power k)) (power k) ≡ true
set_flag k m h = flagged-bit_or k k m ∙ rw h (or_true (flagged m (power k)))

pub keeps_flag :
    (j k m : ℕ)
    → (digit k (power j) == 1) ≡ false
    → flagged (bit_or m (power j)) (power k) ≡ flagged m (power k)
keeps_flag j k m h = flagged-bit_or j k m ∙ rw h (or_false (flagged m (power k)))

-- The flags of the deleting transaction stay where those of the inserting one are set, and the other way round.
pub deleted-mark :
    (j : ℕ) (f : FakeSnap) (t : Header)
    → (digit 10 (power j) == 1) ≡ false
    → (digit 11 (power j) == 1) ≡ false
    → deleted (counted 1 f) (mark t (power j)) ≡ deleted f t
unfolding deleted asked
deleted-mark j f t h k = rw (keeps_flag j 10 t.infomask h, keeps_flag j 11 t.infomask k)

pub inserted-mark :
    (j : ℕ) (f : FakeSnap) (t : Header)
    → (digit 8 (power j) == 1) ≡ false
    → (digit 9 (power j) == 1) ≡ false
    → inserted (counted 1 f) (mark t (power j)) ≡ inserted f t
unfolding inserted asked
inserted-mark j f t h k = rw (keeps_flag j 8 t.infomask h, keeps_flag j 9 t.infomask k)

-- A flag that is set decides.
inserted-committed :
    (f : FakeSnap) (t : Header)
    → inserted (counted 1 f) (mark t xmin_committed) ≡ some Fate.committed
unfolding inserted
inserted-committed f t = rw (set_flag 8 t.infomask refl)

inserted-aborted :
    (f : FakeSnap) (t : Header)
    → flagged t.infomask xmin_committed ≡ false
    → inserted (counted 1 f) (mark t xmin_invalid) ≡ some Fate.aborted
unfolding inserted
inserted-aborted f t h = rw (keeps_flag 9 8 t.infomask refl ∙ h, set_flag 9 t.infomask refl)

deleted-committed :
    (f : FakeSnap) (t : Header)
    → (t.xmax == 0) ≡ false
    → (t.xmax == f.own) ≡ false
    → deleted (counted 1 f) (mark t xmax_committed) ≡ some (some Fate.committed)
unfolding deleted
deleted-committed f t dead other = rw (dead, other, set_flag 10 t.infomask refl)

deleted-aborted :
    (f : FakeSnap) (t : Header)
    → (t.xmax == 0) ≡ false
    → (t.xmax == f.own) ≡ false
    → flagged t.infomask xmax_committed ≡ false
    → deleted (counted 1 f) (mark t xmax_invalid) ≡ some (some Fate.aborted)
unfolding deleted
deleted-aborted f t dead other h =
    rw (dead, other, keeps_flag 11 10 t.infomask refl ∙ h, set_flag 11 t.infomask refl)

Same-counted : (n : ℕ) (f : FakeSnap) (t : Header) → Same f t (counted n f) t
unfolding inserted deleted asked
Same-counted n f t = record {
  own_eq = refl;
  after_eq = refl;
  status_eq = refl;
  xmin_eq = refl;
  xmax_eq = refl;
  ctid_eq = refl;
  inserted_eq = refl;
  deleted_eq = refl;
}

Same-mark :
    (flag : ℕ) (f : FakeSnap) (t : Header)
    → inserted (counted 1 f) (mark t flag) ≡ inserted f t
    → deleted (counted 1 f) (mark t flag) ≡ deleted f t
    → Same f t (counted 1 f) (mark t flag)
Same-mark flag f t h k = record {
  own_eq = refl;
  after_eq = refl;
  status_eq = refl;
  xmin_eq = refl;
  xmax_eq = refl;
  ctid_eq = refl;
  inserted_eq = h;
  deleted_eq = k;
}

pub Same-refl : (f : FakeSnap) (t : Header) → Same f t f t
Same-refl f t = record {
  own_eq = refl;
  after_eq = refl;
  status_eq = refl;
  xmin_eq = refl;
  xmax_eq = refl;
  ctid_eq = refl;
  inserted_eq = refl;
  deleted_eq = refl;
}

pub Same-trans : {f g k : FakeSnap} {t u v : Header} → Same f t g u → Same g u k v → Same f t k v
Same-trans s r = record {
  own_eq = r.own_eq ∙ s.own_eq;
  after_eq = r.after_eq ∙ s.after_eq;
  status_eq = r.status_eq ∙ s.status_eq;
  xmin_eq = r.xmin_eq ∙ s.xmin_eq;
  xmax_eq = r.xmax_eq ∙ s.xmax_eq;
  ctid_eq = r.ctid_eq ∙ s.ctid_eq;
  inserted_eq = r.inserted_eq ∙ s.inserted_eq;
  deleted_eq = r.deleted_eq ∙ s.deleted_eq;
}

pub Same-inserted :
    (f : FakeSnap) (t : Header) (fate : Fate) (o : Outcome ℕ)
    → inserted f t ≡ some fate
    → Looked f t xmin_committed xmin_invalid fate o
    → Same f t o.snap o.tup
Same-inserted f t _ _ h hint_committed = Same-refl f t
Same-inserted f t _ _ h hint_aborted = Same-refl f t
Same-inserted f t _ _ h (own_write _) = Same-refl f t
Same-inserted f t _ _ h found_committed =
    Same-mark xmin_committed f t (inserted-committed f t ∙ sym h) (deleted-mark 8 f t refl refl)
Same-inserted f t _ _ h (found_aborted clear) =
    Same-mark xmin_invalid f t (inserted-aborted f t clear ∙ sym h) (deleted-mark 9 f t refl refl)
Same-inserted f t _ _ h found_running = Same-counted 1 f t

pub Same-deleted :
    (f : FakeSnap) (t : Header) (fate : Fate) (o : Outcome ℕ)
    → deleted f t ≡ some (some fate)
    → (t.xmax == 0) ≡ false
    → (t.xmax == f.own) ≡ false
    → Looked f t xmax_committed xmax_invalid fate o
    → Same f t o.snap o.tup
Same-deleted f t _ _ h dead other hint_committed = Same-refl f t
Same-deleted f t _ _ h dead other hint_aborted = Same-refl f t
Same-deleted f t _ _ h dead other (own_write _) = Same-refl f t
Same-deleted f t _ _ h dead other found_committed =
    Same-mark xmax_committed f t (inserted-mark 10 f t refl refl)
      (deleted-committed f t dead other ∙ sym h)
Same-deleted f t _ _ h dead other (found_aborted clear) =
    Same-mark xmax_invalid f t (inserted-mark 11 f t refl refl)
      (deleted-aborted f t dead other clear ∙ sym h)
Same-deleted f t _ _ h dead other found_running = Same-counted 1 f t
