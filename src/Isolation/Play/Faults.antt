-- ===== src/Isolation/Play/Faults.antt =====
-- internal/isolation/isolation_test.go: why permutation stops the test.
use build_postgres.Prelude.{
  All, get_elem?, refl, suc, ℕ, ◌≡◌, Bool, true, false, not, none, some, List, [], ◌∷◌, ◌++◌, inl,
  inr, Bool-cases, Option-cases, if◌then◌else◌,
}
use build_postgres.Prelude.Text.{Bytes, codes, equal, trim_space}
use build_postgres.Prelude.Result.{Result, ok, err, Result-cases}
use build_postgres.Isolation.Spec.{SessionSpec, Spec}
use build_postgres.Isolation.Play.{Host, and_then, must_exec, connect_all, tear_down, set_up}

-- The setups and teardowns of a specification.
pub data TextOf (sp : Spec) : Bytes → Type 0 where
  spec_setup : TextOf sp sp.setup
  spec_teardown : TextOf sp sp.teardown
  session_setup : (i : ℕ) (x : SessionSpec) → get_elem? sp.sessions i ≡ some x → TextOf sp x.setup
  session_teardown :
      (i : ℕ) (x : SessionSpec) → get_elem? sp.sessions i ≡ some x → TextOf sp x.teardown

each_of :
    {A : Type 0} {P : A → Type 0} (xs : List A)
    → ((i : ℕ) (x : A) → get_elem? xs i ≡ some x → P x)
    → All P xs
each_of [] h = tt
each_of (x ∷ xs) h = (h 0 x refl, each_of xs (λ i y e. h (suc i) y e))

module _ {State : Type 0} (host : Host State) (sp : Spec) where
  -- The message of a call that failed: OpenCluster, Connect, or Exec on a setup or teardown that is not blank.
  pub data Fault : Bytes → Type 0 where
    not_opened : {e : Bytes} (s t : State) → host.open_cluster s ≡ (t, some e) → Fault e
    not_connected : {e : Bytes} (s t : State) → host.connect s ≡ (t, err e) → Fault e
    refused :
        {e : Bytes} (s t : State) (conn : ℕ) (sql : Bytes)
        → TextOf sp sql
        → equal (trim_space sql) [] ≡ false
        → host.exec s conn sql ≡ (t, some e)
        → Fault (sql ++ codes ": " ++ e)

  -- A result, or a message with a fault behind it.
  pub data Blamed {A : Type 0} : Result Bytes A → Type 0 where
    fine : {a : A} → Blamed (ok a)
    faulty : {e : Bytes} → Fault e → Blamed (err e)

  pub and_then-Blamed :
      {A B : Type 0} {r : Result Bytes A} (f : A → Result Bytes B)
      → Blamed r
      → ((a : A) → Blamed (f a))
      → Blamed (and_then r f)
  and_then-Blamed f (fine {a}) h = h a
  and_then-Blamed f (faulty k) h = faulty k

  either-Blamed :
      {A : Type 0} {x y : Result Bytes A} (b : Bool)
      → Blamed x
      → Blamed y
      → Blamed (if b then x else y)
  either-Blamed true h k = h
  either-Blamed false h k = k

  module _ (width : Bytes → ℕ) where
    pub must_exec-Blamed :
        (s : State) (conn : ℕ) (sql : Bytes)
        → TextOf sp sql
        → Blamed (must_exec width host s conn sql)
    unfolding must_exec
    must_exec-Blamed s conn sql told = elim (Bool-cases (equal (trim_space sql) [])) [
      | inl blank ↦ rw blank fine
      | inr text ↦ elim (Option-cases (host.exec s conn sql).1) [
        | inl q ↦ rw (text, q) fine
        | inr (e, q) ↦
            rw (text, q)
              (faulty (
                refused s (host.exec s conn sql).0 conn sql told text
                  (λ i. ((host.exec s conn sql).0, q i))))
      ]
    ]

    open-Blamed :
        (s : State)
        → Blamed {A = State}
            (elim (host.open_cluster s).1 [ none ↦ ok (host.open_cluster s).0 | some e ↦ err e ])
    open-Blamed s = elim (Option-cases (host.open_cluster s).1) [
      | inl q ↦ rw q fine
      | inr (e, q) ↦
          rw q (faulty (not_opened s (host.open_cluster s).0 (λ i. ((host.open_cluster s).0, q i))))
    ]

    connect-Blamed : (s : State) → Blamed (host.connect s).1
    connect-Blamed s = elim (Result-cases (host.connect s).1) [
      | inl (e, q) ↦
          rw q (faulty (not_connected s (host.connect s).0 (λ i. ((host.connect s).0, q i))))
      | inr (c, q) ↦ rw q fine
    ]

    connect_all-Blamed :
        (ss : List SessionSpec) (s : State)
        → All (λ x. TextOf sp x.setup) ss
        → Blamed (connect_all width host s ss)
    unfolding connect_all
    connect_all-Blamed [] s h = fine
    connect_all-Blamed (x ∷ xs) s (h, hs) = and_then-Blamed _ (connect-Blamed s) λ c.
        and_then-Blamed _ (must_exec-Blamed (host.connect s).0 c x.setup h)
          λ u. and_then-Blamed _ (connect_all-Blamed xs u hs) λ v. fine

    pub tear_down-Blamed :
        (control : ℕ) (ss : List SessionSpec) (conns : List ℕ) (s : State)
        → All (λ x. TextOf sp x.teardown) ss
        → Blamed (tear_down width host control s ss conns)
    unfolding tear_down
    tear_down-Blamed control [] conns s h = fine
    tear_down-Blamed control (x ∷ xs) [] s h = fine
    tear_down-Blamed control (x ∷ xs) (c ∷ conns) s (h, hs) =
        and_then-Blamed _
          (either-Blamed (not (equal x.teardown []))
            (must_exec-Blamed (host.close s c) control x.teardown h) fine)
          (λ u. tear_down-Blamed control xs conns u hs)

    pub setups : All (λ x. TextOf sp x.setup) sp.sessions
    setups = each_of sp.sessions (λ i x e. session_setup i x e)

    pub teardowns : All (λ x. TextOf sp x.teardown) sp.sessions
    teardowns = each_of sp.sessions (λ i x e. session_teardown i x e)

    pub set_up-Blamed : (s : State) → Blamed (set_up width host sp s)
    unfolding set_up
    set_up-Blamed s = and_then-Blamed _ (open-Blamed s) λ _.
        and_then-Blamed _ (connect-Blamed (host.open_cluster s).0) λ c.
          and_then-Blamed _
            (must_exec-Blamed (host.connect (host.open_cluster s).0).0 c sp.setup spec_setup)
            λ v. and_then-Blamed _ (connect_all-Blamed sp.sessions v setups) λ w. fine
