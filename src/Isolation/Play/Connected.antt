-- ===== src/Isolation/Play/Connected.antt =====
-- internal/isolation/isolation_test.go: permutation has a connection for each session.
use build_postgres.Prelude.{
  ℕ, suc, ◌≡◌, refl, ap, subst, none, some, arith, List, [], ◌∷◌, length, All,
}
use build_postgres.Prelude.Text.{Bytes}
use build_postgres.Prelude.Result.{Result, ok, err}
use build_postgres.Isolation.Spec.{SessionSpec, Spec}
use build_postgres.Isolation.Play.{Host, and_then, must_exec, connect_all, set_up}

-- The function that is called on a result which is one in the end.
and_then-ok :
    {A B : Type 0} {b : B} (r : Result Bytes A) (f : A → Result Bytes B)
    → and_then r f ≡ ok b
    → (a : A) × (r ≡ ok a) × (f a ≡ ok b)
and_then-ok (err e) f q = absurd (ground arith)
and_then-ok (ok a) f q = (a, refl, q)

module _ (width : Bytes → ℕ) {State : Type 0} (host : Host State) where
  -- A connection for each session, each of them from a call of Connect.
  pub record Connected (sp : Spec) (conns : List ℕ) : Type 0 where
    pub each_one : length conns ≡ length sp.sessions
    pub connected : All (λ c. (s : State) × ((host.connect s).1 ≡ ok c)) conns

  connect_all-length :
      (xs : List SessionSpec) (s t : State) (conns : List ℕ)
      → connect_all width host s xs ≡ ok (t, conns)
      → (length conns ≡ length xs) × All (λ c. (u : State) × ((host.connect u).1 ≡ ok c)) conns
  unfolding connect_all
  connect_all-length [] s t conns e =
      let q : [] ≡ conns = ground arith in
      subst (λ cs. (length cs ≡ 0) × All (λ c. (u : State) × ((host.connect u).1 ≡ ok c)) cs) q
        (refl, tt)
  connect_all-length (x ∷ xs) s t conns e =
      let (c, q, rest) = and_then-ok (host.connect s).1 _ e in
      let (u, _, rest) = and_then-ok (must_exec width host (host.connect s).0 c x.setup) _ rest in
      let ((v, cs), k, last) = and_then-ok (connect_all width host u xs) _ rest in
      let (len, each) = connect_all-length xs u v cs k in
      let same : c ∷ cs ≡ conns = ground arith in
      subst
        (λ ds.
          (length ds ≡ suc (length xs)) × All (λ d. (z : State) × ((host.connect z).1 ≡ ok d)) ds)
        same (ap suc len, ((s, q), each))

  pub set_up-Connected :
      (sp : Spec) (s t : State) (control : ℕ) (conns : List ℕ)
      → set_up width host sp s ≡ ok (control, t, conns)
      → Connected sp conns
  unfolding set_up
  set_up-Connected sp s t control conns e =
      let opened : Result Bytes State = elim (host.open_cluster s).1 [
        | none ↦ ok (host.open_cluster s).0
        | some m ↦ err m
      ] in
      let (_, _, rest) = and_then-ok opened _ e in
      let (c, _, rest) = and_then-ok (host.connect (host.open_cluster s).0).1 _ rest in
      let (v, _, rest) =
        and_then-ok (must_exec width host (host.connect (host.open_cluster s).0).0 c sp.setup) _
          rest in
      let ((w, cs), k, last) = and_then-ok (connect_all width host v sp.sessions) _ rest in
      let same : cs ≡ conns = ground arith in
      let (len, each) = connect_all-length sp.sessions v w cs k in
      subst (Connected sp) same (record { each_one = len; connected = each })
