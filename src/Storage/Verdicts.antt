-- ===== src/Storage/Verdicts.antt =====
-- internal/heap/heap.go and internal/txn/txn.go: the texts of the verdicts TM and of the states of a
-- transaction.
use build_postgres.Prelude.{ℕ, zero, suc, ◌≡◌, refl, sym, ◌∙◌, true, List, [], ◌∷◌, arith}
use build_postgres.Prelude.Text.{Bytes, codes, equal, has_prefix}
use build_postgres.Prelude.Labels.{label, distinct, label_injective, fresh}
use build_postgres.Prelude.Decimal.{itoa_int}
use build_postgres.Prelude.Int.{pos, negsuc}
use build_postgres.Storage.Txn.{status_string}
use build_postgres.Storage.Heap.{Tm, tm_string}

abbrev tm_names : List Bytes
tm_names =
    codes "ok"
    ∷ codes "invisible"
    ∷ codes "self-modified"
    ∷ codes "updated"
    ∷ codes "deleted"
    ∷ codes "being modified"
    ∷ []

abbrev status_names : List Bytes
status_names = codes "in progress" ∷ codes "committed" ∷ codes "aborted" ∷ []

tm_string-label : (r : Tm) → tm_string r ≡ label tm_names (codes "TM(") r
unfolding tm_string label
tm_string-label (pos zero) = refl
tm_string-label (pos (suc zero)) = refl
tm_string-label (pos (suc (suc zero))) = refl
tm_string-label (pos (suc (suc (suc zero)))) = refl
tm_string-label (pos (suc (suc (suc (suc zero))))) = refl
tm_string-label (pos (suc (suc (suc (suc (suc zero)))))) = refl
tm_string-label (pos (suc (suc (suc (suc (suc (suc n))))))) = ground arith
tm_string-label (negsuc n) = refl

status_string-label : (s : ℕ) → status_string s ≡ label status_names (codes "Status(") (pos s)
unfolding status_string label itoa_int
status_string-label zero = refl
status_string-label (suc zero) = refl
status_string-label (suc (suc zero)) = refl
status_string-label (suc (suc (suc n))) = ground arith

tm_names-distinct : distinct (codes "TM(") tm_names ≡ true
unfolding distinct fresh equal has_prefix
tm_names-distinct = refl

status_names-distinct : distinct (codes "Status(") status_names ≡ true
unfolding distinct fresh equal has_prefix
status_names-distinct = refl

-- Two verdicts with one text are the same verdict, whatever integers they are.
pub tm_string_injective : (q r : Tm) → tm_string q ≡ tm_string r → q ≡ r
tm_string_injective q r e =
    label_injective tm_names (codes "TM(") tm_names-distinct q r
      (sym (tm_string-label q) ∙ e ∙ tm_string-label r)

-- Two states of a transaction with one text are the same state, whatever bytes they are.
status_string_injective : (s t : ℕ) → status_string s ≡ status_string t → s ≡ t
status_string_injective s t e =
    let same : pos s ≡ pos t =
      label_injective status_names (codes "Status(") status_names-distinct (pos s) (pos t)
        (sym (status_string-label s) ∙ e ∙ status_string-label t) in
    cc
