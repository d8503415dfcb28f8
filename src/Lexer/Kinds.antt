-- ===== src/Lexer/Kinds.antt =====
-- internal/sql/lexer/lexer.go: Kind.String names every kind, and no two kinds alike.
use build_postgres.Prelude.{◌≡◌, refl, sym, ◌∙◌, true}
use build_postgres.Prelude.Text.{codes, equal, has_prefix}
use build_postgres.Prelude.Labels.{label, distinct, label_injective, fresh}
use build_postgres.Prelude.Int.{pos, negsuc}
use build_postgres.Lexer.{Kind, kind_names, unknown_kind, kind_string}

kind_string-label : (k : Kind) → kind_string k ≡ label kind_names (codes "Kind(") k
unfolding kind_string unknown_kind label
kind_string-label (pos n) = refl
kind_string-label (negsuc n) = refl

kind_names-distinct : distinct (codes "Kind(") kind_names ≡ true
unfolding distinct fresh equal has_prefix
kind_names-distinct = refl

-- Two kinds with one text are the same kind, whatever integers they are.
pub kind_string_injective : (j k : Kind) → kind_string j ≡ kind_string k → j ≡ k
kind_string_injective j k e =
    label_injective kind_names (codes "Kind(") kind_names-distinct j k
      (sym (kind_string-label j) ∙ e ∙ kind_string-label k)
