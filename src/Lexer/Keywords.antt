-- ===== src/Lexer/Keywords.antt =====
-- internal/sql/lexer/lexer.go: the map keywords and IsKeyword.
use build_postgres.Prelude.{Bool, true, false, ◌||◌, List, [], ◌∷◌, ◌≡◌, refl}
use build_postgres.Prelude.Text.{Bytes, codes, equal}

abbrev pub keywords : List Bytes
keywords =
    codes "analyze"
    ∷ codes "and"
    ∷ codes "as"
    ∷ codes "asc"
    ∷ codes "begin"
    ∷ codes "by"
    ∷ codes "commit"
    ∷ codes "committed"
    ∷ codes "create"
    ∷ codes "delete"
    ∷ codes "desc"
    ∷ codes "drop"
    ∷ codes "explain"
    ∷ codes "false"
    ∷ codes "from"
    ∷ codes "index"
    ∷ codes "insert"
    ∷ codes "into"
    ∷ codes "is"
    ∷ codes "isolation"
    ∷ codes "join"
    ∷ codes "key"
    ∷ codes "level"
    ∷ codes "limit"
    ∷ codes "not"
    ∷ codes "null"
    ∷ codes "on"
    ∷ codes "or"
    ∷ codes "order"
    ∷ codes "primary"
    ∷ codes "read"
    ∷ codes "repeatable"
    ∷ codes "rollback"
    ∷ codes "select"
    ∷ codes "set"
    ∷ codes "table"
    ∷ codes "true"
    ∷ codes "uncommitted"
    ∷ codes "unique"
    ∷ codes "update"
    ∷ codes "values"
    ∷ codes "where"
    ∷ []

-- Whether a text is one of a list.
unfoldable pub member : Bytes → List Bytes → Bool
member w [] = false
member w (x ∷ xs) = equal x w || member w xs

-- IsKeyword
unfoldable pub is_keyword : Bytes → Bool
unfolding member
is_keyword word = member word keywords

select_word : (is_keyword (codes "select") ≡ true) × (is_keyword (codes "SELECT") ≡ false)
unfolding is_keyword equal
select_word = (refl, refl)
