-- ===== src/Catalog.antt =====
-- internal/catalog/catalog.go and control.go: the fixed identifiers, the descriptors of the system
-- catalogs, and the structs of a relation and an index. The functions are exercises of the repository.
pub mod Oids
use build_postgres.Prelude.{ℕ, Bool, true, List, [], ◌∷◌}
use build_postgres.Prelude.Text.{Bytes, codes}
use build_postgres.Prelude.Int.{ℤ}
use build_postgres.Tuple.{Attr, Desc, int4, int8, bool, text, new_desc}

abbrev pub class_oid : ℕ
class_oid = 1259

abbrev pub attribute_oid : ℕ
attribute_oid = 1249

abbrev pub index_oid : ℕ
index_oid = 2610

abbrev pub first_user_oid : ℕ
first_user_oid = 16384

-- tuple.Attr{Name: name, Type: typ, NotNull: true}
abbrev attr : Bytes → ℕ → Attr
attr name typ = record { name = name; typ = typ; not_null = true }

unfoldable pub class_desc : Desc
unfolding new_desc
class_desc = new_desc (
    attr (codes "oid") int4
    ∷ attr (codes "relname") text
    ∷ attr (codes "relkind") text
    ∷ attr (codes "relpages") int4
    ∷ attr (codes "reltuples") int8
    ∷ [])

unfoldable pub attribute_desc : Desc
unfolding new_desc
attribute_desc = new_desc (
    attr (codes "attrelid") int4
    ∷ attr (codes "attname") text
    ∷ attr (codes "atttypid") int4
    ∷ attr (codes "attnum") int4
    ∷ attr (codes "attnotnull") bool
    ∷ [])

unfoldable pub index_desc : Desc
unfolding new_desc
index_desc = new_desc (
    attr (codes "indexrelid") int4
    ∷ attr (codes "indrelid") int4
    ∷ attr (codes "indkey") int4
    ∷ attr (codes "indisunique") bool
    ∷ attr (codes "indisprimary") bool
    ∷ [])

pub data CatalogError : Type 0 where
  bootstrapped not_bootstrapped control_corrupt exists not_found duplicate_column : CatalogError
  system_table wrong_object_type dependent_objects too_many_columns : CatalogError

abbrev pub max_columns : ℕ
max_columns = 1600

-- RelKind is a byte with named values.
abbrev pub rel_kind_table : ℕ
rel_kind_table = b'r'

abbrev pub rel_kind_index : ℕ
rel_kind_index = b'i'

pub record IndexInfo : Type 0 where
  pub oid : ℕ
  pub name : Bytes
  pub rel : ℕ
  pub attr_number : ℕ
  pub unique : Bool
  pub primary : Bool
  pub pages : ℤ
  pub tuples : ℤ

pub record RelationInfo : Type 0 where
  pub oid : ℕ
  pub name : Bytes
  pub kind : ℕ
  pub pages : ℤ
  pub tuples : ℤ
  pub desc : Desc
  pub indexes : List IndexInfo

-- The struct Control of control.go.
pub record Control : Type 0 where
  pub next_oid : ℕ
  pub next_xid : ℕ
