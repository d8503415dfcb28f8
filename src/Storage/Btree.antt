-- ===== src/Storage/Btree.antt =====
-- internal/btree/btree.go, internal/bufmgr/bufmgr.go, internal/index/index.go and internal/planner/planner.go:
-- constants, flags and structs.
use build_postgres.Prelude.{ℕ, ◌-◌, ◌*◌, ◌/◌, ◌%◌, ◌^◌, Bool, Option}
use build_postgres.Prelude.Text.{Bytes}
use build_postgres.Page.{page_size, header_size, line_pointer_size}
use build_postgres.Sql.Query.{Datum}

abbrev pub special_size : ℕ
special_size = 16

abbrev pub meta_block : ℕ
meta_block = 0

abbrev pub no_page : ℕ
no_page = 0

abbrev pub magic : ℕ
magic = 0x053162

abbrev pub version : ℕ
version = 1

abbrev pub meta_size : ℕ
meta_size = 16

abbrev pub index_header_size : ℕ
index_header_size = 8

abbrev pub tid_size : ℕ
tid_size = 6

-- x &^ 7 is x - x % 8
abbrev third : ℕ
third = (page_size - header_size - special_size - 3 * line_pointer_size) / 3

abbrev pub max_index_item_size : ℕ
max_index_item_size = third - third % 8 - 8

abbrev pub fill_factor : ℕ
fill_factor = 90

-- Page flags.
abbrev pub flag_leaf : ℕ
flag_leaf = 2 ^ 0

abbrev pub flag_root : ℕ
flag_root = 2 ^ 1

abbrev pub flag_meta : ℕ
flag_meta = 2 ^ 3

-- Index tuple info bits.
abbrev pub index_size_mask : ℕ
index_size_mask = 0x1FFF

abbrev pub index_pivot_mask : ℕ
index_pivot_mask = 0x2000

abbrev pub index_null_mask : ℕ
index_null_mask = 0x8000

pub data BtreeError : Type 0 where
  key_type key_too_large corrupt : BtreeError

pub record Opaque : Type 0 where
  pub prev : ℕ
  pub next : ℕ
  pub level : ℕ
  pub flags : ℕ

pub record Meta : Type 0 where
  pub root : ℕ
  pub level : ℕ

-- The struct Tree, without the pool.
pub record Tree : Type 0 where
  pub oid : ℕ
  pub typ : ℕ

-- The struct Bound; a nil key is none.
pub record Bound : Type 0 where
  pub key : Option Datum
  pub inclusive : Bool

-- The struct Stats of package bufmgr.
pub record Stats : Type 0 where
  pub hits : ℕ
  pub misses : ℕ
  pub evictions : ℕ
  pub writes : ℕ

abbrev pub max_usage_count : ℕ
max_usage_count = 5

-- The errors of package index, and its struct Error.
pub data IndexSentinel : Type 0 where
  unique_violation too_large : IndexSentinel

pub record IndexError : Type 0 where
  pub cause : IndexSentinel
  pub msg : Bytes

-- Error.Error of package index
unfoldable pub index_error_text : IndexError → Bytes
index_error_text e = e.msg

-- Error.Unwrap of package index
unfoldable pub index_error_cause : IndexError → IndexSentinel
index_error_cause e = e.cause

abbrev pub max_join_relations : ℕ
max_join_relations = 12
