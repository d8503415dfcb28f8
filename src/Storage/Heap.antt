-- ===== src/Storage/Heap.antt =====
-- internal/heap/heap.go: the interface Snapshot, the snapshot Any, the verdicts TM, and the structs of a
-- relation and a scan.
use build_postgres.Prelude.{ℕ, Bool, true, Option, List, ◌++◌, if◌then◌else◌}
use build_postgres.Prelude.Text.{Bytes, codes}
use build_postgres.Prelude.Decimal.{itoa_int}
use build_postgres.Prelude.Int.{ℤ, pos}
use build_postgres.Prelude.Int.{equal_int}
use build_postgres.Prelude.Result.{Result, ok}
use build_postgres.Tuple.{Tid, Desc}

pub data HeapError : Type 0 where
  not_found already_deleted tuple_too_large invisible_tuple : HeapError

-- TM is an int with named values.
abbrev pub Tm : Type 0
Tm = ℤ

abbrev pub tm_ok : Tm
tm_ok = pos 0

abbrev pub tm_invisible : Tm
tm_invisible = pos 1

abbrev pub tm_self_modified : Tm
tm_self_modified = pos 2

abbrev pub tm_updated : Tm
tm_updated = pos 3

abbrev pub tm_deleted : Tm
tm_deleted = pos 4

abbrev pub tm_being_modified : Tm
tm_being_modified = pos 5

-- TM.String
unfoldable pub tm_string : Tm → Bytes
tm_string r =
    if equal_int r tm_ok
    then codes "ok"
    else if equal_int r tm_invisible
    then codes "invisible"
    else if equal_int r tm_self_modified
    then codes "self-modified"
    else if equal_int r tm_updated
    then codes "updated"
    else if equal_int r tm_deleted
    then codes "deleted"
    else if equal_int r tm_being_modified
    then codes "being modified"
    else codes "TM(" ++ itoa_int r ++ codes ")"

-- What Dirty returns besides an error.
pub record DirtyView : Type 0 where
  pub visible : Bool
  pub wait_for : ℕ

-- The interface Snapshot. A method is given a copy of the tuple, and returns it with the hint bits that
-- it sets; State is what the snapshot reads and waits on.
pub record Snapshot (State Error : Type 0) : Type 0 where
  pub visible : State → Bytes → State × Bytes × Result Error Bool
  pub dirty : State → Bytes → State × Bytes × Result Error DirtyView
  pub modify : State → Bytes → Tid → State × Bytes × Result Error Tm
  pub wait : State → ℕ → State

-- Any, the value anySnapshot{}.
unfoldable pub any_snapshot : {State Error : Type 0} → Snapshot State Error
any_snapshot = record {
  visible = λ s t. (s, t, ok true);
  dirty = λ s t. (s, t, ok (record { visible = true; wait_for = 0 }));
  modify = λ s t tid. (s, t, ok tm_ok);
  wait = λ s xid. s;
}

-- The struct Relation; the pool and the mutex are not in it.
pub record Relation : Type 0 where
  pub oid : ℕ
  pub desc : Desc
  pub target : ℕ

pub record ScanItem : Type 0 where
  pub tid : Tid
  pub tup : Bytes

-- The struct Scan.
pub record Scan (State Error : Type 0) : Type 0 where
  pub rel : Relation
  pub snap : Option (Snapshot State Error)
  pub nblocks : ℕ
  pub next : ℕ
  pub buffer : List ScanItem
  pub position : ℕ
  pub failed : Option Error
  pub done : Bool

-- Relation.OID and Relation.Desc
unfoldable pub relation_oid : Relation → ℕ
relation_oid r = r.oid

unfoldable pub relation_desc : Relation → Desc
relation_desc r = r.desc
