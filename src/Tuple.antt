-- ===== src/Tuple.antt =====
-- internal/tuple/tuple.go: identifiers, column types, the layout of the tuple header, and the methods
-- that read it. Their bodies are exercises of the repository: `HeaderReader` has them as fields, and
-- `HeaderLaws` what their comments promise.
use build_postgres.Prelude.{ℕ, ◌≤◌, ◌≡◌, Bool, ◌&&◌, Option, some, List, ◌++◌, ◌==◌, length}
use build_postgres.Prelude.Text.{Bytes, codes}
use build_postgres.Prelude.Int.{ℤ}
use build_postgres.Prelude.Result.{Result}

-- The types XID, OID and BlockNumber are uint32.
abbrev pub invalid_xid : ℕ
invalid_xid = 0

abbrev pub bootstrap_xid : ℕ
bootstrap_xid = 1

abbrev pub frozen_xid : ℕ
frozen_xid = 2

abbrev pub first_normal_xid : ℕ
first_normal_xid = 3

abbrev pub invalid_oid : ℕ
invalid_oid = 0

abbrev pub invalid_block_number : ℕ
invalid_block_number = 0xFFFFFFFF

-- TID
pub record Tid : Type 0 where
  pub block : ℕ
  pub off : ℕ

-- t.Ctid() == tid
abbrev pub equal_tid : Tid → Tid → Bool
equal_tid a b = a.block == b.block && a.off == b.off

-- TypeID is a uint8 with named values.
abbrev pub int4 : ℕ
int4 = 1

abbrev pub int8 : ℕ
int8 = 2

abbrev pub bool : ℕ
bool = 3

abbrev pub text : ℕ
text = 4

pub record Attr : Type 0 where
  pub name : Bytes
  pub typ : ℕ
  pub not_null : Bool

pub record Desc : Type 0 where
  pub attrs : List Attr

unfoldable pub new_desc : List Attr → Desc
new_desc attrs = record { attrs = attrs }

-- Desc.Len
unfoldable pub desc_len : Desc → ℕ
desc_len d = length d.attrs

-- Offsets of the header fields.
abbrev pub off_xmin : ℕ
off_xmin = 0

abbrev pub off_xmax : ℕ
off_xmax = 4

abbrev pub off_ctid : ℕ
off_ctid = 8

abbrev pub off_infomask2 : ℕ
off_infomask2 = 14

abbrev pub off_infomask : ℕ
off_infomask = 16

abbrev pub off_hoff : ℕ
off_hoff = 18

abbrev pub fixed_header_size : ℕ
fixed_header_size = 19

-- Infomask bits.
abbrev pub has_null : ℕ
has_null = 0x0001

abbrev pub xmin_committed : ℕ
xmin_committed = 0x0100

abbrev pub xmin_invalid : ℕ
xmin_invalid = 0x0200

abbrev pub xmax_committed : ℕ
xmax_committed = 0x0400

abbrev pub xmax_invalid : ℕ
xmax_invalid = 0x0800

abbrev pub natts_mask : ℕ
natts_mask = 0x07FF

-- What a tuple's header holds.
pub record Header : Type 0 where
  pub xmin : ℕ
  pub xmax : ℕ
  pub ctid : Tid
  pub natts : ℕ
  pub hoff : ℕ
  pub infomask : ℕ

-- The methods Xmin, Xmax, Ctid, Natts, Hoff and Infomask; none is a panic, an index past the slice.
pub record HeaderReader : Type 0 where
  pub xmin : Bytes → Option ℕ
  pub xmax : Bytes → Option ℕ
  pub ctid : Bytes → Option Tid
  pub natts : Bytes → Option ℕ
  pub hoff : Bytes → Option ℕ
  pub infomask : Bytes → Option ℕ

-- The methods read a field of a header that is there in full.
pub record HeaderLaws (r : HeaderReader) (header : Bytes → Header) : Type 0 where
  pub xmin_lem : (t : Bytes) → fixed_header_size ≤ length t → r.xmin t ≡ some (header t).xmin
  pub xmax_lem : (t : Bytes) → fixed_header_size ≤ length t → r.xmax t ≡ some (header t).xmax
  pub ctid_lem : (t : Bytes) → fixed_header_size ≤ length t → r.ctid t ≡ some (header t).ctid
  pub natts_lem : (t : Bytes) → fixed_header_size ≤ length t → r.natts t ≡ some (header t).natts
  pub hoff_lem : (t : Bytes) → fixed_header_size ≤ length t → r.hoff t ≡ some (header t).hoff
  pub infomask_lem :
      (t : Bytes) → fixed_header_size ≤ length t → r.infomask t ≡ some (header t).infomask

-- TypeID.String, Size and Align; a type without a fixed size has -1.
pub record TypeOps : Type 0 where
  pub type_string : ℕ → Bytes
  pub size : ℕ → ℤ
  pub align : ℕ → ℕ

pub data TupleError : Type 0 where
  arity type_mismatch corrupt : TupleError

unfoldable pub message : TupleError → Bytes
message arity = codes "tuple: value count does not match descriptor"
message type_mismatch = codes "tuple: value has wrong type"
message corrupt = codes "tuple: corrupt tuple"

-- typeError; quote is the verb %q of fmt, and go_type the verb %T.
module _ {Value : Type 0} (types : TypeOps) (quote : Bytes → Bytes) (go_type : Value → Bytes) where
  unfoldable pub type_error : Attr → Value → TupleError × Bytes
  unfolding message
  type_error a v = (
    type_mismatch,
    message type_mismatch
        ++ codes ": column "
        ++ quote a.name
        ++ codes " is "
        ++ types.type_string a.typ
        ++ codes ", got "
        ++ go_type v,
  )

-- Form with its nulls, Deform, and IsNull; a datum that is nil is none.
pub record TupleCodec (Value : Type 0) : Type 0 where
  pub form : Desc → List (Option Value) → Option (List Bool) → Result TupleError Bytes
  pub deform : Desc → Bytes → Result TupleError (List (Option Value) × List Bool)
  pub is_null : Bytes → ℕ → Bool
