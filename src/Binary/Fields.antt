-- ===== src/Binary/Fields.antt =====
-- `_ProtoField`, `_ProtoParse` and `_protobuf_fields` of ditto_screener/binary_analysis.py.
pub mod Shape
pub mod Wire
pub mod Cut
pub mod Rounds
pub mod Messages
use ditto_screener.Prelude.{
  ℕ, zero, suc, ◌+◌, ◌-◌, ◌/◌, ◌%◌, String, Bool, true, false, not, ◌||◌, Option, none, some, List,
  [], ◌∷◌, ◌++◌, length, take, drop, is_empty, leb, ltb, ◌==◌, nat_equality, contains,
  if◌then◌else◌,
}
use ditto_screener.Binary.Bytes.{slice}
use ditto_screener.Binary.Varint.{read_varint}

-- `int | bytes`
pub data ProtoValue : Type 0 where
  varint : ℕ → ProtoValue
  chunk : List ℕ → ProtoValue

pub record ProtoField : Type 0 where
  pub number : ℕ
  pub wire_type : ℕ
  pub value : ProtoValue
  pub declared_bytes : Option ℕ
  pub complete : Bool

pub data ParseStatus : Type 0 where
  complete truncated malformed field_limit : ParseStatus

pub record ProtoParse : Type 0 where
  pub fields : List ProtoField
  pub status : ParseStatus

-- `_MAX_PROTO_FIELDS`
abbrev pub max_proto_fields : ℕ
max_proto_fields = 4096

-- What a round of the loop does: it returns before a field was begun, returns in a field, returns
-- with the cut field, or goes on behind the field.
pub data FieldRound : Type 0 where
  rejected : ParseStatus → FieldRound
  stopped : FieldRound
  cut : ProtoField → FieldRound
  appended : ProtoField → ℕ → FieldRound

-- A field with no length of its own.
abbrev pub plain_field : ℕ → ℕ → ProtoValue → ProtoField
plain_field number wire_type value = record {
  number = number;
  wire_type = wire_type;
  value = value;
  declared_bytes = none;
  complete = true;
}

-- `wire_type == 0`
unfoldable pub varint_round : List ℕ → ℕ → ℕ → FieldRound
varint_round bytes number offset = elim (read_varint bytes offset) [
  | none ↦ stopped
  | some (value, next) ↦ appended (plain_field number 0 (varint value)) next
]

-- `wire_type == 1` and `wire_type == 5`: a value of `width` bytes
unfoldable pub fixed_round : List ℕ → ℕ → ℕ → ℕ → ℕ → FieldRound
fixed_round bytes number wire_type width offset =
    if ltb (length bytes) (offset + width)
    then stopped
    else appended (plain_field number wire_type (chunk (slice bytes offset (offset + width))))
        (offset + width)

-- The bytes that a length in front of them declares.
abbrev pub chunk_at : List ℕ → ℕ → ℕ → ℕ → FieldRound
chunk_at bytes number size offset =
    if leb (offset + size) (length bytes)
    then appended
        record {
          number = number;
          wire_type = 2;
          value = chunk (slice bytes offset (offset + size));
          declared_bytes = some size;
          complete = true;
        }
        (offset + size)
    else cut record {
      number = number;
      wire_type = 2;
      value = chunk (drop offset bytes);
      declared_bytes = some size;
      complete = false;
    }

-- `wire_type == 2`
unfoldable pub chunk_round : List ℕ → ℕ → ℕ → FieldRound
chunk_round bytes number offset = elim (read_varint bytes offset) [
  | none ↦ stopped
  | some (size, start) ↦ chunk_at bytes number size start
]

-- The key's wire type, then its field.
unfoldable pub value_round : List ℕ → ℕ → ℕ → ℕ → FieldRound
value_round bytes number wire_type offset =
    if ltb number 1 || not (contains (0 ∷ 1 ∷ 2 ∷ 5 ∷ []) wire_type)
    then rejected malformed
    else if wire_type == 0
    then varint_round bytes number offset
    else if wire_type == 1
    then fixed_round bytes number 1 8 offset
    else if wire_type == 5
    then fixed_round bytes number 5 4 offset
    else chunk_round bytes number offset

unfoldable pub field_round : List ℕ → ℕ → FieldRound
field_round bytes offset = elim (read_varint bytes offset) [
  | none ↦ rejected truncated
  | some (key, next) ↦ value_round bytes (key / 8) (key % 8) next
]

-- `_ProtoParse(fields, status) if fields else None`
abbrev pub parse_if_any : List ProtoField → ParseStatus → Option ProtoParse
parse_if_any fields status =
    if is_empty fields then none else some record { fields = fields; status = status }

-- What a round's end does: it returns, or the loop goes on with one more field.
abbrev pub after_round :
    List ProtoField → FieldRound → (List ProtoField → ℕ → Option ProtoParse) → Option ProtoParse
after_round fields (rejected status) go_on = parse_if_any fields status
after_round fields stopped go_on = some record { fields = fields; status = truncated }
after_round fields (cut field) go_on =
    some record { fields = fields ++ field ∷ []; status = truncated }
after_round fields (appended field next) go_on = go_on (fields ++ field ∷ []) next

-- The rounds of the `while`, with the fields so far.
unfoldable pub fields_loop : List ℕ → ℕ → List ProtoField → ℕ → Option ProtoParse
fields_loop bytes zero fields offset = none
fields_loop bytes (suc fuel) fields offset =
    if not (ltb offset (length bytes))
    then parse_if_any fields complete
    else if leb max_proto_fields (length fields)
    then some record { fields = fields; status = field_limit }
    else after_round fields (field_round bytes offset) (fields_loop bytes fuel)

-- `_protobuf_fields`: each round that goes on consumes a byte or more, so the fuel is enough.
unfoldable pub protobuf_fields : List ℕ → Option ProtoParse
protobuf_fields bytes = fields_loop bytes (suc (length bytes)) [] 0
