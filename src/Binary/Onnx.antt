-- ===== src/Binary/Onnx.antt =====
-- `_onnx_details` and its helpers, `_protobuf_summary`, of ditto_screener/binary_analysis.py.
-- `decode_utf8` stands for `bytes.decode("utf-8")`, none for the exception that is caught.
pub mod Returns
pub mod Model
pub mod Report
pub mod Outcome
use ditto_screener.Prelude.{
  ℕ, zero, suc, ◌+◌, Bool, true, false, not, ◌||◌, ◌&&◌, Option, none, some, is_none, is_some, List,
  [], ◌∷◌, ◌++◌, length, take, is_empty, leb, ltb, ◌==◌, nat_equality, contains, if◌then◌else◌,
  Comparable,
}
use ditto_screener.Prelude.Results.{Exn, assertion_error, Result, ok, raised, ◌>>=◌}
use ditto_screener.Binary.Bytes.{same_bytes}
use ditto_screener.Binary.Fields.{
  ProtoValue, varint, chunk, ProtoField, ProtoParse, ParseStatus, complete, truncated, malformed,
  field_limit, protobuf_fields,
}

-- `_ProtoParse.complete`
abbrev pub is_complete : ParseStatus → Bool
is_complete complete = true
is_complete truncated = false
is_complete malformed = false
is_complete field_limit = false

-- `bool(parse and parse.complete)`, `parse.fields if parse else []`
abbrev pub complete_parse : Option ProtoParse → Bool
complete_parse none = false
complete_parse (some parse) = is_complete parse.status

abbrev pub fields_of : Option ProtoParse → List ProtoField
fields_of none = []
fields_of (some parse) = parse.fields

-- `assert isinstance(value, bytes)`, `assert isinstance(value, int)`
abbrev pub chunk_value : ProtoValue → Result (List ℕ)
chunk_value (varint n) = raised assertion_error
chunk_value (chunk bytes) = ok bytes

abbrev pub int_value : ProtoValue → Result ℕ
int_value (varint n) = ok n
int_value (chunk bytes) = raised assertion_error

-- `field.number == number and field.wire_type == 2 and field.complete`
abbrev pub is_message : ℕ → ProtoField → Bool
is_message number field = field.number == number && field.wire_type == 2 && field.complete

module _ (decode_utf8 : List ℕ → Option (List ℕ)) where
  abbrev pub decoded_text : List ℕ → Option (List ℕ)
  decoded_text bytes = elim (decode_utf8 bytes) [ none ↦ none | some text ↦ some (take 160 text) ]

  -- `_proto_text`
  unfoldable pub proto_text : List ProtoField → ℕ → Result (Option (List ℕ))
  proto_text [] number = ok none
  proto_text (field ∷ fields) number =
      let rest = proto_text fields number in
      if is_message number field
      then chunk_value field.value >>= (λ bytes. ok (decoded_text bytes))
      else rest

-- `_proto_int`
unfoldable pub proto_int : List ProtoField → ℕ → Result (Option ℕ)
proto_int [] number = ok none
proto_int (field ∷ fields) number =
    let rest = proto_int fields number in
    if field.number == number && field.wire_type == 0
    then int_value field.value >>= (λ n. ok (some n))
    else rest

-- `operator and operator not in operators`: appended, or the list as it was.
abbrev pub known : List (List ℕ) → List ℕ → Bool
known [] text = false
known (t ∷ texts) text = same_bytes t text || known texts text

abbrev pub add_operator : Option (List ℕ) → List (List ℕ) → List (List ℕ)
add_operator none operators = operators
add_operator (some text) operators =
    if is_empty text || known operators text then operators else operators ++ text ∷ []

-- An opset's domain and version.
pub record Opset : Type 0 where
  pub domain : Option (List ℕ)
  pub version : Option ℕ

-- `sum(field.number == number for field in fields)`
abbrev pub count_number : ℕ → List ProtoField → ℕ
count_number number [] = 0
count_number number (field ∷ fields) =
    let rest = count_number number fields in if field.number == number then suc rest else rest

-- The declared lengths of the fields with number 9.
abbrev pub declared : Option ℕ → ℕ
declared none = 0
declared (some size) = size

abbrev pub raw_bytes : List ProtoField → ℕ
raw_bytes [] = 0
raw_bytes (field ∷ fields) =
    let rest = raw_bytes fields in
    if field.number == 9 then declared field.declared_bytes + rest else rest

-- A loop over fields that may raise, with its variables.
abbrev pub for_fields : {S : Type 0} → (ProtoField → S → Result S) → List ProtoField → S → Result S
for_fields step [] s = ok s
for_fields step (field ∷ fields) s = step field s >>= for_fields step fields

module _ (decode_utf8 : List ℕ → Option (List ℕ)) where
  abbrev pub operator_parse :
      List (List ℕ) × Bool → Option ProtoParse → Result (List (List ℕ) × Bool)
  operator_parse (operators, whole) parse =
      proto_text decode_utf8 (fields_of parse) 4
      >>= (λ operator. ok (add_operator operator operators, whole && complete_parse parse))

  -- A round of the loop of `_onnx_operator_types`.
  unfoldable pub operators_round : ProtoField → List (List ℕ) × Bool → Result (List (List ℕ) × Bool)
  operators_round field s =
      if is_message 1 field
      then chunk_value field.value >>= (λ bytes. operator_parse s (protobuf_fields bytes))
      else ok s

  -- `_onnx_operator_types`
  unfoldable pub operator_types : List ProtoField → Result (List (List ℕ) × Bool)
  operator_types fields =
      for_fields operators_round fields ([], true) >>= (λ found. ok (take 64 found.0, found.1))

  abbrev pub opset_parse : List Opset × Bool → Option ProtoParse → Result (List Opset × Bool)
  opset_parse (opsets, whole) parse = proto_text decode_utf8 (fields_of parse) 1 >>= λ domain.
      proto_int (fields_of parse) 2 >>= λ version.
      ok (
        opsets ++ record { domain = domain; version = version } ∷ [],
        whole && complete_parse parse,
      )

  -- A round of the loop over a model's opsets.
  unfoldable pub opsets_round : ProtoField → List Opset × Bool → Result (List Opset × Bool)
  opsets_round field s =
      if is_message 8 field
      then chunk_value field.value >>= (λ bytes. opset_parse s (protobuf_fields bytes))
      else ok s

-- `_onnx_initializer_details`: the bytes, the external references, and whether all was read.
pub record Initializers : Type 0 where
  pub total : ℕ
  pub external_data : ℕ
  pub whole : Bool

abbrev pub add_initializer : Initializers → Option ProtoParse → Initializers
add_initializer found parse = record {
  total = found.total + raw_bytes (fields_of parse);
  external_data = found.external_data + count_number 13 (fields_of parse);
  whole = found.whole && complete_parse parse;
}

unfoldable pub initializers_round : ProtoField → Initializers → Result Initializers
initializers_round field found =
    if is_message 5 field
    then chunk_value field.value >>= (λ bytes. ok (add_initializer found (protobuf_fields bytes)))
    else ok found

unfoldable pub initializer_details : List ProtoField → Result Initializers
initializer_details fields =
    for_fields initializers_round fields record { total = 0; external_data = 0; whole = true }
