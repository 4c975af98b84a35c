-- ===== src/Binary/Onnx/Returns.antt =====
-- The helpers of `_onnx_details` on the fields of a parse.
use ditto_screener.Prelude.{
  ℕ, ◌≤◌, ◌≡◌, Bool, true, false, ◌&&◌, Option, none, some, List, [], ◌∷◌, All, arith, length, ◌==◌,
  nat_equality, Bool-cases, inl, inr,
}
use ditto_screener.Prelude.Results.{Result, ok, Returns, >>=-Returns}
use ditto_screener.Binary.Fields.{
  ProtoValue, varint, chunk, ProtoField, ProtoParse, max_proto_fields,
}
use ditto_screener.Binary.Fields.Shape.{HasShape, IsShaped}
use ditto_screener.Binary.Fields.Rounds.{IsResult}
use ditto_screener.Binary.Onnx.{
  fields_of, chunk_value, int_value, is_message, decoded_text, proto_text, proto_int, for_fields,
}

abbrev pub Any : {V : Type 0} → V → Type 0
Any value = Unit

-- A field of wire type 2 holds bytes, one of wire type 0 an integer.
pub chunk_value-Returns :
    (wire_type : ℕ) (value : ProtoValue) (declared : Option ℕ) (whole : Bool)
    → HasShape wire_type value declared whole
    → (wire_type == 2) ≡ true
    → Returns Any (chunk_value value)
chunk_value-Returns wire_type (varint n) declared whole h e = ground (arith, h, e)
chunk_value-Returns wire_type (chunk bytes) declared whole h e = tt

int_value-Returns :
    (wire_type : ℕ) (value : ProtoValue) (declared : Option ℕ) (whole : Bool)
    → HasShape wire_type value declared whole
    → (wire_type == 0) ≡ true
    → Returns Any (int_value value)
int_value-Returns wire_type (varint n) declared whole h e = tt
int_value-Returns wire_type (chunk bytes) none whole h e = ground (arith, h, e)
int_value-Returns wire_type (chunk bytes) (some size) true h e = ground (arith, h, e)
int_value-Returns wire_type (chunk bytes) (some size) false h e = ground (arith, h, e)

message_type :
    (number : ℕ) (field : ProtoField)
    → is_message number field ≡ true
    → (field.wire_type == 2) ≡ true
message_type number field h = ground (arith, h)

pub message-Returns :
    (number : ℕ) (field : ProtoField)
    → IsShaped field
    → is_message number field ≡ true
    → Returns Any (chunk_value field.value)
message-Returns number field (low, shape) e =
    chunk_value-Returns field.wire_type field.value field.declared_bytes field.complete shape
      (message_type number field e)

pub fields_of-IsShaped :
    (parse : Option ProtoParse) → IsResult parse → All IsShaped (fields_of parse)
fields_of-IsShaped none h = tt
fields_of-IsShaped (some parse) (n, shaped, cut, first) = shaped

pub length-fields_of :
    (parse : Option ProtoParse) → IsResult parse → length (fields_of parse) ≤ max_proto_fields
length-fields_of none h = omega arith
length-fields_of (some parse) (n, shaped, cut, first) = n

pub proto_text-Returns :
    (decode_utf8 : List ℕ → Option (List ℕ)) (fields : List ProtoField) (number : ℕ)
    → All IsShaped fields
    → Returns Any (proto_text decode_utf8 fields number)
unfolding proto_text
proto_text-Returns decode_utf8 [] number h = tt
proto_text-Returns decode_utf8 (field ∷ fields) number (h, hs) =
    elim (Bool-cases (is_message number field)) [
      | inl e ↦ rw e (
          >>=-Returns Any Any (chunk_value field.value)
            (λ bytes. ok (decoded_text decode_utf8 bytes)) (message-Returns number field h e)
            (λ v u. tt))
      | inr e ↦ rw e (proto_text-Returns decode_utf8 fields number hs)
    ]

pub proto_int-Returns :
    (fields : List ProtoField) (number : ℕ)
    → All IsShaped fields
    → Returns Any (proto_int fields number)
unfolding proto_int
proto_int-Returns [] number h = tt
proto_int-Returns (field ∷ fields) number ((low, shape), hs) =
    elim (Bool-cases (field.number == number && field.wire_type == 0)) [
      | inl e ↦ rw e (
          >>=-Returns Any Any (int_value field.value) (λ n. ok (some n))
            (int_value-Returns field.wire_type field.value field.declared_bytes field.complete shape
              (ground (arith, e)))
            (λ v u. tt))
      | inr e ↦ rw e (proto_int-Returns fields number hs)
    ]

-- A loop returns if its rounds do, and keeps what they keep.
pub for_fields-Returns :
    {S : Type 0} (P : S → Type 0) (step : ProtoField → S → Result S)
    → ((field : ProtoField) (s : S) → IsShaped field → P s → Returns P (step field s))
    → (fields : List ProtoField) (s : S) → All IsShaped fields
    → P s
    → Returns P (for_fields step fields s)
for_fields-Returns P step round [] s h p = p
for_fields-Returns P step round (field ∷ fields) s (h, hs) p =
    >>=-Returns P P (step field s) (for_fields step fields) (round field s h p)
      (λ s' p'. for_fields-Returns P step round fields s' hs p')
