-- ===== src/Binary/Fields/Wire.antt =====
-- The protobuf wire format, and the rounds of `_protobuf_fields` on it.
use mathlib.Core.List.{append_assoc}
use ditto_screener.Prelude.{
  ℕ, ◌+◌, ◌-◌, ◌*◌, ◌/◌, ◌%◌, ◌^◌, ◌≤◌, ◌<◌, ◌≡◌, refl, ap, true, false, some, List, [], ◌∷◌, ◌++◌,
  arith, length, take, drop, leb, ltb, length-append,
}
use ditto_screener.Binary.Bytes.{slice}
use ditto_screener.Binary.Varint.{varint_rounds}
use ditto_screener.Binary.Varint.RoundTrip.{
  varint_bytes, read_varint-varint_bytes, length-varint_bytes,
}
use ditto_screener.Binary.Fields.{
  varint, chunk, ProtoField, appended, plain_field, varint_round, fixed_round, chunk_round,
  value_round, field_round,
}

-- The fields of the wire format, with their numbers and values.
pub data WireField : Type 0 where
  varint_field : ℕ → ℕ → WireField
  fixed64_field : ℕ → List ℕ → WireField
  chunk_field : ℕ → List ℕ → WireField
  fixed32_field : ℕ → List ℕ → WireField

-- The key and the value of a field.
abbrev pub encode_field : WireField → List ℕ
encode_field (varint_field number value) = varint_bytes (number * 8 + 0) ++ varint_bytes value
encode_field (fixed64_field number bytes) = varint_bytes (number * 8 + 1) ++ bytes
encode_field (chunk_field number bytes) =
    varint_bytes (number * 8 + 2) ++ (varint_bytes (length bytes) ++ bytes)
encode_field (fixed32_field number bytes) = varint_bytes (number * 8 + 5) ++ bytes

abbrev pub encode : List WireField → List ℕ
encode [] = []
encode (w ∷ ws) = encode_field w ++ encode ws

-- What the parser has of a field.
abbrev pub decoded : WireField → ProtoField
decoded (varint_field number value) = plain_field number 0 (varint value)
decoded (fixed64_field number bytes) = plain_field number 1 (chunk bytes)
decoded (chunk_field number bytes) = record {
  number = number;
  wire_type = 2;
  value = chunk bytes;
  declared_bytes = some (length bytes);
  complete = true;
}
decoded (fixed32_field number bytes) = plain_field number 5 (chunk bytes)

-- A number from 1, whose key is below 128 ^ 10.
abbrev pub FitsKey : ℕ → Type 0
FitsKey number = (1 ≤ number) × (number * 8 + 7 < 128 ^ varint_rounds)

abbrev pub Fits : WireField → Type 0
Fits (varint_field number value) = FitsKey number × (value < 128 ^ varint_rounds)
Fits (fixed64_field number bytes) = FitsKey number × (length bytes ≡ 8)
Fits (chunk_field number bytes) = FitsKey number × (length bytes < 128 ^ varint_rounds)
Fits (fixed32_field number bytes) = FitsKey number × (length bytes ≡ 4)

pub drop-append : (pre rest : List ℕ) → drop (length pre) (pre ++ rest) ≡ rest
drop-append [] rest = refl
drop-append (x ∷ pre) rest = drop-append pre rest

take-append : (bytes rest : List ℕ) → take (length bytes) (bytes ++ rest) ≡ bytes
take-append [] rest = refl
take-append (x ∷ bytes) rest = ap (λ (r : List ℕ). x ∷ r) (take-append bytes rest)

slice-append :
    (pre bytes rest : List ℕ)
    → slice (pre ++ (bytes ++ rest)) (length pre) (length pre + length bytes) ≡ bytes
slice-append pre bytes rest =
    let e : (length pre + length bytes) - length pre ≡ length bytes = omega arith in
    rw (e, drop-append pre (bytes ++ rest)) (take-append bytes rest)

length-parts :
    (pre bytes rest : List ℕ)
    → length (pre ++ (bytes ++ rest)) ≡ length pre + (length bytes + length rest)
length-parts pre bytes rest =
    omega (arith, length-append pre (bytes ++ rest), length-append bytes rest)

varint_round-varint_bytes :
    (number value : ℕ) (pre rest : List ℕ)
    → value < 128 ^ varint_rounds
    → varint_round (pre ++ (varint_bytes value ++ rest)) number (length pre)
      ≡ appended (plain_field number 0 (varint value)) (length pre + length (varint_bytes value))
unfolding varint_round
varint_round-varint_bytes number value pre rest h =
    rw (read_varint-varint_bytes value pre rest h, varint_round)

fixed_round-append :
    (number wire_type width : ℕ) (pre bytes rest : List ℕ)
    → length bytes ≡ width
    → fixed_round (pre ++ (bytes ++ rest)) number wire_type width (length pre)
      ≡ appended (plain_field number wire_type (chunk bytes)) (length pre + length bytes)
unfolding fixed_round
fixed_round-append number wire_type width pre bytes rest h =
    let e : ltb (length (pre ++ (bytes ++ rest))) (length pre + length bytes) ≡ false =
      ground (arith, length-parts pre bytes rest) in
    rw (← h, e, slice-append pre bytes rest)

chunk_round-varint_bytes :
    (number : ℕ) (pre bytes rest : List ℕ)
    → length bytes < 128 ^ varint_rounds
    → chunk_round (pre ++ (varint_bytes (length bytes) ++ (bytes ++ rest))) number (length pre)
      ≡ appended
          (decoded (chunk_field number bytes))
          (length pre + length (varint_bytes (length bytes) ++ bytes))
unfolding chunk_round
chunk_round-varint_bytes number pre bytes rest h =
    let size = length bytes in
    let v = varint_bytes size in
    let start = length pre + length v in
    let e : (pre ++ v) ++ (bytes ++ rest) ≡ pre ++ (v ++ (bytes ++ rest)) =
      append_assoc pre v (bytes ++ rest) in
    let l : length (pre ++ v) ≡ length pre + length v = length-append pre v in
    let inside : leb (start + size) (length (pre ++ (v ++ (bytes ++ rest)))) ≡ true =
      ground (arith, length-parts pre v (bytes ++ rest), length-append bytes rest) in
    let s : slice (pre ++ (v ++ (bytes ++ rest))) start (start + size) ≡ bytes =
      cc (slice-append (pre ++ v) bytes rest, e, l) in
    let o : length pre + length (v ++ bytes) ≡ start + size =
      omega (arith, length-append v bytes) in
    rw (read_varint-varint_bytes size pre (bytes ++ rest) h, chunk_round, inside, s, o)

pub field_round-key :
    (key number wire_type : ℕ) (pre rest : List ℕ)
    → key / 8 ≡ number
    → key % 8 ≡ wire_type
    → key < 128 ^ varint_rounds
    → field_round (pre ++ (varint_bytes key ++ rest)) (length pre)
      ≡ value_round
          (pre ++ (varint_bytes key ++ rest))
          number
          wire_type
          (length pre + length (varint_bytes key))
unfolding field_round
field_round-key key number wire_type pre rest d m h =
    rw (read_varint-varint_bytes key pre rest h, field_round, d, m)

-- The key in front of a field's value, whose bytes are `body`.
field_round-varint_bytes :
    (number wire_type : ℕ) (pre body rest : List ℕ) (field : ProtoField)
    → FitsKey number
    → wire_type < 8
    → value_round
        ((pre ++ varint_bytes (number * 8 + wire_type)) ++ (body ++ rest))
        number
        wire_type
        (length (pre ++ varint_bytes (number * 8 + wire_type)))
      ≡ appended field (length (pre ++ varint_bytes (number * 8 + wire_type)) + length body)
    → field_round (pre ++ ((varint_bytes (number * 8 + wire_type) ++ body) ++ rest)) (length pre)
      ≡ appended field (length pre + length (varint_bytes (number * 8 + wire_type) ++ body))
field_round-varint_bytes number wire_type pre body rest field (low, high) small h =
    let key = number * 8 + wire_type in
    let v = varint_bytes key in
    let e : (pre ++ v) ++ (body ++ rest) ≡ pre ++ (v ++ (body ++ rest)) =
      append_assoc pre v (body ++ rest) in
    let e' : (v ++ body) ++ rest ≡ v ++ (body ++ rest) = append_assoc v body rest in
    let l : length (pre ++ v) ≡ length pre + length v = length-append pre v in
    let o : length pre + length (v ++ body) ≡ (length pre + length v) + length body =
      omega (arith, length-append v body) in
    let k =
      field_round-key key number wire_type pre (body ++ rest) (omega arith) (omega arith)
        (omega arith) in
    cc (h, k, e, e', l, o)

pub field_round-encode_field :
    (pre rest : List ℕ) (w : WireField)
    → Fits w
    → field_round (pre ++ (encode_field w ++ rest)) (length pre)
      ≡ appended (decoded w) (length pre + length (encode_field w))
unfolding value_round
field_round-encode_field pre rest (varint_field number value) (fits, h) =
    let q : ltb number 1 ≡ false = ground (arith, fits) in
    field_round-varint_bytes number 0 pre (varint_bytes value) rest
      (plain_field number 0 (varint value)) fits (omega arith)
      (rw q (varint_round-varint_bytes number value (pre ++ varint_bytes (number * 8 + 0)) rest h))
field_round-encode_field pre rest (fixed64_field number bytes) (fits, h) =
    let q : ltb number 1 ≡ false = ground (arith, fits) in
    field_round-varint_bytes number 1 pre bytes rest (plain_field number 1 (chunk bytes)) fits
      (omega arith)
      (rw q (fixed_round-append number 1 8 (pre ++ varint_bytes (number * 8 + 1)) bytes rest h))
field_round-encode_field pre rest (chunk_field number bytes) (fits, h) =
    let q : ltb number 1 ≡ false = ground (arith, fits) in
    field_round-varint_bytes number 2 pre (varint_bytes (length bytes) ++ bytes) rest
      (decoded (chunk_field number bytes)) fits (omega arith)
      (rw (q, append_assoc (varint_bytes (length bytes)) bytes rest)
        (chunk_round-varint_bytes number (pre ++ varint_bytes (number * 8 + 2)) bytes rest h))
field_round-encode_field pre rest (fixed32_field number bytes) (fits, h) =
    let q : ltb number 1 ≡ false = ground (arith, fits) in
    field_round-varint_bytes number 5 pre bytes rest (plain_field number 5 (chunk bytes)) fits
      (omega arith)
      (rw q (fixed_round-append number 5 4 (pre ++ varint_bytes (number * 8 + 5)) bytes rest h))

pub length-encode_field : (w : WireField) → 0 < length (encode_field w)
length-encode_field (varint_field number value) = omega (
  arith,
  length-append (varint_bytes (number * 8 + 0)) (varint_bytes value),
  length-varint_bytes (number * 8 + 0),
)
length-encode_field (fixed64_field number bytes) = omega (
  arith,
  length-append (varint_bytes (number * 8 + 1)) bytes,
  length-varint_bytes (number * 8 + 1),
)
length-encode_field (chunk_field number bytes) = omega (
  arith,
  length-append (varint_bytes (number * 8 + 2)) (varint_bytes (length bytes) ++ bytes),
  length-varint_bytes (number * 8 + 2),
)
length-encode_field (fixed32_field number bytes) = omega (
  arith,
  length-append (varint_bytes (number * 8 + 5)) bytes,
  length-varint_bytes (number * 8 + 5),
)
