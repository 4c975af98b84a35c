-- ===== src/Binary/Fields/Cut.antt =====
-- `_protobuf_fields` at a field of the wire format that breaks off.
use mathlib.Core.List.{append_assoc}
use ditto_screener.Prelude.{
  ℕ, ◌+◌, ◌*◌, ◌^◌, ◌<◌, ◌≡◌, false, some, List, ◌++◌, arith, length, leb, ltb, length-append,
}
use ditto_screener.Binary.Varint.{varint_rounds}
use ditto_screener.Binary.Varint.RoundTrip.{varint_bytes, read_varint-varint_bytes}
use ditto_screener.Binary.Fields.{
  chunk, ProtoField, chunk_at, cut, chunk_round, value_round, field_round,
}
use ditto_screener.Binary.Fields.Wire.{FitsKey, drop-append, field_round-key}

-- What the parser has of a chunk whose last bytes are missing.
abbrev pub cut_chunk : ℕ → ℕ → List ℕ → ProtoField
cut_chunk number size bytes = record {
  number = number;
  wire_type = 2;
  value = chunk bytes;
  declared_bytes = some size;
  complete = false;
}

pub chunk_at_cut :
    (number size : ℕ) (pre bytes : List ℕ)
    → length bytes < size
    → chunk_at (pre ++ bytes) number size (length pre) ≡ cut (cut_chunk number size bytes)
chunk_at_cut number size pre bytes h =
    let e : leb (length pre + size) (length (pre ++ bytes)) ≡ false =
      ground (arith, length-append pre bytes) in
    rw (e, drop-append pre bytes)

chunk_round_cut :
    (number size : ℕ) (pre bytes : List ℕ)
    → size < 128 ^ varint_rounds
    → length bytes < size
    → chunk_round (pre ++ (varint_bytes size ++ bytes)) number (length pre)
      ≡ cut (cut_chunk number size bytes)
unfolding chunk_round
chunk_round_cut number size pre bytes h short =
    let v = varint_bytes size in
    let e : (pre ++ v) ++ bytes ≡ pre ++ (v ++ bytes) = append_assoc pre v bytes in
    let l : length (pre ++ v) ≡ length pre + length v = length-append pre v in
    let c = chunk_at_cut number size (pre ++ v) bytes short in
    rw (read_varint-varint_bytes size pre bytes h, chunk_round) (cc (c, e, l))

pub field_round_cut :
    (number size : ℕ) (pre bytes : List ℕ)
    → FitsKey number
    → size < 128 ^ varint_rounds
    → length bytes < size
    → field_round
        (pre ++ (varint_bytes (number * 8 + 2) ++ (varint_bytes size ++ bytes)))
        (length pre)
      ≡ cut (cut_chunk number size bytes)
unfolding value_round
field_round_cut number size pre bytes fits h short =
    let key = number * 8 + 2 in
    let v = varint_bytes key in
    let q : ltb number 1 ≡ false = ground (arith, fits) in
    let e : (pre ++ v) ++ (varint_bytes size ++ bytes)
        ≡ pre ++ (v ++ (varint_bytes size ++ bytes)) =
      append_assoc pre v (varint_bytes size ++ bytes) in
    let l : length (pre ++ v) ≡ length pre + length v = length-append pre v in
    let k =
      field_round-key key number 2 pre (varint_bytes size ++ bytes) (omega arith) (omega arith)
        (omega (arith, fits)) in
    let c : value_round ((pre ++ v) ++ (varint_bytes size ++ bytes)) number 2 (length (pre ++ v))
        ≡ cut (cut_chunk number size bytes) =
      rw q (chunk_round_cut number size (pre ++ v) bytes h short) in
    cc (k, c, e, l)
