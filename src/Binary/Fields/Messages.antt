-- ===== src/Binary/Fields/Messages.antt =====
-- `_protobuf_fields` on messages in the wire format, also cut ones and long ones.
use mathlib.Core.List.{append_assoc, append-nil}
use ditto_screener.Prelude.{
  ℕ, suc, ◌+◌, ◌*◌, ◌^◌, ◌≤◌, ◌<◌, ◌≡◌, refl, ap, sym, ◌∙◌, true, false, some, List, [], ◌∷◌, ◌++◌,
  map, All, arith, length, leb, ltb, length-append,
}
use ditto_screener.Binary.Varint.{varint_rounds}
use ditto_screener.Binary.Varint.RoundTrip.{varint_bytes, length-varint_bytes}
use ditto_screener.Binary.Fields.{
  ProtoField, parse_if_any, cut, complete, truncated, field_limit, max_proto_fields, field_round,
  fields_loop, protobuf_fields,
}
use ditto_screener.Binary.Fields.Wire.{
  WireField, FitsKey, encode_field, encode, decoded, Fits, field_round-encode_field,
  length-encode_field,
}
use ditto_screener.Binary.Fields.Cut.{cut_chunk, field_round_cut}
use ditto_screener.Binary.Fields.Rounds.{protobuf_fields_fuel}

-- Fuel for the fields and `fuel` more.
abbrev rounds_for : List WireField → ℕ → ℕ
rounds_for [] fuel = fuel
rounds_for (w ∷ ws) fuel = suc (rounds_for ws fuel)

one_field :
    (pre rest : List ℕ) (w : WireField) (fields : List ProtoField) (fuel : ℕ)
    → Fits w
    → length fields < max_proto_fields
    → fields_loop (pre ++ (encode_field w ++ rest)) (suc fuel) fields (length pre)
      ≡ fields_loop
          (pre ++ (encode_field w ++ rest))
          fuel
          (fields ++ decoded w ∷ [])
          (length pre + length (encode_field w))
unfolding fields_loop
one_field pre rest w fields fuel h room =
    let some_bytes = length-encode_field w in
    let inside : ltb (length pre) (length (pre ++ (encode_field w ++ rest))) ≡ true =
      ground
        (arith, length-append pre (encode_field w ++ rest), length-append (encode_field w) rest) in
    let below : leb max_proto_fields (length fields) ≡ false = ground arith in
    rw (inside, below, field_round-encode_field pre rest w h)

-- The loop over written fields, in front of any further bytes.
fields_loop-encode :
    (ws : List WireField) (pre rest : List ℕ) (fields : List ProtoField) (fuel : ℕ)
    → All Fits ws
    → length fields + length ws ≤ max_proto_fields
    → fields_loop (pre ++ (encode ws ++ rest)) (rounds_for ws fuel) fields (length pre)
      ≡ fields_loop
          (pre ++ (encode ws ++ rest))
          fuel
          (fields ++ map decoded ws)
          (length pre + length (encode ws))
fields_loop-encode [] pre rest fields fuel fits room =
    let e : length pre + 0 ≡ length pre = omega arith in rw (append-nil fields, e)
fields_loop-encode (w ∷ ws) pre rest fields fuel (h, fits) room =
    let v = encode_field w in
    let d = decoded w in
    let e : (v ++ encode ws) ++ rest ≡ v ++ (encode ws ++ rest) = append_assoc v (encode ws) rest in
    let e' : (pre ++ v) ++ (encode ws ++ rest) ≡ pre ++ (v ++ (encode ws ++ rest)) =
      append_assoc pre v (encode ws ++ rest) in
    let l : length (pre ++ v) ≡ length pre + length v = length-append pre v in
    let o : (length pre + length v) + length (encode ws) ≡ length pre + length (v ++ encode ws) =
      omega (arith, length-append v (encode ws)) in
    let f : (fields ++ d ∷ []) ++ map decoded ws ≡ fields ++ d ∷ map decoded ws =
      append_assoc fields (d ∷ []) (map decoded ws) in
    let first = one_field pre (encode ws ++ rest) w fields (rounds_for ws fuel) h (omega arith) in
    let others =
      fields_loop-encode ws (pre ++ v) rest (fields ++ d ∷ []) fuel fits
        (omega (arith, length-append fields (d ∷ []))) in
    cc (first, others, e, e', l, o, f)

rounds_for_bound : (ws : List WireField) (fuel : ℕ) → fuel ≤ rounds_for ws fuel
rounds_for_bound [] fuel = omega arith
rounds_for_bound (w ∷ ws) fuel = omega (arith, rounds_for_bound ws fuel)

-- What is left to do behind the written fields.
protobuf_fields-encode-append :
    (ws : List WireField) (rest : List ℕ)
    → All Fits ws
    → length ws ≤ max_proto_fields
    → protobuf_fields (encode ws ++ rest)
      ≡ fields_loop
          (encode ws ++ rest)
          (suc (length (encode ws ++ rest)))
          (map decoded ws)
          (length (encode ws))
protobuf_fields-encode-append ws rest fits room =
    let bytes = encode ws ++ rest in
    let o : 0 + length (encode ws) ≡ length (encode ws) = omega arith in
    let s = fields_loop-encode ws [] rest [] (suc (length bytes)) fits (omega arith) in
    let f =
      protobuf_fields_fuel bytes (rounds_for ws (suc (length bytes)))
        (omega (arith, rounds_for_bound ws (suc (length bytes)))) in
    sym f ∙ s ∙ ap (λ (n : ℕ). fields_loop bytes (suc (length bytes)) (map decoded ws) n) o

at_end :
    (bytes : List ℕ) (fuel : ℕ) (fields : List ProtoField) (offset : ℕ)
    → offset ≡ length bytes
    → fields_loop bytes (suc fuel) fields offset ≡ parse_if_any fields complete
unfolding fields_loop
at_end bytes fuel fields offset h =
    let e : ltb offset (length bytes) ≡ false = ground (arith, h) in rw e refl

at_limit :
    (bytes : List ℕ) (fuel : ℕ) (fields : List ProtoField) (offset : ℕ)
    → offset < length bytes
    → length fields ≡ max_proto_fields
    → fields_loop bytes (suc fuel) fields offset
      ≡ some record { fields = fields; status = field_limit }
unfolding fields_loop
at_limit bytes fuel fields offset h full =
    let e : ltb offset (length bytes) ≡ true = ground (arith, h) in
    let e' : leb max_proto_fields (length fields) ≡ true = ground (arith, full) in rw (e, e') refl

length-map : (ws : List WireField) → length (map decoded ws) ≡ length ws
length-map [] = refl
length-map (w ∷ ws) = ap (λ (n : ℕ). suc n) (length-map ws)

-- A message of one to 4,096 fields that fit the format is read back whole.
pub protobuf_fields-encode :
    (w : WireField) (ws : List WireField)
    → All Fits (w ∷ ws)
    → length (w ∷ ws) ≤ max_proto_fields
    → protobuf_fields (encode (w ∷ ws))
      ≡ some record { fields = map decoded (w ∷ ws); status = complete }
protobuf_fields-encode w ws fits room =
    let bytes = encode (w ∷ ws) in
    let e : bytes ++ [] ≡ bytes = append-nil bytes in
    let p = protobuf_fields-encode-append (w ∷ ws) [] fits room in
    let last =
      at_end (bytes ++ []) (length (bytes ++ [])) (map decoded (w ∷ ws)) (length bytes)
        (ap (λ (b : List ℕ). length b) (sym e)) in
    ap (λ (b : List ℕ). protobuf_fields b) (sym e) ∙ p ∙ last

-- Behind the 4,096th field nothing more is read, whatever follows.
pub protobuf_fields_limit :
    (ws : List WireField) (byte : ℕ) (rest : List ℕ)
    → All Fits ws
    → length ws ≡ max_proto_fields
    → protobuf_fields (encode ws ++ byte ∷ rest)
      ≡ some record { fields = map decoded ws; status = field_limit }
protobuf_fields_limit ws byte rest fits full =
    let bytes = encode ws ++ byte ∷ rest in
    protobuf_fields-encode-append ws (byte ∷ rest) fits (omega (arith, full))
    ∙ at_limit bytes (length bytes) (map decoded ws) (length (encode ws))
        (omega (arith, length-append (encode ws) (byte ∷ rest))) (length-map ws ∙ full)

at_cut :
    (bytes : List ℕ) (fuel : ℕ) (fields : List ProtoField) (offset : ℕ) (field : ProtoField)
    → offset < length bytes
    → length fields < max_proto_fields
    → field_round bytes offset ≡ cut field
    → fields_loop bytes (suc fuel) fields offset
      ≡ some record { fields = fields ++ field ∷ []; status = truncated }
unfolding fields_loop
at_cut bytes fuel fields offset field h room r =
    let e : ltb offset (length bytes) ≡ true = ground (arith, h) in
    let e' : leb max_proto_fields (length fields) ≡ false = ground (arith, room) in
    rw (e, e', r) refl

-- A message of fewer than 4,096 fields that breaks off in a chunk: the whole fields are read, then the
-- bytes of the chunk that are there, with the length that it declares, and the status is `truncated`.
pub protobuf_fields_cut :
    (ws : List WireField) (number size : ℕ) (bytes : List ℕ)
    → All Fits ws
    → FitsKey number
    → size < 128 ^ varint_rounds
    → length bytes < size
    → length ws < max_proto_fields
    → protobuf_fields (encode ws ++ (varint_bytes (number * 8 + 2) ++ (varint_bytes size ++ bytes)))
      ≡ some
          record { fields = map decoded ws ++ cut_chunk number size bytes ∷ []; status = truncated }
protobuf_fields_cut ws number size bytes fits key h short room =
    let v = varint_bytes (number * 8 + 2) in
    let rest = v ++ (varint_bytes size ++ bytes) in
    let inside : length (encode ws) < length (encode ws ++ rest) = omega (
      arith,
      length-append (encode ws) rest,
      length-append v (varint_bytes size ++ bytes),
      length-varint_bytes (number * 8 + 2),
    ) in
    protobuf_fields-encode-append ws rest fits (omega arith)
    ∙ at_cut (encode ws ++ rest) (length (encode ws ++ rest)) (map decoded ws) (length (encode ws))
        (cut_chunk number size bytes) inside (omega (arith, length-map ws))
        (field_round_cut number size (encode ws) bytes key h short)
