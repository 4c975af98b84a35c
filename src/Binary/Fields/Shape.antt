-- ===== src/Binary/Fields/Shape.antt =====
-- What a round of `_protobuf_fields` ends with on any bytes.
use ditto_screener.Prelude.{
  ℕ, ◌+◌, ◌-◌, ◌/◌, ◌%◌, ◌^◌, ◌≤◌, ◌<◌, ◌≡◌, ◌⊎◌, refl, Bool, true, false, not, ◌||◌, Option, none,
  some, List, [], ◌∷◌, arith, length, drop, leb, ltb, ◌==◌, nat_equality, contains, if◌then◌else◌,
  length-take, length-drop, Bool-cases, Option-cases, inl, inr,
}
use ditto_screener.Binary.Bytes.{slice}
use ditto_screener.Binary.Varint.{read_varint}
use ditto_screener.Binary.Varint.Bounds.{read_varint-VarintEnds}
use ditto_screener.Binary.Fields.{
  ProtoValue, varint, chunk, ProtoField, FieldRound, rejected, stopped, cut, appended, varint_round,
  fixed_round, chunk_at, chunk_round, value_round, field_round,
}

-- Which values, declared lengths and flags stand with which wire type.
abbrev pub HasShape : ℕ → ProtoValue → Option ℕ → Bool → Type 0
HasShape wire_type (varint n) declared whole =
    (wire_type ≡ 0) × (n < 2 ^ 70) × (declared ≡ none) × (whole ≡ true)
HasShape wire_type (chunk bytes) none whole =
    (whole ≡ true)
    × (((wire_type ≡ 1) × (length bytes ≡ 8)) ⊎ ((wire_type ≡ 5) × (length bytes ≡ 4)))
HasShape wire_type (chunk bytes) (some size) true = (wire_type ≡ 2) × (length bytes ≡ size)
HasShape wire_type (chunk bytes) (some size) false = (wire_type ≡ 2) × (length bytes < size)

abbrev pub IsShaped : ProtoField → Type 0
IsShaped field =
    (1 ≤ field.number) × HasShape field.wire_type field.value field.declared_bytes field.complete

-- What is known of a round from an offset.
abbrev pub RoundEnds : List ℕ → ℕ → FieldRound → Type 0
RoundEnds bytes offset (rejected status) = Unit
RoundEnds bytes offset stopped = Unit
RoundEnds bytes offset (cut field) = IsShaped field
RoundEnds bytes offset (appended field next) =
    IsShaped field × (field.complete ≡ true) × (offset < next) × (next ≤ length bytes)

length-slice :
    (bytes : List ℕ) (start end : ℕ)
    → end ≤ length bytes
    → length (slice bytes start end) ≡ end - start
length-slice bytes start end h =
    omega (arith, length-take (end - start) (drop start bytes), length-drop start bytes)

varint_round-RoundEnds :
    (bytes : List ℕ) (number offset : ℕ)
    → 1 ≤ number
    → RoundEnds bytes offset (varint_round bytes number offset)
unfolding varint_round
varint_round-RoundEnds bytes number offset h = elim (Option-cases (read_varint bytes offset)) [
  | inl e ↦ rw (e, varint_round) tt
  | inr ((value, next), e) ↦
      rw (e, varint_round) (ground (arith, h, read_varint-VarintEnds bytes offset value next e))
]

fixed_round-RoundEnds :
    (bytes : List ℕ) (number wire_type width offset : ℕ)
    → 1 ≤ number
    → 0 < width
    → ((wire_type ≡ 1) × (width ≡ 8)) ⊎ ((wire_type ≡ 5) × (width ≡ 4))
    → RoundEnds bytes offset (fixed_round bytes number wire_type width offset)
unfolding fixed_round
fixed_round-RoundEnds bytes number wire_type width offset h w t =
    elim (Bool-cases (ltb (length bytes) (offset + width))) [
      | inl e ↦ rw e tt
      | inr e ↦ rw e (ground (arith, h, w, t, length-slice bytes offset (offset + width)))
    ]

chunk_at-RoundEnds :
    (bytes : List ℕ) (number size offset before : ℕ)
    → 1 ≤ number
    → before < offset
    → offset ≤ length bytes
    → RoundEnds bytes before (chunk_at bytes number size offset)
chunk_at-RoundEnds bytes number size offset before h m w =
    elim (Bool-cases (leb (offset + size) (length bytes))) [
      | inl e ↦ rw e (ground (arith, h, m, length-slice bytes offset (offset + size)))
      | inr e ↦ rw e (ground (arith, h, w, length-drop offset bytes))
    ]

chunk_round-RoundEnds :
    (bytes : List ℕ) (number offset : ℕ)
    → 1 ≤ number
    → RoundEnds bytes offset (chunk_round bytes number offset)
unfolding chunk_round
chunk_round-RoundEnds bytes number offset h = elim (Option-cases (read_varint bytes offset)) [
  | inl e ↦ rw (e, chunk_round) tt
  | inr ((size, start), e) ↦
      let (m, m', w, v) = read_varint-VarintEnds bytes offset size start e in
      rw (e, chunk_round) (chunk_at-RoundEnds bytes number size start offset h m w)
]

value_round-RoundEnds :
    (bytes : List ℕ) (number wire_type offset : ℕ)
    → RoundEnds bytes offset (value_round bytes number wire_type offset)
unfolding value_round
value_round-RoundEnds bytes number wire_type offset =
    elim (Bool-cases (ltb number 1 || not (contains (0 ∷ 1 ∷ 2 ∷ 5 ∷ []) wire_type))) [
      | inl e ↦ rw e tt
      | inr e ↦ rw e (by_type (ground (arith, e)))
    ]
  where
    by_type :
        1 ≤ number
        → RoundEnds bytes offset (
            if wire_type == 0
            then varint_round bytes number offset
            else if wire_type == 1
            then fixed_round bytes number 1 8 offset
            else if wire_type == 5
            then fixed_round bytes number 5 4 offset
            else chunk_round bytes number offset)
    by_type h = elim (Bool-cases (wire_type == 0)) [
      | inl q ↦ rw q (varint_round-RoundEnds bytes number offset h)
      | inr q ↦ rw q (elim (Bool-cases (wire_type == 1)) [
        | inl q1 ↦
            rw q1 (fixed_round-RoundEnds bytes number 1 8 offset h (omega arith) (inl (refl, refl)))
        | inr q1 ↦ rw q1 (elim (Bool-cases (wire_type == 5)) [
          | inl q5 ↦
              rw q5
                (fixed_round-RoundEnds bytes number 5 4 offset h (omega arith) (inr (refl, refl)))
          | inr q5 ↦ rw q5 (chunk_round-RoundEnds bytes number offset h)
        ])
      ])
    ]

earlier :
    (bytes : List ℕ) (before offset : ℕ) (r : FieldRound)
    → before ≤ offset
    → RoundEnds bytes offset r
    → RoundEnds bytes before r
earlier bytes before offset (rejected status) h ends = tt
earlier bytes before offset stopped h ends = tt
earlier bytes before offset (cut field) h ends = ends
earlier bytes before offset (appended field next) h (shape, whole, m, w) =
    (shape, whole, omega arith, w)

pub field_round-RoundEnds :
    (bytes : List ℕ) (offset : ℕ) → RoundEnds bytes offset (field_round bytes offset)
unfolding field_round
field_round-RoundEnds bytes offset = elim (Option-cases (read_varint bytes offset)) [
  | inl e ↦ rw (e, field_round) tt
  | inr ((key, next), e) ↦
      let (m, m2, m3, m4) = read_varint-VarintEnds bytes offset key next e in
      rw (e, field_round)
        (earlier bytes offset next (value_round bytes (key / 8) (key % 8) next) (omega (arith, m))
          (value_round-RoundEnds bytes (key / 8) (key % 8) next))
]
