-- ===== src/Binary/Fields/Rounds.antt =====
-- The rounds of `_protobuf_fields` on any bytes.
use ditto_screener.Prelude.{
  ℕ, zero, suc, ◌-◌, ◌≤◌, ◌<◌, ◌≡◌, refl, true, false, Option, none, some, List, [], ◌∷◌, ◌++◌, All,
  arith, length, leb, ltb, Bool-cases, inl, inr, length-append, ◌⊎◌, All-append,
}
use ditto_screener.Binary.Fields.{
  ProtoField, ProtoParse, ParseStatus, complete, truncated, FieldRound, rejected, stopped, cut,
  appended, max_proto_fields, field_round, parse_if_any, after_round, fields_loop, protobuf_fields,
}
use ditto_screener.Binary.Fields.Shape.{IsShaped, RoundEnds, field_round-RoundEnds}

-- What follows a round needs to agree only behind its offset.
after_round-cong :
    (bytes : List ℕ) (offset : ℕ) (fields : List ProtoField) (r : FieldRound)
    (f g : List ProtoField → ℕ → Option ProtoParse)
    → RoundEnds bytes offset r
    → ((fields : List ProtoField) (next : ℕ)
        → offset < next
        → next ≤ length bytes
        → f fields next ≡ g fields next)
    → after_round fields r f ≡ after_round fields r g
after_round-cong bytes offset fields (rejected status) f g ends h = refl
after_round-cong bytes offset fields stopped f g ends h = refl
after_round-cong bytes offset fields (cut field) f g ends h = refl
after_round-cong bytes offset fields (appended field next) f g (shape, whole, m, w) h =
    h (fields ++ field ∷ []) next m w

-- Any fuel above the bytes that are left leads to the same result.
pub fields_loop-fuel :
    (bytes : List ℕ) (fuel more : ℕ) (fields : List ProtoField) (offset : ℕ)
    → length bytes - offset < fuel
    → length bytes - offset < more
    → fields_loop bytes fuel fields offset ≡ fields_loop bytes more fields offset
unfolding fields_loop
fields_loop-fuel bytes zero more fields offset h h' = absurd (omega arith)
fields_loop-fuel bytes (suc fuel) zero fields offset h h' = absurd (omega arith)
fields_loop-fuel bytes (suc fuel) (suc more) fields offset h h' =
    elim (Bool-cases (ltb offset (length bytes))) [
      | inr e ↦ rw e refl
      | inl e ↦ rw e (elim (Bool-cases (leb max_proto_fields (length fields))) [
        | inl e' ↦ rw e' refl
        | inr e' ↦ rw e' (
            after_round-cong bytes offset fields (field_round bytes offset) (fields_loop bytes fuel)
              (fields_loop bytes more) (field_round-RoundEnds bytes offset)
              (λ fields' next m w.
                fields_loop-fuel bytes fuel more fields' next (omega arith) (omega arith)))
      ])
    ]

-- `_protobuf_fields` ends: any larger bound on its rounds leads to the same result.
pub protobuf_fields_fuel :
    (bytes : List ℕ) (more : ℕ)
    → length bytes < more
    → fields_loop bytes more [] 0 ≡ protobuf_fields bytes
unfolding protobuf_fields
protobuf_fields_fuel bytes more h =
    fields_loop-fuel bytes more (suc (length bytes)) [] 0 (omega arith) (omega arith)

abbrev IsWhole : ProtoField → Type 0
IsWhole field = field.complete ≡ true

-- At most 4,096 fields, each of a shape that the wire format has, none cut unless the status says so,
-- and a first field where it says that the message is complete.
abbrev pub IsParse : ProtoParse → Type 0
IsParse parse =
    (length parse.fields ≤ max_proto_fields)
    × All IsShaped parse.fields
    × ((parse.status ≡ truncated) ⊎ All IsWhole parse.fields)
    × (parse.status ≡ complete → 1 ≤ length parse.fields)

abbrev pub IsResult : Option ProtoParse → Type 0
IsResult none = Unit
IsResult (some parse) = IsParse parse

-- What the loop keeps of the fields so far.
abbrev Kept : List ProtoField → Type 0
Kept fields = (length fields ≤ max_proto_fields) × All IsShaped fields × All IsWhole fields

parse_if_any-IsResult :
    (fields : List ProtoField) (status : ParseStatus)
    → Kept fields
    → IsResult (parse_if_any fields status)
parse_if_any-IsResult [] status kept = tt
parse_if_any-IsResult (f ∷ fields) status (n, shaped, whole) =
    (n, shaped, inr whole, λ e. omega arith)

one_more :
    (fields : List ProtoField) (field : ProtoField)
    → leb max_proto_fields (length fields) ≡ false
    → length (fields ++ field ∷ []) ≤ max_proto_fields
one_more fields field h = ground (arith, h, length-append fields (field ∷ []))

after_round-IsResult :
    (bytes : List ℕ) (offset : ℕ) (fields : List ProtoField) (r : FieldRound)
    (f : List ProtoField → ℕ → Option ProtoParse)
    → RoundEnds bytes offset r
    → leb max_proto_fields (length fields) ≡ false
    → Kept fields
    → ((fields : List ProtoField) (next : ℕ) → Kept fields → IsResult (f fields next))
    → IsResult (after_round fields r f)
after_round-IsResult bytes offset fields (rejected status) f ends below kept go =
    parse_if_any-IsResult fields status kept
after_round-IsResult bytes offset fields stopped f ends below (n, shaped, whole) go =
    (n, shaped, inl refl, λ e. cc)
after_round-IsResult bytes offset fields (cut field) f ends below (n, shaped, whole) go = (
  one_more fields field below,
  All-append IsShaped fields (field ∷ []) shaped (ends, tt),
  inl refl,
  λ e. cc,
)
after_round-IsResult bytes offset fields (appended field next) f (shape, w, m, b) below
      (n, shaped, whole) go =
    go (fields ++ field ∷ []) next (
      one_more fields field below,
      All-append IsShaped fields (field ∷ []) shaped (shape, tt),
      All-append IsWhole fields (field ∷ []) whole (w, tt),
    )

fields_loop-IsResult :
    (bytes : List ℕ) (fuel : ℕ) (fields : List ProtoField) (offset : ℕ)
    → Kept fields
    → IsResult (fields_loop bytes fuel fields offset)
unfolding fields_loop
fields_loop-IsResult bytes zero fields offset kept = tt
fields_loop-IsResult bytes (suc fuel) fields offset kept =
    elim (Bool-cases (ltb offset (length bytes))) [
      | inr e ↦ rw e (parse_if_any-IsResult fields complete kept)
      | inl e ↦ rw e (elim (Bool-cases (leb max_proto_fields (length fields))) [
        | inl e' ↦ rw e' (kept.0, kept.1, inr kept.2, λ e. cc)
        | inr e' ↦ rw e' (
            after_round-IsResult bytes offset fields (field_round bytes offset)
              (fields_loop bytes fuel) (field_round-RoundEnds bytes offset) e' kept
              (fields_loop-IsResult bytes fuel))
      ])
    ]

-- On any bytes `_protobuf_fields` has at most 4,096 fields, each with a number from 1 and with the
-- value, the declared length and the flag that its wire type asks for; a field is cut only where the
-- status is `truncated`, and a complete parse has a field.
pub protobuf_fields-IsResult : (bytes : List ℕ) → IsResult (protobuf_fields bytes)
unfolding protobuf_fields
protobuf_fields-IsResult bytes =
    fields_loop-IsResult bytes (suc (length bytes)) [] 0 (omega arith, tt, tt)
