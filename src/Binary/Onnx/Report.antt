-- ===== src/Binary/Onnx/Report.antt =====
-- The loops of `_onnx_details` over operators and opsets.
use ditto_screener.Prelude.{
  ℕ, zero, suc, ◌≤◌, ◌≡◌, refl, ◌∙◌, Bool, true, false, ◌&&◌, ◌||◌, Option, none, some, List, [],
  ◌∷◌, ◌++◌, All, arith, length, take, is_empty, nat_eqb, nat_equality, length-take, Bool-cases,
  inl, inr,
}
use ditto_screener.Prelude.Results.{ok, ◌>>=◌, Returns, >>=-Returns}
use ditto_screener.Binary.Bytes.{same_bytes}
use ditto_screener.Binary.Fields.{ProtoField, ProtoParse, ParseStatus, complete, protobuf_fields}
use ditto_screener.Binary.Fields.Shape.{IsShaped}
use ditto_screener.Binary.Fields.Rounds.{IsResult, protobuf_fields-IsResult}
use ditto_screener.Binary.Onnx.{
  operator_types, complete_parse, fields_of, chunk_value, is_message, proto_text, proto_int, known,
  add_operator, Opset, for_fields, operator_parse, operators_round, opset_parse, opsets_round,
}
use ditto_screener.Binary.Onnx.Returns.{
  Any, message-Returns, fields_of-IsShaped, proto_text-Returns, proto_int-Returns,
  for_fields-Returns,
}

-- No two operators are the same.
abbrev pub Distinct : List (List ℕ) → Type 0
Distinct [] = Unit
Distinct (text ∷ texts) = (known texts text ≡ false) × Distinct texts

same_bytes_symm : (xs ys : List ℕ) → same_bytes xs ys ≡ same_bytes ys xs
same_bytes_symm [] [] = refl
same_bytes_symm [] (y ∷ ys) = refl
same_bytes_symm (x ∷ xs) [] = refl
same_bytes_symm (x ∷ xs) (y ∷ ys) =
    let e : nat_eqb x y ≡ nat_eqb y x = ground arith in rw (e, same_bytes_symm xs ys)

known-append :
    (texts : List (List ℕ)) (text other : List ℕ)
    → known texts other ≡ false
    → same_bytes text other ≡ false
    → known (texts ++ text ∷ []) other ≡ false
known-append [] text other h e = ground (arith, h, e)
known-append (t ∷ texts) text other h e = ground (arith, h, known-append texts text other)

Distinct-append :
    (texts : List (List ℕ)) (text : List ℕ)
    → Distinct texts
    → known texts text ≡ false
    → Distinct (texts ++ text ∷ [])
Distinct-append [] text d h = (refl, tt)
Distinct-append (t ∷ texts) text (d, ds) h =
    let e : same_bytes text t ≡ false = same_bytes_symm text t ∙ ground (arith, h) in
    (known-append texts text t d e, Distinct-append texts text ds (ground (arith, h)))

known-take :
    (n : ℕ) (texts : List (List ℕ)) (text : List ℕ)
    → known texts text ≡ false
    → known (take n texts) text ≡ false
known-take zero texts text h = refl
known-take (suc n) [] text h = refl
known-take (suc n) (t ∷ texts) text h = ground (arith, h, known-take n texts text)

Distinct-take : (n : ℕ) (texts : List (List ℕ)) → Distinct texts → Distinct (take n texts)
Distinct-take zero texts d = tt
Distinct-take (suc n) [] d = tt
Distinct-take (suc n) (t ∷ texts) (d, ds) = (known-take n texts t d, Distinct-take n texts ds)

add_operator-Distinct :
    (operator : Option (List ℕ)) (operators : List (List ℕ))
    → Distinct operators
    → Distinct (add_operator operator operators)
add_operator-Distinct none operators d = d
add_operator-Distinct (some text) operators d =
    elim (Bool-cases (is_empty text || known operators text)) [
      | inl e ↦ rw e d
      | inr e ↦ rw e (Distinct-append operators text d (ground (arith, e)))
    ]

abbrev DistinctIn : List (List ℕ) × Bool → Type 0
DistinctIn (operators, whole) = Distinct operators

-- What is known of the flag that the metadata is complete.
abbrev pub FlagOf : ParseStatus → List Opset × Bool → Type 0
FlagOf status (opsets, whole) = whole ≡ true → status ≡ complete

abbrev pub AtMost64 : List (List ℕ) × Bool → Type 0
AtMost64 (operators, whole) = Distinct operators × (length operators ≤ 64)

module _ (decode_utf8 : List ℕ → Option (List ℕ)) where
  operator_parse-Returns :
      (s : List (List ℕ) × Bool) (parse : Option ProtoParse)
      → IsResult parse
      → DistinctIn s
      → Returns DistinctIn (operator_parse decode_utf8 s parse)
  operator_parse-Returns (operators, whole) parse h d =
      >>=-Returns Any DistinctIn (proto_text decode_utf8 (fields_of parse) 4)
        (λ operator. ok (add_operator operator operators, whole && complete_parse parse))
        (proto_text-Returns decode_utf8 (fields_of parse) 4 (fields_of-IsShaped parse h))
        (λ operator u. add_operator-Distinct operator operators d)

  operators_round-Returns :
      (field : ProtoField) (s : List (List ℕ) × Bool)
      → IsShaped field
      → DistinctIn s
      → Returns DistinctIn (operators_round decode_utf8 field s)
  unfolding operators_round
  operators_round-Returns field s h d = elim (Bool-cases (is_message 1 field)) [
    | inl e ↦ rw e (
        >>=-Returns Any DistinctIn (chunk_value field.value)
          (λ bytes. operator_parse decode_utf8 s (protobuf_fields bytes))
          (message-Returns 1 field h e)
          (λ bytes u.
            operator_parse-Returns s (protobuf_fields bytes) (protobuf_fields-IsResult bytes) d))
    | inr e ↦ rw e d
  ]

  pub operator_types-Returns :
      (fields : List ProtoField)
      → All IsShaped fields
      → Returns AtMost64 (operator_types decode_utf8 fields)
  unfolding operator_types
  operator_types-Returns fields h =
      >>=-Returns DistinctIn AtMost64 (for_fields (operators_round decode_utf8) fields ([], true))
        (λ found. ok (take 64 found.0, found.1))
        (for_fields-Returns DistinctIn (operators_round decode_utf8) operators_round-Returns fields
          ([], true) h tt)
        (λ found d. (Distinct-take 64 found.0 d, omega (arith, length-take 64 found.0)))

  opset_parse-Returns :
      (status : ParseStatus) (s : List Opset × Bool) (parse : Option ProtoParse)
      → IsResult parse
      → FlagOf status s
      → Returns (FlagOf status) (opset_parse decode_utf8 s parse)
  opset_parse-Returns status (opsets, whole) parse h flag =
      >>=-Returns Any (FlagOf status) (proto_text decode_utf8 (fields_of parse) 1)
        (λ domain. proto_int (fields_of parse) 2 >>= λ version. ok (
          opsets ++ record { domain = domain; version = version } ∷ [],
          whole && complete_parse parse,
        ))
        (proto_text-Returns decode_utf8 (fields_of parse) 1 (fields_of-IsShaped parse h))
        (λ domain u.
          >>=-Returns Any (FlagOf status) (proto_int (fields_of parse) 2)
            (λ version. ok (
              opsets ++ record { domain = domain; version = version } ∷ [],
              whole && complete_parse parse,
            ))
            (proto_int-Returns (fields_of parse) 2 (fields_of-IsShaped parse h))
            (λ version u' e. flag (ground (arith, e))))

  pub opsets_round-Returns :
      (status : ParseStatus) (field : ProtoField) (s : List Opset × Bool)
      → IsShaped field
      → FlagOf status s
      → Returns (FlagOf status) (opsets_round decode_utf8 field s)
  unfolding opsets_round
  opsets_round-Returns status field s h flag = elim (Bool-cases (is_message 8 field)) [
    | inl e ↦ rw e (
        >>=-Returns Any (FlagOf status) (chunk_value field.value)
          (λ bytes. opset_parse decode_utf8 s (protobuf_fields bytes)) (message-Returns 8 field h e)
          (λ bytes u.
            opset_parse-Returns status s (protobuf_fields bytes) (protobuf_fields-IsResult bytes)
              flag))
    | inr e ↦ rw e flag
  ]
