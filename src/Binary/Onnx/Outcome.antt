-- ===== src/Binary/Onnx/Outcome.antt =====
-- What `_onnx_details` comes to on any bytes.
use mathlib.Core.Path.{subst}
use ditto_screener.Prelude.{
  ℕ, ◌+◌, ◌≤◌, ◌≡◌, refl, Bool, true, ◌&&◌, Option, none, some, List, [], ◌∷◌, All, arith, length,
  take, ◌==◌, nat_equality, length-take, Bool-cases, inl, inr,
}
use ditto_screener.Prelude.Results.{ok, ◌>>=◌, Returns, >>=-Returns}
use ditto_screener.Binary.Fields.{
  ProtoField, ProtoParse, ParseStatus, complete, truncated, malformed, field_limit, protobuf_fields,
  max_proto_fields,
}
use ditto_screener.Binary.Fields.Shape.{IsShaped}
use ditto_screener.Binary.Fields.Rounds.{IsResult, protobuf_fields-IsResult}
use ditto_screener.Binary.Onnx.{
  operator_types, is_complete, fields_of, chunk_value, is_message, proto_text, Opset, count_number,
  for_fields, opsets_round, Initializers, add_initializer, initializers_round, initializer_details,
}
use ditto_screener.Binary.Onnx.Model.{
  first_field, GraphDetails, OnnxDetails, ir_of, graph_report, graph_details, graph_field_details,
  model_details, parse_details, onnx_details,
}
use ditto_screener.Binary.Onnx.Returns.{
  Any, chunk_value-Returns, message-Returns, fields_of-IsShaped, length-fields_of,
  proto_text-Returns, for_fields-Returns,
}
use ditto_screener.Binary.Onnx.Report.{
  Distinct, AtMost64, FlagOf, operator_types-Returns, opsets_round-Returns,
}

counted :
    (fields : List ProtoField)
    → count_number 1 fields
        + count_number 5 fields
        + count_number 11 fields
        + count_number 12 fields
      ≤ length fields
counted [] = omega arith
counted (field ∷ fields) = ground (arith, counted fields)

initializers_round-Returns :
    (field : ProtoField) (s : Initializers)
    → IsShaped field
    → Any s
    → Returns Any (initializers_round field s)
unfolding initializers_round
initializers_round-Returns field s h d = elim (Bool-cases (is_message 5 field)) [
  | inl e ↦ rw e (
      >>=-Returns Any Any (chunk_value field.value)
        (λ bytes. ok (add_initializer s (protobuf_fields bytes))) (message-Returns 5 field h e)
        (λ bytes u. tt))
  | inr e ↦ rw e tt
]

initializer_details-Returns :
    (fields : List ProtoField) → All IsShaped fields → Returns Any (initializer_details fields)
unfolding initializer_details
initializer_details-Returns fields h =
    for_fields-Returns Any initializers_round initializers_round-Returns fields
      record { total = 0; external_data = 0; whole = true } h tt

-- A graph's operators are different and at most 64, and what is counted of it is at most the number of
-- fields that the parser keeps.
abbrev pub IsGraph : Option GraphDetails → Type 0
IsGraph none = Unit
IsGraph (some g) =
    Distinct g.operator_types
    × (length g.operator_types ≤ 64)
    × (g.node_count + g.initializer_count + g.input_count + g.output_count ≤ max_proto_fields)

-- At most 32 opsets are listed, and complete metadata means a complete model and a complete graph.
abbrev pub IsModel : OnnxDetails → Type 0
IsModel d =
    IsGraph d.graph
    × (length d.opsets ≤ 32)
    × (d.metadata_complete ≡ true → (d.model_parse_status ≡ complete) × (d.graph_complete ≡ true))

-- What is known of the flag before the graph is read.
abbrev Flag : Bool → ParseStatus → Type 0
Flag whole status = whole ≡ true → status ≡ complete

complete_status : (parse : ProtoParse) → is_complete parse.status ≡ true → parse.status ≡ complete
complete_status parse h = of parse.status h
  where
    of : (status : ParseStatus) → is_complete status ≡ true → status ≡ complete
    of complete h = refl
    of truncated h = cc
    of malformed h = cc
    of field_limit h = cc

graph_report-IsModel :
    (ir : ℕ) (size : Option ℕ) (status : ParseStatus) (opsets : List Opset) (whole : Bool)
    (parse : Option ProtoParse) (operators : List (List ℕ) × Bool) (initializers : Initializers)
    (name : Option (List ℕ))
    → IsResult parse
    → length opsets ≤ 32
    → Flag whole status
    → AtMost64 operators
    → IsModel (graph_report ir size status opsets whole parse operators initializers name)
graph_report-IsModel ir size status opsets whole parse (operators, operators_whole) initializers
      name h few flag (d, n) =
    (
      (d, n, omega (arith, counted (fields_of parse), length-fields_of parse h)),
      few,
      λ e. (flag (ground (arith, e)), ground (arith, e)),
    )

module _ (decode_utf8 : List ℕ → Option (List ℕ)) where
  graph_details-Returns :
      (ir : ℕ) (size : Option ℕ) (status : ParseStatus) (opsets : List Opset) (whole : Bool)
      (parse : Option ProtoParse)
      → IsResult parse
      → length opsets ≤ 32
      → Flag whole status
      → Returns IsModel (graph_details decode_utf8 ir size status opsets whole parse)
  unfolding graph_details
  graph_details-Returns ir size status opsets whole parse h few flag =
      let shaped = fields_of-IsShaped parse h in
      let report = graph_report ir size status opsets whole parse in
      >>=-Returns AtMost64 IsModel (operator_types decode_utf8 (fields_of parse))
        (λ operators. initializer_details (fields_of parse) >>= λ initializers.
          proto_text decode_utf8 (fields_of parse) 2 >>= λ name.
          ok (report operators initializers name))
        (operator_types-Returns decode_utf8 (fields_of parse) shaped)
        (λ operators o.
          >>=-Returns Any IsModel (initializer_details (fields_of parse))
            (λ initializers. proto_text decode_utf8 (fields_of parse) 2 >>= λ name.
              ok (report operators initializers name))
            (initializer_details-Returns (fields_of parse) shaped)
            (λ initializers u.
              >>=-Returns Any IsModel (proto_text decode_utf8 (fields_of parse) 2)
                (λ name. ok (report operators initializers name))
                (proto_text-Returns decode_utf8 (fields_of parse) 2 shaped)
                (λ name u'.
                  graph_report-IsModel ir size status opsets whole parse operators initializers name
                    h few flag o)))

  graph_field_details-Returns :
      (ir : ℕ) (graph : ProtoField) (status : ParseStatus) (opsets : List Opset) (whole : Bool)
      → IsShaped graph
      → (graph.wire_type == 2) ≡ true
      → length opsets ≤ 32
      → Flag whole status
      → Returns IsModel (graph_field_details decode_utf8 ir graph status opsets whole)
  unfolding graph_field_details
  graph_field_details-Returns ir graph status opsets whole (low, shape) e few flag =
      elim (Bool-cases graph.complete) [
        | inr q ↦ rw q (tt, few, λ c. cc)
        | inl q ↦ rw q (
            >>=-Returns Any IsModel (chunk_value graph.value)
              (λ bytes.
                graph_details decode_utf8 ir graph.declared_bytes status opsets whole
                  (protobuf_fields bytes))
              (chunk_value-Returns graph.wire_type graph.value graph.declared_bytes graph.complete
                shape e)
              (λ bytes u.
                graph_details-Returns ir graph.declared_bytes status opsets whole
                  (protobuf_fields bytes) (protobuf_fields-IsResult bytes) few flag))
      ]

  -- A field that was looked up has its wire type and its shape.
  first_field-IsShaped :
      (number wire_type : ℕ) (fields : List ProtoField) {field : ProtoField}
      → All IsShaped fields
      → first_field number wire_type fields ≡ some field
      → IsShaped field × ((field.wire_type == wire_type) ≡ true)
  first_field-IsShaped number wire_type [] h e = cc
  first_field-IsShaped number wire_type (f ∷ fields) {field} (h, hs) e =
      elim (Bool-cases (f.number == number && f.wire_type == wire_type)) [
        | inl q ↦
            let same : some f ≡ some field = rw q at e in
            let found : f ≡ field = cc same in
            subst (λ g. IsShaped g × ((g.wire_type == wire_type) ≡ true)) found
              (h, ground (arith, q))
        | inr q ↦ let later = rw q at e in first_field-IsShaped number wire_type fields hs later
      ]

  abbrev pub IsOnnx : Option OnnxDetails → Type 0
  IsOnnx none = Unit
  IsOnnx (some d) = IsModel d

  model_details-Returns :
      (model : ProtoParse) (ir : Option ℕ) (graph : Option ProtoField)
      → All IsShaped model.fields
      → first_field 7 2 model.fields ≡ graph
      → Returns IsOnnx (model_details decode_utf8 model ir graph)
  model_details-Returns model none graph h e = tt
  model_details-Returns model (some ir) none h e = tt
  model_details-Returns model (some ir) (some graph) h e =
      let (shape, type) = first_field-IsShaped 7 2 model.fields h e in
      >>=-Returns (FlagOf model.status) IsOnnx
        (for_fields (opsets_round decode_utf8) model.fields ([], is_complete model.status))
        (λ found.
          graph_field_details decode_utf8 ir graph model.status (take 32 found.0) found.1
          >>= λ details. ok (some details))
        (for_fields-Returns (FlagOf model.status) (opsets_round decode_utf8)
          (opsets_round-Returns decode_utf8 model.status) model.fields
          ([], is_complete model.status) h (complete_status model))
        (λ found flag.
          >>=-Returns IsModel IsOnnx
            (graph_field_details decode_utf8 ir graph model.status (take 32 found.0) found.1)
            (λ details. ok (some details))
            (graph_field_details-Returns ir graph model.status (take 32 found.0) found.1 shape type
              (omega (arith, length-take 32 found.0)) flag)
            (λ details d. d))

  -- On any bytes `_onnx_details` returns and meets none of its assertions. Its report has at most 32
  -- opsets and at most 64 operator types, no two the same; the nodes, initializers, inputs and
  -- outputs that it counts are at most 4,096; and it says that the metadata is complete only if the
  -- model and the graph were parsed completely.
  pub onnx_details-Returns : (bytes : List ℕ) → Returns IsOnnx (onnx_details decode_utf8 bytes)
  unfolding onnx_details
  onnx_details-Returns bytes = of (protobuf_fields bytes) (protobuf_fields-IsResult bytes)
    where
      of :
          (parse : Option ProtoParse)
          → IsResult parse
          → Returns IsOnnx (parse_details decode_utf8 parse)
      of none h = tt
      of (some model) h =
          model_details-Returns model (ir_of (first_field 1 0 model.fields))
            (first_field 7 2 model.fields) (fields_of-IsShaped (some model) h) refl
