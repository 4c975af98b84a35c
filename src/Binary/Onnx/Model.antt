-- ===== src/Binary/Onnx/Model.antt =====
-- `_onnx_details` of ditto_screener/binary_analysis.py: the model and its graph.
use ditto_screener.Prelude.{
  ℕ, Bool, false, not, ◌&&◌, Option, none, some, List, [], ◌∷◌, take, leb, ◌==◌, nat_equality,
  if◌then◌else◌,
}
use ditto_screener.Prelude.Results.{Result, ok, ◌>>=◌}
use ditto_screener.Binary.Fields.{
  varint, chunk, ProtoField, ProtoParse, ParseStatus, malformed, protobuf_fields,
}
use ditto_screener.Binary.Onnx.{
  is_complete, complete_parse, fields_of, chunk_value, proto_text, Opset, count_number, for_fields,
  operator_types, opsets_round, Initializers, initializer_details,
}

-- The first field of a number and a wire type.
abbrev pub first_field : ℕ → ℕ → List ProtoField → Option ProtoField
first_field number wire_type [] = none
first_field number wire_type (field ∷ fields) =
    let rest = first_field number wire_type fields in
    if field.number == number && field.wire_type == wire_type then some field else rest

-- What is reported of a graph that was read.
pub record GraphDetails : Type 0 where
  pub graph_name : Option (List ℕ)
  pub node_count : ℕ
  pub initializer_count : ℕ
  pub input_count : ℕ
  pub output_count : ℕ
  pub operator_types : List (List ℕ)
  pub initializer_bytes : ℕ
  pub external_data_references : ℕ

pub record OnnxDetails : Type 0 where
  pub ir_version : ℕ
  pub graph_bytes : Option ℕ
  pub model_parse_status : ParseStatus
  pub opsets : List Opset
  pub graph_parse_status : Option ParseStatus
  pub graph_complete : Bool
  pub graph : Option GraphDetails
  pub metadata_complete : Bool

-- `parse.status if parse else "malformed"`
abbrev pub status_of : Option ProtoParse → ParseStatus
status_of none = malformed
status_of (some parse) = parse.status

-- `isinstance(ir, int) and 1 <= ir <= 100`
abbrev pub ir_of : Option ProtoField → Option ℕ
ir_of none = none
ir_of (some field) = elim field.value [
  | varint n ↦ if leb 1 n && leb n 100 then some n else none
  | chunk bytes ↦ none
]

-- What is returned of a graph that was read.
abbrev pub graph_report :
    ℕ
    → Option ℕ
    → ParseStatus
    → List Opset
    → Bool
    → Option ProtoParse
    → List (List ℕ) × Bool
    → Initializers
    → Option (List ℕ)
    → OnnxDetails
graph_report ir size status opsets whole parse (operators, operators_whole) initializers name =
    record {
      ir_version = ir;
      graph_bytes = size;
      model_parse_status = status;
      opsets = opsets;
      graph_parse_status = some (status_of parse);
      graph_complete = complete_parse parse;
      graph = some record {
        graph_name = name;
        node_count = count_number 1 (fields_of parse);
        initializer_count = count_number 5 (fields_of parse);
        input_count = count_number 11 (fields_of parse);
        output_count = count_number 12 (fields_of parse);
        operator_types = operators;
        initializer_bytes = initializers.total;
        external_data_references = initializers.external_data;
      };
      metadata_complete =
          ((whole && complete_parse parse) && operators_whole) && initializers.whole;
    }

module _ (decode_utf8 : List ℕ → Option (List ℕ)) where
  -- From the graph's bytes on.
  unfoldable pub graph_details :
      ℕ → Option ℕ → ParseStatus → List Opset → Bool → Option ProtoParse → Result OnnxDetails
  graph_details ir size status opsets whole parse =
      operator_types decode_utf8 (fields_of parse) >>= λ operators.
      initializer_details (fields_of parse) >>= λ initializers.
      proto_text decode_utf8 (fields_of parse) 2 >>= λ name.
      ok (graph_report ir size status opsets whole parse operators initializers name)

  -- A graph whose bytes were cut is not read.
  unfoldable pub graph_field_details :
      ℕ → ProtoField → ParseStatus → List Opset → Bool → Result OnnxDetails
  graph_field_details ir graph status opsets whole =
      if not graph.complete
      then ok record {
        ir_version = ir;
        graph_bytes = graph.declared_bytes;
        model_parse_status = status;
        opsets = opsets;
        graph_parse_status = none;
        graph_complete = false;
        graph = none;
        metadata_complete = false;
      }
      else chunk_value graph.value >>= λ bytes.
          graph_details ir graph.declared_bytes status opsets whole (protobuf_fields bytes)

  abbrev pub model_details : ProtoParse → Option ℕ → Option ProtoField → Result (Option OnnxDetails)
  model_details model (some ir) (some graph) =
      for_fields (opsets_round decode_utf8) model.fields ([], is_complete model.status) >>= λ found.
      graph_field_details ir graph model.status (take 32 found.0) found.1 >>= λ details.
      ok (some details)
  model_details model ir graph = ok none

  abbrev pub parse_details : Option ProtoParse → Result (Option OnnxDetails)
  parse_details none = ok none
  parse_details (some model) =
      model_details model (ir_of (first_field 1 0 model.fields)) (first_field 7 2 model.fields)

  -- `_onnx_details`
  unfoldable pub onnx_details : List ℕ → Result (Option OnnxDetails)
  onnx_details bytes = parse_details (protobuf_fields bytes)
