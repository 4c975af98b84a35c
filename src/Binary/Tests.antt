-- ===== src/Binary/Tests.antt =====
-- The theorems about ditto_screener/binary_analysis.py at concrete inputs.
use ditto_screener.Prelude.{
  ℕ, zero, suc, ◌+◌, ◌*◌, ◌≤◌, ◌<◌, ◌≡◌, refl, ap, String, Bool, true, false, Option, none, some,
  List, [], ◌∷◌, ◌++◌, map, All, arith, length, take, drop, take-append-drop, length-take, codes,
  text_equality,
}
use ditto_screener.Prelude.Int.{pos}
use ditto_screener.Prelude.Results.{type_error, Result, ok, raised, OkOr, Returns}
use ditto_screener.Json.{Json, int, arr, obj, str, cons, nil, Fields, field, end}
use ditto_screener.Binary.Varint.{read_varint, varint_loop, varint_rounds}
use ditto_screener.Binary.Varint.RoundTrip.{groups, varint_bytes}
use ditto_screener.Binary.Varint.Bounds.{VarintEnds, read_varint-VarintEnds}
use ditto_screener.Binary.Fields.{complete, truncated, field_limit, protobuf_fields, fields_loop}
use ditto_screener.Binary.Fields.Wire.{WireField, varint_field, chunk_field, encode, decoded, Fits}
use ditto_screener.Binary.Fields.Cut.{cut_chunk}
use ditto_screener.Binary.Fields.Rounds.{IsResult, protobuf_fields-IsResult, protobuf_fields_fuel}
use ditto_screener.Binary.Fields.Messages.{
  protobuf_fields-encode, protobuf_fields_cut, protobuf_fields_limit,
}
use ditto_screener.Binary.Onnx.Model.{onnx_details}
use ditto_screener.Binary.Onnx.Outcome.{IsOnnx, onnx_details-Returns}
use ditto_screener.Binary.Safetensors.{header_details}
use ditto_screener.Binary.Safetensors.Ties.{header_details_tie}
use ditto_screener.Binary.Formats.{elf_details, little}
use ditto_screener.Binary.Formats.Headers.{elf_header, elf_details-elf_header}
use ditto_screener.Binary.Strings.{printable_strings}
use ditto_screener.Binary.Strings.Bounds.{IsRun, printable_strings-IsRun}
use ditto_screener.Binary.Sample.{sample_stream}
use ditto_screener.Binary.Sample.Prefix.{Reads, IsSampleOf, sample_stream-IsSampleOf}
use ditto_screener.Binary.Detect.{ZipEntry, detect_format}
use ditto_screener.Binary.Detect.High.{IsDetected, MayFail, detect_format-IsDetected}

-- Field 1 with the value 300, and field 7 with two bytes.
abbrev two_fields : List WireField
two_fields = varint_field 1 300 ∷ chunk_field 7 (5 ∷ 6 ∷ []) ∷ []

two_fields-Fits : All Fits two_fields
two_fields-Fits = omega arith

abbrev message : List ℕ
message = 8 ∷ 172 ∷ 2 ∷ 58 ∷ 2 ∷ 5 ∷ 6 ∷ []

message_test : encode two_fields ≡ message
unfolding varint_bytes groups
message_test = refl

protobuf_fields-encode_example :
    protobuf_fields (encode two_fields)
    ≡ some record { fields = map decoded two_fields; status = complete }
protobuf_fields-encode_example =
    protobuf_fields-encode (varint_field 1 300) (chunk_field 7 (5 ∷ 6 ∷ []) ∷ []) two_fields-Fits
      (omega arith)

-- The last field declares four bytes and has two.
protobuf_fields_cut_example :
    protobuf_fields
      (encode two_fields ++ (varint_bytes (8 * 8 + 2) ++ (varint_bytes 4 ++ (1 ∷ 2 ∷ []))))
    ≡ some record {
      fields = map decoded two_fields ++ cut_chunk 8 4 (1 ∷ 2 ∷ []) ∷ [];
      status = truncated;
    }
protobuf_fields_cut_example =
    protobuf_fields_cut two_fields 8 4 (1 ∷ 2 ∷ []) two_fields-Fits (omega arith) (omega arith)
      (omega arith) (omega arith)

many : ℕ → List WireField
many zero = []
many (suc n) = varint_field 1 0 ∷ many n

length-many : (n : ℕ) → length (many n) ≡ n
unfolding many
length-many zero = refl
length-many (suc n) = ap (λ (k : ℕ). suc k) (length-many n)

many-Fits : (n : ℕ) → All Fits (many n)
unfolding many
many-Fits zero = tt
many-Fits (suc n) = ((omega arith, omega arith), many-Fits n)

protobuf_fields_limit_example :
    protobuf_fields (encode (many 4096) ++ 0 ∷ [])
    ≡ some record { fields = map decoded (many 4096); status = field_limit }
protobuf_fields_limit_example =
    protobuf_fields_limit (many 4096) 0 [] (many-Fits 4096) (length-many 4096)

protobuf_fields-IsResult_example : IsResult (protobuf_fields message)
protobuf_fields-IsResult_example = protobuf_fields-IsResult message

protobuf_fields_fuel_example : fields_loop message 20 [] 0 ≡ protobuf_fields message
protobuf_fields_fuel_example = protobuf_fields_fuel message 20 (omega arith)

three_hundred : read_varint message 1 ≡ some (300, 3)
unfolding read_varint varint_loop
three_hundred = refl

read_varint-VarintEnds_example : VarintEnds message varint_rounds 1 70 300 3
read_varint-VarintEnds_example = read_varint-VarintEnds message 1 300 3 three_hundred

-- A decoder that reads ASCII, and no JSON.
abbrev ascii : List ℕ → Option (List ℕ)
ascii bytes = some bytes

abbrev no_json : List ℕ → Result (Option Json)
no_json bytes = ok none

abbrev no_zip : List ℕ → Result (Option (List ZipEntry))
no_zip bytes = ok none

abbrev never : Fields → Fields → Bool
never v w = false

-- A model of version 7 with an empty graph of one byte pair.
abbrev model_bytes : List ℕ
model_bytes = 8 ∷ 7 ∷ 58 ∷ 2 ∷ 96 ∷ 0 ∷ []

onnx_details-Returns_example : Returns (IsOnnx ascii) (onnx_details ascii model_bytes)
onnx_details-Returns_example = onnx_details-Returns ascii model_bytes

detect_format-IsDetected_example :
    OkOr
      (MayFail never no_json no_zip model_bytes)
      (IsDetected model_bytes false no_json)
      (detect_format never no_json ascii no_zip model_bytes false)
detect_format-IsDetected_example =
    detect_format-IsDetected never no_json ascii no_zip model_bytes false

-- A header with one tensor of the payload's two bytes.
abbrev tensor : Fields
tensor =
    field "dtype" (str "U8")
      (field "data_offsets" (arr (cons (int (pos 0)) (cons (int (pos 2)) nil))) end)

abbrev other_tensor : Fields
other_tensor = field "data_offsets" (arr (cons (int (pos 0)) (cons (int (pos 2)) nil))) end

abbrev header_json : List ℕ → Result (Option Json)
header_json bytes = ok (some (obj (field "weights" (obj tensor) end)))

abbrev weights : List ℕ
weights = 2 ∷ 0 ∷ 0 ∷ 0 ∷ 0 ∷ 0 ∷ 0 ∷ 0 ∷ b'{' ∷ b'}' ∷ 1 ∷ 2 ∷ []

-- 160 times the letter `x`, and one more letter.
abbrev long_name : String
long_name =
    "xxxxxxxxxxxxxxxxxxxxxxxxxxxxxxxxxxxxxxxxxxxxxxxxxxxxxxxxxxxxxxxxxxxxxxxxxxxxxxxxxxxxxxxxxxxxxxxxxxxxxxxxxxxxxxxxxxxxxxxxxxxxxxxxxxxxxxxxxxxxxxxxxxxxxxxxxxxxxxxx"

abbrev longer_name : String
longer_name =
    "xxxxxxxxxxxxxxxxxxxxxxxxxxxxxxxxxxxxxxxxxxxxxxxxxxxxxxxxxxxxxxxxxxxxxxxxxxxxxxxxxxxxxxxxxxxxxxxxxxxxxxxxxxxxxxxxxxxxxxxxxxxxxxxxxxxxxxxxxxxxxxxxxxxxxxxxxxxxxxxxy"

header_details_tie_example :
    header_details never header_json 2 2 false
      (field long_name (obj tensor) (field longer_name (obj other_tensor) end))
    ≡ raised type_error
header_details_tie_example =
    header_details_tie never header_json 2 2 0 2 false long_name longer_name tensor other_tensor
      refl refl refl refl refl refl

abbrev elf_file : List ℕ
elf_file = elf_header true little 0 2 62 1 4198400 ++ (0 ∷ [])

elf_details-elf_header_example :
    elf_details elf_file
    ≡ some record {
      bits = some 64;
      byte_order = some little;
      os_abi = 0;
      type_code = some 2;
      machine = some 62;
      entrypoint = some 4198400;
    }
elf_details-elf_header_example =
    elf_details-elf_header true little 0 2 62 1 4198400 (0 ∷ []) (omega arith) (omega arith)
      (omega arith)

printable_strings-IsRun_example :
    (length (printable_strings (codes "answer")) ≤ 80)
    × All IsRun (printable_strings (codes "answer"))
printable_strings-IsRun_example = printable_strings-IsRun (codes "answer")

-- A stream in memory.
abbrev read_memory : ℕ → List ℕ → List ℕ × List ℕ
read_memory n rest = (take n rest, drop n rest)

read_memory-Reads : Reads read_memory (λ rest. rest)
read_memory-Reads = record {
  front = take-append-drop;
  at_most = λ n w. omega (arith, length-take n w);
  ends = all_read;
}
  where
    all_read : (n : ℕ) (w : List ℕ) → 0 < n → take n w ≡ [] → drop n w ≡ []
    all_read zero w h e = absurd (omega arith)
    all_read (suc n) [] h e = refl
    all_read (suc n) (b ∷ w) h e = cc

abbrev sample_digest : List ℕ → String
sample_digest bytes = "digest"

sample_stream-IsSampleOf_example :
    IsSampleOf sample_digest message
      (sample_stream read_memory (length message) sample_digest message).0
sample_stream-IsSampleOf_example =
    sample_stream-IsSampleOf read_memory (λ rest. rest) read_memory-Reads sample_digest message
      (omega arith)
