-- ===== src/Binary/Detect/High.antt =====
-- What `_detect_format` comes to on any bytes.
use ditto_screener.Prelude.{
  ℕ, ◌+◌, ◌≡◌, ◌⊎◌, refl, sym, ◌∙◌, Bool, true, false, not, ◌&&◌, ◌==◌, nat_equality, All, inl, inr,
  Option, none, some, List, [], ◌∷◌, arith,
}
use ditto_screener.Prelude.Results.{
  Exn, Result, ok, raised, ◌>>=◌, OkOr, >>=-OkOr, OkOr-allow, Returns-OkOr,
}
use ditto_screener.Json.{Json, obj, Fields}
use ditto_screener.Binary.Bytes.{slice, starts_with}
use ditto_screener.Binary.Fields.{complete}
use ditto_screener.Binary.Safetensors.{SafetensorsDetails, safetensors_details}
use ditto_screener.Binary.Safetensors.Ranges.{tensor_entries}
use ditto_screener.Binary.Safetensors.Report.{FoundIn, MayRaise, safetensors_details-FoundIn}
use ditto_screener.Binary.Onnx.Model.{OnnxDetails, onnx_details}
use ditto_screener.Binary.Onnx.Outcome.{IsModel, IsOnnx, onnx_details-Returns}
use ditto_screener.Binary.Detect.{
  Confidence, high, ZipEntry, zip_report, zip_details, told, zip, zip_magic, ProtobufSummary,
  protobuf_summary, Details, safetensors, onnx, protobuf, binary_data, Detected, magic_table,
  first_match, by_magic, if_high, detected_safetensors, detected_onnx, detected_other, after_onnx,
  after_safetensors, after_magic, detect_format,
}

-- Details that are told by the first bytes.
abbrev is_plain : Details → Bool
is_plain (safetensors d) = false
is_plain (onnx d) = false
is_plain (protobuf d) = false
is_plain binary_data = false
is_plain other = true

abbrev plain_or_none : Option Detected → Bool
plain_or_none none = true
plain_or_none (some d) = is_plain d.details

-- A row tells such details, or raises what `open_zip` raised.
abbrev PlainRow : (Exn → Type 0) → Bool × Result Detected → Type 0
PlainRow allowed (test, d) = OkOr allowed (λ (d : Detected). is_plain d.details ≡ true) d

first_match_plain :
    (allowed : Exn → Type 0) (rows : List (Bool × Result Detected))
    → All (PlainRow allowed) rows
    → OkOr allowed (λ (o : Option Detected). plain_or_none o ≡ true) (first_match rows)
first_match_plain allowed [] h = refl
first_match_plain allowed ((true, raised exn) ∷ rows) (h, hs) = h
first_match_plain allowed ((true, ok d) ∷ rows) (h, hs) = h
first_match_plain allowed ((false, d) ∷ rows) (h, hs) = first_match_plain allowed rows hs

module _ (open_zip : List ℕ → Result (Option (List ZipEntry))) (bytes : List ℕ) where
  abbrev FromZip : Exn → Type 0
  FromZip exn = open_zip bytes ≡ raised exn

  zip_plain :
      (test truncated : Bool)
      → PlainRow FromZip
          (test, zip_details open_zip bytes truncated >>= λ found. told "zip" (zip found))
  zip_plain test true = refl
  zip_plain test false = of (open_zip bytes) refl
    where
      of :
          (r : Result (Option (List ZipEntry)))
          → open_zip bytes ≡ r
          → PlainRow FromZip
              (test, (r >>= λ found. ok (zip_report found)) >>= λ found. told "zip" (zip found))
      of (raised exn) e = e
      of (ok found) e = refl

  by_magic_plain :
      (truncated : Bool)
      → OkOr FromZip
          (λ (o : Option Detected). plain_or_none o ≡ true)
          (by_magic open_zip bytes truncated)
  unfolding by_magic magic_table
  by_magic_plain truncated = first_match_plain FromZip (magic_table open_zip bytes truncated) (
    refl,
    (
      refl,
      (
        refl,
        (
          refl,
          (
            refl,
            (zip_plain (starts_with zip_magic bytes) truncated, (refl, (refl, (refl, (refl, tt))))),
          ),
        ),
      ),
    ),
  )

-- What is known of a file that is detected with a high confidence.
abbrev pub IsWhole : List ℕ → Bool → (List ℕ → Result (Option Json)) → Confidence → Details → Type 0
IsWhole bytes truncated loads high (safetensors d) =
    (truncated ≡ false)
    × (header : Fields) × (loads (slice bytes 8 (8 + d.header_bytes)) ≡ ok (some (obj header)))
    × (d.tensor_count ≡ tensor_entries header)
IsWhole bytes truncated loads high (onnx d) =
    (d.model_parse_status ≡ complete) × (d.graph_complete ≡ true) × (d.metadata_complete ≡ true)
IsWhole bytes truncated loads high (protobuf d) = ⊥
IsWhole bytes truncated loads high binary_data = ⊥
IsWhole bytes truncated loads confidence details = Unit

abbrev pub IsDetected : List ℕ → Bool → (List ℕ → Result (Option Json)) → Detected → Type 0
IsDetected bytes truncated loads d = IsWhole bytes truncated loads d.confidence d.details

plain_IsWhole :
    (bytes : List ℕ) (truncated : Bool) (loads : List ℕ → Result (Option Json))
    (confidence : Confidence) (details : Details)
    → is_plain details ≡ true
    → IsWhole bytes truncated loads confidence details
plain_IsWhole bytes truncated loads high (safetensors d) h = cc
plain_IsWhole bytes truncated loads high (onnx d) h = cc
plain_IsWhole bytes truncated loads high (protobuf d) h = cc
plain_IsWhole bytes truncated loads high binary_data h = cc
plain_IsWhole bytes truncated loads confidence details h = tt

module _ (same : Fields → Fields → Bool) (loads : List ℕ → Result (Option Json))
    (decode_utf8 : List ℕ → Option (List ℕ)) (bytes : List ℕ) (truncated : Bool) where
  all_tensors :
      (count entries : ℕ)
      → (not truncated && count == entries) ≡ true
      → (truncated ≡ false) × (count ≡ entries)
  all_tensors count entries h = (ground (arith, h), ground (arith, h))

  safetensors_whole :
      (d : SafetensorsDetails)
      → FoundIn same loads bytes truncated (some d)
      → IsDetected bytes truncated loads (detected_safetensors d)
  safetensors_whole d (least, most, header, e, (q, h1, h2, h3, h4, h5)) =
      of d.payload_available refl
    where
      of :
          (b : Bool)
          → d.payload_available ≡ b
          → IsDetected bytes truncated loads (detected_safetensors d)
      of true r =
          let (read, count) = all_tensors d.tensor_count (tensor_entries header) (sym h5 ∙ r) in
          rw (r, if_high) (read, header, e, count)
      of false r = rw (r, if_high) tt

  onnx_whole : (d : OnnxDetails) → IsModel d → IsDetected bytes truncated loads (detected_onnx d)
  onnx_whole d (graph, few, whole) = of (d.graph_complete && d.metadata_complete) refl
    where
      of :
          (b : Bool)
          → (d.graph_complete && d.metadata_complete) ≡ b
          → IsDetected bytes truncated loads (detected_onnx d)
      of true r = let w = whole (ground (arith, r)) in rw (r, if_high) (w.0, w.1, ground (arith, r))
      of false r = rw (r, if_high) tt

-- What the detection may raise.
abbrev pub MayFail :
    (Fields → Fields → Bool)
    → (List ℕ → Result (Option Json))
    → (List ℕ → Result (Option (List ZipEntry)))
    → List ℕ
    → Exn
    → Type 0
MayFail same loads open_zip bytes exn =
    MayRaise same loads bytes exn ⊎ (open_zip bytes ≡ raised exn)

module _ (same : Fields → Fields → Bool) (loads : List ℕ → Result (Option Json))
    (decode_utf8 : List ℕ → Option (List ℕ)) (open_zip : List ℕ → Result (Option (List ZipEntry)))
    (bytes : List ℕ) (truncated : Bool) where
  other-IsDetected :
      (o : Option ProtobufSummary) → IsDetected bytes truncated loads (detected_other o)
  other-IsDetected none = tt
  other-IsDetected (some summary) = tt

  after_onnx-IsDetected :
      (o : Option OnnxDetails)
      → IsOnnx decode_utf8 o
      → OkOr
          (MayFail same loads open_zip bytes)
          (IsDetected bytes truncated loads)
          (after_onnx same loads decode_utf8 open_zip bytes o)
  after_onnx-IsDetected (some d) h = onnx_whole same loads decode_utf8 bytes truncated d h
  after_onnx-IsDetected none h = other-IsDetected (protobuf_summary bytes)

  after_safetensors-IsDetected :
      (o : Option SafetensorsDetails)
      → FoundIn same loads bytes truncated o
      → OkOr
          (MayFail same loads open_zip bytes)
          (IsDetected bytes truncated loads)
          (after_safetensors same loads decode_utf8 open_zip bytes o)
  after_safetensors-IsDetected (some d) h =
      safetensors_whole same loads decode_utf8 bytes truncated d h
  after_safetensors-IsDetected none h =
      >>=-OkOr (MayFail same loads open_zip bytes) (IsOnnx decode_utf8)
        (IsDetected bytes truncated loads) (onnx_details decode_utf8 bytes)
        (after_onnx same loads decode_utf8 open_zip bytes)
        (Returns-OkOr (MayFail same loads open_zip bytes) (IsOnnx decode_utf8)
          (onnx_details decode_utf8 bytes) (onnx_details-Returns decode_utf8 bytes))
        after_onnx-IsDetected

  after_magic-IsDetected :
      (o : Option Detected)
      → plain_or_none o ≡ true
      → OkOr
          (MayFail same loads open_zip bytes)
          (IsDetected bytes truncated loads)
          (after_magic same loads decode_utf8 open_zip bytes truncated o)
  after_magic-IsDetected (some d) h = plain_IsWhole bytes truncated loads d.confidence d.details h
  after_magic-IsDetected none h =
      >>=-OkOr (MayFail same loads open_zip bytes) (FoundIn same loads bytes truncated)
        (IsDetected bytes truncated loads) (safetensors_details same loads bytes truncated)
        (after_safetensors same loads decode_utf8 open_zip bytes)
        (OkOr-allow (MayRaise same loads bytes) (MayFail same loads open_zip bytes)
          (FoundIn same loads bytes truncated) (safetensors_details same loads bytes truncated)
          (λ exn e. inl e) (safetensors_details-FoundIn same loads bytes truncated))
        after_safetensors-IsDetected

-- An exception of the detection is the TypeError of the ties, or one that `json.loads` raised on the
-- header of a safetensors file or `zipfile` on the data. A safetensors file that is detected with a
-- high confidence is not truncated, and every entry of its header with a dict for its value, other
-- than `__metadata__`, is a tensor in the data; an ONNX file that is has a model and a graph that were
-- parsed completely, and complete metadata. Other protobuf messages and other data never have a high
-- confidence.
pub detect_format-IsDetected :
    (same : Fields → Fields → Bool) (loads : List ℕ → Result (Option Json))
    (decode_utf8 : List ℕ → Option (List ℕ)) (open_zip : List ℕ → Result (Option (List ZipEntry)))
    (bytes : List ℕ) (truncated : Bool)
    → OkOr
        (MayFail same loads open_zip bytes)
        (IsDetected bytes truncated loads)
        (detect_format same loads decode_utf8 open_zip bytes truncated)
unfolding detect_format
detect_format-IsDetected same loads decode_utf8 open_zip bytes truncated =
    >>=-OkOr (MayFail same loads open_zip bytes) (λ (o : Option Detected). plain_or_none o ≡ true)
      (IsDetected bytes truncated loads) (by_magic open_zip bytes truncated)
      (after_magic same loads decode_utf8 open_zip bytes truncated)
      (OkOr-allow (FromZip open_zip bytes) (MayFail same loads open_zip bytes)
        (λ (o : Option Detected). plain_or_none o ≡ true) (by_magic open_zip bytes truncated)
        (λ exn e. inr e) (by_magic_plain open_zip bytes truncated))
      (after_magic-IsDetected same loads decode_utf8 open_zip bytes truncated)
