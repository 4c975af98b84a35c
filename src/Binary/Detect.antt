-- ===== src/Binary/Detect.antt =====
-- `_detect_format`, `_zip_details` and `_protobuf_summary` of ditto_screener/binary_analysis.py.
-- `open_zip` stands for the entries of `zipfile.ZipFile`: none for the exceptions that are caught, any
-- other one raised.
pub mod High
use ditto_screener.Prelude.{
  ℕ, zero, suc, ◌+◌, ◌-◌, ◌/◌, ◌%◌, String, codes, Bool, true, false, not, ◌||◌, ◌&&◌, Option, none,
  some, List, [], ◌∷◌, ◌++◌, map, length, take, get_or, get_elem?, leb, ltb, ◌==◌, nat_equality,
  if◌then◌else◌,
}
use ditto_screener.Prelude.Results.{Exn, Result, ok, raised, ◌>>=◌}
use ditto_screener.Json.{Json, Fields}
use ditto_screener.Binary.Bytes.{slice, starts_with, same_bytes, from_little, from_big}
use ditto_screener.Binary.Fields.{ProtoField, ProtoParse, ParseStatus, protobuf_fields}
use ditto_screener.Binary.Formats.{ElfDetails, elf_details, PeResult, pe_details, png_details}
use ditto_screener.Binary.Safetensors.{SafetensorsDetails, safetensors_details}
use ditto_screener.Binary.Onnx.{is_complete}
use ditto_screener.Binary.Onnx.Model.{OnnxDetails, onnx_details}

pub data Confidence : Type 0 where
  high medium low : Confidence

-- An entry of a zip file.
pub record ZipEntry : Type 0 where
  pub path : List ℕ
  pub compressed_bytes : ℕ
  pub uncompressed_bytes : ℕ
  pub encrypted : Bool

pub data ZipDetails : Type 0 where
  prefix_only : ZipDetails
  invalid_directory : ZipDetails
  zip_entries : List ZipEntry → ℕ → Bool → ZipDetails

-- `path[:240]`
abbrev pub cut_path : ZipEntry → ZipEntry
cut_path e = record {
  path = take 240 e.path;
  compressed_bytes = e.compressed_bytes;
  uncompressed_bytes = e.uncompressed_bytes;
  encrypted = e.encrypted;
}

-- `_MAX_ARCHIVE_ENTRIES`
abbrev pub max_archive_entries : ℕ
max_archive_entries = 128

abbrev pub zip_report : Option (List ZipEntry) → ZipDetails
zip_report none = invalid_directory
zip_report (some found) =
    let entries = map cut_path (take max_archive_entries found) in
    zip_entries entries (length found) (ltb (length entries) (length found))

-- `_zip_details`
abbrev pub zip_details :
    (List ℕ → Result (Option (List ZipEntry))) → List ℕ → Bool → Result ZipDetails
zip_details open_zip bytes truncated =
    if truncated then ok prefix_only else open_zip bytes >>= λ found. ok (zip_report found)

-- How often each number occurs, by the numbers: `sorted(Counter(...).items())`.
abbrev pub count_one : ℕ → List (ℕ × ℕ) → List (ℕ × ℕ)
count_one number [] = (number, 1) ∷ []
count_one number ((n, count) ∷ rest) =
    let later = count_one number rest in
    if number == n
    then (n, suc count) ∷ rest
    else if ltb number n
    then (number, 1) ∷ (n, count) ∷ rest
    else (n, count) ∷ later

abbrev pub counts_of : List ProtoField → List (ℕ × ℕ)
counts_of [] = []
counts_of (field ∷ fields) = count_one field.number (counts_of fields)

pub record ProtobufSummary : Type 0 where
  pub top_level_field_counts : List (ℕ × ℕ)
  pub parsed_fields : ℕ
  pub parse_complete : Bool
  pub parse_status : ParseStatus

abbrev pub summary_of : Option ProtoParse → Option ProtobufSummary
summary_of none = none
summary_of (some parsed) =
    if ltb (length parsed.fields) 2
    then none
    else some record {
      top_level_field_counts = take 64 (counts_of parsed.fields);
      parsed_fields = length parsed.fields;
      parse_complete = is_complete parsed.status;
      parse_status = parsed.status;
    }

-- `_protobuf_summary`
unfoldable pub protobuf_summary : List ℕ → Option ProtobufSummary
protobuf_summary bytes = summary_of (protobuf_fields bytes)

pub data Details : Type 0 where
  elf : Option ElfDetails → Details
  pe : PeResult → Details
  mach_o : List ℕ → Details
  webassembly : Option ℕ → Details
  sqlite3 : Option ℕ → Details
  zip : ZipDetails → Details
  gzip : Option ℕ → Details
  pdf : List ℕ → Details
  png : Option (ℕ × ℕ) → Details
  jpeg : Details
  safetensors : SafetensorsDetails → Details
  onnx : OnnxDetails → Details
  protobuf : ProtobufSummary → Details
  binary_data : Details

pub record Detected : Type 0 where
  pub format : String
  pub confidence : Confidence
  pub details : Details

abbrev pub told : String → Details → Result Detected
told format details = ok (record { format = format; confidence = high; details = details })

-- `bytes.hex()`
abbrev pub hex_code : ℕ → ℕ
hex_code d = if ltb d 10 then b'0' + d else b'a' + (d - 10)

abbrev pub hex_codes : List ℕ → List ℕ
hex_codes [] = []
hex_codes (b ∷ bs) = hex_code (b / 16) ∷ hex_code (b % 16) ∷ hex_codes bs

-- `bytes.decode("ascii", errors="replace")`
abbrev pub ascii_codes : List ℕ → List ℕ
ascii_codes [] = []
ascii_codes (b ∷ bs) = (if ltb b 128 then b else 65533) ∷ ascii_codes bs

-- `page_size == 1` stands for 65536.
abbrev pub page_size_of : List ℕ → Option ℕ
page_size_of bytes =
    if ltb (length bytes) 18
    then none
    else (let size = from_big (slice bytes 16 18) in if size == 1 then some 65536 else some size)

abbrev pub is_mach_o : List ℕ → Bool
is_mach_o front =
    same_bytes front (254 ∷ 237 ∷ 250 ∷ 206 ∷ [])
    || same_bytes front (206 ∷ 250 ∷ 237 ∷ 254 ∷ [])
    || same_bytes front (254 ∷ 237 ∷ 250 ∷ 207 ∷ [])
    || same_bytes front (207 ∷ 250 ∷ 237 ∷ 254 ∷ [])
    || same_bytes front (202 ∷ 254 ∷ 186 ∷ 190 ∷ [])

-- b"SQLite format 3\x00", b"PK\x03\x04", b"%PDF-", b"\x89PNG\r\n\x1a\n"
abbrev pub sqlite_magic : List ℕ
sqlite_magic = codes "SQLite format 3" ++ (0 ∷ [])

abbrev pub zip_magic : List ℕ
zip_magic = 80 ∷ 75 ∷ 3 ∷ 4 ∷ []

abbrev pub png_magic : List ℕ
png_magic = 137 ∷ 80 ∷ 78 ∷ 71 ∷ 13 ∷ 10 ∷ 26 ∷ 10 ∷ []

-- The tests of the first bytes, in the order in which they are made, and what each tells.
unfoldable pub magic_table :
    (List ℕ → Result (Option (List ZipEntry))) → List ℕ → Bool → List (Bool × Result Detected)
magic_table open_zip bytes truncated =
    (starts_with (127 ∷ 69 ∷ 76 ∷ 70 ∷ []) bytes, told "elf" (elf (elf_details bytes)))
    ∷ (starts_with (77 ∷ 90 ∷ []) bytes, told "pe" (pe (pe_details bytes)))
    ∷ (is_mach_o (take 4 bytes), told "mach-o" (mach_o (hex_codes (take 4 bytes))))
    ∷ (
      starts_with (0 ∷ 97 ∷ 115 ∷ 109 ∷ []) bytes,
      told "webassembly" (
          webassembly
            (if leb 8 (length bytes) then some (from_little (slice bytes 4 8)) else none)),
    )
    ∷ (starts_with sqlite_magic bytes, told "sqlite3" (sqlite3 (page_size_of bytes)))
    ∷ (
      starts_with zip_magic bytes,
      zip_details open_zip bytes truncated >>= λ found. told "zip" (zip found),
    )
    ∷ (starts_with (31 ∷ 139 ∷ []) bytes, told "gzip" (gzip (get_elem? bytes 2)))
    ∷ (starts_with (codes "%PDF-") bytes, told "pdf" (pdf (ascii_codes (slice bytes 5 8))))
    ∷ (starts_with png_magic bytes, told "png" (png (png_details bytes)))
    ∷ (starts_with (255 ∷ 216 ∷ 255 ∷ []) bytes, told "jpeg" jpeg)
    ∷ []

-- `if ...: return ...`, one after the other
abbrev pub first_match : List (Bool × Result Detected) → Result (Option Detected)
first_match [] = ok none
first_match ((test, d) ∷ rows) =
    let later = first_match rows in if test then d >>= (λ detected. ok (some detected)) else later

-- The formats that are told by their first bytes.
unfoldable pub by_magic :
    (List ℕ → Result (Option (List ZipEntry))) → List ℕ → Bool → Result (Option Detected)
by_magic open_zip bytes truncated = first_match (magic_table open_zip bytes truncated)

abbrev pub if_high : Bool → Confidence
if_high true = high
if_high false = medium

abbrev pub detected_safetensors : SafetensorsDetails → Detected
detected_safetensors d = record {
  format = "safetensors";
  confidence = if_high d.payload_available;
  details = safetensors d;
}

abbrev pub detected_onnx : OnnxDetails → Detected
detected_onnx d = record {
  format = "onnx";
  confidence = if_high (d.graph_complete && d.metadata_complete);
  details = onnx d;
}

abbrev pub detected_other : Option ProtobufSummary → Detected
detected_other (some summary) = record {
  format = "protobuf";
  confidence = low;
  details = protobuf summary;
}
detected_other none = record { format = "binary-data"; confidence = low; details = binary_data }

module _ (same : Fields → Fields → Bool) (loads : List ℕ → Result (Option Json))
    (decode_utf8 : List ℕ → Option (List ℕ))
    (open_zip : List ℕ → Result (Option (List ZipEntry))) where
  abbrev pub after_onnx : List ℕ → Option OnnxDetails → Result Detected
  after_onnx bytes (some d) = ok (detected_onnx d)
  after_onnx bytes none = ok (detected_other (protobuf_summary bytes))

  abbrev pub after_safetensors : List ℕ → Option SafetensorsDetails → Result Detected
  after_safetensors bytes (some d) = ok (detected_safetensors d)
  after_safetensors bytes none = onnx_details decode_utf8 bytes >>= after_onnx bytes

  abbrev pub after_magic : List ℕ → Bool → Option Detected → Result Detected
  after_magic bytes truncated (some d) = ok d
  after_magic bytes truncated none =
      safetensors_details same loads bytes truncated >>= after_safetensors bytes

  -- `_detect_format`
  unfoldable pub detect_format : List ℕ → Bool → Result Detected
  detect_format bytes truncated = by_magic open_zip bytes truncated >>= after_magic bytes truncated
