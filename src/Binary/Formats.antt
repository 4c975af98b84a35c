-- ===== src/Binary/Formats.antt =====
-- `_elf_details`, `_pe_details` and `_png_details` of ditto_screener/binary_analysis.py.
pub mod Headers
use ditto_screener.Prelude.{
  ℕ, ◌+◌, Bool, true, false, not, ◌||◌, ◌&&◌, Option, none, some, List, [], ◌∷◌, length, get_or,
  leb, ltb, ◌==◌, nat_equality, if◌then◌else◌,
}
use ditto_screener.Binary.Bytes.{slice, same_bytes, from_little, from_big}

pub data ByteOrder : Type 0 where
  little big : ByteOrder

-- The details of an ELF file; the last three are there if its byte order is known, and the entry
-- point if the header is long enough.
pub record ElfDetails : Type 0 where
  pub bits : Option ℕ
  pub byte_order : Option ByteOrder
  pub os_abi : ℕ
  pub type_code : Option ℕ
  pub machine : Option ℕ
  pub entrypoint : Option ℕ

pub record PeDetails : Type 0 where
  pub machine : ℕ
  pub section_count : ℕ
  pub characteristics : ℕ

-- `{1: 32, 2: 64}.get(value)`
abbrev pub bits_of : ℕ → Option ℕ
bits_of value = if value == 1 then some 32 else if value == 2 then some 64 else none

abbrev pub byte_order_of : ℕ → Option ByteOrder
byte_order_of value = if value == 1 then some little else if value == 2 then some big else none

abbrev pub from_bytes : ByteOrder → List ℕ → ℕ
from_bytes little bytes = from_little bytes
from_bytes big bytes = from_big bytes

-- `32 if bits == 64 else 28`
abbrev pub entry_end : Option ℕ → ℕ
entry_end none = 28
entry_end (some bits) = if bits == 64 then 32 else 28

abbrev pub elf_ordered : List ℕ → Option ℕ → Option ByteOrder → ElfDetails
elf_ordered bytes bits none = record {
  bits = bits;
  byte_order = none;
  os_abi = get_or bytes 7 0;
  type_code = none;
  machine = none;
  entrypoint = none;
}
elf_ordered bytes bits (some order) = record {
  bits = bits;
  byte_order = some order;
  os_abi = get_or bytes 7 0;
  type_code = some (from_bytes order (slice bytes 16 18));
  machine = some (from_bytes order (slice bytes 18 20));
  entrypoint =
      if leb (entry_end bits) (length bytes)
      then some (from_bytes order (slice bytes 24 (entry_end bits)))
      else none;
}

-- `_elf_details`; none stands for `{"truncated_header": True}`.
unfoldable pub elf_details : List ℕ → Option ElfDetails
elf_details bytes =
    if ltb (length bytes) 20
    then none
    else some (elf_ordered bytes (bits_of (get_or bytes 4 0)) (byte_order_of (get_or bytes 5 0)))

pub data PeResult : Type 0 where
  truncated_header : PeResult
  invalid_signature : PeResult
  valid_signature : PeDetails → PeResult

-- b"PE\x00\x00"
abbrev pub pe_signature : List ℕ
pe_signature = 80 ∷ 69 ∷ 0 ∷ 0 ∷ []

abbrev pub pe_at : List ℕ → ℕ → PeResult
pe_at bytes offset =
    if ltb (length bytes) (offset + 24)
      || not (same_bytes (slice bytes offset (offset + 4)) pe_signature)
    then invalid_signature
    else valid_signature record {
      machine = from_little (slice bytes (offset + 4) (offset + 6));
      section_count = from_little (slice bytes (offset + 6) (offset + 8));
      characteristics = from_little (slice bytes (offset + 22) (offset + 24));
    }

-- `_pe_details`
unfoldable pub pe_details : List ℕ → PeResult
pe_details bytes =
    if ltb (length bytes) 64
    then truncated_header
    else pe_at bytes (from_little (slice bytes 60 64))

-- b"IHDR"
abbrev pub ihdr : List ℕ
ihdr = 73 ∷ 72 ∷ 68 ∷ 82 ∷ []

-- `_png_details`: the width and the height, or none for `{"truncated_header": True}`.
unfoldable pub png_details : List ℕ → Option (ℕ × ℕ)
png_details bytes =
    if ltb (length bytes) 24 || not (same_bytes (slice bytes 12 16) ihdr)
    then none
    else some (from_big (slice bytes 16 20), from_big (slice bytes 20 24))
