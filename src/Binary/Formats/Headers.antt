-- ===== src/Binary/Formats/Headers.antt =====
-- The details of ELF and PNG files against the headers of such files.
use ditto_screener.Prelude.{
  ℕ, ◌^◌, ◌<◌, ◌≡◌, Bool, true, false, some, List, ◌∷◌, ◌++◌, length, leb, ltb, arith,
  if◌then◌else◌,
}
use ditto_screener.Binary.Bytes.{to_little, to_big, from_little-to_little, from_big-to_big}
use ditto_screener.Binary.Formats.{ByteOrder, little, big, elf_details, png_details, ihdr}

-- A number in bytes of the file's order.
abbrev pub to_bytes : ByteOrder → ℕ → ℕ → List ℕ
to_bytes little width n = to_little width n
to_bytes big width n = to_big width n

-- `EI_CLASS` and `EI_DATA`
abbrev pub class_byte : Bool → ℕ
class_byte true = 2
class_byte false = 1

abbrev pub order_byte : ByteOrder → ℕ
order_byte little = 1
order_byte big = 2

abbrev pub address_bytes : Bool → ℕ
address_bytes true = 8
address_bytes false = 4

-- The front of an ELF header, up to the entry point.
abbrev pub elf_header : Bool → ByteOrder → ℕ → ℕ → ℕ → ℕ → ℕ → List ℕ
elf_header wide order abi kind machine version entry =
    127
    ∷ 69
    ∷ 76
    ∷ 70
    ∷ class_byte wide
    ∷ order_byte order
    ∷ 1
    ∷ abi
    ∷ 0
    ∷ 0
    ∷ 0
    ∷ 0
    ∷ 0
    ∷ 0
    ∷ 0
    ∷ 0
    ∷ (to_bytes order 2 kind
        ++ (to_bytes order 2 machine
            ++ (to_bytes order 4 version ++ to_bytes order (address_bytes wide) entry)))

-- The details of a 32-bit or 64-bit ELF file of either byte order are what its header says.
pub elf_details-elf_header :
    (wide : Bool) (order : ByteOrder) (abi kind machine version entry : ℕ) (rest : List ℕ)
    → kind < 256 ^ 2
    → machine < 256 ^ 2
    → entry < 256 ^ address_bytes wide
    → elf_details (elf_header wide order abi kind machine version entry ++ rest)
      ≡ some record {
        bits = some (if wide then 64 else 32);
        byte_order = some order;
        os_abi = abi;
        type_code = some kind;
        machine = some machine;
        entrypoint = some entry;
      }
unfolding elf_details
elf_details-elf_header true little abi kind machine version entry rest k m e =
    let bytes = elf_header true little abi kind machine version entry ++ rest in
    let l : ltb (length bytes) 20 ≡ false = ground arith in
    let l' : leb 32 (length bytes) ≡ true = ground arith in
    rw (
      l,
      l',
      from_little-to_little 2 kind k,
      from_little-to_little 2 machine m,
      from_little-to_little 8 entry e,
    )
elf_details-elf_header true big abi kind machine version entry rest k m e =
    let bytes = elf_header true big abi kind machine version entry ++ rest in
    let l : ltb (length bytes) 20 ≡ false = ground arith in
    let l' : leb 32 (length bytes) ≡ true = ground arith in
    rw (l, l', from_big-to_big 2 kind k, from_big-to_big 2 machine m, from_big-to_big 8 entry e)
elf_details-elf_header false little abi kind machine version entry rest k m e =
    let bytes = elf_header false little abi kind machine version entry ++ rest in
    let l : ltb (length bytes) 20 ≡ false = ground arith in
    let l' : leb 28 (length bytes) ≡ true = ground arith in
    rw (
      l,
      l',
      from_little-to_little 2 kind k,
      from_little-to_little 2 machine m,
      from_little-to_little 4 entry e,
    )
elf_details-elf_header false big abi kind machine version entry rest k m e =
    let bytes = elf_header false big abi kind machine version entry ++ rest in
    let l : ltb (length bytes) 20 ≡ false = ground arith in
    let l' : leb 28 (length bytes) ≡ true = ground arith in
    rw (l, l', from_big-to_big 2 kind k, from_big-to_big 2 machine m, from_big-to_big 4 entry e)

-- The front of a PNG file: its signature, the length of the first chunk, and that chunk's width and
-- height.
abbrev pub png_header : ℕ → ℕ → ℕ → List ℕ
png_header size width height =
    137
    ∷ 80
    ∷ 78
    ∷ 71
    ∷ 13
    ∷ 10
    ∷ 26
    ∷ 10
    ∷ (to_big 4 size ++ (ihdr ++ (to_big 4 width ++ to_big 4 height)))

-- The details of a PNG file are the width and the height of its header.
pub png_details-png_header :
    (size width height : ℕ) (rest : List ℕ)
    → width < 256 ^ 4
    → height < 256 ^ 4
    → png_details (png_header size width height ++ rest) ≡ some (width, height)
unfolding png_details
png_details-png_header size width height rest w h =
    let bytes = png_header size width height ++ rest in
    let l : ltb (length bytes) 24 ≡ false = ground arith in
    rw (l, from_big-to_big 4 width w, from_big-to_big 4 height h)
