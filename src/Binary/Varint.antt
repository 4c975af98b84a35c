-- ===== src/Binary/Varint.antt =====
-- `_read_varint` of ditto_screener/binary_analysis.py.
pub mod RoundTrip
pub mod Bounds
use ditto_screener.Prelude.{
  ℕ, zero, suc, ◌+◌, ◌*◌, ◌/◌, ◌%◌, ◌^◌, Option, none, some, List, length, get_or, leb, ◌==◌,
  nat_equality, if◌then◌else◌,
}

-- The loop's rounds that are left, at `shift`. The bits of `value` are below `shift`, so `|=` adds.
unfoldable pub varint_loop : List ℕ → ℕ → ℕ → ℕ → ℕ → Option (ℕ × ℕ)
varint_loop bytes zero shift value offset = none
varint_loop bytes (suc rounds) shift value offset =
    let byte = get_or bytes offset 0 in
    let rest =
      varint_loop bytes rounds (shift + 7) (value + (byte % 128) * 2 ^ shift) (offset + 1) in
    if leb (length bytes) offset
    then none
    else if (byte / 128) % 2 == 0
    then some (value + (byte % 128) * 2 ^ shift, offset + 1)
    else rest

-- `range(0, 70, 7)`
abbrev pub varint_rounds : ℕ
varint_rounds = 10

-- `_read_varint`: the value, and the offset behind it.
unfoldable pub read_varint : List ℕ → ℕ → Option (ℕ × ℕ)
unfolding varint_loop
read_varint bytes offset = varint_loop bytes varint_rounds 0 0 offset
