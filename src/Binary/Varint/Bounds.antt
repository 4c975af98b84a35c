-- ===== src/Binary/Varint/Bounds.antt =====
-- What `_read_varint` returns on any bytes.
use native.Mathlib.Nat.{pow-le-pow_right}
use ditto_screener.Prelude.{
  ℕ, zero, suc, ◌+◌, ◌*◌, ◌%◌, ◌^◌, ◌≤◌, ◌<◌, ◌≡◌, refl, some, List, arith, length, get_or,
  nat_equality,
}
use ditto_screener.Binary.Varint.RoundTrip.{shift_seven}
use ditto_screener.Binary.Varint.{varint_loop, varint_rounds, read_varint}

-- Where a varint was read: the offset behind it, and the bound on its value.
abbrev pub VarintEnds : List ℕ → ℕ → ℕ → ℕ → ℕ → ℕ → Type 0
VarintEnds bytes rounds offset bits value next =
    (offset < next) × (next ≤ offset + rounds) × (next ≤ length bytes) × (value < 2 ^ bits)

next_value : (value p byte : ℕ) → value < p → value + (byte % 128) * p < p * 128
next_value value p byte h = let m : byte % 128 ≤ 127 = omega arith in grind (arith, m)

varint_loop-VarintEnds :
    (bytes : List ℕ) (rounds shift bits value offset result next : ℕ)
    → shift + 7 * rounds ≡ bits
    → value < 2 ^ shift
    → varint_loop bytes rounds shift value offset ≡ some (result, next)
    → VarintEnds bytes rounds offset bits result next
unfolding varint_loop
varint_loop-VarintEnds bytes zero shift bits value offset result next e h returned = cc
varint_loop-VarintEnds bytes (suc rounds) shift bits value offset result next e h returned =
    let byte = get_or bytes offset 0 in
    let grown : value + (byte % 128) * 2 ^ shift < 2 ^ (shift + 7) =
      rw (shift_seven shift) (next_value value (2 ^ shift) byte h) in
    let below : 2 ^ (shift + 7) ≤ 2 ^ bits = pow-le-pow_right (omega arith) (omega arith) in
    let ih =
      varint_loop-VarintEnds bytes rounds (shift + 7) bits (value + (byte % 128) * 2 ^ shift)
        (offset + 1) result next (omega arith) grown in
    ground (arith, ih, returned, grown, below)

-- What `_read_varint` returns on any bytes: an offset one to ten bytes further on and not behind the
-- end of the data, and a value below 2 ^ 70.
pub read_varint-VarintEnds :
    (bytes : List ℕ) (offset value next : ℕ)
    → read_varint bytes offset ≡ some (value, next)
    → VarintEnds bytes varint_rounds offset 70 value next
unfolding read_varint
read_varint-VarintEnds bytes offset value next returned =
    varint_loop-VarintEnds bytes varint_rounds 0 70 0 offset value next refl (omega arith) returned
