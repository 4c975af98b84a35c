-- ===== src/Binary/Varint/RoundTrip.antt =====
-- `_read_varint` on numbers that are written in groups of seven bits.
use mathlib.Core.List.{append_assoc}
use native.Mathlib.Nat.{mod-add-div', pow-suc}
use native.Mathlib.Numerals.{towards_suc}
use ditto_screener.Prelude.{
  ℕ, zero, suc, ◌+◌, ◌*◌, ◌/◌, ◌%◌, ◌^◌, ◌<◌, ◌≡◌, refl, ap, ◌∙◌, some, List, [], ◌∷◌, ◌++◌, arith,
  length, get_or, leb, ltb, ◌==◌, nat_equality, if◌then◌else◌, length-append, Bool-cases, inl, inr,
  true, false,
}
use ditto_screener.Binary.Varint.{varint_loop, varint_rounds, read_varint}

-- A number in groups of seven bits, the lowest first, each but the last with the high bit.
unfoldable pub groups : ℕ → ℕ → List ℕ
groups zero n = []
groups (suc rounds) n =
    let rest = groups rounds (n / 128) in if ltb n 128 then n ∷ [] else (n % 128 + 128) ∷ rest

get_or-append :
    (pre : List ℕ) (b : ℕ) (rest : List ℕ) (d : ℕ) → get_or (pre ++ b ∷ rest) (length pre) d ≡ b
get_or-append [] b rest d = refl
get_or-append (x ∷ pre) b rest d = get_or-append pre b rest d

inside :
    (pre : List ℕ) (b : ℕ) (rest : List ℕ) → leb (length (pre ++ b ∷ rest)) (length pre) ≡ false
inside pre b rest = ground (arith, length-append pre (b ∷ rest))

last_group :
    (pre rest : List ℕ) (rounds shift value b : ℕ)
    → b < 128
    → varint_loop (pre ++ b ∷ rest) (suc rounds) shift value (length pre)
      ≡ some (value + b * 2 ^ shift, length pre + 1)
unfolding varint_loop
last_group pre rest rounds shift value b h =
    let q : ((b / 128) % 2 == 0) ≡ true = ground arith in
    let m : b % 128 ≡ b = omega arith in rw (get_or-append pre b rest 0, inside pre b rest, q, m)

more_groups :
    (pre rest : List ℕ) (rounds shift value b : ℕ)
    → b < 128
    → varint_loop (pre ++ (b + 128) ∷ rest) (suc rounds) shift value (length pre)
      ≡ varint_loop
          (pre ++ (b + 128) ∷ rest)
          rounds
          (shift + 7)
          (value + b * 2 ^ shift)
          (length pre + 1)
unfolding varint_loop
more_groups pre rest rounds shift value b h =
    let q : (((b + 128) / 128) % 2 == 0) ≡ false = ground arith in
    let m : (b + 128) % 128 ≡ b = omega arith in
    rw (get_or-append pre (b + 128) rest 0, inside pre (b + 128) rest, q, m)

pub shift_seven : (shift : ℕ) → 2 ^ (shift + 7) ≡ 2 ^ shift * 128
shift_seven shift = simp towards_suc (omega arith)

-- The value of a number's groups, in two parts.
regroup : (value n p : ℕ) → (value + (n % 128) * p) + (n / 128) * (p * 128) ≡ value + n * p
regroup value n p = let e = ap (λ (t : ℕ). t * p) (mod-add-div' n 128) in grind (arith, e)

pow_128 : (rounds : ℕ) → 128 ^ suc rounds ≡ 128 ^ rounds * 128
pow_128 rounds = pow-suc 128 rounds

next_bound : (rounds n : ℕ) → n < 128 ^ suc rounds → n / 128 < 128 ^ rounds
next_bound rounds n h = omega (arith, pow_128 rounds)

-- One more group in front of the loop's rest.
carry :
    (rounds shift value n : ℕ) (pre tail rest : List ℕ)
    → varint_loop
        ((pre ++ (n % 128 + 128) ∷ []) ++ (tail ++ rest))
        rounds
        (shift + 7)
        (value + (n % 128) * 2 ^ shift)
        (length (pre ++ (n % 128 + 128) ∷ []))
      ≡ some (
        (value + (n % 128) * 2 ^ shift) + (n / 128) * 2 ^ (shift + 7),
        length (pre ++ (n % 128 + 128) ∷ []) + length tail,
      )
    → varint_loop (pre ++ (n % 128 + 128) ∷ (tail ++ rest)) (suc rounds) shift value (length pre)
      ≡ some (value + n * 2 ^ shift, length pre + suc (length tail))
carry rounds shift value n pre tail rest ih =
    let b = n % 128 + 128 in
    let e : (pre ++ b ∷ []) ++ (tail ++ rest) ≡ pre ++ b ∷ (tail ++ rest) =
      append_assoc pre (b ∷ []) (tail ++ rest) in
    let l : length (pre ++ b ∷ []) ≡ length pre + 1 = length-append pre (b ∷ []) in
    let v : (value + (n % 128) * 2 ^ shift) + (n / 128) * 2 ^ (shift + 7) ≡ value + n * 2 ^ shift =
      rw (shift_seven shift) (regroup value n (2 ^ shift)) in
    let o : (length pre + 1) + length tail ≡ length pre + suc (length tail) = omega arith in
    let step = more_groups pre (tail ++ rest) rounds shift value (n % 128) (omega arith) in
    step ∙ cc (ih, e, l, v, o)

varint_loop-groups :
    (rounds shift value n : ℕ) (pre rest : List ℕ)
    → n < 128 ^ suc rounds
    → varint_loop (pre ++ (groups (suc rounds) n ++ rest)) (suc rounds) shift value (length pre)
      ≡ some (value + n * 2 ^ shift, length pre + length (groups (suc rounds) n))
unfolding groups
varint_loop-groups zero shift value n pre rest h =
    let q : ltb n 128 ≡ true = ground arith in
    rw q (last_group pre rest zero shift value n (omega arith))
varint_loop-groups (suc rounds) shift value n pre rest h = elim (Bool-cases (ltb n 128)) [
  | inl q ↦ rw q (last_group pre rest (suc rounds) shift value n (ground arith))
  | inr q ↦ rw q (
      carry (suc rounds) shift value n pre (groups (suc rounds) (n / 128)) rest (
        varint_loop-groups rounds (shift + 7) (value + (n % 128) * 2 ^ shift) (n / 128)
          (pre ++ (n % 128 + 128) ∷ []) rest (next_bound (suc rounds) n h)))
]

unfoldable pub varint_bytes : ℕ → List ℕ
varint_bytes n = groups varint_rounds n

-- A number below 128 ^ 10 that stands at an offset in its groups of seven bits is read back, with the
-- offset behind its last group.
pub read_varint-varint_bytes :
    (n : ℕ) (pre rest : List ℕ)
    → n < 128 ^ varint_rounds
    → read_varint (pre ++ (varint_bytes n ++ rest)) (length pre)
      ≡ some (n, length pre + length (varint_bytes n))
unfolding varint_bytes read_varint
read_varint-varint_bytes n pre rest h =
    let e : 0 + n * 2 ^ 0 ≡ n = omega arith in
    varint_loop-groups 9 0 0 n pre rest h
    ∙ ap (λ (v : ℕ). some (v, length pre + length (groups varint_rounds n))) e

pub length-varint_bytes : (n : ℕ) → 0 < length (varint_bytes n)
unfolding varint_bytes groups
length-varint_bytes n = elim (Bool-cases (ltb n 128)) [
  | inl e ↦ rw e (omega arith)
  | inr e ↦ rw e (omega arith)
]
