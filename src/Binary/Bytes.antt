-- ===== src/Binary/Bytes.antt =====
-- What binary_analysis.py uses of Python's `bytes`: slices, prefixes and `int.from_bytes`.
use ditto_screener.Prelude.{
  ℕ, zero, suc, ◌+◌, ◌-◌, ◌*◌, ◌/◌, ◌%◌, ◌^◌, ◌<◌, ◌≡◌, refl, Bool, true, false, ◌&&◌, List, [],
  ◌∷◌, ◌++◌, take, drop, arith, nat_eqb,
}
use native.Mathlib.Nat.{mod-add-div', pow-suc}

-- `values[start:end]`, where the end is not before the start
abbrev pub slice {ℓ} : {A : Type ℓ} → List A → ℕ → ℕ → List A
slice values start end = take (end - start) (drop start values)

-- `values == others`, `values.startswith(prefix)`
abbrev pub same_bytes : List ℕ → List ℕ → Bool
same_bytes [] [] = true
same_bytes [] (y ∷ ys) = false
same_bytes (x ∷ xs) [] = false
same_bytes (x ∷ xs) (y ∷ ys) = nat_eqb x y && same_bytes xs ys

abbrev pub starts_with : List ℕ → List ℕ → Bool
starts_with [] ys = true
starts_with (x ∷ xs) [] = false
starts_with (x ∷ xs) (y ∷ ys) = nat_eqb x y && starts_with xs ys

-- `int.from_bytes(values, "little")`, `int.from_bytes(values, "big")`
unfoldable pub from_little : List ℕ → ℕ
from_little [] = 0
from_little (b ∷ bs) = b + from_little bs * 256

big_loop : List ℕ → ℕ → ℕ
big_loop [] value = value
big_loop (b ∷ bs) value = big_loop bs (value * 256 + b)

unfoldable pub from_big : List ℕ → ℕ
unfolding big_loop
from_big bytes = big_loop bytes 0

-- A number in `width` bytes, the lowest first, and the highest first.
abbrev pub to_little : ℕ → ℕ → List ℕ
to_little zero n = []
to_little (suc width) n = n % 256 ∷ to_little width (n / 256)

abbrev pub to_big : ℕ → ℕ → List ℕ
to_big zero n = []
to_big (suc width) n = to_big width (n / 256) ++ (n % 256) ∷ []

pow_256 : (width : ℕ) → 256 ^ suc width ≡ 256 ^ width * 256
pow_256 width = pow-suc 256 width

pub from_little-to_little : (width n : ℕ) → n < 256 ^ width → from_little (to_little width n) ≡ n
unfolding from_little
from_little-to_little zero n h = omega arith
from_little-to_little (suc width) n h =
    let ih = from_little-to_little width (n / 256) (omega (arith, pow_256 width)) in
    rw ih (mod-add-div' n 256)

big_loop-append :
    (xs ys : List ℕ) (value : ℕ) → big_loop (xs ++ ys) value ≡ big_loop ys (big_loop xs value)
unfolding big_loop
big_loop-append [] ys value = refl
big_loop-append (x ∷ xs) ys value = big_loop-append xs ys (value * 256 + x)

pub from_big-to_big : (width n : ℕ) → n < 256 ^ width → from_big (to_big width n) ≡ n
unfolding from_big big_loop
from_big-to_big zero n h = omega arith
from_big-to_big (suc width) n h =
    let ih : big_loop (to_big width (n / 256)) 0 ≡ n / 256 =
      from_big-to_big width (n / 256) (omega (arith, pow_256 width)) in
    rw (big_loop-append (to_big width (n / 256)) (n % 256 ∷ []) 0, ih) (omega arith)
