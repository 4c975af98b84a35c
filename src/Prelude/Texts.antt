-- ===== src/Prelude/Texts.antt =====
-- Python's `str` as the native `String`; its code points, its length and membership in a set.
use Prim.Native.Nat.{ℕ}
use Prim.Native.Char.{code}
use Prim.Native.String.{String}
use mathlib.Core.Bool.{Bool, false, ◌||◌}
use mathlib.Core.List.{List, [], ◌∷◌}
use ditto_screener.Prelude.Tests.{Comparable, ◌==◌}
use ditto_screener.Prelude.Lists.{length}

abbrev pub codes : String → List ℕ
codes String.[] = []
codes (String.◌∷◌ c s) = code c ∷ codes s

-- `len(text)`
abbrev pub len : String → ℕ
len s = length (codes s)

-- `value in values`
abbrev pub contains {ℓ} : {A : Type ℓ} ⦃c : Comparable A⦄ → List A → A → Bool
contains [] a = false
contains (x ∷ xs) a = x == a || contains xs a
