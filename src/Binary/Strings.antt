-- ===== src/Binary/Strings.antt =====
-- `_printable_strings` of ditto_screener/binary_analysis.py. A string is kept as its bytes, which are
-- ASCII.
pub mod Bounds
use ditto_screener.Prelude.{
  ℕ, zero, suc, ◌+◌, Bool, true, false, not, ◌||◌, ◌&&◌, List, [], ◌∷◌, ◌++◌, length, take, leb,
  ltb, ◌==◌, nat_equality, if◌then◌else◌,
}

-- `_MAX_STRINGS`, `_MAX_STRING_LENGTH`
abbrev pub max_strings : ℕ
max_strings = 80

abbrev pub max_string_length : ℕ
max_string_length = 160

-- `32 <= value <= 126 or value in {9}`
abbrev pub is_printable : ℕ → Bool
is_printable value = leb 32 value && leb value 126 || value == 9

-- The loop's variables.
pub record Runs : Type 0 where
  pub strings : List (List ℕ)
  pub current : List ℕ

-- `if len(current) >= 4: strings.append(current)`
abbrev pub add_long : List ℕ → List (List ℕ) → List (List ℕ)
add_long current strings = if leb 4 (length current) then strings ++ current ∷ [] else strings

abbrev pub longer : List ℕ → List (List ℕ) → Runs
longer current strings =
    if leb max_string_length (length current)
    then record { strings = strings ++ current ∷ []; current = [] }
    else record { strings = strings; current = current }

-- One byte.
abbrev pub runs_round : ℕ → Runs → Runs
runs_round value r =
    if is_printable value
    then longer (r.current ++ value ∷ []) r.strings
    else record { strings = add_long r.current r.strings; current = [] }

-- The loop, with its `break`.
unfoldable pub runs_loop : List ℕ → Runs → Runs
runs_loop [] r = r
runs_loop (value ∷ bytes) r =
    let next = runs_round value r in
    let rest = runs_loop bytes next in if leb max_strings (length next.strings) then next else rest

unfoldable pub printable_strings : List ℕ → List (List ℕ)
printable_strings bytes =
    let r = runs_loop bytes record { strings = []; current = [] } in
    take max_strings
      (if ltb (length r.strings) max_strings then add_long r.current r.strings else r.strings)
