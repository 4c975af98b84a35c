-- ===== src/Binary/Strings/Bounds.antt =====
-- The strings that `_printable_strings` finds.
use ditto_screener.Prelude.{
  ℕ, zero, suc, ◌≤◌, ◌<◌, ◌≡◌, true, List, [], ◌∷◌, ◌++◌, All, All-append, arith, length, take, leb,
  ltb, length-append, length-take, Bool-cases, inl, inr, if◌then◌else◌,
}
use ditto_screener.Binary.Strings.{
  max_strings, max_string_length, is_printable, Runs, add_long, longer, runs_round, runs_loop,
  printable_strings,
}

-- 4 to 160 printable bytes.
abbrev pub IsRun : List ℕ → Type 0
IsRun text =
    (4 ≤ length text)
    × (length text ≤ max_string_length)
    × All (λ value. is_printable value ≡ true) text

abbrev IsOpen : List ℕ → Type 0
IsOpen current =
    (length current < max_string_length) × All (λ value. is_printable value ≡ true) current

abbrev KeepsRuns : Runs → Type 0
KeepsRuns r = All IsRun r.strings × IsOpen r.current

add_long-IsRun :
    (current : List ℕ) (strings : List (List ℕ))
    → IsOpen current
    → All IsRun strings
    → All IsRun (add_long current strings)
add_long-IsRun current strings (n, h) runs = elim (Bool-cases (leb 4 (length current))) [
  | inl e ↦
      rw e (All-append IsRun strings (current ∷ []) runs ((ground (arith, e), omega arith, h), tt))
  | inr e ↦ rw e runs
]

longer-KeepsRuns :
    (current : List ℕ) (strings : List (List ℕ))
    → length current ≤ max_string_length
    → All (λ value. is_printable value ≡ true) current
    → All IsRun strings
    → KeepsRuns (longer current strings)
longer-KeepsRuns current strings n h runs =
    elim (Bool-cases (leb max_string_length (length current))) [
      | inl e ↦ rw e (
        All-append IsRun strings (current ∷ []) runs ((ground (arith, e), n, h), tt),
        (omega arith, tt),
      )
      | inr e ↦ rw e (runs, (ground (arith, e), h))
    ]

runs_round-KeepsRuns : (value : ℕ) (r : Runs) → KeepsRuns r → KeepsRuns (runs_round value r)
runs_round-KeepsRuns value r (runs, (n, h)) = elim (Bool-cases (is_printable value)) [
  | inl e ↦ rw e (
      longer-KeepsRuns (r.current ++ value ∷ []) r.strings
        (omega (arith, length-append r.current (value ∷ []), n))
        (All-append (λ v. is_printable v ≡ true) r.current (value ∷ []) h (e, tt)) runs)
  | inr e ↦ rw e (add_long-IsRun r.current r.strings (n, h) runs, (omega arith, tt))
]

runs_loop-KeepsRuns : (bytes : List ℕ) (r : Runs) → KeepsRuns r → KeepsRuns (runs_loop bytes r)
unfolding runs_loop
runs_loop-KeepsRuns [] r h = h
runs_loop-KeepsRuns (value ∷ bytes) r h =
    let next = runs_round value r in
    let kept = runs_round-KeepsRuns value r h in
    elim (Bool-cases (leb max_strings (length next.strings))) [
      | inl e ↦ rw e kept
      | inr e ↦ rw e (runs_loop-KeepsRuns bytes next kept)
    ]

All-take : (P : List ℕ → Type 0) (n : ℕ) (xs : List (List ℕ)) → All P xs → All P (take n xs)
All-take P zero xs h = tt
All-take P (suc n) [] h = tt
All-take P (suc n) (x ∷ xs) (h, hs) = (h, All-take P n xs hs)

-- On any bytes at most 80 strings are found, each of 4 to 160 printable bytes.
pub printable_strings-IsRun :
    (bytes : List ℕ) → (length (printable_strings bytes) ≤ 80) × All IsRun (printable_strings bytes)
unfolding printable_strings
printable_strings-IsRun bytes =
    let r = runs_loop bytes record { strings = []; current = [] } in
    let (runs, (n, h)) =
      runs_loop-KeepsRuns bytes record { strings = []; current = [] } (tt, (omega arith, tt)) in
    let found =
      if ltb (length r.strings) max_strings then add_long r.current r.strings else r.strings in
    (
      omega (arith, length-take max_strings found),
      All-take IsRun max_strings found (elim (Bool-cases (ltb (length r.strings) max_strings)) [
        | inl e ↦ rw e (add_long-IsRun r.current r.strings (n, h) runs)
        | inr e ↦ rw e runs
      ]),
    )
