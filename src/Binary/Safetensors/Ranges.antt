-- ===== src/Binary/Safetensors/Ranges.antt =====
-- The ranges that the two loops of `_safetensors_details` keep.
use mathlib.Core.Path.{subst}
use Prim.Native.Nat.{Ordering}
use ditto_screener.Prelude.{
  ℕ, suc, ◌+◌, ◌≤◌, min, String, Bool, true, false, ◌||◌, Option, none, some, List, [], ◌∷◌, All,
  ◌≡◌, refl, arith, length, ltb, ◌==◌, text_equality, nat_equality, if◌then◌else◌, length-append,
  Bool-cases, inl, inr,
}
use ditto_screener.Prelude.Int.{ℤ, pos, negsuc}
use ditto_screener.Prelude.Results.{Exn, type_error, ok, raised, OkOr, >>=-OkOr}
use ditto_screener.Json.{Json, int, arr, obj, cons, nil, Fields, field, end, get}
use ditto_screener.Binary.Safetensors.{
  Candidate, range_within, range_of, entry, collect_ranges, compare_keys, tuple_lt, place,
  insert_candidate, sort_candidates, SelectedRanges, tensor_of, select_one, select,
}

abbrev pub IsWithin : ℕ → Candidate → Type 0
IsWithin payload c = (c.first ≤ c.last) × (c.last ≤ payload)

-- The exception that a tie raises.
abbrev pub Tie : Exn → Type 0
Tie exn = exn ≡ type_error

-- The entries that are asked for a range: those with a dict for their value, without `__metadata__`.
abbrev pub tensor_entries : Fields → ℕ
tensor_entries end = 0
tensor_entries (field name (obj value) rest) =
    let later = tensor_entries rest in if name == "__metadata__" then later else suc later
tensor_entries (field name value rest) = tensor_entries rest

abbrev RangeWithin : ℕ → Option (ℕ × ℕ) → Type 0
RangeWithin payload none = Unit
RangeWithin payload (some (a, b)) = (a ≤ b) × (b ≤ payload)

range_within-RangeWithin : (payload : ℕ) (a b : ℤ) → RangeWithin payload (range_within payload a b)
range_within-RangeWithin payload (pos a) (pos b) = elim (Bool-cases (ltb b a || ltb payload b)) [
  | inl e ↦ rw e tt
  | inr e ↦ rw e (ground (arith, e))
]
range_within-RangeWithin payload (pos a) (negsuc b) = tt
range_within-RangeWithin payload (negsuc a) b = tt

range_of-RangeWithin : (payload : ℕ) (o : Option Json) → RangeWithin payload (range_of payload o)
range_of-RangeWithin payload (some (arr (cons (int a) (cons (int b) nil)))) =
    range_within-RangeWithin payload a b
range_of-RangeWithin payload o = tt

-- What the first loop has of a header, for a number of entries.
abbrev IsCollected : ℕ → ℕ → List Candidate × ℕ → Type 0
IsCollected payload entries (candidates, invalid) =
    All (IsWithin payload) candidates × (length candidates + invalid ≡ entries)

entry-IsCollected :
    (payload entries : ℕ) (name : String) (value : Fields) (p : List Candidate × ℕ)
    → IsCollected payload entries p
    → IsCollected payload (suc entries) (entry payload name value p)
entry-IsCollected payload entries name value (candidates, invalid) (within, count) =
    cases (range_of payload (get "data_offsets" value)) refl
  where
    cases :
        (o : Option (ℕ × ℕ))
        → range_of payload (get "data_offsets" value) ≡ o
        → IsCollected payload (suc entries) (entry payload name value (candidates, invalid))
    cases none e = rw (e, entry) (within, omega arith)
    cases (some (a, b)) e =
        let w : RangeWithin payload (some (a, b)) =
          subst (λ o. RangeWithin payload o) e
            (range_of-RangeWithin payload (get "data_offsets" value)) in
        rw (e, entry) ((w, within), omega arith)

pub collect_ranges-IsCollected :
    (payload : ℕ) (header : Fields)
    → IsCollected payload (tensor_entries header) (collect_ranges payload header)
unfolding collect_ranges
collect_ranges-IsCollected payload end = (tt, omega arith)
collect_ranges-IsCollected payload (field name (obj value) rest) =
    elim (Bool-cases (name == "__metadata__")) [
      | inl e ↦ rw e (collect_ranges-IsCollected payload rest)
      | inr e ↦ rw e (
          entry-IsCollected payload (tensor_entries rest) name value (collect_ranges payload rest)
            (collect_ranges-IsCollected payload rest))
    ]
collect_ranges-IsCollected payload (field name value rest) = collect_ranges-IsCollected payload rest

-- A sorted list has the candidates of the list before.
abbrev pub KeptBy : ℕ → ℕ → List Candidate → Type 0
KeptBy payload count ordered = All (IsWithin payload) ordered × (length ordered ≡ count)

module _ (same : Fields → Fields → Bool) (payload : ℕ) where
  tuple_lt-OkOr : (a b : Candidate) → OkOr Tie (λ (lt : Bool). Unit {0}) (tuple_lt same a b)
  tuple_lt-OkOr a b = of (compare_keys a b) refl
    where
      same_or_not :
          (b : Bool)
          → OkOr Tie (λ (lt : Bool). Unit {0}) (if b then ok false else raised type_error)
      same_or_not true = tt
      same_or_not false = refl

      of :
          (o : Ordering)
          → compare_keys a b ≡ o
          → OkOr Tie (λ (lt : Bool). Unit {0}) (tuple_lt same a b)
      of Ordering.lt e = rw (e, tuple_lt) tt
      of Ordering.gt e = rw (e, tuple_lt) tt
      of Ordering.eq e = rw (e, tuple_lt) (same_or_not (same a.value b.value))

  insert_candidate-KeptBy :
      (a : Candidate) (cs : List Candidate)
      → IsWithin payload a
      → All (IsWithin payload) cs
      → OkOr Tie (KeptBy payload (suc (length cs))) (insert_candidate same a cs)
  unfolding insert_candidate
  insert_candidate-KeptBy a [] h hs = ((h, tt), refl)
  insert_candidate-KeptBy a (b ∷ rest) h (hb, hs) =
      >>=-OkOr Tie (λ (lt : Bool). Unit {0}) (KeptBy payload (suc (suc (length rest))))
        (tuple_lt same b a) (place a b rest (insert_candidate same a rest)) (tuple_lt-OkOr b a)
        (λ lt u. placed lt (insert_candidate-KeptBy a rest h hs))
    where
      placed :
          (lt : Bool)
          → OkOr Tie (KeptBy payload (suc (length rest))) (insert_candidate same a rest)
          → OkOr Tie
              (KeptBy payload (suc (suc (length rest))))
              (place a b rest (insert_candidate same a rest) lt)
      placed true later =
          >>=-OkOr Tie (KeptBy payload (suc (length rest)))
            (KeptBy payload (suc (suc (length rest)))) (insert_candidate same a rest)
            (λ placed. ok (b ∷ placed)) later (λ l (within, n). ((hb, within), omega (arith, n)))
      placed false later = ((h, (hb, hs)), refl)

  pub sort_candidates-KeptBy :
      (cs : List Candidate)
      → All (IsWithin payload) cs
      → OkOr Tie (KeptBy payload (length cs)) (sort_candidates same cs)
  unfolding sort_candidates
  sort_candidates-KeptBy [] hs = (tt, refl)
  sort_candidates-KeptBy (a ∷ rest) (h, hs) =
      >>=-OkOr Tie (KeptBy payload (length rest)) (KeptBy payload (suc (length rest)))
        (sort_candidates same rest) (insert_candidate same a) (sort_candidates-KeptBy rest hs)
        (λ l (within, n).
          subst (λ (k : ℕ). OkOr Tie (KeptBy payload (suc k)) (insert_candidate same a l)) n
            (insert_candidate-KeptBy a l h within))

-- What the second loop keeps: the bytes so far lie before `previous_end`, in the payload, and the
-- first 64 tensors are reported.
abbrev pub IsSelected : ℕ → ℕ → SelectedRanges → Type 0
IsSelected payload entries s =
    (s.total_tensor_bytes ≤ s.previous_end)
    × (s.previous_end ≤ payload)
    × (length s.tensors ≡ min 64 s.tensor_count)
    × (s.tensor_count + s.invalid_ranges ≡ entries)

select_one-IsSelected :
    (payload entries : ℕ) (c : Candidate) (s : SelectedRanges)
    → IsWithin payload c
    → IsSelected payload entries s
    → IsSelected payload (suc entries) (select_one c s)
select_one-IsSelected payload entries c s w h =
    ground (arith, w, h, length-append s.tensors (tensor_of c ∷ []))

pub select-IsSelected :
    (payload entries : ℕ) (cs : List Candidate) (s : SelectedRanges)
    → All (IsWithin payload) cs
    → IsSelected payload entries s
    → IsSelected payload (entries + length cs) (select cs s)
unfolding select
select-IsSelected payload entries [] s w h = ground (arith, h)
select-IsSelected payload entries (c ∷ cs) s (w, ws) h =
    let e : suc entries + length cs ≡ entries + suc (length cs) = omega arith in
    subst (λ (n : ℕ). IsSelected payload n (select cs (select_one c s))) e
      (select-IsSelected payload (suc entries) cs (select_one c s) ws
        (select_one-IsSelected payload entries c s w h))
