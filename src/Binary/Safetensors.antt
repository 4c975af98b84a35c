-- ===== src/Binary/Safetensors.antt =====
-- `_safetensors_details` of ditto_screener/binary_analysis.py. `loads` stands for `json.loads` on the
-- header's bytes: none for the two exceptions that are caught, any other one raised; `same` for Python's `==` of two dicts.
pub mod Ranges
pub mod Report
pub mod Ties
use Prim.Native.String.{compare}
use Prim.Native.Nat.{Ordering}
use ditto_screener.Prelude.{
  ℕ, zero, suc, ◌+◌, ◌-◌, ◌*◌, String, codes, Bool, true, false, not, ◌||◌, ◌&&◌, Option, none,
  some, List, [], ◌∷◌, ◌++◌, length, take, drop, leb, ltb, ◌==◌, nat_equality, text_equality,
  if◌then◌else◌,
}
use ditto_screener.Prelude.Int.{ℤ, pos, negsuc}
use ditto_screener.Prelude.Results.{Exn, type_error, Result, ok, raised, ◌>>=◌}
use ditto_screener.Json.{Json, int, arr, obj, Items, cons, nil, Fields, field, end, get}
use ditto_screener.Binary.Bytes.{slice, from_little}

-- A tensor's range, its name cut to 160 code points, and its dict.
pub record Candidate : Type 0 where
  pub first : ℕ
  pub last : ℕ
  pub name : List ℕ
  pub value : Fields

-- What is reported of a tensor.
pub record Tensor : Type 0 where
  pub name : List ℕ
  pub dtype : Option Json
  pub shape : Option Json
  pub bytes : ℕ

pub record SafetensorsDetails : Type 0 where
  pub header_bytes : ℕ
  pub tensor_count : ℕ
  pub tensors : List Tensor
  pub tensor_bytes : ℕ
  pub invalid_tensor_ranges : ℕ
  pub payload_available : Bool

-- A list of two integers that are no Booleans, within the payload.
abbrev pub range_within : ℕ → ℤ → ℤ → Option (ℕ × ℕ)
range_within payload (pos a) (pos b) = if ltb b a || ltb payload b then none else some (a, b)
range_within payload (pos a) (negsuc b) = none
range_within payload (negsuc a) b = none

abbrev pub range_of : ℕ → Option Json → Option (ℕ × ℕ)
range_of payload (some (arr (cons (int a) (cons (int b) nil)))) = range_within payload a b
range_of payload offsets = none

-- The first loop: the candidates in the header's order, and how many entries it refused.
abbrev pub entry : ℕ → String → Fields → List Candidate × ℕ → List Candidate × ℕ
entry payload name value (candidates, invalid) =
    elim (range_of payload (get "data_offsets" value)) [
      | none ↦ (candidates, suc invalid)
      | some (a, b) ↦ (
        record { first = a; last = b; name = take 160 (codes name); value = value } ∷ candidates,
        invalid,
      )
    ]

unfoldable pub collect_ranges : ℕ → Fields → List Candidate × ℕ
collect_ranges payload end = ([], 0)
collect_ranges payload (field name (obj value) rest) =
    let later = collect_ranges payload rest in
    if name == "__metadata__" then later else entry payload name value later
collect_ranges payload (field name value rest) = collect_ranges payload rest

-- The order of two lists of code points.
unfoldable pub compare_codes : List ℕ → List ℕ → Ordering
compare_codes [] [] = Ordering.eq
compare_codes [] (y ∷ ys) = Ordering.lt
compare_codes (x ∷ xs) [] = Ordering.gt
compare_codes (x ∷ xs) (y ∷ ys) =
    if ltb x y then Ordering.lt else if ltb y x then Ordering.gt else compare_codes xs ys

abbrev pub then_compare : Ordering → Ordering → Ordering
then_compare Ordering.lt later = Ordering.lt
then_compare Ordering.eq later = later
then_compare Ordering.gt later = Ordering.gt

abbrev pub compare_counts : ℕ → ℕ → Ordering
compare_counts a b = if ltb a b then Ordering.lt else if ltb b a then Ordering.gt else Ordering.eq

-- The order of the tuples up to their dicts.
abbrev pub compare_keys : Candidate → Candidate → Ordering
compare_keys a b =
    then_compare (compare_counts a.first b.first)
      (then_compare (compare_counts a.last b.last) (compare_codes a.name b.name))

-- Behind the test `b < a`.
abbrev pub place :
    Candidate
    → Candidate
    → List Candidate
    → Result (List Candidate)
    → Bool
    → Result (List Candidate)
place a b rest later true = later >>= λ placed. ok (b ∷ placed)
place a b rest later false = ok (a ∷ b ∷ rest)

module _ (same : Fields → Fields → Bool) where
  -- `a < b` on the tuples: two dicts that differ have no order.
  abbrev pub tuple_lt : Candidate → Candidate → Result Bool
  tuple_lt a b = elim (compare_keys a b) [
    | Ordering.lt ↦ ok true
    | Ordering.gt ↦ ok false
    | Ordering.eq ↦ if same a.value b.value then ok false else raised type_error
  ]

  -- `sorted(candidates)`
  unfoldable pub insert_candidate : Candidate → List Candidate → Result (List Candidate)
  insert_candidate a [] = ok (a ∷ [])
  insert_candidate a (b ∷ rest) = tuple_lt b a >>= place a b rest (insert_candidate a rest)

  unfoldable pub sort_candidates : List Candidate → Result (List Candidate)
  sort_candidates [] = ok []
  sort_candidates (a ∷ rest) = sort_candidates rest >>= insert_candidate a

-- The second loop's variables.
pub record SelectedRanges : Type 0 where
  pub tensors : List Tensor
  pub tensor_count : ℕ
  pub total_tensor_bytes : ℕ
  pub previous_end : ℕ
  pub invalid_ranges : ℕ

abbrev pub tensor_of : Candidate → Tensor
tensor_of c = record {
  name = c.name;
  dtype = get "dtype" c.value;
  shape = get "shape" c.value;
  bytes = c.last - c.first;
}

abbrev pub select_one : Candidate → SelectedRanges → SelectedRanges
select_one c s =
    if ltb c.first s.previous_end
    then record {
      tensors = s.tensors;
      tensor_count = s.tensor_count;
      total_tensor_bytes = s.total_tensor_bytes;
      previous_end = s.previous_end;
      invalid_ranges = suc s.invalid_ranges;
    }
    else record {
      tensors = if ltb (length s.tensors) 64 then s.tensors ++ tensor_of c ∷ [] else s.tensors;
      tensor_count = suc s.tensor_count;
      total_tensor_bytes = s.total_tensor_bytes + (c.last - c.first);
      previous_end = c.last;
      invalid_ranges = s.invalid_ranges;
    }

unfoldable pub select : List Candidate → SelectedRanges → SelectedRanges
select [] s = s
select (c ∷ rest) s = select rest (select_one c s)

abbrev pub none_selected : ℕ → SelectedRanges
none_selected invalid = record {
  tensors = [];
  tensor_count = 0;
  total_tensor_bytes = 0;
  previous_end = 0;
  invalid_ranges = invalid;
}

-- The last test, and the result.
unfoldable pub report_selected : ℕ → Bool → SelectedRanges → Option SafetensorsDetails
report_selected header_bytes truncated s =
    if s.tensor_count == 0
    then none
    else some record {
      header_bytes = header_bytes;
      tensor_count = s.tensor_count;
      tensors = s.tensors;
      tensor_bytes = s.total_tensor_bytes;
      invalid_tensor_ranges = s.invalid_ranges;
      payload_available = not truncated && s.invalid_ranges == 0;
    }

-- `8 * 1024 * 1024`
abbrev pub max_header_bytes : ℕ
max_header_bytes = 8388608

module _ (same : Fields → Fields → Bool) (loads : List ℕ → Result (Option Json)) where
  unfoldable pub header_details : ℕ → ℕ → Bool → Fields → Result (Option SafetensorsDetails)
  header_details header_bytes payload truncated header =
      let (candidates, invalid) = collect_ranges payload header in
      sort_candidates same candidates >>= λ ordered.
      ok (report_selected header_bytes truncated (select ordered (none_selected invalid)))

  abbrev pub parsed_details : ℕ → ℕ → Bool → Option Json → Result (Option SafetensorsDetails)
  parsed_details header_bytes payload truncated (some (obj header)) =
      header_details header_bytes payload truncated header
  parsed_details header_bytes payload truncated other = ok none

  -- `_safetensors_details`
  unfoldable pub safetensors_details : List ℕ → Bool → Result (Option SafetensorsDetails)
  safetensors_details bytes truncated =
      let header_bytes = from_little (take 8 bytes) in
      if ltb (length bytes) 10
      then ok none
      else if ltb header_bytes 2
          || ltb max_header_bytes header_bytes
          || ltb (length bytes) (8 + header_bytes)
      then ok none
      else loads (slice bytes 8 (8 + header_bytes))
        >>= parsed_details header_bytes (length bytes - 8 - header_bytes) truncated
