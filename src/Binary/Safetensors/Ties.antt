-- ===== src/Binary/Safetensors/Ties.antt =====
-- Ties in `sorted(candidates)` of `_safetensors_details`.
use ditto_screener.Prelude.{
  ℕ, String, codes, Bool, false, Option, some, List, [], ◌∷◌, ◌≡◌, refl, arith, take, ltb, ◌==◌,
  text_equality,
}
use Prim.Native.Nat.{Ordering}
use ditto_screener.Prelude.Results.{type_error, Result, raised}
use ditto_screener.Json.{Json, obj, Fields, field, end, get}
use ditto_screener.Binary.Safetensors.{
  Candidate, range_of, entry, collect_ranges, compare_codes, compare_counts, compare_keys, tuple_lt,
  insert_candidate, sort_candidates, header_details,
}

compare_counts_self : (n : ℕ) → compare_counts n n ≡ Ordering.eq
compare_counts_self n = let e : ltb n n ≡ false = ground arith in rw e

compare_codes_self : (xs : List ℕ) → compare_codes xs xs ≡ Ordering.eq
unfolding compare_codes
compare_codes_self [] = refl
compare_codes_self (x ∷ xs) = let e : ltb x x ≡ false = ground arith in rw e (compare_codes_self xs)

abbrev made : ℕ → ℕ → List ℕ → Fields → Candidate
made first last name value = record { first = first; last = last; name = name; value = value }

collect_ranges_end : (payload : ℕ) → collect_ranges payload end ≡ ([], 0)
unfolding collect_ranges
collect_ranges_end payload = refl

compare_keys_self :
    (first last : ℕ) (name : List ℕ) (v w : Fields)
    → compare_keys (made first last name v) (made first last name w) ≡ Ordering.eq
compare_keys_self first last name v w =
    cc (compare_counts_self first, compare_counts_self last, compare_codes_self name)

entry-some :
    (payload : ℕ) (name : String) (v : Fields) (cs : List Candidate) (invalid first last : ℕ)
    → range_of payload (get "data_offsets" v) ≡ some (first, last)
    → entry payload name v (cs, invalid) ≡ (made first last (take 160 (codes name)) v ∷ cs, invalid)
entry-some payload name v cs invalid first last h = rw (h, entry)

collect_tensor :
    (payload : ℕ) (name : String) (v rest : Fields) (cs : List Candidate) (invalid first last : ℕ)
    → (name == "__metadata__") ≡ false
    → range_of payload (get "data_offsets" v) ≡ some (first, last)
    → collect_ranges payload rest ≡ (cs, invalid)
    → collect_ranges payload (field name (obj v) rest)
      ≡ (made first last (take 160 (codes name)) v ∷ cs, invalid)
unfolding collect_ranges
collect_tensor payload name v rest cs invalid first last n h e =
    rw (n, e) (entry-some payload name v cs invalid first last h)

module _ (same : Fields → Fields → Bool) where
  tuple_lt_tie :
      (a b : Candidate)
      → compare_keys a b ≡ Ordering.eq
      → same a.value b.value ≡ false
      → tuple_lt same a b ≡ raised type_error
  tuple_lt_tie a b e h = rw (e, tuple_lt, h)

  sort_candidates_tie :
      (a b : Candidate)
      → compare_keys b a ≡ Ordering.eq
      → same b.value a.value ≡ false
      → sort_candidates same (a ∷ b ∷ []) ≡ raised type_error
  unfolding sort_candidates insert_candidate
  sort_candidates_tie a b e h = rw (tuple_lt_tie b a e h)

  -- Two tensors of one range, with names that share their first 160 code points and with dicts that
  -- differ, make the inspection of the header raise a TypeError.
  pub header_details_tie :
      (loads : List ℕ → Result (Option Json)) (header_bytes payload first last : ℕ)
      (truncated : Bool) (m n : String) (v w : Fields)
      → (m == "__metadata__") ≡ false
      → (n == "__metadata__") ≡ false
      → take 160 (codes m) ≡ take 160 (codes n)
      → range_of payload (get "data_offsets" v) ≡ some (first, last)
      → range_of payload (get "data_offsets" w) ≡ some (first, last)
      → same w v ≡ false
      → header_details same loads header_bytes payload truncated
          (field m (obj v) (field n (obj w) end))
        ≡ raised type_error
  unfolding header_details
  header_details_tie loads header_bytes payload first last truncated m n v w hm hn names hv hw h =
      let c =
        collect_tensor payload m v (field n (obj w) end)
          (made first last (take 160 (codes n)) w ∷ []) 0 first last hm hv
          (collect_tensor payload n w end [] 0 first last hn hw (collect_ranges_end payload)) in
      rw (
        c,
        names,
        sort_candidates_tie (made first last (take 160 (codes n)) v)
            (made first last (take 160 (codes n)) w)
            (compare_keys_self first last (take 160 (codes n)) w v) h,
      )
