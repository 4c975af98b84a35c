-- ===== src/Binary/Safetensors/Report.antt =====
-- What `_safetensors_details` reports of any bytes.
use mathlib.Core.Path.{subst}
use ditto_screener.Prelude.{
  ℕ, ◌+◌, ◌-◌, ◌≤◌, min, Bool, not, ◌&&◌, ◌||◌, Option, none, some, List, ◌≡◌, ◌⊎◌, refl, ap, arith,
  length, take, ltb, ◌==◌, text_equality, nat_equality, Bool-cases, inl, inr,
}
use ditto_screener.Prelude.Results.{
  Exn, type_error, Result, ok, raised, ◌>>=◌, OkOr, >>=-OkOr, OkOr-allow,
}
use ditto_screener.Json.{Json, obj, Fields}
use ditto_screener.Binary.Bytes.{slice, from_little}
use ditto_screener.Binary.Safetensors.{
  max_header_bytes, parsed_details, safetensors_details, SafetensorsDetails, collect_ranges,
  sort_candidates, SelectedRanges, select, none_selected, report_selected, header_details,
}
use ditto_screener.Binary.Safetensors.Ranges.{
  tensor_entries, collect_ranges-IsCollected, KeptBy, sort_candidates-KeptBy, IsSelected,
  select-IsSelected, Tie,
}

-- What is reported of a header of `header_bytes` bytes in a file of `size` bytes.
abbrev pub IsReport : ℕ → ℕ → Bool → Fields → SafetensorsDetails → Type 0
IsReport header_bytes size truncated header d =
    (d.header_bytes ≡ header_bytes)
    × (1 ≤ d.tensor_count)
    × (8 + d.header_bytes + d.tensor_bytes ≤ size)
    × (length d.tensors ≡ min 64 d.tensor_count)
    × (d.tensor_count + d.invalid_tensor_ranges ≡ tensor_entries header)
    × (d.payload_available ≡ (not truncated && d.tensor_count == tensor_entries header))

abbrev pub ReportOf : ℕ → ℕ → Bool → Fields → Option SafetensorsDetails → Type 0
ReportOf header_bytes size truncated header none = Unit
ReportOf header_bytes size truncated header (some d) = IsReport header_bytes size truncated header d

report_selected-ReportOf :
    (header_bytes payload size : ℕ) (truncated : Bool) (header : Fields) (s : SelectedRanges)
    → 8 + header_bytes + payload ≡ size
    → IsSelected payload (tensor_entries header) s
    → ReportOf header_bytes size truncated header (report_selected header_bytes truncated s)
unfolding report_selected
report_selected-ReportOf header_bytes payload size truncated header s e (t, p, n, c) =
    elim (Bool-cases (s.tensor_count == 0)) [
      | inl q ↦ rw q tt
      | inr q ↦ rw q (
        refl,
        ground (arith, q),
        omega arith,
        n,
        c,
        ap (λ (b : Bool). not truncated && b) (all_valid s.tensor_count s.invalid_ranges _ c),
      )
    ]
  where
    all_valid : (a b n : ℕ) → a + b ≡ n → (b == 0) ≡ (a == n)
    all_valid a b n h = ground (arith, h)

module _ (same : Fields → Fields → Bool) where
  header_details-ReportOf :
      (loads : List ℕ → Result (Option Json)) (header_bytes payload size : ℕ) (truncated : Bool)
      (header : Fields)
      → 8 + header_bytes + payload ≡ size
      → OkOr Tie
          (ReportOf header_bytes size truncated header)
          (header_details same loads header_bytes payload truncated header)
  unfolding header_details
  header_details-ReportOf loads header_bytes payload size truncated header e =
      let (within, count) = collect_ranges-IsCollected payload header in
      >>=-OkOr Tie (KeptBy payload (length (collect_ranges payload header).0))
        (ReportOf header_bytes size truncated header)
        (sort_candidates same (collect_ranges payload header).0)
        (λ ordered. ok (
          report_selected header_bytes truncated
            (select ordered (none_selected (collect_ranges payload header).1))))
        (sort_candidates-KeptBy same payload (collect_ranges payload header).0 within)
        (λ ordered (w, n).
          report_selected-ReportOf header_bytes payload size truncated header
            (select ordered (none_selected (collect_ranges payload header).1)) e
            (subst
              (λ (k : ℕ).
                IsSelected payload k
                  (select ordered (none_selected (collect_ranges payload header).1)))
              (omega (arith, count, n))
              (select-IsSelected payload (collect_ranges payload header).1 ordered
                (none_selected (collect_ranges payload header).1) w (omega arith))))

module _ (same : Fields → Fields → Bool) (loads : List ℕ → Result (Option Json))
    (bytes : List ℕ) where
  -- The bytes of the header.
  abbrev pub header_text : ℕ → List ℕ
  header_text header_bytes = slice bytes 8 (8 + header_bytes)

  abbrev pub FoundIn : Bool → Option SafetensorsDetails → Type 0
  FoundIn truncated none = Unit
  FoundIn truncated (some d) =
      (2 ≤ d.header_bytes)
      × (d.header_bytes ≤ max_header_bytes)
      × (header : Fields) × (loads (header_text d.header_bytes) ≡ ok (some (obj header)))
      × IsReport d.header_bytes (length bytes) truncated header d

  -- What the inspection may raise.
  abbrev pub MayRaise : Exn → Type 0
  MayRaise exn =
      (exn ≡ type_error) ⊎ (loads (header_text (from_little (take 8 bytes))) ≡ raised exn)

  header_found :
      (header_bytes : ℕ) (truncated : Bool) (header : Fields) (o : Option SafetensorsDetails)
      → 2 ≤ header_bytes
      → header_bytes ≤ max_header_bytes
      → loads (header_text header_bytes) ≡ ok (some (obj header))
      → ReportOf header_bytes (length bytes) truncated header o
      → FoundIn truncated o
  header_found header_bytes truncated header none low high e h = tt
  header_found header_bytes truncated header (some d) low high e (q, h1, h2, h3, h4, h5) =
      let e' : loads (header_text d.header_bytes) ≡ ok (some (obj header)) = rw q e in
      (omega arith, omega arith, header, e', (refl, h1, h2, h3, h4, h5))

  parsed_details-FoundIn :
      (header_bytes : ℕ) (truncated : Bool) (o : Option Json)
      → 2 ≤ header_bytes
      → header_bytes ≤ max_header_bytes
      → 8 + header_bytes ≤ length bytes
      → loads (header_text header_bytes) ≡ ok o
      → OkOr Tie
          (FoundIn truncated)
          (parsed_details same loads header_bytes (length bytes - 8 - header_bytes) truncated o)
  parsed_details-FoundIn header_bytes truncated (some (obj header)) low high fits e =
      found
        (header_details same loads header_bytes (length bytes - 8 - header_bytes) truncated header)
        (header_details-ReportOf same loads header_bytes (length bytes - 8 - header_bytes)
          (length bytes) truncated header (omega arith))
    where
      found :
          (r : Result (Option SafetensorsDetails))
          → OkOr Tie (ReportOf header_bytes (length bytes) truncated header) r
          → OkOr Tie (FoundIn truncated) r
      found (raised exn) h = h
      found (ok o) h = header_found header_bytes truncated header o low high e h
  parsed_details-FoundIn header_bytes truncated o low high fits e = tt

  loaded_details-FoundIn :
      (truncated : Bool) (r : Result (Option Json))
      → 2 ≤ from_little (take 8 bytes)
      → from_little (take 8 bytes) ≤ max_header_bytes
      → 8 + from_little (take 8 bytes) ≤ length bytes
      → loads (header_text (from_little (take 8 bytes))) ≡ r
      → OkOr MayRaise (FoundIn truncated) (
          r
          >>= parsed_details same loads
              (from_little (take 8 bytes))
              (length bytes - 8 - from_little (take 8 bytes))
              truncated)
  loaded_details-FoundIn truncated (raised exn) low high fits e = inr e
  loaded_details-FoundIn truncated (ok o) low high fits e =
      OkOr-allow Tie MayRaise (FoundIn truncated)
        (parsed_details same loads (from_little (take 8 bytes))
          (length bytes - 8 - from_little (take 8 bytes)) truncated o)
        (λ exn tie. inl tie)
        (parsed_details-FoundIn (from_little (take 8 bytes)) truncated o low high fits e)

  pub safetensors_details-FoundIn :
      (truncated : Bool)
      → OkOr MayRaise (FoundIn truncated) (safetensors_details same loads bytes truncated)
  unfolding safetensors_details
  safetensors_details-FoundIn truncated =
      let header_bytes = from_little (take 8 bytes) in
      elim (Bool-cases (ltb (length bytes) 10)) [
        | inl e ↦ rw e tt
        | inr e ↦
            rw e
              (elim (Bool-cases (
                ltb header_bytes 2
                || ltb max_header_bytes header_bytes
                || ltb (length bytes) (8 + header_bytes))) [
                  | inl e' ↦ rw e' tt
                  | inr e' ↦ rw e' (
                      loaded_details-FoundIn truncated (loads (header_text header_bytes))
                        (ground (arith, e')) (ground (arith, e')) (ground (arith, e')) refl)
                ])
      ]
