-- ===== src/Binary/Sample/Prefix.antt =====
-- The sample that `sample_stream` takes of any stream.
use mathlib.Core.List.{append_assoc, append-nil}
use ditto_screener.Prelude.{
  ℕ, zero, suc, ◌-◌, ◌≤◌, ◌<◌, min, ◌≡◌, refl, ap, sym, ◌∙◌, String, true, List, [], ◌∷◌, ◌++◌,
  arith, length, take, ltb, ltb→lt, length-append, Bool-cases, inl, inr, ◌⊎◌, if◌then◌else◌,
}
use ditto_screener.Binary.Sample.{
  max_analyzed_bytes, max_hashed_bytes, read_bytes, BinarySample, Sampled, add_chunk, after_chunk,
  sample_loop, sample_of, sample_stream,
}

-- The prefix grows with what is digested.
take-append :
    (n : ℕ) (xs ys : List ℕ) → take n xs ++ take (n - length (take n xs)) ys ≡ take n (xs ++ ys)
take-append zero xs ys = refl
take-append (suc n) [] ys = let e : suc n - 0 ≡ suc n = omega arith in rw e
take-append (suc n) (x ∷ xs) ys =
    let e : suc n - suc (length (take n xs)) ≡ n - length (take n xs) = omega arith in
    rw e (ap (λ (r : List ℕ). x ∷ r) (take-append n xs ys))

-- The prefix is the front of what was digested, and the count is its length.
abbrev IsSampled : Sampled → Type 0
IsSampled s =
    (s.prefix ≡ take max_analyzed_bytes s.digested)
    × (s.hashed_bytes ≡ length s.digested)
    × (s.hashed_bytes ≤ max_hashed_bytes)

grown :
    (limit : ℕ) (xs chunk : List ℕ)
    → (if ltb 0 (limit - length (take limit xs))
        then take limit xs ++ take (limit - length (take limit xs)) chunk
        else take limit xs)
      ≡ take limit (xs ++ chunk)
grown limit xs chunk = elim (Bool-cases (ltb 0 (limit - length (take limit xs)))) [
  | inl e ↦ rw e (take-append limit xs chunk)
  | inr e ↦
      let z : limit - length (take limit xs) ≡ 0 = ground (arith, e) in
      let t = take-append limit xs chunk in
      let t' : take limit xs ++ take 0 chunk ≡ take limit (xs ++ chunk) = rw z at t in
      rw e (sym (append-nil (take limit xs)) ∙ t')
]

add_chunk-IsSampled :
    (chunk : List ℕ) (s : Sampled)
    → length chunk ≤ max_hashed_bytes - s.hashed_bytes
    → IsSampled s
    → IsSampled (add_chunk chunk s)
add_chunk-IsSampled chunk s short (p, n, m) = (
  rw p (grown max_analyzed_bytes s.digested chunk),
  omega (arith, n, length-append s.digested chunk),
  omega arith,
)

some_room :
    (hashed size : ℕ)
    → ltb hashed (min size max_hashed_bytes) ≡ true
    → 0 < min read_bytes (max_hashed_bytes - hashed)
some_room hashed size h = omega (arith, ltb→lt hashed (min size max_hashed_bytes) h)

no_bytes : (xs : List ℕ) → length xs ≡ 0 → xs ≡ []
no_bytes [] h = refl
no_bytes (x ∷ xs) h = absurd (omega (arith, h))

-- What the sample relies on of `read`: it returns the front of the rest, no more than it was asked for,
-- and nothing only at the end.
pub record Reads {W : Type 0} (read : ℕ → W → List ℕ × W) (rest : W → List ℕ) : Type 0 where
  pub front : (n : ℕ) (w : W) → (read n w).0 ++ rest (read n w).1 ≡ rest w
  pub at_most : (n : ℕ) (w : W) → length (read n w).0 ≤ n
  pub ends : (n : ℕ) (w : W) → 0 < n → (read n w).0 ≡ [] → rest (read n w).1 ≡ []

module _ {W : Type 0} (read : ℕ → W → List ℕ × W) (rest : W → List ℕ) (reads : Reads read rest)
    (size : ℕ) (content : List ℕ) where
  abbrev OnContent : Sampled × W → Type 0
  OnContent (s, w) = IsSampled s × (s.digested ++ rest w ≡ content)

  -- The loop ended by its test or at the end of the stream.
  abbrev Ended : Sampled × W → Type 0
  Ended (s, w) = OnContent (s, w) × ((min size max_hashed_bytes ≤ s.hashed_bytes) ⊎ (rest w ≡ []))

  after_chunk-Ended :
      (s : Sampled) (chunk : List ℕ) (w : W) (go_on : Sampled → W → Sampled × W)
      → IsSampled s
      → s.digested ++ (chunk ++ rest w) ≡ content
      → length chunk ≤ max_hashed_bytes - s.hashed_bytes
      → (chunk ≡ [] → rest w ≡ [])
      → ((s' : Sampled) (w' : W)
          → OnContent (s', w')
          → s.hashed_bytes < s'.hashed_bytes
          → Ended (go_on s' w'))
      → Ended (after_chunk s (chunk, w) go_on)
  after_chunk-Ended s [] w go_on h e short at_end go = ((h, e), inr (at_end refl))
  after_chunk-Ended s (b ∷ chunk) w go_on h e short at_end go =
      go (add_chunk (b ∷ chunk) s) w
        (
          add_chunk-IsSampled (b ∷ chunk) s short h,
          append_assoc s.digested (b ∷ chunk) (rest w) ∙ e,
        )
        (omega arith)

  sample_loop-Ended :
      (fuel : ℕ) (s : Sampled) (w : W)
      → min size max_hashed_bytes - s.hashed_bytes < fuel
      → OnContent (s, w)
      → Ended (sample_loop read size fuel s w)
  unfolding sample_loop
  sample_loop-Ended zero s w enough h = absurd (omega arith)
  sample_loop-Ended (suc fuel) s w enough (h, e) =
      let n = min read_bytes (max_hashed_bytes - s.hashed_bytes) in
      elim (Bool-cases (ltb s.hashed_bytes (min size max_hashed_bytes))) [
        | inr q ↦ rw q ((h, e), inl (ground (arith, q)))
        | inl q ↦ rw q (
            after_chunk-Ended s (read n w).0 (read n w).1 (sample_loop read size fuel) h
              (ap (λ (r : List ℕ). s.digested ++ r) (reads.front n w) ∙ e)
              (omega (arith, reads.at_most n w)) (reads.ends n w (some_room s.hashed_bytes size q))
              (λ s' w' h' m.
                sample_loop-Ended fuel s' w'
                  (omega (arith, m, enough, ltb→lt s.hashed_bytes (min size max_hashed_bytes) q))
                  h'))
      ]

-- What the sample says of the stream's content.
abbrev pub IsSampleOf : (List ℕ → String) → List ℕ → BinarySample → Type 0
IsSampleOf sha256 content sample =
    (sample.bytes ≡ take max_analyzed_bytes content)
    × (sample.hashed_bytes ≡ length content)
    × (sample.sha256 ≡ sha256 content)

-- A member of the archive of at most 32 MiB is hashed whole, also over short reads: if the stream has
-- as many bytes as the archive says, the digest and the count are the content's, and the sample holds
-- its first 8 MiB.
pub sample_stream-IsSampleOf :
    {W : Type 0} (read : ℕ → W → List ℕ × W) (rest : W → List ℕ) (reads : Reads read rest)
    (sha256 : List ℕ → String) (w : W)
    → length (rest w) ≤ max_hashed_bytes
    → IsSampleOf sha256 (rest w) (sample_stream read (length (rest w)) sha256 w).0
unfolding sample_stream
sample_stream-IsSampleOf {W} read rest reads sha256 w fits =
    let size = length (rest w) in
    let start : Sampled = record { digested = []; hashed_bytes = 0; prefix = [] } in
    let ended =
      sample_loop-Ended read rest reads size (rest w) (suc (min size max_hashed_bytes)) start w
        (omega arith) ((refl, refl, omega arith), refl) in
    of (sample_loop read size (suc (min size max_hashed_bytes)) start w) ended
  where
    of :
        (p : Sampled × W)
        → Ended read rest reads (length (rest w)) (rest w) p
        → IsSampleOf sha256 (rest w) (sample_of read (length (rest w)) sha256 p.0)
    of (s, w') (((p, n, m), e), ended) =
        let l : length (s.digested ++ rest w') ≡ length (rest w) =
          ap (λ (r : List ℕ). length r) e in
        let empty : rest w' ≡ [] = elim ended [
          | inl enough ↦
              no_bytes (rest w')
                (omega (arith, length-append s.digested (rest w'), l, n, enough, fits))
          | inr at_end ↦ at_end
        ] in
        let whole : s.digested ≡ rest w = sym (append-nil s.digested) ∙ rw (← empty) e in
        (rw (← whole) p, rw (← whole) n, ap sha256 whole)
