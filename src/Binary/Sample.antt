-- ===== src/Binary/Sample.antt =====
-- `BinarySample` and `sample_stream` of ditto_screener/binary_analysis.py. `read` stands for the
-- stream's `read` on its state, and `sha256` for the digest of what was hashed.
pub mod Prefix
use ditto_screener.Prelude.{
  ℕ, zero, suc, ◌+◌, ◌-◌, min, String, Bool, true, false, List, [], ◌∷◌, ◌++◌, length, take,
  is_empty, leb, ltb, if◌then◌else◌,
}

-- `_MAX_ANALYZED_BYTES`, `_MAX_HASHED_BYTES`, and the bytes of one read
abbrev pub max_analyzed_bytes : ℕ
max_analyzed_bytes = 8388608

abbrev pub max_hashed_bytes : ℕ
max_hashed_bytes = 33554432

abbrev pub read_bytes : ℕ
read_bytes = 1048576

pub record BinarySample : Type 0 where
  pub bytes : List ℕ
  pub size : ℕ
  pub sha256 : String
  pub hashed_bytes : ℕ

-- The properties `truncated` and `hash_complete`.
abbrev pub is_truncated : BinarySample → Bool
is_truncated s = ltb (length s.bytes) s.size

abbrev pub hash_complete : BinarySample → Bool
hash_complete s = leb s.size s.hashed_bytes

-- The loop's variables: what went into the digest, its count, and the prefix.
pub record Sampled : Type 0 where
  pub digested : List ℕ
  pub hashed_bytes : ℕ
  pub prefix : List ℕ

-- What a chunk that is not empty adds.
abbrev pub add_chunk : List ℕ → Sampled → Sampled
add_chunk chunk s = record {
  digested = s.digested ++ chunk;
  hashed_bytes = s.hashed_bytes + length chunk;
  prefix =
      if ltb 0 (max_analyzed_bytes - length s.prefix)
      then s.prefix ++ take (max_analyzed_bytes - length s.prefix) chunk
      else s.prefix;
}

-- A read's chunk: the loop ends at an empty one.
abbrev pub after_chunk :
    {W : Type 0} → Sampled → List ℕ × W → (Sampled → W → Sampled × W) → Sampled × W
after_chunk s (chunk, w) go_on = if is_empty chunk then (s, w) else go_on (add_chunk chunk s) w

module _ {W : Type 0} (read : ℕ → W → List ℕ × W) (size : ℕ) where
  -- The rounds of the `while`.
  unfoldable pub sample_loop : ℕ → Sampled → W → Sampled × W
  sample_loop zero s w = (s, w)
  sample_loop (suc fuel) s w =
      if ltb s.hashed_bytes (min size max_hashed_bytes)
      then after_chunk s (read (min read_bytes (max_hashed_bytes - s.hashed_bytes)) w)
          (sample_loop fuel)
      else (s, w)

  abbrev pub sample_of : (List ℕ → String) → Sampled → BinarySample
  sample_of sha256 s = record {
    bytes = s.prefix;
    size = size;
    sha256 = sha256 s.digested;
    hashed_bytes = s.hashed_bytes;
  }

  -- `sample_stream`: a round adds a byte or more, and the last may start one byte below the limit.
  unfoldable pub sample_stream : (List ℕ → String) → W → BinarySample × W
  sample_stream sha256 w =
      let (s, w') =
        sample_loop (suc (min size max_hashed_bytes))
          record { digested = []; hashed_bytes = 0; prefix = [] } w in
      (sample_of sha256 s, w')
