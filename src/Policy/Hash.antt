-- ===== src/Policy/Hash.antt =====
-- `hashlib.sha256(payload).hexdigest()`: the hash function itself is a parameter of the model. What
-- is assumed of it is the form of a digest, which `_is_sha256` tests.
use ditto_screener.Prelude.{
  ℕ, ◌≡◌, String, Bool, true, List, ◌&&◌, ◌||◌, all, codes, len, leb, ◌==◌, nat_equality,
}

-- `set(value) <= _SHA256_HEX`, by character
abbrev pub is_hex : ℕ → Bool
is_hex c = (leb b'0' c && leb c b'9') || (leb b'a' c && leb c b'f')

unfoldable pub is_sha256 : String → Bool
is_sha256 value = len value == 64 && all is_hex (codes value)

pub record Hashlib : Type 0 where
  pub hexdigest : List ℕ → String
  pub hexdigest-is_sha256 : (payload : List ℕ) → is_sha256 (hexdigest payload) ≡ true
