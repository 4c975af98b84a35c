-- ===== src/Protocol/Patterns.antt =====
-- The patterns of the string fields of ditto_screening_protocol/models.py, as tests on code points.
use ditto_screener.Prelude.{
  ℕ, zero, suc, String, Bool, true, false, ◌&&◌, ◌||◌, List, [], ◌∷◌, Option, none, some, length,
  all, codes, len, leb, ◌==◌, nat_equality, text_equality,
}
use ditto_screener.Policy.Hash.{is_hex}

abbrev is_digit : ℕ → Bool
is_digit c = leb b'0' c && leb c b'9'

abbrev is_lower : ℕ → Bool
is_lower c = leb b'a' c && leb c b'z'

abbrev is_upper : ℕ → Bool
is_upper c = leb b'A' c && leb c b'Z'

-- `^[a-z0-9][a-z0-9-]{0,63}$`
abbrev slug_codes : List ℕ → Bool
slug_codes [] = false
slug_codes (c ∷ cs) =
    (is_lower c || is_digit c)
    && all (λ x. is_lower x || is_digit x || x == b'-') cs
    && leb (length cs) 63

unfoldable pub is_slug : String → Bool
is_slug s = slug_codes (codes s)

-- `^[a-zA-Z0-9._-]{1,63}$`
unfoldable pub is_instance_id : String → Bool
is_instance_id s =
    leb 1 (len s)
    && leb (len s) 63
    && all (λ x. is_lower x || is_upper x || is_digit x || x == b'.' || x == b'_' || x == b'-')
        (codes s)

-- `^(?:\*|[a-zA-Z0-9._-]{1,63})$`
unfoldable pub is_scope : String → Bool
unfolding is_instance_id
is_scope s = s == "*" || is_instance_id s

-- The codes behind a prefix, if they begin with it.
strip : List ℕ → List ℕ → Option (List ℕ)
strip [] cs = some cs
strip (p ∷ ps) [] = none
strip (p ∷ ps) (c ∷ cs) = let rest = strip ps cs in elim (p == c) [ true ↦ rest | false ↦ none ]

-- `^sha256:[0-9a-f]{64}$`
unfoldable pub is_image_id : String → Bool
unfolding strip
is_image_id s = elim (strip (codes "sha256:") (codes s)) [
  | none ↦ false
  | some cs ↦ length cs == 64 && all is_hex cs
]

-- `:latest` behind 36 characters of `[0-9a-f-]`
latest : ℕ → List ℕ → Bool
unfolding strip
latest zero cs = elim (strip (codes ":latest") cs) [ some [] ↦ true | _ ↦ false ]
latest (suc n) [] = false
latest (suc n) (c ∷ cs) = let rest = latest n cs in (is_hex c || c == b'-') && rest

-- `^ditto-screen/[0-9a-f-]{36}:latest$`
unfoldable pub is_image_ref : String → Bool
unfolding strip latest
is_image_ref s = elim (strip (codes "ditto-screen/") (codes s)) [
  | none ↦ false
  | some cs ↦ latest 36 cs
]

-- `_SS58_PATTERN`
unfoldable pub is_ss58 : String → Bool
is_ss58 s =
    leb 47 (len s)
    && leb (len s) 48
    && all
        (λ x.
          (leb b'1' x && leb x b'9')
          || (leb b'A' x && leb x b'H')
          || (leb b'J' x && leb x b'N')
          || (leb b'P' x && leb x b'Z')
          || (leb b'a' x && leb x b'k')
          || (leb b'm' x && leb x b'z'))
        (codes s)

-- `_SIGNATURE_HEX_PATTERN`
unfoldable pub is_signature : String → Bool
is_signature s = len s == 128 && all (λ x. is_hex x || (leb b'A' x && leb x b'F')) (codes s)
