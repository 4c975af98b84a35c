-- ===== src/Signals/Comments/Source.antt =====
-- Source text that is given by its tokens, for `_mask_comments`.
use ditto_screener.Prelude.{
  ℕ, ◌≡◌, ◌&&◌, Bool, true, false, not, ◌||◌, List, [], ◌∷◌, ◌++◌, map, All, drop, ◌==◌,
  nat_equality,
}
use ditto_screener.Signals.Comments.{first_is, hash_run, blank, newline, quote_mark}

-- A letter of a string literal, or a backslash with the character that it escapes.
pub data Piece : Type 0 where
  letter : ℕ → Piece
  escape : ℕ → Piece

abbrev pub pieces : List Piece → List ℕ
pieces [] = []
pieces (letter c ∷ ps) = c ∷ pieces ps
pieces (escape c ∷ ps) = b'\\' ∷ c ∷ pieces ps

-- A character that opens nothing; a line comment with its newline; a string; a block comment; a raw
-- string with a number of hashes; a character literal, and one of an escape.
pub data Token : Type 0 where
  plain : ℕ → Token
  line_comment : List ℕ → Token
  string_literal : List Piece → Token
  block_comment : List ℕ → Token
  raw_string : ℕ → List ℕ → Token
  char_literal : ℕ → Token
  escaped_literal : ℕ → Token

abbrev pub print : Token → List ℕ
print (plain c) = c ∷ []
print (line_comment body) = b'/' ∷ b'/' ∷ (body ++ newline ∷ [])
print (string_literal ps) = quote_mark ∷ (pieces ps ++ quote_mark ∷ [])
print (block_comment body) = b'/' ∷ b'*' ∷ (body ++ b'*' ∷ b'/' ∷ [])
print (raw_string n body) =
    b'r' ∷ (hash_run n ++ (quote_mark ∷ (body ++ (quote_mark ∷ hash_run n))))
print (char_literal c) = b'\'' ∷ c ∷ b'\'' ∷ []
print (escaped_literal c) = b'\'' ∷ b'\\' ∷ c ∷ b'\'' ∷ []

-- The token without its comment.
abbrev pub uncommented : Token → List ℕ
uncommented (line_comment body) = map blank (print (line_comment body))
uncommented (block_comment body) = map blank (print (block_comment body))
uncommented token = print token

abbrev pub source : List Token → List ℕ
source [] = []
source (t ∷ ts) = print t ++ source ts

abbrev pub uncommented_source : List Token → List ℕ
uncommented_source [] = []
uncommented_source (t ∷ ts) = uncommented t ++ uncommented_source ts

-- The text behind an `r` or `b` that is the prefix of a string.
abbrev pub opens_string : List ℕ → Bool
opens_string rest = first_is quote_mark rest || first_is b'#' rest

-- A character that opens no comment, string or character literal before what follows it.
abbrev pub opens_nothing : ℕ → List ℕ → Bool
opens_nothing c rest = not (
    c == quote_mark
    || (c == b'/' && (first_is b'/' rest || first_is b'*' rest))
    || (c == b'r' && opens_string rest)
    || (c == b'b' && (opens_string rest || (first_is b'r' rest && opens_string (drop 1 rest))))
    || (c == b'\'' && (first_is b'\'' (drop 1 rest) || first_is b'\'' (drop 2 rest))))

abbrev pub IsPiece : Piece → Type 0
IsPiece (letter c) = (c == quote_mark || c == b'\\') ≡ false
IsPiece (escape c) = Unit

-- No `/*` and no `*/` in the body of a block comment, also none with the closing `*`.
abbrev pub is_flat : List ℕ → Bool
is_flat [] = true
is_flat (c ∷ []) = not (c == b'/')
is_flat (c ∷ d ∷ ds) =
    not (c == b'/' && d == b'*') && not (c == b'*' && d == b'/') && is_flat (d ∷ ds)

-- A token before what follows it.
abbrev pub IsToken : Token → List ℕ → Type 0
IsToken (plain c) rest = opens_nothing c rest ≡ true
IsToken (line_comment body) rest = All (λ c. (c == newline) ≡ false) body
IsToken (string_literal ps) rest = All IsPiece ps
IsToken (block_comment body) rest = is_flat body ≡ true
IsToken (raw_string n body) rest = All (λ c. (c == quote_mark) ≡ false) body
IsToken (char_literal c) rest = Unit
IsToken (escaped_literal c) rest = (c == b'\'') ≡ false

abbrev pub IsSource : List Token → Type 0
IsSource [] = Unit
IsSource (t ∷ ts) = IsToken t (source ts) × IsSource ts
