-- ===== src/Signals/Comments.antt =====
-- `_mask_comments` of ditto_screener/source_signals.py. At each index the scanner looks only forward,
-- so a round takes the text from there: it blanks or keeps some characters and goes on behind them.
pub mod Layout
pub mod Source
pub mod Spans
pub mod Tokens
pub mod Hidden
use ditto_screener.Prelude.{
  ℕ, zero, suc, ◌+◌, ◌-◌, Bool, true, false, not, ◌||◌, ◌&&◌, Option, none, some, List, [], ◌∷◌,
  ◌++◌, map, length, take, drop, get_elem?, ◌==◌, nat_equality, if◌then◌else◌,
}
use ditto_screener.Binary.Bytes.{same_bytes, starts_with}

abbrev pub quote_mark : ℕ
quote_mark = 34

abbrev pub newline : ℕ
newline = 10

-- `text[cursor] == c`, where there is such a character
abbrev pub first_is : ℕ → List ℕ → Bool
first_is c [] = false
first_is c (x ∷ xs) = x == c

-- `text.startswith("//", index)`, `"/*"`, `"*/"`
abbrev pub at_line_comment : List ℕ → Bool
at_line_comment text = starts_with (b'/' ∷ b'/' ∷ []) text

abbrev pub at_block_open : List ℕ → Bool
at_block_open text = starts_with (b'/' ∷ b'*' ∷ []) text

abbrev pub at_block_close : List ℕ → Bool
at_block_close text = starts_with (b'*' ∷ b'/' ∷ []) text

-- A blanked character: newlines stay.
abbrev pub blank : ℕ → ℕ
blank c = if c == newline then newline else b' '

-- The characters before the next newline, or all.
abbrev pub to_newline : List ℕ → ℕ
to_newline [] = 0
to_newline (c ∷ cs) = let rest = to_newline cs in if c == newline then 0 else suc rest

-- How far the cursor goes in a block comment at a depth, and the depth behind.
abbrev pub block_width : List ℕ → ℕ
block_width text = if at_block_open text || at_block_close text then 2 else 1

abbrev pub block_depth : ℕ → List ℕ → ℕ
block_depth depth text =
    if at_block_open text then suc (suc depth) else if at_block_close text then depth else suc depth

-- `while cursor < length and depth`
unfoldable pub block_loop : ℕ → ℕ → List ℕ → ℕ
block_loop zero depth text = 0
block_loop (suc fuel) zero text = 0
block_loop (suc fuel) (suc depth) [] = 0
block_loop (suc fuel) (suc depth) (c ∷ cs) =
    block_width (c ∷ cs)
    + block_loop fuel (block_depth depth (c ∷ cs)) (drop (block_width (c ∷ cs)) (c ∷ cs))

-- The `#` at the cursor.
abbrev pub count_hashes : List ℕ → ℕ
count_hashes [] = 0
count_hashes (c ∷ cs) = let rest = count_hashes cs in if c == b'#' then suc rest else 0

abbrev pub hash_run : ℕ → List ℕ
hash_run zero = []
hash_run (suc n) = b'#' ∷ hash_run n

-- `text.find(terminator)` and behind it, or the end of the text
abbrev pub behind : List ℕ → List ℕ → ℕ
behind terminator [] = 0
behind terminator (c ∷ cs) =
    let rest = behind terminator cs in
    if starts_with terminator (c ∷ cs) then length terminator else suc rest

-- A raw string's width from its prefix on, where there is a quote behind the prefix and the hashes.
abbrev pub raw_from : ℕ → List ℕ → Option ℕ
raw_from prefix text =
    let hashes = count_hashes (drop prefix text) in
    let cursor = prefix + hashes in
    if first_is quote_mark (drop cursor text)
    then some (suc cursor + behind (quote_mark ∷ hash_run hashes) (drop (suc cursor) text))
    else none

abbrev pub at_br : List ℕ → Bool
at_br text = starts_with (b'b' ∷ b'r' ∷ []) text

-- `char in {"r", "b"} or text.startswith("br", index)`
unfoldable pub raw_width : List ℕ → Option ℕ
raw_width text =
    if first_is b'r' text || first_is b'b' text || at_br text
    then raw_from (if at_br text then 2 else 1) text
    else none

-- Behind the opening quote of a string: to the closing one, with escapes. `escaped` skips the
-- character behind a backslash.
abbrev pub string_rest : Bool → List ℕ → ℕ
string_rest escaped [] = 0
string_rest true (c ∷ cs) = suc (string_rest false cs)
string_rest false (c ∷ cs) =
    let rest = string_rest (c == b'\\') cs in if c == quote_mark then 1 else suc rest

-- `text[index + span - 1 : index + span] == "'"`
abbrev pub closes_at : ℕ → List ℕ → Bool
closes_at offset text = first_is b'\'' (drop offset text)

abbrev pub char_width : List ℕ → ℕ
char_width text = if closes_at 2 text then 3 else if closes_at 3 text then 4 else 1

-- What a round does with how many characters.
pub data Span : Type 0 where
  blanked : ℕ → Span
  kept : ℕ → Span

abbrev pub behind_raw : List ℕ → Option ℕ → Span
behind_raw text (some width) = kept width
behind_raw text none =
    if first_is quote_mark text
    then kept (suc (string_rest false (drop 1 text)))
    else if first_is b'\'' text
    then kept (char_width text)
    else kept 1

-- One round, at a text that is not empty.
unfoldable pub next_span : List ℕ → Span
next_span text =
    if at_line_comment text
    then blanked (to_newline text)
    else if at_block_open text
    then blanked (2 + block_loop (length text) 1 (drop 2 text))
    else behind_raw text (raw_width text)

abbrev pub emit : Span → List ℕ → List ℕ
emit (blanked n) text = map blank (take n text)
emit (kept n) text = take n text

abbrev pub behind_span : Span → List ℕ → List ℕ
behind_span (blanked n) text = drop n text
behind_span (kept n) text = drop n text

-- The rounds of the `while`.
unfoldable pub mask_loop : ℕ → List ℕ → List ℕ
mask_loop zero text = text
mask_loop (suc fuel) [] = []
mask_loop (suc fuel) (c ∷ cs) =
    emit (next_span (c ∷ cs)) (c ∷ cs) ++ mask_loop fuel (behind_span (next_span (c ∷ cs)) (c ∷ cs))

-- `_mask_comments`: a round consumes a character or more.
unfoldable pub mask_comments : List ℕ → List ℕ
mask_comments text = mask_loop (length text) text
