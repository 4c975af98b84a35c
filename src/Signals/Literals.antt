-- ===== src/Signals/Literals.antt =====
-- `_mask_string_literals` of ditto_screener/source_signals.py. Behind an index the text is as it was,
-- so a round takes the text from there and puts out what stands in front of the next index.
pub mod Layout
use ditto_screener.Prelude.{
  ℕ, zero, suc, Bool, true, false, not, ◌||◌, ◌&&◌, Option, none, some, List, [], ◌∷◌, ◌++◌, length,
  take, drop, ◌==◌, nat_equality, if◌then◌else◌,
}
use ditto_screener.Binary.Bytes.{starts_with}

-- `quote` is not None, with `quote_width == 3` and `escaped`.
pub record Quoted : Type 0 where
  pub quote : ℕ
  pub is_triple : Bool
  pub escaped : Bool

abbrev pub back_tick : ℕ
back_tick = 96

-- `char in {'"', "'", "`"}`
abbrev pub is_quote : ℕ → Bool
is_quote c = c == 34 || c == 39 || c == back_tick

-- `text[index : index + 3] == char * 3`
abbrev pub three_of : ℕ → List ℕ → Bool
three_of c text = starts_with (c ∷ c ∷ c ∷ []) text

-- `" "`, except for a line's end
abbrev pub blank_in_quotes : ℕ → ℕ
blank_in_quotes c = if c == 13 || c == 10 then c else b' '

-- What a round puts out, how many characters it goes over, and the state behind.
pub record LiteralRound : Type 0 where
  pub out : List ℕ
  pub width : ℕ
  pub state : Option Quoted

abbrev pub spaces : ℕ → List ℕ
spaces zero = []
spaces (suc n) = b' ' ∷ spaces n

abbrev pub open_quote : ℕ → Bool → LiteralRound
open_quote c is_triple =
    let width = if is_triple then 3 else 1 in
    record {
      out = spaces width;
      width = width;
      state = some record { quote = c; is_triple = is_triple; escaped = false };
    }

-- The state behind a character in quotes.
abbrev pub quoted_state : ℕ → Quoted → Option Quoted
quoted_state c q =
    if q.escaped
    then some record { quote = q.quote; is_triple = q.is_triple; escaped = false }
    else if c == 92 && not (q.quote == back_tick) && not q.is_triple
    then some record { quote = q.quote; is_triple = q.is_triple; escaped = true }
    else if not q.is_triple && c == q.quote
    then none
    else some q

-- One round at a character.
abbrev pub literal_round : Option Quoted → ℕ → List ℕ → LiteralRound
literal_round none c cs =
    if is_quote c
    then open_quote c (not (c == back_tick) && three_of c (c ∷ cs))
    else record { out = c ∷ []; width = 1; state = none }
literal_round (some q) c cs =
    if q.is_triple && three_of q.quote (c ∷ cs)
    then record { out = spaces 3; width = 3; state = none }
    else record { out = blank_in_quotes c ∷ []; width = 1; state = quoted_state c q }

-- The rounds of the `while`.
unfoldable pub literals_loop : ℕ → Option Quoted → List ℕ → List ℕ
literals_loop zero state text = text
literals_loop (suc fuel) state [] = []
literals_loop (suc fuel) state (c ∷ cs) =
    let round = literal_round state c cs in
    round.out ++ literals_loop fuel round.state (drop round.width (c ∷ cs))

-- `_mask_string_literals`: each round goes over a character or more.
unfoldable pub mask_string_literals : List ℕ → List ℕ
mask_string_literals text = literals_loop (length text) none text
