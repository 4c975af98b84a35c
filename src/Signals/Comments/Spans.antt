-- ===== src/Signals/Comments/Spans.antt =====
-- What a round of `_mask_comments` takes at the front of each token.
use ditto_screener.Prelude.{
  if◌then◌else◌, Option, ℕ, zero, suc, ◌+◌, ◌<◌, ◌≡◌, refl, ap, none, Bool-cases, inl, inr, ◌∙◌,
  Bool, true, false, ◌||◌, List, [], ◌∷◌, ◌++◌, All, arith, length, drop, length-append, ◌==◌,
  nat_equality, nat_eqb,
}
use ditto_screener.Binary.Bytes.{starts_with}
use ditto_screener.Signals.Comments.{
  at_br, first_is, at_line_comment, at_block_open, at_block_close, count_hashes, hash_run, raw_from,
  newline, quote_mark, to_newline, block_loop, raw_width, string_rest, blanked, kept, next_span,
  behind,
}
use ditto_screener.Signals.Comments.Source.{
  Piece, letter, escape, pieces, opens_string, opens_nothing, IsPiece, is_flat,
}

hash_free : (xs : List ℕ) → opens_string xs ≡ false → count_hashes xs ≡ 0
hash_free [] h = refl
hash_free (x ∷ xs) h = let e : (x == b'#') ≡ false = ground (arith, h) in rw e refl

add_nothing : (n : ℕ) → n + 0 ≡ n
add_nothing n = omega arith

no_raw :
    (prefix : ℕ) (text : List ℕ)
    → opens_string (drop prefix text) ≡ false
    → raw_from prefix text ≡ none
no_raw prefix text h =
    let q : first_is quote_mark (drop prefix text) ≡ false = ground (arith, h) in
    rw (hash_free (drop prefix text) h, add_nothing prefix, q) refl

when_wanted : (b : Bool) (o : Option ℕ) → (b ≡ true → o ≡ none) → (if b then o else none) ≡ none
when_wanted true o h = h refl
when_wanted false o h = refl

no_br :
    (c : ℕ) (rest : List ℕ)
    → opens_nothing c rest ≡ true
    → at_br (c ∷ rest) ≡ true
    → opens_string (drop 1 rest) ≡ false
no_br c [] h br = refl
no_br c (d ∷ ds) h br = ground (arith, h, br)

no_prefix :
    (c : ℕ) (rest : List ℕ)
    → opens_nothing c rest ≡ true
    → (c == b'r' || c == b'b' || at_br (c ∷ rest)) ≡ true
    → at_br (c ∷ rest) ≡ false
    → opens_string rest ≡ false
no_prefix c rest h wanted br = ground (arith, h, wanted, br)

no_raw_width : (c : ℕ) (rest : List ℕ) → opens_nothing c rest ≡ true → raw_width (c ∷ rest) ≡ none
unfolding raw_width
no_raw_width c rest h =
    when_wanted (c == b'r' || c == b'b' || at_br (c ∷ rest))
      (raw_from (if at_br (c ∷ rest) then 2 else 1) (c ∷ rest))
      (λ wanted. elim (Bool-cases (at_br (c ∷ rest))) [
        | inl br ↦
            ap (λ (b : Bool). raw_from (if b then 2 else 1) (c ∷ rest)) br
            ∙ no_raw 2 (c ∷ rest) (no_br c rest h br)
        | inr br ↦
            ap (λ (b : Bool). raw_from (if b then 2 else 1) (c ∷ rest)) br
            ∙ no_raw 1 (c ∷ rest) (no_prefix c rest h wanted br)
      ])

no_line_comment :
    (c : ℕ) (rest : List ℕ) → opens_nothing c rest ≡ true → at_line_comment (c ∷ rest) ≡ false
no_line_comment c [] h = ground arith
no_line_comment c (d ∷ ds) h = ground (arith, h)

no_block : (c : ℕ) (rest : List ℕ) → opens_nothing c rest ≡ true → at_block_open (c ∷ rest) ≡ false
no_block c [] h = ground arith
no_block c (d ∷ ds) h = ground (arith, h)

pub plain_span :
    (c : ℕ) (rest : List ℕ) → opens_nothing c rest ≡ true → next_span (c ∷ rest) ≡ kept 1
unfolding next_span
plain_span c rest h =
    let slash : at_line_comment (c ∷ rest) ≡ false = no_line_comment c rest h in
    let star : at_block_open (c ∷ rest) ≡ false = no_block c rest h in
    let q : (c == quote_mark) ≡ false = ground (arith, h) in
    rw (slash, star, no_raw_width c rest h, q)
      (elim (Bool-cases (c == b'\'')) [
        | inr a ↦ rw a refl
        | inl a ↦
            let two : first_is b'\'' (drop 1 rest) ≡ false = ground (arith, h, a) in
            let three : first_is b'\'' (drop 2 rest) ≡ false = ground (arith, h, a) in
            rw (a, two, three) refl
      ])

newline_of :
    (body rest : List ℕ)
    → All (λ c. (c == newline) ≡ false) body
    → to_newline (body ++ newline ∷ rest) ≡ length body
newline_of [] rest h = refl
newline_of (c ∷ body) rest (h, hs) = rw h (ap (λ (n : ℕ). suc n) (newline_of body rest hs))

pub line_span :
    (body rest : List ℕ)
    → All (λ c. (c == newline) ≡ false) body
    → next_span ((b'/' ∷ b'/' ∷ body) ++ newline ∷ rest) ≡ blanked (length (b'/' ∷ b'/' ∷ body))
unfolding next_span
line_span body rest h = ap (λ (n : ℕ). blanked (suc (suc n))) (newline_of body rest h)

string_of :
    (ps : List Piece) (rest : List ℕ)
    → All IsPiece ps
    → string_rest false (pieces ps ++ quote_mark ∷ rest) ≡ suc (length (pieces ps))
string_of [] rest h = refl
string_of (letter c ∷ ps) rest (h, hs) =
    let q : (c == quote_mark) ≡ false = ground (arith, h) in
    let e : (c == b'\\') ≡ false = ground (arith, h) in
    rw (q, e) (ap (λ (n : ℕ). suc n) (string_of ps rest hs))
string_of (escape c ∷ ps) rest (h, hs) = ap (λ (n : ℕ). suc (suc n)) (string_of ps rest hs)

pub string_span :
    (ps : List Piece) (rest : List ℕ)
    → All IsPiece ps
    → next_span (quote_mark ∷ (pieces ps ++ quote_mark ∷ rest))
      ≡ kept (suc (suc (length (pieces ps))))
unfolding next_span raw_width
string_span ps rest h = ap (λ (n : ℕ). kept (suc n)) (string_of ps rest h)

hash_front : (n : ℕ) (rest : List ℕ) → starts_with (hash_run n) (hash_run n ++ rest) ≡ true
hash_front zero rest = refl
hash_front (suc n) rest = hash_front n rest

pub length-hash_run : (n : ℕ) → length (hash_run n) ≡ n
length-hash_run zero = refl
length-hash_run (suc n) = ap (λ (k : ℕ). suc k) (length-hash_run n)

count_hashes-hash_run : (n : ℕ) (rest : List ℕ) → count_hashes (hash_run n ++ quote_mark ∷ rest) ≡ n
count_hashes-hash_run zero rest = refl
count_hashes-hash_run (suc n) rest = ap (λ (k : ℕ). suc k) (count_hashes-hash_run n rest)

drop-hash_run : (n : ℕ) (rest : List ℕ) → drop n (hash_run n ++ rest) ≡ rest
drop-hash_run zero rest = refl
drop-hash_run (suc n) rest = drop-hash_run n rest

drop_opening : (n c : ℕ) (rest : List ℕ) → drop (suc n) (hash_run n ++ c ∷ rest) ≡ rest
drop_opening zero c rest = refl
drop_opening (suc n) c rest = drop_opening n c rest

raw_of :
    (n : ℕ) (body rest : List ℕ)
    → All (λ c. (c == quote_mark) ≡ false) body
    → behind (quote_mark ∷ hash_run n) (body ++ (quote_mark ∷ (hash_run n ++ rest)))
      ≡ length body + suc n
raw_of n [] rest h = rw (hash_front n rest, length-hash_run n) (omega arith)
raw_of n (c ∷ body) rest (h, hs) =
    let q : nat_eqb quote_mark c ≡ false = ground (arith, h) in
    rw q (ap (λ (k : ℕ). suc k) (raw_of n body rest hs) ∙ omega arith)

one_more : (n : ℕ) → 1 + n ≡ suc n
one_more n = omega arith

pub raw_span :
    (n : ℕ) (body rest : List ℕ)
    → All (λ c. (c == quote_mark) ≡ false) body
    → next_span
        (b'r' ∷ (hash_run n ++ (quote_mark ∷ (body ++ (quote_mark ∷ (hash_run n ++ rest))))))
      ≡ kept (3 + length body + n + n)
unfolding next_span raw_width
raw_span n body rest h =
    let inner : List ℕ = body ++ (quote_mark ∷ (hash_run n ++ rest)) in
    rw
      (
        count_hashes-hash_run n inner,
        one_more n,
        drop-hash_run n (quote_mark ∷ inner),
        drop_opening n quote_mark inner,
        raw_of n body rest h,
      )
      (ap (λ (k : ℕ). kept k) (omega arith))

behind_block : (fuel : ℕ) (text : List ℕ) → block_loop fuel 0 text ≡ 0
unfolding block_loop
behind_block zero text = refl
behind_block (suc fuel) text = refl

block_of :
    (fuel : ℕ) (body rest : List ℕ)
    → length body < fuel
    → is_flat body ≡ true
    → block_loop fuel 1 (body ++ b'*' ∷ b'/' ∷ rest) ≡ 2 + length body
unfolding block_loop
block_of zero body rest enough h = absurd (omega arith)
block_of (suc fuel) [] rest enough h = rw (behind_block fuel rest) refl
block_of (suc fuel) (c ∷ []) rest enough h =
    let s : at_block_open (c ∷ b'*' ∷ b'/' ∷ rest) ≡ false = ground (arith, h) in
    let t : at_block_close (c ∷ b'*' ∷ b'/' ∷ rest) ≡ false = ground (arith, h) in
    rw (s, t, block_of fuel [] rest (omega arith) refl) refl
block_of (suc fuel) (c ∷ d ∷ ds) rest enough h =
    let text : List ℕ = c ∷ d ∷ (ds ++ b'*' ∷ b'/' ∷ rest) in
    let s : at_block_open text ≡ false = ground (arith, h) in
    let t : at_block_close text ≡ false = ground (arith, h) in
    rw (s, t, block_of fuel (d ∷ ds) rest (omega arith) (ground (arith, h))) (omega arith)

pub block_span :
    (body rest : List ℕ)
    → is_flat body ≡ true
    → next_span (b'/' ∷ b'*' ∷ (body ++ b'*' ∷ b'/' ∷ rest))
      ≡ blanked (suc (suc (suc (suc (length body)))))
unfolding next_span
block_span body rest h =
    let enough : length body < length (b'/' ∷ b'*' ∷ (body ++ b'*' ∷ b'/' ∷ rest)) =
      omega (arith, length-append body (b'*' ∷ b'/' ∷ rest)) in
    rw (block_of (length (b'/' ∷ b'*' ∷ (body ++ b'*' ∷ b'/' ∷ rest))) body rest enough h)
      (ap (λ (n : ℕ). blanked n) (omega arith))

pub char_span : (c : ℕ) (rest : List ℕ) → next_span (b'\'' ∷ c ∷ b'\'' ∷ rest) ≡ kept 3
unfolding next_span raw_width
char_span c rest = refl

pub escaped_span :
    (c : ℕ) (rest : List ℕ)
    → (c == b'\'') ≡ false
    → next_span (b'\'' ∷ b'\\' ∷ c ∷ b'\'' ∷ rest) ≡ kept 4
unfolding next_span raw_width
escaped_span c rest h = rw h refl
