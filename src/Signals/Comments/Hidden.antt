-- ===== src/Signals/Comments/Hidden.antt =====
-- `_mask_comments` on escaped quotes in byte strings and in character literals.
use ditto_screener.Prelude.{
  ℕ, suc, ◌≡◌, refl, ap, sym, ◌∙◌, false, List, [], ◌∷◌, ◌++◌, map, All, length, ◌==◌, nat_equality,
}
use mathlib.Core.List.{append-nil}
use ditto_screener.Signals.Comments.{
  blank, newline, quote_mark, to_newline, raw_width, blanked, kept, next_span, mask_comments,
}
use ditto_screener.Signals.Comments.Tokens.{token_round, blank_round, nothing}

abbrev pub NoNewline : List ℕ → Type 0
NoNewline text = All (λ c. (c == newline) ≡ false) text

to_newline_all : (text : List ℕ) → NoNewline text → to_newline text ≡ length text
to_newline_all [] h = refl
to_newline_all (c ∷ text) (h, hs) = rw h (ap (λ (n : ℕ). suc n) (to_newline_all text hs))

-- `//";` and what follows on the line
abbrev pub line_rest : List ℕ → List ℕ
line_rest code = b'/' ∷ b'/' ∷ quote_mark ∷ b';' ∷ code

line_rest_span :
    (code : List ℕ)
    → NoNewline code
    → next_span (line_rest code) ≡ blanked (length (line_rest code))
unfolding next_span
line_rest_span code h =
    ap (λ (k : ℕ). blanked k) (to_newline_all (line_rest code) (refl, (refl, (refl, (refl, h)))))

blanked_line :
    (code : List ℕ) → NoNewline code → mask_comments (line_rest code) ≡ map blank (line_rest code)
blanked_line code h =
    let e : code ++ [] ≡ code = append-nil code in
    let m = blank_round b'/' (b'/' ∷ quote_mark ∷ b';' ∷ code) [] (rw e (line_rest_span code h)) in
    let z : map blank (line_rest code) ++ mask_comments [] ≡ map blank (line_rest code) =
      rw nothing (append-nil (map blank (line_rest code))) in
    ap (λ (t : List ℕ). mask_comments (line_rest t)) (sym e) ∙ m ∙ z

-- b"\"
abbrev pub byte_front : List ℕ
byte_front = b'b' ∷ quote_mark ∷ b'\\' ∷ quote_mark ∷ []

byte_span : (rest : List ℕ) → next_span (byte_front ++ rest) ≡ kept 4
unfolding next_span raw_width
byte_span rest = refl

-- The byte string `b"\"//"` is taken for a raw string that ends at its escaped quote: the code behind
-- it, up to the end of the line, is blanked.
pub mask_comments_byte_string :
    (code : List ℕ)
    → NoNewline code
    → mask_comments (byte_front ++ line_rest code) ≡ byte_front ++ map blank (line_rest code)
mask_comments_byte_string code h =
    token_round b'b' (quote_mark ∷ b'\\' ∷ quote_mark ∷ []) (line_rest code)
      (byte_span (line_rest code))
    ∙ ap (λ (t : List ℕ). byte_front ++ t) (blanked_line code h)

-- '\'','"';"
abbrev pub quotes_front : List ℕ
quotes_front =
    b'\'' ∷ b'\\' ∷ b'\'' ∷ b'\'' ∷ b',' ∷ b'\'' ∷ quote_mark ∷ b'\'' ∷ b';' ∷ quote_mark ∷ []

escaped_span : (rest : List ℕ) → next_span (b'\'' ∷ b'\\' ∷ b'\'' ∷ rest) ≡ kept 3
unfolding next_span raw_width
escaped_span rest = refl

comma_span : (rest : List ℕ) → next_span (b'\'' ∷ b',' ∷ b'\'' ∷ rest) ≡ kept 3
unfolding next_span raw_width
comma_span rest = refl

open_span : (rest : List ℕ) → next_span (quote_mark ∷ b'\'' ∷ b';' ∷ quote_mark ∷ rest) ≡ kept 4
unfolding next_span raw_width
open_span rest = refl

-- The character literal `'\''` is taken to end at its escaped quote. In `'\'','"';"//"` the scanner then
-- opens a string at the quote of the second literal, and blanks the code behind the string `"//"`, up to
-- the end of the line.
pub mask_comments_char_literal :
    (code : List ℕ)
    → NoNewline code
    → mask_comments (quotes_front ++ line_rest code) ≡ quotes_front ++ map blank (line_rest code)
mask_comments_char_literal code h =
    let rest = line_rest code in
    let third = quote_mark ∷ b'\'' ∷ b';' ∷ quote_mark ∷ rest in
    let second = b'\'' ∷ b',' ∷ b'\'' ∷ third in
    token_round b'\'' (b'\\' ∷ b'\'' ∷ []) second (escaped_span second)
    ∙ ap (λ (t : List ℕ). b'\'' ∷ b'\\' ∷ b'\'' ∷ t)
        (token_round b'\'' (b',' ∷ b'\'' ∷ []) third (comma_span third)
          ∙ ap (λ (t : List ℕ). b'\'' ∷ b',' ∷ b'\'' ∷ t)
              (token_round quote_mark (b'\'' ∷ b';' ∷ quote_mark ∷ []) rest (open_span rest)
                ∙ ap (λ (t : List ℕ). quote_mark ∷ b'\'' ∷ b';' ∷ quote_mark ∷ t)
                    (blanked_line code h)))
