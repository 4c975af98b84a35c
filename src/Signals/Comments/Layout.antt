-- ===== src/Signals/Comments/Layout.antt =====
-- The layout of the text that `_mask_comments` returns, and the rounds of its loops.
use ditto_screener.Prelude.{
  ℕ, zero, suc, ◌+◌, ◌≤◌, ◌<◌, ◌≡◌, ◌≢◌, ◌⊎◌, inl, inr, refl, ap, true, Option, none, some, List,
  [], ◌∷◌, ◌++◌, map, arith, length, take, drop, length-drop, nat_equality, Bool-cases,
}
use ditto_screener.Signals.Comments.{
  at_line_comment, at_block_open, blank, newline, to_newline, block_loop, block_width, block_depth,
  raw_width, char_width, Span, blanked, kept, behind_raw, next_span, emit, behind_span, mask_loop,
  mask_comments,
}

-- Character by character the same, or a space for a character that is no newline.
abbrev pub HasLayout : List ℕ → List ℕ → Type 0
HasLayout [] [] = Unit
HasLayout [] (d ∷ masked) = ⊥
HasLayout (c ∷ text) [] = ⊥
HasLayout (c ∷ text) (d ∷ masked) = ((d ≡ c) ⊎ ((c ≢ newline) × (d ≡ b' '))) × HasLayout text masked

pub HasLayout-refl : (text : List ℕ) → HasLayout text text
HasLayout-refl [] = tt
HasLayout-refl (c ∷ text) = (inl refl, HasLayout-refl text)

blank_char : (c : ℕ) → (blank c ≡ c) ⊎ ((c ≢ newline) × (blank c ≡ b' '))
blank_char c = ground arith

blanked-HasLayout :
    (n : ℕ) (text masked : List ℕ)
    → HasLayout (drop n text) masked
    → HasLayout text (map blank (take n text) ++ masked)
blanked-HasLayout zero text masked h = h
blanked-HasLayout (suc n) [] masked h = h
blanked-HasLayout (suc n) (c ∷ text) masked h = (blank_char c, blanked-HasLayout n text masked h)

kept-HasLayout :
    (n : ℕ) (text masked : List ℕ)
    → HasLayout (drop n text) masked
    → HasLayout text (take n text ++ masked)
kept-HasLayout zero text masked h = h
kept-HasLayout (suc n) [] masked h = h
kept-HasLayout (suc n) (c ∷ text) masked h = (inl refl, kept-HasLayout n text masked h)

emit-HasLayout :
    (s : Span) (text masked : List ℕ)
    → HasLayout (behind_span s text) masked
    → HasLayout text (emit s text ++ masked)
emit-HasLayout (blanked n) text masked h = blanked-HasLayout n text masked h
emit-HasLayout (kept n) text masked h = kept-HasLayout n text masked h

mask_loop-HasLayout : (fuel : ℕ) (text : List ℕ) → HasLayout text (mask_loop fuel text)
unfolding mask_loop
mask_loop-HasLayout zero text = HasLayout-refl text
mask_loop-HasLayout (suc fuel) [] = tt
mask_loop-HasLayout (suc fuel) (c ∷ cs) =
    let s = next_span (c ∷ cs) in
    emit-HasLayout s (c ∷ cs) (mask_loop fuel (behind_span s (c ∷ cs)))
      (mask_loop-HasLayout fuel (behind_span s (c ∷ cs)))

-- The masked text has the length of the text, and each character of it is the text's, or a space where
-- the text has no newline.
pub mask_comments-HasLayout : (text : List ℕ) → HasLayout text (mask_comments text)
unfolding mask_comments
mask_comments-HasLayout text = mask_loop-HasLayout (length text) text

abbrev width_of : Span → ℕ
width_of (blanked n) = n
width_of (kept n) = n

char_width_pos : (text : List ℕ) → 0 < char_width text
char_width_pos text = ground arith

behind_raw_pos :
    (c : ℕ) (cs : List ℕ) (o : Option ℕ)
    → ((n : ℕ) → o ≡ some n → 0 < n)
    → 0 < width_of (behind_raw (c ∷ cs) o)
behind_raw_pos c cs (some n) h = h n refl
behind_raw_pos c cs none h = ground (arith, char_width_pos (c ∷ cs))

raw_width_pos : (text : List ℕ) (n : ℕ) → raw_width text ≡ some n → 0 < n
unfolding raw_width
raw_width_pos text n h = ground (arith, h)

line_comment_pos : (c : ℕ) (cs : List ℕ) → at_line_comment (c ∷ cs) ≡ true → 0 < to_newline (c ∷ cs)
line_comment_pos c cs h = ground (arith, h)

next_span_pos : (c : ℕ) (cs : List ℕ) → 0 < width_of (next_span (c ∷ cs))
unfolding next_span
next_span_pos c cs = elim (Bool-cases (at_line_comment (c ∷ cs))) [
  | inl e ↦ rw e (line_comment_pos c cs e)
  | inr e ↦ rw e (elim (Bool-cases (at_block_open (c ∷ cs))) [
    | inl e' ↦ rw e' (omega arith)
    | inr e' ↦ rw e' (behind_raw_pos c cs (raw_width (c ∷ cs)) (raw_width_pos (c ∷ cs)))
  ])
]

behind_span_shorter :
    (s : Span) (c : ℕ) (cs : List ℕ) → 0 < width_of s → length (behind_span s (c ∷ cs)) ≤ length cs
behind_span_shorter (blanked n) c cs h = omega (arith, h, length-drop n (c ∷ cs))
behind_span_shorter (kept n) c cs h = omega (arith, h, length-drop n (c ∷ cs))

-- Any bound on the rounds from the length of the text on leads to the same masked text.
pub mask_loop-fuel :
    (fuel more : ℕ) (text : List ℕ)
    → length text ≤ fuel
    → length text ≤ more
    → mask_loop fuel text ≡ mask_loop more text
unfolding mask_loop
mask_loop-fuel zero zero text h h' = refl
mask_loop-fuel zero (suc more) [] h h' = refl
mask_loop-fuel zero (suc more) (c ∷ cs) h h' = absurd (omega (arith, h))
mask_loop-fuel (suc fuel) zero [] h h' = refl
mask_loop-fuel (suc fuel) zero (c ∷ cs) h h' = absurd (omega (arith, h'))
mask_loop-fuel (suc fuel) (suc more) [] h h' = refl
mask_loop-fuel (suc fuel) (suc more) (c ∷ cs) h h' =
    let s = next_span (c ∷ cs) in
    let shorter = behind_span_shorter s c cs (next_span_pos c cs) in
    ap (λ (r : List ℕ). emit s (c ∷ cs) ++ r)
      (mask_loop-fuel fuel more (behind_span s (c ∷ cs)) (omega (arith, shorter, h))
        (omega (arith, shorter, h')))

-- The masked text, a round at a time.
pub mask_comments_round :
    (c : ℕ) (cs : List ℕ)
    → mask_comments (c ∷ cs)
      ≡ emit (next_span (c ∷ cs)) (c ∷ cs)
        ++ mask_comments (behind_span (next_span (c ∷ cs)) (c ∷ cs))
unfolding mask_comments mask_loop
mask_comments_round c cs =
    let s = next_span (c ∷ cs) in
    ap (λ (r : List ℕ). emit s (c ∷ cs) ++ r)
      (mask_loop-fuel (length cs) (length (behind_span s (c ∷ cs))) (behind_span s (c ∷ cs))
        (behind_span_shorter s c cs (next_span_pos c cs)) (omega arith))

-- So does any bound on a block comment's rounds from the length of the text on.
pub block_loop-fuel :
    (fuel more depth : ℕ) (text : List ℕ)
    → length text ≤ fuel
    → length text ≤ more
    → block_loop fuel depth text ≡ block_loop more depth text
unfolding block_loop
block_loop-fuel zero zero depth text h h' = refl
block_loop-fuel zero (suc more) zero text h h' = refl
block_loop-fuel zero (suc more) (suc depth) [] h h' = refl
block_loop-fuel zero (suc more) (suc depth) (c ∷ cs) h h' = absurd (omega (arith, h))
block_loop-fuel (suc fuel) zero zero text h h' = refl
block_loop-fuel (suc fuel) zero (suc depth) [] h h' = refl
block_loop-fuel (suc fuel) zero (suc depth) (c ∷ cs) h h' = absurd (omega (arith, h'))
block_loop-fuel (suc fuel) (suc more) zero text h h' = refl
block_loop-fuel (suc fuel) (suc more) (suc depth) [] h h' = refl
block_loop-fuel (suc fuel) (suc more) (suc depth) (c ∷ cs) h h' =
    let w = block_width (c ∷ cs) in
    let some_width : 0 < w = ground arith in
    let shorter : length (drop w (c ∷ cs)) ≤ length cs =
      omega (arith, length-drop w (c ∷ cs), some_width) in
    ap (λ (n : ℕ). w + n)
      (block_loop-fuel fuel more (block_depth depth (c ∷ cs)) (drop w (c ∷ cs))
        (omega (arith, shorter, h)) (omega (arith, shorter, h')))
