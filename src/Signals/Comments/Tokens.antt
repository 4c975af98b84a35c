-- ===== src/Signals/Comments/Tokens.antt =====
-- `_mask_comments` on source text that is given by its tokens.
use ditto_screener.Prelude.{
  ℕ, ◌≡◌, refl, ap, ◌∙◌, List, [], ◌∷◌, ◌++◌, map, length, take, drop, nat_equality,
}
use ditto_screener.Signals.Comments.{blank, blanked, kept, next_span, mask_loop, mask_comments}
use ditto_screener.Signals.Comments.Layout.{mask_comments_round}

take-append : (xs ys : List ℕ) → take (length xs) (xs ++ ys) ≡ xs
take-append [] ys = refl
take-append (x ∷ xs) ys = ap (λ (r : List ℕ). x ∷ r) (take-append xs ys)

drop-append : (xs ys : List ℕ) → drop (length xs) (xs ++ ys) ≡ ys
drop-append [] ys = refl
drop-append (x ∷ xs) ys = drop-append xs ys

-- A round that takes a whole token.
pub token_round :
    (c : ℕ) (cs rest : List ℕ)
    → next_span ((c ∷ cs) ++ rest) ≡ kept (length (c ∷ cs))
    → mask_comments ((c ∷ cs) ++ rest) ≡ (c ∷ cs) ++ mask_comments rest
token_round c cs rest e =
    let r = mask_comments_round c (cs ++ rest) in
    r ∙ rw (e, take-append cs rest, drop-append cs rest)

pub blank_round :
    (c : ℕ) (cs rest : List ℕ)
    → next_span ((c ∷ cs) ++ rest) ≡ blanked (length (c ∷ cs))
    → mask_comments ((c ∷ cs) ++ rest) ≡ map blank (c ∷ cs) ++ mask_comments rest
blank_round c cs rest e =
    let r = mask_comments_round c (cs ++ rest) in
    r ∙ rw (e, take-append cs rest, drop-append cs rest)

pub nothing : mask_comments [] ≡ []
unfolding mask_comments mask_loop
nothing = refl
