-- ===== src/Signals/Literals/Layout.antt =====
-- The layout of the text that `_mask_string_literals` returns.
use ditto_screener.Prelude.{
  ℕ, zero, suc, ◌≡◌, ◌≢◌, ◌⊎◌, inl, inr, refl, Bool, true, false, not, ◌||◌, ◌&&◌, Option, none,
  some, List, [], ◌∷◌, ◌++◌, arith, length, drop, ◌==◌, nat_equality, nat_eqb, Bool-cases,
}
use ditto_screener.Signals.Literals.{
  Quoted, back_tick, is_quote, three_of, blank_in_quotes, LiteralRound, spaces, open_quote,
  quoted_state, literal_round, literals_loop, mask_string_literals,
}
use ditto_screener.Signals.Comments.Layout.{HasLayout, HasLayout-refl}

-- A character that ends no line.
abbrev InLine : ℕ → Type 0
InLine c = (c == 13 || c == 10) ≡ false

in_quotes : (c : ℕ) → (blank_in_quotes c ≡ c) ⊎ ((c ≢ 10) × (blank_in_quotes c ≡ b' '))
in_quotes c = ground arith

quote_InLine : (c : ℕ) → is_quote c ≡ true → c ≢ 10
quote_InLine c h = ground (arith, h)

-- A round's output stands for the characters that it goes over.
abbrev Covers : ℕ → List ℕ → LiteralRound → Type 0
Covers c cs round =
    (masked : List ℕ)
    → HasLayout (drop round.width (c ∷ cs)) masked
    → HasLayout (c ∷ cs) (round.out ++ masked)

three_of-Covers :
    (c d : ℕ) (cs : List ℕ) (state : Option Quoted)
    → three_of c (d ∷ cs) ≡ true
    → c ≢ 10
    → Covers d cs record { out = spaces 3; width = 3; state = state }
three_of-Covers c d [] state h n masked l = ground (arith, h)
three_of-Covers c d (x ∷ []) state h n masked l = ground (arith, h)
three_of-Covers c d (x ∷ y ∷ cs) state h n masked l = (
  inr (same c d (ground (arith, h)) n, refl),
  (inr (same c x (ground (arith, h)) n, refl), (inr (same c y (ground (arith, h)) n, refl), l)),
)
  where
    same : (c d : ℕ) → nat_eqb c d ≡ true → c ≢ 10 → d ≢ 10
    same c d h n = ground (arith, h)

-- The open quote is one of the three marks.
abbrev IsOpen : Option Quoted → Type 0
IsOpen none = Unit
IsOpen (some q) = is_quote q.quote ≡ true

open_quote-Covers :
    (c : ℕ) (cs : List ℕ) (is_triple : Bool)
    → is_quote c ≡ true
    → (is_triple ≡ true → three_of c (c ∷ cs) ≡ true)
    → Covers c cs (open_quote c is_triple)
open_quote-Covers c cs true h t =
    three_of-Covers c c cs (some record { quote = c; is_triple = true; escaped = false }) (t refl)
      (quote_InLine c h)
open_quote-Covers c cs false h t = λ masked l. (inr (quote_InLine c h, refl), l)

literal_round-Covers :
    (state : Option Quoted) (c : ℕ) (cs : List ℕ)
    → IsOpen state
    → Covers c cs (literal_round state c cs)
literal_round-Covers none c cs h = elim (Bool-cases (is_quote c)) [
  | inl e ↦ rw e (
      open_quote-Covers c cs (not (c == back_tick) && three_of c (c ∷ cs)) e
        (λ t. ground (arith, t)))
  | inr e ↦ rw e (λ masked l. (inl refl, l))
]
literal_round-Covers (some q) c cs h =
    elim (Bool-cases (q.is_triple && three_of q.quote (c ∷ cs))) [
      | inl e ↦
          rw e (three_of-Covers q.quote c cs none (ground (arith, e)) (quote_InLine q.quote h))
      | inr e ↦ rw e (λ masked l. (in_quotes c, l))
    ]

quoted_state-IsOpen : (c : ℕ) (q : Quoted) → is_quote q.quote ≡ true → IsOpen (quoted_state c q)
quoted_state-IsOpen c q h = elim (Bool-cases q.escaped) [
  | inl e ↦ rw e h
  | inr e ↦ rw e (elim (Bool-cases (c == 92 && not (q.quote == back_tick) && not q.is_triple)) [
    | inl e1 ↦ rw e1 h
    | inr e1 ↦ rw e1 (elim (Bool-cases (not q.is_triple && c == q.quote)) [
      | inl e2 ↦ rw e2 tt
      | inr e2 ↦ rw e2 h
    ])
  ])
]

literal_round-IsOpen :
    (state : Option Quoted) (c : ℕ) (cs : List ℕ)
    → IsOpen state
    → IsOpen (literal_round state c cs).state
literal_round-IsOpen none c cs h = elim (Bool-cases (is_quote c)) [
  | inl e ↦ rw e e
  | inr e ↦ rw e tt
]
literal_round-IsOpen (some q) c cs h =
    elim (Bool-cases (q.is_triple && three_of q.quote (c ∷ cs))) [
      | inl e ↦ rw e tt
      | inr e ↦ rw e (quoted_state-IsOpen c q h)
    ]

literals_loop-HasLayout :
    (fuel : ℕ) (state : Option Quoted) (text : List ℕ)
    → IsOpen state
    → HasLayout text (literals_loop fuel state text)
unfolding literals_loop
literals_loop-HasLayout zero state text h = HasLayout-refl text
literals_loop-HasLayout (suc fuel) state [] h = tt
literals_loop-HasLayout (suc fuel) state (c ∷ cs) h =
    let round = literal_round state c cs in
    literal_round-Covers state c cs h (literals_loop fuel round.state (drop round.width (c ∷ cs))) (
      literals_loop-HasLayout fuel round.state (drop round.width (c ∷ cs))
        (literal_round-IsOpen state c cs h))

-- The text without its string literals has the length of the text, and each character of it is the
-- text's, or a space where the text has no newline.
pub mask_string_literals-HasLayout : (text : List ℕ) → HasLayout text (mask_string_literals text)
unfolding mask_string_literals
mask_string_literals-HasLayout text = literals_loop-HasLayout (length text) none text tt
