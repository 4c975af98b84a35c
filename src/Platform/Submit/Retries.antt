-- ===== src/Platform/Submit/Retries.antt =====
-- When the submission of a verdict succeeds.
use ditto_screener.Prelude.{
  ℕ, ◌≡◌, refl, ap, ◌∙◌, Bool, true, false, not, ◌&&◌, List, [], ◌∷◌, ◌++◌, contains, ◌==◌,
  nat_equality, arith, Bool-cases, inl, inr, ◌⊎◌, ◌↔◌,
}
use ditto_screener.Prelude.Results.{Result, ok, raised}
use ditto_screener.Prelude.Actions.{Action, lift, after-eq-ok}
use ditto_screener.Json.{Json}
use ditto_screener.Platform.Http.{Response, Round, over, again, is_transport}
use ditto_screener.Platform.Submit.{
  verdict_retry_delays, transient_verdict_statuses, judge, retry, submit,
}

-- An answer after which another round may follow.
abbrev pub is_transient : Result Response → Bool
is_transient (raised e) = is_transport e
is_transient (ok response) =
    not (response.status_code == 200) && contains transient_verdict_statuses response.status_code

module _ {W A : Type 0} (post : Action W Response) (sleep : ℕ → Action W (Unit {0}))
    (parse : Json → Result A) where
  -- A round of the loop for each delay, each with a transient answer and a sleep.
  abbrev pub Waited : List ℕ → W → W → Type 0
  Waited [] w w' = w ≡ w'
  Waited (delay ∷ delays) w w' =
      (answer : Result Response) × (w1 w2 : W) × (post w ≡ (answer, w1))
      × (is_transient answer ≡ true)
      × (sleep delay w1 ≡ (ok tt, w2))
      × Waited delays w2 w'

  -- The payload is accepted, with the parsed answer.
  abbrev pub Accepted : W → A → W → Type 0
  Accepted w a w' =
      (response : Response) × (post w ≡ (ok response, w'))
      × (response.status_code ≡ 200)
      × (parse response.body ≡ ok a)

  -- Some rounds with transient answers, then one that is accepted.
  abbrev pub Delivers : List ℕ → W → A → W → Type 0
  Delivers delays w a w' =
      (tried left : List ℕ) × (w1 : W) × (delays ≡ tried ++ left)
      × Waited tried w w1
      × Accepted w1 a w'

  judge_again :
      (last : Bool) (answer : Result Response)
      → judge parse last answer ≡ again
      → (last ≡ false) × (is_transient answer ≡ true)
  unfolding judge
  judge_again last answer h = ground arith

  judge_over :
      (last : Bool) (answer : Result Response) {a : A}
      → judge parse last answer ≡ over (ok a)
      → (response : Response) × (answer ≡ ok response)
        × (response.status_code ≡ 200)
        × (parse response.body ≡ ok a)
  unfolding judge
  judge_over last (raised e) h = absurd (ground arith)
  judge_over last (ok response) h = elim (Bool-cases (response.status_code == 200)) [
    | inl q ↦ (response, refl, (nat_equality.equal_iff response.status_code 200).0 q, ground arith)
    | inr q ↦ absurd (ground arith)
  ]

  judge_transient :
      (answer : Result Response) → is_transient answer ≡ true → judge parse false answer ≡ again
  unfolding judge
  judge_transient answer t = ground arith

  judge_accepted :
      (last : Bool) (response : Response) {a : A}
      → response.status_code ≡ 200
      → parse response.body ≡ ok a
      → judge parse last (ok response) ≡ over (ok a)
  unfolding judge
  judge_accepted last response q k = rw (q, k)

  Round-cases : (round : Round A) → ((r : Result A) × (round ≡ over r)) ⊎ (round ≡ again)
  Round-cases (over r) = inl (r, refl)
  Round-cases again = inr refl

  -- A round that is not the last: it is over with an answer, or goes on.
  step_again :
      (delay : ℕ) (delays : List ℕ) (w : W) {answer : Result Response} {w1 w2 : W}
      → post w ≡ (answer, w1)
      → is_transient answer ≡ true
      → sleep delay w1 ≡ (ok tt, w2)
      → retry post sleep parse (delay ∷ delays) w ≡ retry post sleep parse delays w2
  unfolding retry judge
  step_again delay delays w {answer} e t s = rw (e, judge_transient answer t, s)

  step-Accepted :
      (delays : List ℕ) (w : W) {a : A} {w' : W}
      → Accepted w a w'
      → retry post sleep parse delays w ≡ (ok a, w')
  unfolding retry
  step-Accepted [] w (response, e, q, k) = rw (e, judge_accepted true response q k)
  step-Accepted (delay ∷ delays) w (response, e, q, k) = rw (e, judge_accepted false response q k)

  retry_complete :
      (tried left : List ℕ) (w w1 : W) {a : A} {w' : W}
      → Waited tried w w1
      → Accepted w1 a w'
      → retry post sleep parse (tried ++ left) w ≡ (ok a, w')
  retry_complete [] left w w1 same accepted = rw same (step-Accepted left w1 accepted)
  retry_complete (delay ∷ tried) left w w1 (answer, w2, w3, e, t, s, more) accepted =
      step_again delay (tried ++ left) w e t s ∙ retry_complete tried left w3 w1 more accepted

  Accepted-by :
      (last : Bool) (w : W) (r : Result A) {a : A} {w' : W}
      → judge parse last (post w).0 ≡ over r
      → lift r (post w).1 ≡ (ok a, w')
      → Accepted w a w'
  Accepted-by last w r j h =
      let e = ap (λ (x : Result A × W). x.0) h in
      let (response, p, q, k) = judge_over last (post w).0 (j ∙ ap over e) in
      (
        response,
        ap (λ (x : Result Response). (x, (post w).1)) p
            ∙ ap (λ (v : W). (ok response, v)) (ap (λ (x : Result A × W). x.1) h),
        q,
        k,
      )

  retry_sound :
      (delays : List ℕ) (w : W) {a : A} {w' : W}
      → retry post sleep parse delays w ≡ (ok a, w')
      → Delivers delays w a w'
  unfolding retry
  retry_sound [] w {a} {w'} h = elim (Round-cases (judge parse true (post w).0)) [
    | inl (r, j) ↦ ([], [], w, refl, refl, Accepted-by true w r j (rw j at h))
    | inr j ↦ let (no_more, t) = judge_again true (post w).0 j in cc no_more
  ]
  retry_sound (delay ∷ delays) w {a} {w'} h = elim (Round-cases (judge parse false (post w).0)) [
    | inl (r, j) ↦ ([], delay ∷ delays, w, refl, refl, Accepted-by false w r j (rw j at h))
    | inr j ↦
        let (u, w2, slept, more) = after-eq-ok (sleep delay (post w).1) _ (rw j at h) in
        let (tried, left, w1, parts, waited, accepted) = retry_sound delays w2 more in
        (
          delay ∷ tried,
          left,
          w1,
          ap (λ (l : List ℕ). delay ∷ l) parts,
          ((post w).0, (post w).1, w2, refl, (judge_again false (post w).0 j).1, slept, waited),
          accepted,
        )
  ]

  -- A verdict is delivered exactly if, after transient answers to at most seven posts, each followed
  -- by its delay, a post is answered with 200 and a body that parses. The answer is then the parsed
  -- body, and nothing is sent after it.
  pub submit-exact :
      (w : W) (a : A) (w' : W)
      → (submit post sleep parse w ≡ (ok a, w')) ↔ Delivers verdict_retry_delays w a w'
  unfolding submit
  submit-exact w a w' = (
    retry_sound verdict_retry_delays w,
    λ (tried, left, w1, parts, waited, accepted).
        ap (λ (l : List ℕ). retry post sleep parse l w) parts
        ∙ retry_complete tried left w w1 waited accepted,
  )
