-- ===== src/Policy/Engine/Loops.antt =====
-- What the two loops of `PolicyEngine.evaluate` have done when they go on, against a plain run of
-- all modules in order.
use ditto_screener.Prelude.{
  suc, length, ◌≡◌, refl, ap, Bool, true, false, ◌&&◌, ◌||◌, List, [], ◌∷◌, all, arith, Bool-cases,
  inl, inr,
}
use mathlib.Core.List.{foldl}
use ditto_screener.Prelude.Results.{Result, ok}
use ditto_screener.Prelude.Actions.{Action, pure, after, ◌>>=◌, after-eq-ok}
use ditto_screener.Policy.Hash.{Hashlib}
use ditto_screener.Policy.Outcome.{
  ScreeningOutcome, ModuleDisposition, quarantine, inconclusive, pass_inconclusive, is_tripwire,
  is_clear,
}
use ditto_screener.Policy.Decision.{ModuleResult, ScreeningDecision}
use ditto_screener.Policy.Engine.{
  PolicyModule, PolicyEngine, Review, returned, running, selector_step, challenge_step,
  selector_loop, challenge_loop, take_result, decide,
}

-- All modules in order, none left out.
unfoldable pub collect : {W : Type 0} → List (PolicyModule W) → Action W (List ModuleResult)
collect [] = pure []
collect (m ∷ ms) = m.evaluate >>= λ r. collect ms >>= λ rs. pure (r ∷ rs)

abbrev pub trips : ModuleResult → Bool
trips r = is_tripwire r.disposition

abbrev pub is_soft_disposition : ModuleDisposition → Bool
is_soft_disposition pass_inconclusive = true
is_soft_disposition _ = false

abbrev pub is_soft : ModuleResult → Bool
is_soft r = is_soft_disposition r.disposition

-- Neither an objection nor a failure: the module was content, or only selected an audit.
abbrev pub is_harmless : ModuleResult → Bool
is_harmless r = is_clear r.disposition || is_tripwire r.disposition

abbrev pub clears : {W : Type 0} → PolicyModule W → ModuleResult → Bool
clears m r = m.clears_selection && is_clear r.disposition

abbrev pub any_clears : {W : Type 0} → List (PolicyModule W) → List ModuleResult → Bool
any_clears [] rs = false
any_clears (m ∷ ms) [] = false
any_clears (m ∷ ms) (r ∷ rs) = clears m r || any_clears ms rs

pub collect-nil :
    {W : Type 0} (w : W) (rs : List ModuleResult) {w' : W}
    → collect [] w ≡ (ok rs, w')
    → (rs ≡ []) × (w ≡ w')
unfolding collect
collect-nil w rs c = (cc c, cc c)

pub collect-cons :
    {W : Type 0} (m : PolicyModule W) (ms : List (PolicyModule W)) (w : W) (rs : List ModuleResult)
    {w' : W}
    → collect (m ∷ ms) w ≡ (ok rs, w')
    → (r : ModuleResult) × (rest : List ModuleResult) × (w1 : W) × (m.evaluate w ≡ (ok r, w1))
      × (collect ms w1 ≡ (ok rest, w'))
      × (rs ≡ r ∷ rest)
unfolding collect
collect-cons m ms w rs c =
    let (r, w1, e, k) = after-eq-ok (m.evaluate w) _ c in
    let (rest, w2, e2, k2) = after-eq-ok (collect ms w1) _ k in (r, rest, w1, e, cc, cc)

pub length-collect :
    {W : Type 0} (ms : List (PolicyModule W)) (w : W) (rs : List ModuleResult) {w' : W}
    → collect ms w ≡ (ok rs, w')
    → length ms ≡ length rs
length-collect [] w rs c = rw (collect-nil w rs c).0
length-collect (m ∷ ms) w rs c =
    let (r, rest, w1, e, c', q) = collect-cons m ms w rs c in
    rw q (ap suc (length-collect ms w1 rest c'))

pub and_left : (a b : Bool) → (a && b) ≡ true → a ≡ true
and_left a b h = ground arith

pub and_right : (a b : Bool) → (a && b) ≡ true → b ≡ true
and_right a b h = ground arith

-- The variables of `evaluate` after a selector, or a challenge, that does not stop it.
abbrev pub selector_next : Review → ModuleResult → Review
selector_next v r = record (take_result v r) {
  selected = v.selected || trips r;
  passes_inconclusive = v.passes_inconclusive || is_soft r;
}

abbrev pub challenge_next : Bool → Review → ModuleResult → Review
challenge_next clears_selection v r = record (take_result v r) {
  cleared = v.cleared || (clears_selection && is_clear r.disposition);
}

abbrev pub after_challenges :
    {W : Type 0} → List (PolicyModule W) → Review → List ModuleResult → Review
after_challenges [] v rs = v
after_challenges (m ∷ ms) v [] = v
after_challenges (m ∷ ms) v (r ∷ rs) =
    after_challenges ms (challenge_next m.clears_selection v r) rs

abbrev pub goes_on : ModuleResult → Bool
goes_on r = is_harmless r || is_soft r

abbrev pub stops_with : ModuleDisposition → ScreeningOutcome
stops_with quarantine = ScreeningOutcome.quarantine
stops_with inconclusive = ScreeningOutcome.inconclusive
stops_with pass_inconclusive = ScreeningOutcome.pass_inconclusive
stops_with _ = ScreeningOutcome.retryable_infra

module _ (H : Hashlib) {W : Type 0} (engine : PolicyEngine W) where
  selector_step_on :
      (v : Review) (r : ModuleResult)
      → goes_on r ≡ true
      → selector_step H engine v r ≡ running (selector_next v r)
  unfolding selector_step
  selector_step_on v r h = ground arith

  selector_step_off :
      (v : Review) (r : ModuleResult)
      → goes_on r ≡ false
      → selector_step H engine v r
        ≡ returned (decide H engine (stops_with r.disposition) (take_result v r))
  unfolding selector_step
  selector_step_off v r h = ground arith

  challenge_step_on :
      (b : Bool) (v : Review) (r : ModuleResult)
      → is_harmless r ≡ true
      → challenge_step H engine b v r ≡ running (challenge_next b v r)
  unfolding challenge_step
  challenge_step_on b v r h = ground arith

  challenge_step_off :
      (b : Bool) (v : Review) (r : ModuleResult)
      → is_harmless r ≡ false
      → challenge_step H engine b v r
        ≡ returned (decide H engine (stops_with r.disposition) (take_result v r))
  unfolding challenge_step
  challenge_step_off b v r h = ground arith

  pub selector_loop_running :
      (ms : List (PolicyModule W)) (v : Review) (w : W) {v' : Review} {w' : W}
      → selector_loop H engine ms v w ≡ (ok (running v'), w')
      → (rs : List ModuleResult) × (collect ms w ≡ (ok rs, w'))
        × (all goes_on rs ≡ true)
        × (v' ≡ foldl selector_next v rs)
  unfolding selector_loop collect
  selector_loop_running [] v w h = ([], cc, refl, cc)
  selector_loop_running (m ∷ ms) v w h =
      let (r, w1, e, k) = after-eq-ok (m.evaluate w) _ h in
      elim (Bool-cases (goes_on r)) [
        | inl on ↦
            let (rs, c, g, q) =
              selector_loop_running ms (selector_next v r) w1 (rw (selector_step_on v r on) at k) in
            (r ∷ rs, rw (e, c), rw (on, g), q)
        | inr off ↦ cc (rw (selector_step_off v r off) at k)
      ]

  pub challenge_loop_running :
      (ms : List (PolicyModule W)) (v : Review) (w : W) {v' : Review} {w' : W}
      → challenge_loop H engine ms v w ≡ (ok (running v'), w')
      → (rs : List ModuleResult) × (collect ms w ≡ (ok rs, w'))
        × (all is_harmless rs ≡ true)
        × (v' ≡ after_challenges ms v rs)
  unfolding challenge_loop collect
  challenge_loop_running [] v w h = ([], cc, refl, cc)
  challenge_loop_running (m ∷ ms) v w h =
      let (r, w1, e, k) = after-eq-ok (m.evaluate w) _ h in
      elim (Bool-cases (is_harmless r)) [
        | inl on ↦
            let (rs, c, g, q) =
              challenge_loop_running ms (challenge_next m.clears_selection v r) w1
                (rw (challenge_step_on m.clears_selection v r on) at k) in
            (r ∷ rs, rw (e, c), rw (on, g), q)
        | inr off ↦ cc (rw (challenge_step_off m.clears_selection v r off) at k)
      ]

  -- Modules that all let the loop go on, run in order, are what the loop does.
  pub selector_loop-collect :
      (ms : List (PolicyModule W)) (v : Review) (w : W) (rs : List ModuleResult) {w' : W}
      → collect ms w ≡ (ok rs, w')
      → all goes_on rs ≡ true
      → selector_loop H engine ms v w ≡ (ok (running (foldl selector_next v rs)), w')
  unfolding selector_loop
  selector_loop-collect [] v w rs c g = let (q, o) = collect-nil w rs c in rw (q, o)
  selector_loop-collect (m ∷ ms) v w rs c g =
      let (r, rest, w1, e, c', q) = collect-cons m ms w rs c in
      let g' : (goes_on r && all goes_on rest) ≡ true = rw q at g in
      rw (q, e)
        (rw (after, selector_step_on v r (and_left _ _ g'))
          (selector_loop-collect ms (selector_next v r) w1 rest c' (and_right _ _ g')))

  pub challenge_loop-collect :
      (ms : List (PolicyModule W)) (v : Review) (w : W) (rs : List ModuleResult) {w' : W}
      → collect ms w ≡ (ok rs, w')
      → all is_harmless rs ≡ true
      → challenge_loop H engine ms v w ≡ (ok (running (after_challenges ms v rs)), w')
  unfolding challenge_loop
  challenge_loop-collect [] v w rs c g = let (q, o) = collect-nil w rs c in rw o
  challenge_loop-collect (m ∷ ms) v w rs c g =
      let (r, rest, w1, e, c', q) = collect-cons m ms w rs c in
      let g' : (is_harmless r && all is_harmless rest) ≡ true = rw q at g in
      rw (q, e)
        (rw (after, challenge_step_on m.clears_selection v r (and_left _ _ g'))
          (challenge_loop-collect ms (challenge_next m.clears_selection v r) w1 rest c'
            (and_right _ _ g')))

  pub challenge_loop_returned :
      (ms : List (PolicyModule W)) (v : Review) (w : W) {d : Result ScreeningDecision} {w' : W}
      → challenge_loop H engine ms v w ≡ (ok (returned d), w')
      → (disposition : ModuleDisposition) × (v' : Review) × (d
          ≡ decide H engine (stops_with disposition) v')
  unfolding challenge_loop
  challenge_loop_returned [] v w h = cc h
  challenge_loop_returned (m ∷ ms) v w h =
      let (r, w1, e, k) = after-eq-ok (m.evaluate w) _ h in
      elim (Bool-cases (is_harmless r)) [
        | inl on ↦
            challenge_loop_returned ms (challenge_next m.clears_selection v r) w1
              (rw (challenge_step_on m.clears_selection v r on) at k)
        | inr off ↦ (
          r.disposition,
          take_result v r,
          cc (rw (challenge_step_off m.clears_selection v r off) at k),
        )
      ]

  pub selector_loop_returned :
      (ms : List (PolicyModule W)) (v : Review) (w : W) {d : Result ScreeningDecision} {w' : W}
      → selector_loop H engine ms v w ≡ (ok (returned d), w')
      → (disposition : ModuleDisposition) × (v' : Review) × (d
          ≡ decide H engine (stops_with disposition) v')
  unfolding selector_loop
  selector_loop_returned [] v w h = cc h
  selector_loop_returned (m ∷ ms) v w h =
      let (r, w1, e, k) = after-eq-ok (m.evaluate w) _ h in
      elim (Bool-cases (goes_on r)) [
        | inl on ↦
            selector_loop_returned ms (selector_next v r) w1 (rw (selector_step_on v r on) at k)
        | inr off ↦ (r.disposition, take_result v r, cc (rw (selector_step_off v r off) at k))
      ]
