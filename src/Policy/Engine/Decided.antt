-- ===== src/Policy/Engine/Decided.antt =====
-- The ways in which an evaluation of `PolicyEngine` comes to its decision.
use mathlib.Core.List.{foldl}
use ditto_screener.Prelude.{
  ◌≡◌, sym, ap, ◌∙◌, Bool, true, false, not, ◌&&◌, ◌||◌, List, [], ◌∷◌, any, all, arith, ◌⊎◌, inl,
  inr, Bool-cases, is_empty, if◌then◌else◌,
}
use ditto_screener.Prelude.Results.{Result, ok}
use ditto_screener.Prelude.Actions.{after-eq-ok}
use ditto_screener.Policy.Hash.{Hashlib}
use ditto_screener.Policy.Outcome.{
  ScreeningOutcome, pass, pass_inconclusive, quarantine, ModuleDisposition,
}
use ditto_screener.Policy.Decision.{ModuleResult, ScreeningDecision}
use ditto_screener.Policy.Engine.{
  PolicyModule, PolicyEngine, Review, Loop, returned, running, selector_loop, challenge_loop,
  decide, awaiting, conclude, challenges, finish, evaluate, new_review, modules_of, is_selector,
  is_challenge,
}
use ditto_screener.Policy.Engine.Loops.{
  collect, trips, is_soft, is_harmless, any_clears, selector_next, goes_on, stops_with,
  selector_loop_running, selector_loop_returned, length-collect, challenge_loop_running,
  challenge_loop_returned,
}
use ditto_screener.Policy.Engine.Variables.{
  foldl-selector_next, after_challenges_lem, decision-outcome,
}

abbrev pub selectors : {W : Type 0} → PolicyEngine W → List (PolicyModule W)
selectors engine = modules_of is_selector engine.modules

abbrev pub packs : {W : Type 0} → PolicyEngine W → List (PolicyModule W)
packs engine = modules_of is_challenge engine.modules

module _ (H : Hashlib) {W : Type 0} (engine : PolicyEngine W) where
  pub decide-outcome :
      (o : ScreeningOutcome) (v : Review) {d : ScreeningDecision}
      → decide H engine o v ≡ ok d
      → d.outcome ≡ o
  unfolding decide
  decide-outcome o v h = decision-outcome H engine.manifest o _ _ _ h

  -- How an evaluation that returned came to its decision.
  pub data Decided (w : W) (d : ScreeningDecision) (w' : W) : Type 0 where
    stopped : (x : ModuleDisposition) → d.outcome ≡ stops_with x → Decided w d w'
    concluded :
        (rs cs : List ModuleResult) (w1 : W) (v : Review)
        → collect (selectors engine) w ≡ (ok rs, w1)
        → collect (packs engine) w1 ≡ (ok cs, w')
        → all goes_on rs ≡ true
        → all is_harmless cs ≡ true
        → v.selected ≡ any trips rs
        → v.passes_inconclusive ≡ any is_soft rs
        → v.cleared ≡ any_clears (packs engine) cs
        → conclude H engine v ≡ ok d
        → Decided w d w'

  stopped_by :
      (w : W) (x : ModuleDisposition) (v : Review) {w' : W} {d : ScreeningDecision}
      → decide H engine (stops_with x) v ≡ ok d
      → Decided w d w'
  stopped_by w x v h = stopped x (decide-outcome (stops_with x) v h)

  decided_in_challenges :
      (w w1 : W) (rs : List ModuleResult) (l : Loop) (w2 : W) {w' : W} {d : ScreeningDecision}
      → collect (selectors engine) w ≡ (ok rs, w1)
      → all goes_on rs ≡ true
      → challenge_loop H engine (packs engine) (foldl selector_next new_review rs) w1 ≡ (ok l, w2)
      → finish H engine l w2 ≡ (ok d, w')
      → Decided w d w'
  unfolding finish
  decided_in_challenges w w1 rs (returned d') w2 {w'} c g e k =
      let (x, v', q) =
        challenge_loop_returned H engine (packs engine) (foldl selector_next new_review rs) w1 e in
      stopped_by w x v' (sym q ∙ ap (λ (p : Result ScreeningDecision × W). p.0) k)
  decided_in_challenges w w1 rs (running v) w2 c g e k =
      let (cs, c2, g2, q) =
        challenge_loop_running H engine (packs engine) (foldl selector_next new_review rs) w1 e in
      let s = foldl-selector_next new_review rs in
      let t =
        after_challenges_lem (packs engine) (foldl selector_next new_review rs) cs
          (length-collect (packs engine) w1 cs c2) in
      concluded rs cs w1 v c (rw (ap (λ (p : Result ScreeningDecision × W). p.1) k) at c2) g g2
        (rw q (t.selected ∙ s.selected)) (rw q (t.passes_inconclusive ∙ s.passes_inconclusive))
        (rw q (t.cleared ∙ ap (λ (b : Bool). b || any_clears (packs engine) cs) s.cleared))
        (ap (λ (p : Result ScreeningDecision × W). p.0) k)

  decided_by_loop :
      (w : W) (l : Loop) (w1 : W) {w' : W} {d : ScreeningDecision}
      → selector_loop H engine (selectors engine) new_review w ≡ (ok l, w1)
      → challenges H engine l w1 ≡ (ok d, w')
      → Decided w d w'
  unfolding challenges
  decided_by_loop w (returned d') w1 e k =
      let (x, v', q) = selector_loop_returned H engine (selectors engine) new_review w e in
      stopped_by w x v' (sym q ∙ ap (λ (p : Result ScreeningDecision × W). p.0) k)
  decided_by_loop w (running v) w1 e k =
      let (rs, c, g, q) = selector_loop_running H engine (selectors engine) new_review w e in
      let (l, w2, e2, k2) = after-eq-ok (challenge_loop H engine (packs engine) v w1) _ k in
      decided_in_challenges w w1 rs l w2 c g (rw q at e2) k2

  pub evaluate-Decided :
      (w : W) {w' : W} {d : ScreeningDecision}
      → evaluate H engine false false w ≡ (ok d, w')
      → Decided w d w'
  unfolding evaluate
  evaluate-Decided w h =
      let (l, w1, e, k) =
        after-eq-ok (selector_loop H engine (selectors engine) new_review w) _ h in
      decided_by_loop w l w1 e k

  pub conclude_cases :
      (v : Review) {d : ScreeningDecision}
      → conclude H engine v ≡ ok d
      → ((d.outcome ≡ quarantine) × (v.selected ≡ true) × (v.cleared ≡ false))
        ⊎ ((d.outcome ≡ pass_inconclusive) × (v.passes_inconclusive ≡ true))
        ⊎ ((d.outcome ≡ pass)
            × (v.passes_inconclusive ≡ false)
            × ((not v.selected || v.cleared) ≡ true))
  unfolding conclude
  conclude_cases v h = elim (Bool-cases (v.selected && not v.cleared)) [
    | inl q ↦ inl (
      decide-outcome quarantine
          (record v {
            evidence = if is_empty v.evidence then awaiting H engine ∷ [] else v.evidence;
          })
          (rw q at h),
      ground arith,
      ground arith,
    )
    | inr other ↦ elim (Bool-cases v.passes_inconclusive) [
      | inl p ↦ inr (inl (decide-outcome pass_inconclusive v (rw (other, p) at h), p))
      | inr np ↦ inr (inr (decide-outcome pass v (rw (other, np) at h), np, ground arith))
    ]
  ]
