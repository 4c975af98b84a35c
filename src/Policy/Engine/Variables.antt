-- ===== src/Policy/Engine/Variables.antt =====
-- What the loops leave in the variables of `PolicyEngine.evaluate`, and the outcome of a decision.
use mathlib.Core.List.{foldl, append_assoc, append-nil}
use ditto_screener.Prelude.{
  ◌≡◌, refl, sym, ap, ◌∙◌, ◌≢◌, Bool, true, false, not, ◌&&◌, ◌||◌, Option, List, [], ◌∷◌, ◌++◌,
  any, all, length, arith,
}
use ditto_screener.Prelude.Results.{ok}
use ditto_screener.Json.{Fields}
use ditto_screener.Policy.Hash.{Hashlib}
use ditto_screener.Policy.Outcome.{ScreeningOutcome, pass, deterministic_reject, ModuleDisposition}
use ditto_screener.Policy.Decision.{
  ModuleResult, PolicyEvidence, PolicyManifest, ScreeningDecision, check_decision,
}
use ditto_screener.Policy.Engine.{PolicyModule, Review, decision, or_payload}
use ditto_screener.Policy.Engine.Loops.{
  trips, is_soft, is_harmless, any_clears, selector_next, challenge_next, after_challenges, goes_on,
  stops_with,
}

pub check_decision-eq-ok :
    (d : ScreeningDecision) {d' : ScreeningDecision} → check_decision d ≡ ok d' → d' ≡ d
unfolding check_decision
check_decision-eq-ok d h = ground arith

-- The evidence of all results, in order.
abbrev pub entries : List ModuleResult → List PolicyEvidence
entries [] = []
entries (r ∷ rs) = r.evidence ++ entries rs

-- The last finding, or review audit, that is not empty.
abbrev pub last_finding : Option Fields → List ModuleResult → Option Fields
last_finding earlier [] = earlier
last_finding earlier (r ∷ rs) = last_finding (or_payload r.finding earlier) rs

abbrev pub last_audit : Option Fields → List ModuleResult → Option Fields
last_audit earlier [] = earlier
last_audit earlier (r ∷ rs) = last_audit (or_payload r.review_audit earlier) rs

pub record Selected (v v' : Review) (rs : List ModuleResult) : Type 0 where
  pub selected : v'.selected ≡ (v.selected || any trips rs)
  pub passes_inconclusive : v'.passes_inconclusive ≡ (v.passes_inconclusive || any is_soft rs)
  pub cleared : v'.cleared ≡ v.cleared
  pub evidence : v'.evidence ≡ v.evidence ++ entries rs
  pub finding : v'.finding ≡ last_finding v.finding rs
  pub review_audit : v'.review_audit ≡ last_audit v.review_audit rs

pub foldl-selector_next :
    (v : Review) (rs : List ModuleResult) → Selected v (foldl selector_next v rs) rs
foldl-selector_next v [] = record {
  selected = ground arith;
  passes_inconclusive = ground arith;
  cleared = refl;
  evidence = sym (append-nil v.evidence);
  finding = refl;
  review_audit = refl;
}
foldl-selector_next v (r ∷ rs) =
    let ih = foldl-selector_next (selector_next v r) rs in
    record {
      selected = ground (arith, ih.selected);
      passes_inconclusive = ground (arith, ih.passes_inconclusive);
      cleared = ih.cleared;
      evidence = ih.evidence ∙ append_assoc v.evidence r.evidence (entries rs);
      finding = ih.finding;
      review_audit = ih.review_audit;
    }

pub record Challenged {W : Type 0} (ms : List (PolicyModule W)) (v v' : Review)
    (rs : List ModuleResult) : Type 0 where
  pub selected : v'.selected ≡ v.selected
  pub passes_inconclusive : v'.passes_inconclusive ≡ v.passes_inconclusive
  pub cleared : v'.cleared ≡ (v.cleared || any_clears ms rs)
  pub evidence : v'.evidence ≡ v.evidence ++ entries rs
  pub finding : v'.finding ≡ last_finding v.finding rs
  pub review_audit : v'.review_audit ≡ last_audit v.review_audit rs

pub after_challenges_lem :
    {W : Type 0} (ms : List (PolicyModule W)) (v : Review) (rs : List ModuleResult)
    → length ms ≡ length rs
    → Challenged ms v (after_challenges ms v rs) rs
after_challenges_lem [] v [] h = record {
  selected = refl;
  passes_inconclusive = refl;
  cleared = ground arith;
  evidence = sym (append-nil v.evidence);
  finding = refl;
  review_audit = refl;
}
after_challenges_lem [] v (r ∷ rs) h = absurd (omega arith)
after_challenges_lem (m ∷ ms) v [] h = absurd (omega arith)
after_challenges_lem (m ∷ ms) v (r ∷ rs) h =
    let ih = after_challenges_lem ms (challenge_next m.clears_selection v r) rs (omega arith) in
    record {
      selected = ih.selected;
      passes_inconclusive = ih.passes_inconclusive;
      cleared = ground (arith, ih.cleared);
      evidence = ih.evidence ∙ append_assoc v.evidence r.evidence (entries rs);
      finding = ih.finding;
      review_audit = ih.review_audit;
    }

-- No objection was raised, and a selector's tripwire was released by a pack that may release it.
abbrev pub is_released :
    {W : Type 0} → List (PolicyModule W) → List ModuleResult → List ModuleResult → Bool
is_released packs rs cs =
    all is_harmless rs && all is_harmless cs && (not (any trips rs) || any_clears packs cs)

-- A selector that is harmless or asks for a pass-inconclusive, in one test or in two.
pub harmless_of_goes_on :
    (rs : List ModuleResult)
    → all goes_on rs ≡ true
    → any is_soft rs ≡ false
    → all is_harmless rs ≡ true
harmless_of_goes_on [] g s = refl
harmless_of_goes_on (r ∷ rs) g s = ground (arith, harmless_of_goes_on rs)

pub goes_on_of_harmless :
    (rs : List ModuleResult)
    → all is_harmless rs ≡ true
    → (all goes_on rs ≡ true) × (any is_soft rs ≡ false)
goes_on_of_harmless [] h = (refl, refl)
goes_on_of_harmless (r ∷ rs) h = ground (arith, goes_on_of_harmless rs)

pub stops_with-ne :
    (x : ModuleDisposition) → (stops_with x ≢ pass) × (stops_with x ≢ deterministic_reject)
stops_with-ne x = ground arith

module _ (H : Hashlib) where
  pub decision-outcome :
      (m : PolicyManifest) (o : ScreeningOutcome) (e : List PolicyEvidence) (f a : Option Fields)
      {d : ScreeningDecision}
      → decision H m o e f a ≡ ok d
      → d.outcome ≡ o
  unfolding decision
  decision-outcome m o e f a h = ap ScreeningDecision.outcome (check_decision-eq-ok _ h)
