-- ===== src/Policy/Early.antt =====
-- The decisions that ditto_screener/policy.py makes before a build.
use ditto_screener.Prelude.{
  ◌≡◌, ◌≢◌, ◌⊎◌, refl, ap, ◌∙◌, String, Bool, true, false, ◌||◌, Option, none, some, [], ◌∷◌,
  Bool-cases, inl, inr, ◌==◌, text_equality, if◌then◌else◌,
}
use ditto_screener.Prelude.Results.{ok, >>=-eq-ok}
use ditto_screener.Policy.Hash.{Hashlib}
use ditto_screener.Policy.Outcome.{
  ScreeningOutcome, quarantine, retryable_infra, pass_inconclusive, inconclusive,
}
use ditto_screener.Policy.Decision.{PolicyManifest, ScreeningDecision, PolicyEvidence}
use ditto_screener.Policy.Engine.{decision}
use ditto_screener.Policy.Engine.Variables.{decision-outcome}
use ditto_screener.Policy.Context.{SourceReviewObservation}
use ditto_screener.Policy.Modules.Evidence.{evidence_of}
use ditto_screener.Policy.Modules.SourceReview.{source_review_reason, or_text, is_level}
use ditto_screener.Policy.Preexecution.{preexecution_source_decision, failure_outcome}

-- What an observation may lead to before a build.
pub record FoundRisk (o : SourceReviewObservation) (outcome : ScreeningOutcome) : Type 0 where
  pub good : o.is_ok ≡ true
  pub level : (o.risk_level ≡ some "medium") ⊎ (o.risk_level ≡ some "high")
  pub quarantined : outcome ≡ quarantine

pub record Failed (o : SourceReviewObservation) (outcome : ScreeningOutcome) : Type 0 where
  pub failed : o.is_ok ≡ false
  pub answer :
      ((o.failure_disposition ≡ "retryable_infra") × (outcome ≡ retryable_infra))
      ⊎ ((o.failure_disposition ≡ "pass_inconclusive") × (outcome ≡ pass_inconclusive))
      ⊎ ((o.failure_disposition ≢ "retryable_infra")
          × (o.failure_disposition ≢ "pass_inconclusive")
          × (outcome ≡ inconclusive))

same_level :
    (level : Option String) (value : String) → is_level level value ≡ true → level ≡ some value
same_level none value h = cc
same_level (some level) value h = ap some ((text_equality.equal_iff level value).0 h)

differs : (x y : String) → (x == y) ≡ false → x ≢ y
differs x y h same = cc ((text_equality.equal_iff x y).1 same, h)

risk_level : (a b : Bool) → (a || b) ≡ true → (a ≡ true) ⊎ (b ≡ true)
risk_level true b h = inl refl
risk_level false b h = inr h

level_of_risk :
    (o : SourceReviewObservation)
    → (is_level o.risk_level "medium" || is_level o.risk_level "high") ≡ true
    → (o.risk_level ≡ some "medium") ⊎ (o.risk_level ≡ some "high")
level_of_risk o h = elim (risk_level (is_level o.risk_level "medium") _ h) [
  | inl q ↦ inl (same_level o.risk_level "medium" q)
  | inr q ↦ inr (same_level o.risk_level "high" q)
]

answered :
    (o : SourceReviewObservation) {outcome : ScreeningOutcome}
    → o.is_ok ≡ false
    → outcome ≡ failure_outcome o.failure_disposition
    → Failed o outcome
answered o failed e = elim (Bool-cases (o.failure_disposition == "retryable_infra")) [
  | inl q ↦ record {
    failed = failed;
    answer =
        inl ((text_equality.equal_iff o.failure_disposition "retryable_infra").0 q, e ∙ rw q refl);
  }
  | inr q ↦ elim (Bool-cases (o.failure_disposition == "pass_inconclusive")) [
    | inl p ↦ record {
      failed = failed;
      answer = inr (
          inl (
            (text_equality.equal_iff o.failure_disposition "pass_inconclusive").0 p,
            e ∙ rw (q, p) refl,
          ));
    }
    | inr p ↦ record {
      failed = failed;
      answer = inr (
          inr (
            differs o.failure_disposition "retryable_infra" q,
            differs o.failure_disposition "pass_inconclusive" p,
            e ∙ rw (q, p) refl,
          ));
    }
  ]
]

abbrev failure_summary : SourceReviewObservation → String
failure_summary o =
    if o.failure_disposition == "retryable_infra"
    then "private source review infrastructure was unavailable"
    else "private source review could not resolve the lead"

module _ (H : Hashlib) (manifest : PolicyManifest) where
  -- A decision before the build comes of a review that found a medium or high risk, and is then a
  -- quarantine, or of a review that failed: it is to be retried where the disposition of the failure
  -- is `retryable_infra`, an inconclusive pass where that is `pass_inconclusive`, and inconclusive
  -- for every other disposition.
  pub preexecution-outcome :
      (o : SourceReviewObservation) {d : ScreeningDecision}
      → preexecution_source_decision H manifest o ≡ ok d
      → FoundRisk o d.outcome ⊎ Failed o d.outcome
  unfolding preexecution_source_decision
  preexecution-outcome o {d} h = elim (Bool-cases o.is_ok) [
    | inr failed ↦
        let (e, ee, k) =
          >>=-eq-ok
            (evidence_of "agentic-preexecution-review"
              (or_text o.error_code "source-review-inconclusive") (failure_summary o) none)
            (λ (e : PolicyEvidence).
              decision H manifest (failure_outcome o.failure_disposition) (e ∷ []) o.finding
                o.review_audit)
            (rw failed at h) in
        inr (
          answered o failed (
            decision-outcome H manifest (failure_outcome o.failure_disposition) (e ∷ []) o.finding
              o.review_audit {d = d} k))
    | inl good ↦
        elim (Bool-cases (is_level o.risk_level "medium" || is_level o.risk_level "high")) [
          | inl risky ↦
              let (e, ee, k) =
                >>=-eq-ok
                  (evidence_of "agentic-preexecution-review" (source_review_reason o.categories).0
                    (source_review_reason o.categories).1 o.finding_digest)
                  (λ (e : PolicyEvidence). decision H manifest quarantine (e ∷ []) o.finding none)
                  (rw (good, risky) at h) in
              inl (record {
                good = good;
                level = level_of_risk o risky;
                quarantined =
                    decision-outcome H manifest quarantine (e ∷ []) o.finding none {d = d} k;
              })
          | inr low ↦ cc (rw (good, low) at h)
        ]
  ]
