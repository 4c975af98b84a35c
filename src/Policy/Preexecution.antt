-- ===== src/Policy/Preexecution.antt =====
-- `preexecution_source_decision` and `malicious_preflight_decision` of the policy engine.
use ditto_screener.Prelude.{String, not, ◌||◌, none, [], ◌∷◌, ◌==◌, text_equality, if◌then◌else◌}
use ditto_screener.Prelude.Results.{Result, raised, value_error, raise_if, ◌>>=◌, ◌>>◌}
use ditto_screener.Policy.Hash.{Hashlib}
use ditto_screener.Policy.Outcome.{
  ScreeningOutcome, pass_inconclusive, retryable_infra, quarantine, inconclusive,
}
use ditto_screener.Policy.Decision.{PolicyManifest, ScreeningDecision}
use ditto_screener.Policy.Engine.{decision}
use ditto_screener.Policy.Context.{SourceReviewObservation}
use ditto_screener.Policy.Modules.Evidence.{evidence_of}
use ditto_screener.Policy.Modules.SourceReview.{source_review_reason, or_text, is_level}

abbrev pub failure_outcome : String → ScreeningOutcome
failure_outcome disposition =
    if disposition == "retryable_infra"
    then retryable_infra
    else if disposition == "pass_inconclusive"
    then pass_inconclusive
    else inconclusive

module _ (H : Hashlib) (manifest : PolicyManifest) where
  unfoldable pub preexecution_source_decision : SourceReviewObservation → Result ScreeningDecision
  unfolding evidence_of source_review_reason
  preexecution_source_decision o =
      if not o.is_ok
      then (do
        e ←
            evidence_of "agentic-preexecution-review"
              (or_text o.error_code "source-review-inconclusive")
              (if o.failure_disposition == "retryable_infra"
                then "private source review infrastructure was unavailable"
                else "private source review could not resolve the lead")
              none
        decision H manifest (failure_outcome o.failure_disposition) (e ∷ []) o.finding
            o.review_audit)
      else if not (is_level o.risk_level "medium" || is_level o.risk_level "high")
      then raised value_error
      else (let (code, summary) = source_review_reason o.categories in
          do
            e ← evidence_of "agentic-preexecution-review" code summary o.finding_digest
            decision H manifest quarantine (e ∷ []) o.finding none)

  unfoldable pub malicious_preflight_decision : SourceReviewObservation → Result ScreeningDecision
  unfolding preexecution_source_decision
  malicious_preflight_decision o = do
    raise_if (not o.is_ok || not (is_level o.risk_level "high")) value_error
    preexecution_source_decision o
