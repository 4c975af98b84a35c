-- ===== src/Policy/Modules/SourceReview.antt =====
-- `AgenticSourceReviewModule` and `_source_review_reason`.
pub mod Exact
use ditto_screener.Prelude.{
  String, Bool, true, false, not, ◌&&◌, ◌||◌, Option, none, some, List, [], ◌∷◌, ◌++◌, any, all,
  contains, ◌==◌, text_equality, if◌then◌else◌,
}
use ditto_screener.Prelude.Results.{Result, ok}
use ditto_screener.Prelude.Results
use ditto_screener.Prelude.Actions.{Action, lift, ◌>>=◌}
use ditto_screener.Json.{Fields}
use ditto_screener.Policy.Outcome.{
  ModuleDisposition, tripwire, retryable_infra, inconclusive, pass_inconclusive,
}
use ditto_screener.Policy.Decision.{ModuleResult}
use ditto_screener.Policy.Context.{SourceReviewObservation, PolicyContext}
use ditto_screener.Policy.Modules.Evidence.{evidence_of, result_of, cleared}

abbrev pub malicious_source_categories : List String
malicious_source_categories =
    "credential_access" ∷ "cross_user_access" ∷ "data_exfiltration" ∷ "embedded_secret"
    ∷ "malicious_build" ∷ "prompt_injection" ∷ []

abbrev pub private_challenge_categories : List String
private_challenge_categories =
    "benchmark_emulation" ∷ "embedded_evaluator_logic" ∷ "fabricated_tool_trajectory"
    ∷ "hidden_value_leakage" ∷ "provider_bypass" ∷ "scorer_contract_manipulation"
    ∷ "seed_state_shortcut" ∷ "suspicious_static_tables" ∷ []

abbrev pub originality_categories : List String
originality_categories = "duplicate_submission" ∷ []

abbrev pub advisory_source_categories : List String
advisory_source_categories = "external_build_dependency" ∷ "user_isolation_correctness" ∷ []

-- `set(values) & known`, as a test
abbrev pub meets : List String → List String → Bool
meets values known = any (contains known) values

-- `_source_review_reason`
unfoldable pub source_review_reason : List String → String × String
source_review_reason categories =
    if meets categories malicious_source_categories
    then (
      "source-safety-malicious-risk", "private source analysis found malicious-source safety risk",
    )
    else if meets categories private_challenge_categories
    then (
      "source-safety-private-challenge-risk",
      "private source analysis found private-challenge safety risk",
    )
    else if meets categories originality_categories
    then (
      "originality-duplicate-risk",
      "cross-submission evidence found exact-artifact originality risk",
    )
    else if meets categories advisory_source_categories
    then (
      "source-correctness-review",
      "private source analysis found correctness or reviewability risk, not terminal anti-cheat proof",
    )
    else (
      "source-safety-behavioral-risk",
      "private source analysis selected a bounded behavioral audit",
    )

-- `error_code or default`: an empty text counts as missing.
abbrev pub or_text : Option String → String → String
or_text none default = default
or_text (some text) default = if text == "" then default else text

-- `risk_level == value`, `risk_level in values`
abbrev pub is_level : Option String → String → Bool
is_level none value = false
is_level (some level) value = level == value

abbrev pub is_known_level : Option String → Bool
is_known_level level = is_level level "low" || is_level level "medium" || is_level level "high"

-- A low risk whose categories are all advisory does not select an audit.
abbrev pub is_clean : SourceReviewObservation → Bool
is_clean o =
    is_level o.risk_level "low" && all (contains ("none" ∷ advisory_source_categories)) o.categories

module _ (module_id : String) where
  -- What the module makes of an observation.
  unfoldable pub judge_review : SourceReviewObservation → Result ModuleResult
  judge_review o =
      if not o.is_ok
      then (if o.failure_disposition == "pass_inconclusive"
          then Results.◌>>=◌
              (result_of pass_inconclusive [] module_id "source-review-inconclusive"
                "bounded source review exhausted without a decisive finding" o.finding_digest)
              (λ r. ok (record r { finding = o.finding; review_audit = o.review_audit }))
          else result_of
              (if o.failure_disposition == "inconclusive" then inconclusive else retryable_infra) []
              module_id (or_text o.error_code "source-review-inconclusive")
              "private source review did not produce a usable result" none)
      else if is_clean o
      then ok (cleared o.finding)
      else if not (is_known_level o.risk_level)
      then result_of inconclusive [] module_id "source-review-invalid-risk"
          "private source review returned an invalid risk level" none
      else let (code, summary) = source_review_reason o.categories in
        Results.◌>>=◌ (result_of tripwire [] module_id code summary o.finding_digest)
          (λ r. ok (record r { finding = o.finding }))

  -- `AgenticSourceReviewModule.evaluate`
  unfoldable pub evaluate : {W : Type 0} → PolicyContext W → Action W ModuleResult
  unfolding judge_review
  evaluate context = elim context.review_source [
    | none ↦ lift (
        result_of retryable_infra [] module_id "source-review-unavailable"
          "private source-review infrastructure was unavailable" none)
    | some review ↦ review >>= λ o. lift (judge_review o)
  ]
