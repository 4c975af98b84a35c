-- ===== src/Policy/Tests.antt =====
-- Runs of the policy of ditto_screener/policy.py on concrete submissions, and its theorems there.
use ditto_screener.Prelude.{
  ℕ, ◌+◌, ◌≡◌, ◌≢◌, ◌≤◌, refl, true, false, none, some, List, [], ◌∷◌, All, nat_equality,
  text_equality,
}
use ditto_screener.Prelude.Int.{pos}
use ditto_screener.Prelude.Results.{ok}
use ditto_screener.Json.{signed, Json, finite, bool, int, str, arr, obj, nil, cons, end, field}
use ditto_screener.Policy.Hash.{Hashlib, is_sha256}
use ditto_screener.Policy.Outcome.{clear, pass, deterministic_reject}
use ditto_screener.Policy.Decision.{
  PolicyEvidence, ModuleResult, ScreeningDecision, check_decision, digest, max_challenges,
}
use ditto_screener.Policy.Context.{
  ChallengeObservation, SourceReviewObservation, PolicyContext, Machine,
}
use ditto_screener.Policy.Engine
use ditto_screener.Policy.Engine.{PolicyEngine, decision}
use ditto_screener.Policy.Engine.Loops.{collect}
use ditto_screener.Policy.Engine.Decided.{selectors, packs}
use ditto_screener.Policy.Engine.Variables.{is_released}
use ditto_screener.Policy.Engine.Verdicts.{
  evaluate-pass_sound, evaluate-never_rejects, evaluate-pass_complete,
}
use ditto_screener.Policy.Modules.SourceReview.Exact.{judge_review-exact, Answers as ReviewAnswers}
use ditto_screener.Policy.Modules.Oracle.Exact.{judge_exchange-exact, Answers as ExchangeAnswers}
use ditto_screener.Policy.Modules.Pack
use ditto_screener.Policy.Modules.Pack.{Challenge, parse_challenges, max_manifest_bytes}
use ditto_screener.Policy.Modules.Evidence.{evidence_of, result_of}
use ditto_screener.Policy.Modules.SourceReview.{judge_review}
use ditto_screener.Policy.Modules.Oracle.{judge_exchange}
use ditto_screener.Policy.Modules.Pack.Exact.{evaluate-clear, AllSatisfied}
use ditto_screener.Policy.Modules.Pack.Parsing.{parse_challenges-IsValid, IsValidChallenge}
use ditto_screener.Policy.Modules.SourceReview
use ditto_screener.Policy.Modules.Oracle
use ditto_screener.Policy.Build.{
  modules_from, Rotation, default_rotation, default_oracle, agentic_source_review,
  behavioral_oracle,
}
use ditto_screener.Policy.Preexecution.{preexecution_source_decision}
use ditto_screener.Policy.Early.{FoundRisk, Failed, preexecution-outcome}
use ditto_screener.Policy.Release.{evaluate-untripped}
use ditto_screener.Policy.Engine.Loops.{trips, is_harmless}
use ditto_screener.Policy.Modules.SourceReview.{is_level}
use ditto_screener.Policy.Decision.{core_only_manifest}
use ditto_screener.Policy.Outcome.{quarantine}
use ditto_screener.Prelude.{◌⊎◌, false, any, all}
use ditto_screener.Policy.Load.{rotation_name}
use ditto_screener.Policy.Load.Names.{rotation_name-is_bounded}
use ditto_screener.Policy.Decision.{is_bounded, max_id}
use ditto_screener.Policy.Default.{engine_of, ReviewedClean, ExchangeAccepted, default_review-pass}

-- A hash function of the right form.
abbrev constant_hash : Hashlib
unfolding is_sha256
constant_hash = record {
  hexdigest = λ payload. "0123456789abcdef0123456789abcdef0123456789abcdef0123456789abcdef";
  hexdigest-is_sha256 = λ payload. refl;
}

abbrev pack_json : Json
pack_json = obj (
    field "challenges"
      (arr (
        cons
          (obj (
            field "id" (str "remember") (
              field "request" (obj (field "q" (str "name") end)) (
                field "timeout_seconds" (int (pos 20)) (
                  field "required_response_keys" (arr (cons (str "answer") nil)) (
                    field "require_model_call" (bool true)
                      (field "require_gateway_token" (bool true) end)))))))
          nil))
      end)

-- The outside is a counter of the calls made to it.
abbrev machine : Machine ℕ
machine = record {
  read_json = λ path bound w. (ok pack_json, w + 1);
  getenv = λ name w. (ok [], w + 1);
  hmac_sha256 = λ key message. [];
  token_hex = λ n w. (ok "0a1b", w + 1);
  randbelow = λ n w. (ok 0, w + 1);
}

abbrev clean_review : SourceReviewObservation
clean_review = record {
  is_ok = true;
  risk_level = some "low";
  finding_digest = none;
  categories = "none" ∷ [];
  error_code = none;
  finding = none;
  failure_disposition = "retryable_infra";
  clearance_certified = false;
  review_audit = none;
}

abbrev relayed : ChallengeObservation
relayed = record {
  challenge_id = "v8-behavioral-oracle";
  is_ok = true;
  response_digest = none;
  elapsed_ms = 900;
  json_keys = "answer" ∷ [];
  error_code = none;
  gateway_calls = 2;
  gateway_token_observed = true;
  oracle_answer_correct = true;
}

abbrev context : PolicyContext ℕ
context = record {
  agent_id = "agent";
  agent_bytes = [];
  attempt_id = "attempt";
  miner_hotkey = "miner";
  artifact_sha256 = "artifact";
  source_digest = "source";
  source_paths = [];
  build_elapsed_ms = 10;
  health_elapsed_ms = 10;
  run_challenge = λ i request timeout w. (ok relayed, w + 1);
  review_source = some (λ w. (ok clean_review, w + 1));
}

abbrev rotation : Rotation
rotation = record {
  manifest = record {
    rotation_id = "v8-luna-source-review-behavioral-oracle";
    module_specs =
        field "kind" (str "agentic_source_review") (field "id" (str "luna-source-review") end)
        ∷ field "kind" (str "behavioral_oracle") (field "id" (str "v8-behavioral-oracle") end)
        ∷ [];
    version = 9;
  };
  built =
      agentic_source_review "luna-source-review"
      ∷ behavioral_oracle (default_oracle "v8-behavioral-oracle")
      ∷ [];
}

rotation_loaded : default_rotation "off" ≡ ok rotation
unfolding default_rotation
rotation_loaded = refl

abbrev engine : PolicyEngine ℕ
engine = engine_of constant_hash machine context rotation

abbrev exchange_evidence : PolicyEvidence
exchange_evidence = record {
  module_id = "v8-behavioral-oracle";
  code = "behavioral-oracle-passed";
  summary = "behavioral oracle round-trip returned the gateway-encoded value";
  digest = none;
}

abbrev passed_decision : ScreeningDecision
passed_decision = record {
  outcome = pass;
  detail = "";
  manifest_digest = "0123456789abcdef0123456789abcdef0123456789abcdef0123456789abcdef";
  evidence = exchange_evidence ∷ [];
  version = 9;
  finding = none;
  review_audit = none;
}

run_passes : Engine.evaluate constant_hash engine false false 0 ≡ (ok passed_decision, 5)
unfolding Engine.evaluate decision check_decision is_sha256 modules_from SourceReview.evaluate
    judge_review Oracle.evaluate judge_exchange result_of digest
run_passes = refl

abbrev content : List PolicyEvidence → ModuleResult
content evidence = record {
  disposition = clear;
  evidence = evidence;
  finding = none;
  review_audit = none;
}

default_review-pass_example :
    (w1 : ℕ) × ReviewedClean machine context 0 w1
    × ExchangeAccepted machine context (default_oracle "v8-behavioral-oracle") 5
default_review-pass_example =
    default_review-pass constant_hash machine context "off" rotation 0 {w' = 5}
      {d = passed_decision} rotation_loaded run_passes refl

evaluate-pass_sound_example :
    (rs cs : List ModuleResult) × (w1 : ℕ) × (collect (selectors engine) 0 ≡ (ok rs, w1))
    × (collect (packs engine) w1 ≡ (ok cs, 5))
    × (is_released (packs engine) rs cs ≡ true)
evaluate-pass_sound_example =
    evaluate-pass_sound constant_hash engine 0 {w' = 5} {d = passed_decision} run_passes refl

evaluate-never_rejects_example : passed_decision.outcome ≢ deterministic_reject
evaluate-never_rejects_example =
    evaluate-never_rejects constant_hash engine false false 0 {w' = 5} {d = passed_decision}
      run_passes

judge_review-exact_example : ReviewAnswers "luna-source-review" clean_review
judge_review-exact_example =
    judge_review-exact "luna-source-review" clean_review
      (record { id_bounded = refl; error_bounded = refl; digest_valid = refl })

judge_exchange-exact_example : ExchangeAnswers (default_oracle "v8-behavioral-oracle") relayed
judge_exchange-exact_example =
    judge_exchange-exact (default_oracle "v8-behavioral-oracle") relayed
      (record { id_bounded = refl; error_bounded = refl; digest_valid = refl })

reviewed : collect (selectors engine) 0 ≡ (ok (content [] ∷ []), 1)
unfolding collect modules_from SourceReview.evaluate
reviewed = refl

challenged : collect (packs engine) 1 ≡ (ok (content (exchange_evidence ∷ []) ∷ []), 5)
unfolding collect modules_from Oracle.evaluate result_of
challenged = refl

released :
    is_released (packs engine) (content [] ∷ []) (content (exchange_evidence ∷ []) ∷ []) ≡ true
unfolding modules_from
released = refl

evaluate-pass_complete_example : Engine.evaluate constant_hash engine false false 0 ≡ (
  ok (record {
    outcome = pass;
    detail = "";
    manifest_digest = digest constant_hash engine.manifest;
    evidence = exchange_evidence ∷ [];
    version = 9;
    finding = none;
    review_audit = none;
  }),
  5,
)
evaluate-pass_complete_example =
    evaluate-pass_complete constant_hash engine 0 (content [] ∷ [])
      (content (exchange_evidence ∷ []) ∷ []) {w1 = 1} {w' = 5} reviewed challenged released refl
      refl

abbrev remember : Challenge
remember = record {
  challenge_id = "remember";
  request = field "q" (str "name") end;
  timeout = finite (b'2' ∷ b'0' ∷ b'.' ∷ b'0' ∷ []) (pos 20) 1;
  required_keys = "answer" ∷ [];
  require_model_call = true;
  require_gateway_token = true;
}

pack_parses : parse_challenges pack_json ≡ ok (remember ∷ [])
unfolding parse_challenges signed
pack_parses = refl

parse_challenges-IsValid_example :
    (1 ≤ 1) × (1 ≤ max_challenges) × All IsValidChallenge (remember ∷ [])
parse_challenges-IsValid_example =
    parse_challenges-IsValid pack_json {cs = remember ∷ []} pack_parses

abbrev observed : ModuleResult
observed = content (
    record {
      module_id = "pack";
      code = "challenge-observed";
      summary = "private challenge completed; this is not proof of causal model use";
      digest = none;
    }
    ∷ [])

pack_clears : Pack.evaluate machine "pack" "pack.json" context 0 ≡ (ok observed, 2)
unfolding Pack.evaluate evidence_of signed
pack_clears = refl

evaluate-clear_example :
    (pack : Json) × (cs : List Challenge) × (w1 : ℕ) × (machine.read_json "pack.json"
        max_manifest_bytes 0
      ≡ (ok pack, w1))
    × (parse_challenges pack ≡ ok cs)
    × AllSatisfied "pack" context cs w1 2
evaluate-clear_example =
    evaluate-clear "pack" machine "pack.json" context 0 {r = observed} {w' = 2} pack_clears refl

abbrev risky_review : SourceReviewObservation
risky_review = record clean_review { risk_level = some "high"; categories = "provider_bypass" ∷ [] }

abbrev quarantined : ScreeningDecision
quarantined = record {
  outcome = quarantine;
  detail = "private policy quarantine pending operator review";
  manifest_digest = "0123456789abcdef0123456789abcdef0123456789abcdef0123456789abcdef";
  evidence =
      record {
        module_id = "agentic-preexecution-review";
        code = "source-safety-private-challenge-risk";
        summary = "private source analysis found private-challenge safety risk";
        digest = none;
      }
      ∷ [];
  version = 9;
  finding = none;
  review_audit = none;
}

quarantined_early :
    preexecution_source_decision constant_hash core_only_manifest risky_review ≡ ok quarantined
unfolding preexecution_source_decision decision check_decision digest is_sha256
quarantined_early = refl

preexecution-outcome_example :
    FoundRisk risky_review quarantined.outcome ⊎ Failed risky_review quarantined.outcome
preexecution-outcome_example =
    preexecution-outcome constant_hash core_only_manifest risky_review {d = quarantined}
      quarantined_early

evaluate-untripped_example :
    (rs : List ModuleResult) × (w1 : ℕ) × (collect (selectors engine) 0 ≡ (ok rs, w1))
    × (all is_harmless rs ≡ true)
    × (any trips rs ≡ false)
evaluate-untripped_example =
    evaluate-untripped constant_hash machine context rotation 0 {w' = 5} {d = passed_decision} refl
      run_passes refl

rotation_name-is_bounded_example :
    is_bounded
      (rotation_name "enforce" "a-rotation-name-of-sixty-four-characters-that-leaves-no-room-for")
      max_id
    ≡ true
rotation_name-is_bounded_example =
    rotation_name-is_bounded "a-rotation-name-of-sixty-four-characters-that-leaves-no-room-for"
