-- ===== src/Worker/Tests.antt =====
-- A quarantine, reported by a worker of ditto_screener/worker.py.
use ditto_screener.Prelude.{ℕ, ◌≡◌, refl, String, true, none, some, List, [], ◌∷◌}
use ditto_screener.Prelude.Results.{ok, raised, value_error}
use ditto_screener.Policy.Hash.{Hashlib, is_sha256}
use ditto_screener.Policy.Outcome.{quarantine}
use ditto_screener.Policy.Decision.{
  PolicyEvidence, ScreeningDecision, check_decision, check_evidence,
}
use ditto_screener.Protocol.Patterns.{is_slug, is_instance_id, is_scope, is_ss58, is_signature}
use ditto_screener.Protocol.Result.{ScreenResultRequest}
use ditto_screener.Protocol.Signing.{verdict_signing_message}
use ditto_screener.Protocol.Valid.{fits, validate}
use ditto_screener.Worker.Report.{
  ScreenerQueueItem, validate_precheck, Reporter, submission_of, request_of, report, check_all,
  last_digest,
}
use ditto_screener.Worker.Agree.{bound_verdict, report-signs}
use ditto_screener.Worker.Accepted.{report-accepted}

abbrev some_digest : String
some_digest = "0123456789abcdef0123456789abcdef0123456789abcdef0123456789abcdef"

abbrev constant_hash : Hashlib
unfolding is_sha256
constant_hash = record { hexdigest = λ payload. some_digest; hexdigest-is_sha256 = λ payload. refl }

abbrev some_signature : String
some_signature =
    "0123456789abcdef0123456789abcdef0123456789abcdef0123456789abcdef0123456789abcdef0123456789abcdef0123456789abcdef0123456789abcdef"

abbrev reporter : Reporter
reporter = record {
  screener_hotkey = "5GrwvaEF5zXb26Fz9rcQpDWS57CtERHpNehXCPcNoHGKutQY";
  instance_id = "screener-1";
  status = record {
    revision = 4;
    scope = "*";
    mode = "enforce";
    checksum = some_digest;
    source = "platform";
  };
  sign = λ message. some_signature;
  finding_from = λ payload. raised value_error;
  audit_from = λ payload. raised value_error;
}

abbrev item : ScreenerQueueItem
item = record {
  agent_id = "550e8400-e29b-41d4-a716-446655440000";
  miner_hotkey = "5DhaT8U7LVwnnJNUU8VL1XEipicatoaDVVq7cHo227gogVZm";
  sha256 = some_digest;
  attempt_id = some "attempt";
  precheck_reason_code = none;
  duplicate_of = none;
  build_only = true;
  deferred_source_review = true;
}

abbrev observed : PolicyEvidence
observed = record {
  module_id = "v8-behavioral-oracle";
  code = "behavioral-oracle-wrong-answer";
  summary = "behavioral oracle final answer did not carry the gateway-encoded token";
  digest = some some_digest;
}

abbrev quarantined : ScreeningDecision
quarantined = record {
  outcome = quarantine;
  detail = "private policy quarantine pending operator review";
  manifest_digest = some_digest;
  evidence = observed ∷ [];
  version = 9;
  finding = none;
  review_audit = none;
}

abbrev request : ScreenResultRequest
unfolding last_digest
request = request_of reporter (
    submission_of constant_hash reporter item 9 "attempt" some_signature quarantined
      (some (observed ∷ [])) none none none)

reported : report constant_hash reporter item 9 "attempt" quarantined none ≡ ok request
unfolding report verdict_signing_message check_all check_evidence is_sha256
reported = refl

item_valid : validate_precheck item ≡ ok item
unfolding validate_precheck
item_valid = refl

decision_checked : check_decision quarantined ≡ ok quarantined
unfolding check_decision is_sha256
decision_checked = refl

request_fits : fits request ≡ true
unfolding fits request is_sha256 is_slug is_scope is_instance_id is_ss58 is_signature
request_fits = refl

report-signs_example :
    (message : List ℕ) × (verdict_signing_message (bound_verdict item.agent_id request)
      ≡ ok message)
    × (request.signature ≡ reporter.sign message)
report-signs_example =
    report-signs constant_hash reporter item 9 "attempt" quarantined none {r = request} reported

report-accepted_example : validate constant_hash request ≡ ok request
report-accepted_example =
    report-accepted constant_hash reporter item 9 "attempt" quarantined none {item' = item}
      {d' = quarantined} {r = request} item_valid decision_checked
      (record { quarantine_evidence = refl; published_passing = refl }) reported request_fits
