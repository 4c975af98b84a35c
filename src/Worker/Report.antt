-- ===== src/Worker/Report.antt =====
-- The part of `_screen_one` of ditto_screener/worker.py that follows the screening: whether the
-- decision is submitted, and the signed request that `PlatformClient.submit_result` posts for it.
use ditto_screener.Prelude.{
  ℕ, String, Bool, true, false, not, ◌&&◌, ◌||◌, Option, none, some, List, [], ◌∷◌, leb, last?,
  is_none, ◌==◌, text_equality, if◌then◌else◌, or_else, differ,
}
use ditto_screener.Prelude.Results.{Result, ok, value_error, platform_error, raise_if, ◌>>=◌, ◌>>◌}
use ditto_screener.Json.{Fields}
use ditto_screener.Policy.Hash.{Hashlib}
use ditto_screener.Policy.Outcome.{ScreeningOutcome, is_passing}
use ditto_screener.Policy.Decision.{
  PolicyEvidence, ScreeningDecision, check_evidence, is_pass_inconclusive, submits_verdict,
}
use ditto_screener.Protocol.Result.{
  ScreenResultRequest, SourceReviewFinding, ScreenReviewAudit, finding_digest_of, audit_digest_of,
  is_quarantine, is_review, is_audited,
}
use ditto_screener.Protocol.Signing.{Verdict, verdict_signing_message}

-- `ScreenerQueueItem`
pub record ScreenerQueueItem : Type 0 where
  pub agent_id : String
  pub miner_hotkey : String
  pub sha256 : String
  pub attempt_id : Option String
  pub precheck_reason_code : Option String
  pub duplicate_of : Option String
  pub build_only : Bool
  pub deferred_source_review : Bool

-- `validate_precheck`
unfoldable pub validate_precheck : ScreenerQueueItem → Result ScreenerQueueItem
validate_precheck item = do
  raise_if (differ (is_none item.precheck_reason_code) (is_none item.duplicate_of)) value_error
  raise_if (item.deferred_source_review && not item.build_only) value_error
  ok item

pub record ReviewSettingsStatus : Type 0 where
  pub revision : ℕ
  pub scope : String
  pub mode : String
  pub checksum : String
  pub source : String

-- The image that `publish_image` stored, and the upload that the platform gave for it.
pub record ScreenedImage : Type 0 where
  pub sha256 : String
  pub size_bytes : ℕ
  pub image_id : String
  pub image_ref : String
  pub upload_id : String

-- What the worker keeps and calls: its identity, its settings, the key pair's `sign(...).hex()`, and
-- the models' `model_validate`, which pydantic carries out.
pub record Reporter : Type 0 where
  pub screener_hotkey : String
  pub instance_id : String
  pub status : ReviewSettingsStatus
  pub sign : List ℕ → String
  pub finding_from : Fields → Result SourceReviewFinding
  pub audit_from : Fields → Result ScreenReviewAudit

-- `X if condition and payload is not None else None`
unfoldable pub only_if :
    {A : Type 0} → Bool → (Fields → Result A) → Option Fields → Result (Option A)
only_if true parse (some payload) = parse payload >>= λ a. ok (some a)
only_if true parse none = ok none
only_if false parse payload = ok none

unfoldable pub check_all : List PolicyEvidence → Result (List PolicyEvidence)
check_all [] = ok []
check_all (e ∷ es) = do item ← check_evidence e; items ← check_all es; ok (item ∷ items)

-- The evidence trail, for an audited result with evidence.
unfoldable pub trail : Bool → List PolicyEvidence → Result (Option (List PolicyEvidence))
unfolding check_all
trail false evidence = ok none
trail true [] = ok none
trail true (e ∷ es) = check_all (e ∷ es) >>= λ items. ok (some items)

-- `next((item.digest for item in reversed(result.evidence) if item.digest), None)`: the last digest
-- that is not empty.
unfoldable pub last_digest : List PolicyEvidence → Option String
last_digest [] = none
last_digest (e ∷ es) =
    or_else (last_digest es)
      (elim e.digest [ none ↦ none | some d ↦ if d == "" then none else some d ])

abbrev pub last_code : List PolicyEvidence → Option String
last_code evidence = elim (last? evidence) [ none ↦ none | some e ↦ some e.code ]

-- `value if revision >= 1 else None`
abbrev pub applied : {A : Type 0} → ReviewSettingsStatus → A → Option A
applied status value = if leb 1 status.revision then some value else none

abbrev pub image_part : {A : Type 0} → (ScreenedImage → A) → Option ScreenedImage → Option A
image_part part none = none
image_part part (some image) = some (part image)

-- `submits_result`
unfoldable pub submits_result : ScreeningDecision → Bool
unfolding submits_verdict
submits_result d = submits_verdict d || is_review d.outcome

-- The arguments of `PlatformClient.submit_result`, without the agent's id.
pub record ResultArguments : Type 0 where
  pub signature : String
  pub passed : Bool
  pub policy_version : ℕ
  pub detail : String
  pub attempt_id : Option String
  pub outcome : Option ScreeningOutcome
  pub manifest_digest : Option String
  pub finding_digest : Option String
  pub review_audit_digest : Option String
  pub review_settings_revision : Option ℕ
  pub review_settings_instance_id : Option String
  pub review_settings_scope : Option String
  pub review_settings_checksum : Option String
  pub reason_code : Option String
  pub evidence : Option (List PolicyEvidence)
  pub finding : Option SourceReviewFinding
  pub review_audit : Option ScreenReviewAudit
  pub image_sha256 : Option String
  pub image_size_bytes : Option ℕ
  pub image_id : Option String
  pub image_ref : Option String
  pub image_upload_id : Option String
  pub build_only : Bool
  pub deferred_source_review : Bool

-- The payload that `submit_result` builds of its arguments.
abbrev pub request_of : Reporter → ResultArguments → ScreenResultRequest
request_of reporter a = record {
  screener_hotkey = reporter.screener_hotkey;
  signature = a.signature;
  passed = a.passed;
  policy_version = a.policy_version;
  detail = a.detail;
  attempt_id = a.attempt_id;
  outcome = a.outcome;
  manifest_digest = a.manifest_digest;
  finding_digest = a.finding_digest;
  review_audit_digest = a.review_audit_digest;
  review_settings_revision = a.review_settings_revision;
  review_settings_instance_id = a.review_settings_instance_id;
  review_settings_scope = a.review_settings_scope;
  review_settings_checksum = a.review_settings_checksum;
  reason_code = a.reason_code;
  evidence = a.evidence;
  finding = a.finding;
  review_audit = a.review_audit;
  image_sha256 = a.image_sha256;
  image_size_bytes = a.image_size_bytes;
  image_id = a.image_id;
  image_ref = a.image_ref;
  image_upload_id = a.image_upload_id;
  build_only = a.build_only;
  deferred_source_review = a.deferred_source_review;
}

-- The local variable `reason_code`.
abbrev pub reason_of : ScreeningDecision → Option String
reason_of d =
    if is_pass_inconclusive d.outcome
    then some "source-review-inconclusive"
    else last_code d.evidence

module _ (H : Hashlib) where
  -- The local variable `finding_digest`.
  abbrev pub bound_digest : ScreeningDecision → Option SourceReviewFinding → Option String
  bound_digest d (some f) = some (finding_digest_of H f)
  bound_digest d none = if is_audited d.outcome then last_digest d.evidence else none

  -- The local variable `review_audit_digest`.
  abbrev pub audit_digest : Option ScreenReviewAudit → Option String
  audit_digest (some a) = some (audit_digest_of H a)
  audit_digest none = none

module _ (H : Hashlib) (reporter : Reporter) (item : ScreenerQueueItem) (policy_version : ℕ) where
  -- The arguments that `sign_verdict` is called with.
  abbrev pub verdict_of :
      String
      → ScreeningDecision
      → Option SourceReviewFinding
      → Option ScreenReviewAudit
      → Option ScreenedImage
      → Verdict
  verdict_of attempt d finding audit image = record {
    screener_hotkey = reporter.screener_hotkey;
    agent_id = item.agent_id;
    passed = is_passing d.outcome;
    policy_version = policy_version;
    attempt_id = some attempt;
    outcome = some d.outcome;
    manifest_digest = if is_audited d.outcome then some d.manifest_digest else none;
    finding_digest = bound_digest H d finding;
    review_audit_digest = audit_digest H audit;
    deferred_source_review = item.deferred_source_review;
    review_settings_revision = applied reporter.status reporter.status.revision;
    review_settings_instance_id = applied reporter.status reporter.instance_id;
    review_settings_scope = applied reporter.status reporter.status.scope;
    review_settings_checksum = applied reporter.status reporter.status.checksum;
    reason_code = reason_of d;
    image_sha256 = image_part ScreenedImage.sha256 image;
    image_size_bytes = image_part ScreenedImage.size_bytes image;
    image_id = image_part ScreenedImage.image_id image;
    image_ref = image_part ScreenedImage.image_ref image;
    image_upload_id = image_part ScreenedImage.upload_id image;
  }

  -- The arguments that `submit_result` is called with.
  abbrev pub submission_of :
      String
      → String
      → ScreeningDecision
      → Option (List PolicyEvidence)
      → Option SourceReviewFinding
      → Option ScreenReviewAudit
      → Option ScreenedImage
      → ResultArguments
  submission_of attempt signature d evidence finding audit image = record {
    signature = signature;
    passed = is_passing d.outcome;
    policy_version = policy_version;
    detail = d.detail;
    attempt_id = some attempt;
    outcome = some d.outcome;
    manifest_digest = if is_audited d.outcome then some d.manifest_digest else none;
    finding_digest = bound_digest H d finding;
    review_audit_digest = audit_digest H audit;
    review_settings_revision = applied reporter.status reporter.status.revision;
    review_settings_instance_id = applied reporter.status reporter.instance_id;
    review_settings_scope = applied reporter.status reporter.status.scope;
    review_settings_checksum = applied reporter.status reporter.status.checksum;
    reason_code = reason_of d;
    evidence = evidence;
    finding = finding;
    review_audit = audit;
    image_sha256 = image_part ScreenedImage.sha256 image;
    image_size_bytes = image_part ScreenedImage.size_bytes image;
    image_id = image_part ScreenedImage.image_id image;
    image_ref = image_part ScreenedImage.image_ref image;
    image_upload_id = image_part ScreenedImage.upload_id image;
    build_only = item.build_only;
    deferred_source_review = item.deferred_source_review;
  }

  -- From `typed_outcome` to the payload, which is not validated yet.
  unfoldable pub report :
      String → ScreeningDecision → Option ScreenedImage → Result ScreenResultRequest
  unfolding only_if trail last_digest
  report attempt d image = do
    raise_if (is_passing d.outcome && is_none image) platform_error
    raise_if (item.build_only && not item.deferred_source_review && is_quarantine d.outcome)
        platform_error
    finding ← only_if (is_audited d.outcome) reporter.finding_from d.finding
    evidence ← trail (is_audited d.outcome) d.evidence
    audit ← only_if (is_pass_inconclusive d.outcome) reporter.audit_from d.review_audit
    message ← verdict_signing_message (verdict_of attempt d finding audit image)
    ok (
        request_of reporter
          (submission_of attempt (reporter.sign message) d evidence finding audit image))
