-- ===== src/Worker/Agree.antt =====
-- `report` of the worker's part of ditto_screener/worker.py, and the verdict that the platform reads
-- off its request.
use ditto_screener.Prelude.{
  ℕ, ◌≡◌, ap, ◌∙◌, String, false, not, ◌&&◌, Option, List, is_none, text_equality,
}
use ditto_screener.Prelude.Results.{ok, platform_error, >>=-eq-ok, guarded-eq-ok}
use ditto_screener.Policy.Hash.{Hashlib}
use ditto_screener.Policy.Outcome.{is_passing}
use ditto_screener.Policy.Decision.{PolicyEvidence, ScreeningDecision, is_pass_inconclusive}
use ditto_screener.Protocol.Result.{
  ScreenResultRequest, SourceReviewFinding, ScreenReviewAudit, is_quarantine, is_audited,
}
use ditto_screener.Protocol.Signing.{Verdict, verdict_signing_message}
use ditto_screener.Worker.Report.{
  ScreenerQueueItem, Reporter, ScreenedImage, only_if, trail, verdict_of, submission_of, request_of,
  report,
}

-- The verdict that the platform reads off a request, with the agent of the request's path.
abbrev pub bound_verdict : String → ScreenResultRequest → Verdict
bound_verdict agent_id r = record {
  screener_hotkey = r.screener_hotkey;
  agent_id = agent_id;
  passed = r.passed;
  policy_version = r.policy_version;
  attempt_id = r.attempt_id;
  outcome = r.outcome;
  manifest_digest = r.manifest_digest;
  finding_digest = r.finding_digest;
  review_audit_digest = r.review_audit_digest;
  deferred_source_review = r.deferred_source_review;
  review_settings_revision = r.review_settings_revision;
  review_settings_instance_id = r.review_settings_instance_id;
  review_settings_scope = r.review_settings_scope;
  review_settings_checksum = r.review_settings_checksum;
  reason_code = r.reason_code;
  image_sha256 = r.image_sha256;
  image_size_bytes = r.image_size_bytes;
  image_id = r.image_id;
  image_ref = r.image_ref;
  image_upload_id = r.image_upload_id;
}

module _ (H : Hashlib) (reporter : Reporter) (item : ScreenerQueueItem) (policy_version : ℕ) where
  -- What `report` went through to return a request.
  pub record Reported (attempt : String) (d : ScreeningDecision) (image : Option ScreenedImage)
      (r : ScreenResultRequest) : Type 0 where
    pub finding : Option SourceReviewFinding
    pub evidence : Option (List PolicyEvidence)
    pub audit : Option ScreenReviewAudit
    pub message : List ℕ
    pub has_image : (is_passing d.outcome && is_none image) ≡ false
    pub not_mechanical :
        (item.build_only && not item.deferred_source_review && is_quarantine d.outcome) ≡ false
    pub found : only_if (is_audited d.outcome) reporter.finding_from d.finding ≡ ok finding
    pub trailed : trail (is_audited d.outcome) d.evidence ≡ ok evidence
    pub audited :
        only_if (is_pass_inconclusive d.outcome) reporter.audit_from d.review_audit ≡ ok audit
    pub signed :
        verdict_signing_message
          (verdict_of H reporter item policy_version attempt d finding audit image)
        ≡ ok message
    pub sent :
        r
        ≡ request_of reporter (
            submission_of H reporter item policy_version attempt
              (reporter.sign message)
              d
              evidence
              finding
              audit
              image)

  pub report-Reported :
      (attempt : String) (d : ScreeningDecision) (image : Option ScreenedImage)
      {r : ScreenResultRequest}
      → report H reporter item policy_version attempt d image ≡ ok r
      → Reported attempt d image r
  unfolding report
  report-Reported attempt d image {r} h =
      let (g, k) = guarded-eq-ok (is_passing d.outcome && is_none image) platform_error _ h in
      let (g2, k2) =
        guarded-eq-ok
          (item.build_only && not item.deferred_source_review && is_quarantine d.outcome)
          platform_error _ k in
      let (finding, ef, kf) =
        >>=-eq-ok (only_if (is_audited d.outcome) reporter.finding_from d.finding) _ k2 in
      let (evidence, ee, ke) = >>=-eq-ok (trail (is_audited d.outcome) d.evidence) _ kf in
      let (audit, ea, ka) =
        >>=-eq-ok (only_if (is_pass_inconclusive d.outcome) reporter.audit_from d.review_audit) _
          ke in
      let (message, em, km) =
        >>=-eq-ok
          (verdict_signing_message
            (verdict_of H reporter item policy_version attempt d finding audit image))
          _ ka in
      record {
        finding = finding;
        evidence = evidence;
        audit = audit;
        message = message;
        has_image = g;
        not_mechanical = g2;
        found = ef;
        trailed = ee;
        audited = ea;
        signed = em;
        sent = cc km;
      }

  -- The platform can check the signature of every request: the message rebuilt from the request, and
  -- the agent it is posted for, is the one that was signed.
  pub report-signs :
      (attempt : String) (d : ScreeningDecision) (image : Option ScreenedImage)
      {r : ScreenResultRequest}
      → report H reporter item policy_version attempt d image ≡ ok r
      → (message : List ℕ) × (verdict_signing_message (bound_verdict item.agent_id r) ≡ ok message)
        × (r.signature ≡ reporter.sign message)
  report-signs attempt d image {r} h =
      let p = report-Reported attempt d image h in
      (
        p.message,
        ap (λ (q : ScreenResultRequest). verdict_signing_message (bound_verdict item.agent_id q))
              p.sent
            ∙ p.signed,
        ap ScreenResultRequest.signature p.sent,
      )
