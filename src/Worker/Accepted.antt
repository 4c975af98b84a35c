-- ===== src/Worker/Accepted.antt =====
-- The requests that the worker builds pass the validators of the protocol.
use ditto_screener.Prelude.{
  ℕ, ◌≡◌, String, true, false, not, ◌&&◌, Option, none, List, is_none, is_some, text_equality,
  if◌then◌else◌, is_empty,
}
use ditto_screener.Prelude.Results.{ok}
use ditto_screener.Policy.Hash.{Hashlib}
use ditto_screener.Policy.Outcome.{is_passing}
use ditto_screener.Policy.Decision.{
  PolicyEvidence, ScreeningDecision, check_decision, is_pass_inconclusive,
}
use ditto_screener.Protocol.Result.{
  ScreenResultRequest, SourceReviewFinding, ScreenReviewAudit, is_quarantine, is_audited,
}
use ditto_screener.Protocol.Valid.{
  fits, validate, validate_typed_outcome, validate_review_payloads, validate_build_only,
}
use ditto_screener.Worker.Report.{
  ScreenerQueueItem, validate_precheck, Reporter, ScreenedImage, last_digest, submission_of,
  request_of, report,
}
use ditto_screener.Worker.Agree.{report-Reported}
use ditto_screener.Worker.Checks.{
  differ_self, attempted, explained, imaged, bound_together, review_bound, finding_checked,
  audit_checked, only_if-false, trail-false, only_if_some, audit_present, item_valid,
}

-- What the screening guarantees of a decision and of the published image, beside the checks of
-- `ScreeningDecision`: a quarantine states its evidence, and an image is published for a passing
-- decision only.
pub record IsScreened (d : ScreeningDecision) (image : Option ScreenedImage) : Type 0 where
  pub quarantine_evidence : (is_quarantine d.outcome && is_empty d.evidence) ≡ false
  pub published_passing : (not (is_passing d.outcome) && is_some image) ≡ false

module _ (H : Hashlib) (reporter : Reporter) (item : ScreenerQueueItem) (policy_version : ℕ) where
  module _ (attempt signature : String) (d : ScreeningDecision)
      (finding : Option SourceReviewFinding) (audit : Option ScreenReviewAudit)
      (evidence : Option (List PolicyEvidence)) (image : Option ScreenedImage) where
    abbrev payload : ScreenResultRequest
    payload = request_of reporter (
        submission_of H reporter item policy_version attempt signature d evidence finding audit
          image)

    typed_accepted :
        IsScreened d image
        → (is_passing d.outcome && is_none image) ≡ false
        → validate_typed_outcome payload ≡ ok payload
    unfolding validate_typed_outcome
    typed_accepted s g = rw (
      differ_self (is_passing d.outcome),
      attempted d.outcome,
      explained d.outcome d.evidence d.manifest_digest s.quarantine_evidence,
      imaged (is_passing d.outcome) image g s.published_passing,
    )

    payloads_accepted :
        (is_audited d.outcome ≡ false → (evidence ≡ none) × (finding ≡ none))
        → (is_some audit ≡ is_pass_inconclusive d.outcome)
        → validate_review_payloads H payload ≡ ok payload
    unfolding validate_review_payloads
    payloads_accepted e a = rw (
      bound_together reporter.status reporter.instance_id,
      review_bound d.outcome evidence finding e,
      finding_checked H finding (if is_audited d.outcome then last_digest d.evidence else none),
      audit_checked H (is_pass_inconclusive d.outcome) audit a,
    )

    mechanical_accepted :
        (item.deferred_source_review && not item.build_only) ≡ false
        → (item.build_only && not item.deferred_source_review && is_quarantine d.outcome) ≡ false
        → validate_build_only payload ≡ ok payload
    unfolding validate_build_only
    mechanical_accepted p g = rw (p, g)

validate_of_parts :
    (H : Hashlib) (r q : ScreenResultRequest)
    → r ≡ q
    → fits r ≡ true
    → validate_typed_outcome q ≡ ok q
    → validate_review_payloads H q ≡ ok q
    → validate_build_only q ≡ ok q
    → validate H r ≡ ok r
unfolding validate
validate_of_parts H r q same fit t v m =
    let t' : validate_typed_outcome r ≡ ok r = rw same t in
    let v' : validate_review_payloads H r ≡ ok r = rw same v in
    let m' : validate_build_only r ≡ ok r = rw same m in rw (fit, t', v', m')

module _ (H : Hashlib) (reporter : Reporter) (item : ScreenerQueueItem) (policy_version : ℕ) where
  -- For a valid queue item, a checked decision and the image that its screening published, the
  -- request of `report` passes the three validators of the protocol: where its fields keep their
  -- own constraints, nothing refuses it.
  pub report-accepted :
      (attempt : String) (d : ScreeningDecision) (image : Option ScreenedImage)
      {item' : ScreenerQueueItem} {d' : ScreeningDecision} {r : ScreenResultRequest}
      → validate_precheck item ≡ ok item'
      → check_decision d ≡ ok d'
      → IsScreened d image
      → report H reporter item policy_version attempt d image ≡ ok r
      → fits r ≡ true
      → validate H r ≡ ok r
  report-accepted attempt d image {r = r} valid checked screened h fit =
      let p = report-Reported H reporter item policy_version attempt d image h in
      let t =
        typed_accepted H reporter item policy_version attempt (reporter.sign p.message) d p.finding
          p.audit p.evidence image screened p.has_image in
      let v =
        payloads_accepted H reporter item policy_version attempt (reporter.sign p.message) d
          p.finding p.audit p.evidence image
          (λ plain. (
            trail-false (is_audited d.outcome) d.evidence p.trailed plain,
            only_if-false (is_audited d.outcome) reporter.finding_from d.finding p.found plain,
          ))
          (only_if_some (is_pass_inconclusive d.outcome) reporter.audit_from d.review_audit
            p.audited (audit_present d checked)) in
      let m =
        mechanical_accepted H reporter item policy_version attempt (reporter.sign p.message) d
          p.finding p.audit p.evidence image (item_valid item valid) p.not_mechanical in
      validate_of_parts H r _ p.sent fit t v m
