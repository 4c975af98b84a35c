-- ===== src/Protocol/Valid.antt =====
-- The validation of `ScreenResultRequest` in ditto_screening_protocol/models.py: the constraints on
-- its fields, then the three validators in the order of the class.
use ditto_screener.Prelude.{
  String, Bool, true, false, not, ◌&&◌, ◌||◌, Option, none, some, List, ◌*◌, ◌^◌, length, leb, ltb,
  len, is_none, is_some, differ, ◌==◌, nat_equality, text_equality, if◌then◌else◌,
}
use ditto_screener.Prelude.Results.{Result, ok, raised, value_error, raise_if, ◌>>=◌, ◌>>◌}
use ditto_screener.Policy.Hash.{Hashlib, is_sha256}
use ditto_screener.Policy.Outcome.{is_passing}
use ditto_screener.Policy.Decision.{PolicyEvidence, policy_version, is_pass_inconclusive}
use ditto_screener.Protocol.Patterns.{
  is_slug, is_instance_id, is_scope, is_image_id, is_image_ref, is_ss58, is_signature,
}
use ditto_screener.Protocol.Result.{
  ScreenResultRequest, SourceReviewFinding, ScreenReviewAudit, finding_digest_of, audit_digest_of,
  is_quarantine, is_review, is_audited, is_in, has_image, lacks_image, has_settings, lacks_settings,
}

-- A constraint on a field that may be `None`.
abbrev pub or_none {ℓ} : {A : Type ℓ} → (A → Bool) → Option A → Bool
or_none p none = true
or_none p (some a) = p a

-- The constraints that the fields of the request declare; those of the nested models are theirs.
unfoldable pub fits : ScreenResultRequest → Bool
fits r =
    is_ss58 r.screener_hotkey
    && is_signature r.signature
    && or_none is_sha256 r.manifest_digest
    && or_none is_sha256 r.finding_digest
    && or_none is_sha256 r.review_audit_digest
    && or_none (leb 1) r.review_settings_revision
    && or_none is_instance_id r.review_settings_instance_id
    && or_none is_scope r.review_settings_scope
    && or_none is_sha256 r.review_settings_checksum
    && or_none is_slug r.reason_code
    && or_none is_sha256 r.image_sha256
    && or_none (λ n. ltb 0 n && leb n (8 * 1024 ^ 3)) r.image_size_bytes
    && or_none is_image_id r.image_id
    && or_none is_image_ref r.image_ref
    && or_none (λ (items : List PolicyEvidence). leb (length items) 16) r.evidence
    && leb 1 r.policy_version
    && leb (len r.detail) 4000

-- `validate_typed_outcome`
unfoldable pub validate_typed_outcome : ScreenResultRequest → Result ScreenResultRequest
validate_typed_outcome r = elim r.outcome [
  | none ↦ do
    raise_if (leb policy_version r.policy_version) value_error
    raise_if (has_image r) value_error
    ok r
  | some outcome ↦ do
    raise_if (differ r.passed (is_passing outcome)) value_error
    raise_if (is_review outcome && is_none r.attempt_id) value_error
    raise_if (is_audited outcome && (is_none r.manifest_digest || is_none r.reason_code))
        value_error
    raise_if (if is_passing outcome then lacks_image r else has_image r) value_error
    ok r
]

-- `a != b` on digests that may be `None`
abbrev pub is_digest_of : String → Option String → Bool
is_digest_of digest none = false
is_digest_of digest (some value) = digest == value

module _ (H : Hashlib) where
  -- `if self.finding is not None`
  unfoldable pub check_finding : Option SourceReviewFinding → Option String → Result (Unit {0})
  check_finding none digest = ok tt
  check_finding (some finding) digest =
      raise_if (is_none digest || not (is_digest_of (finding_digest_of H finding) digest))
        value_error

  -- `if self.outcome == PASS_INCONCLUSIVE`
  unfoldable pub check_audit : Bool → Option ScreenReviewAudit → Option String → Result (Unit {0})
  check_audit true none digest = raised value_error
  check_audit true (some audit) digest =
      raise_if (is_none digest || not (is_digest_of (audit_digest_of H audit) digest)) value_error
  check_audit false audit digest = raise_if (is_some audit || is_some digest) value_error

  -- `validate_review_payloads`
  unfoldable pub validate_review_payloads : ScreenResultRequest → Result ScreenResultRequest
  unfolding check_finding check_audit
  validate_review_payloads r = do
    raise_if (has_settings r && lacks_settings r) value_error
    raise_if ((is_some r.evidence || is_some r.finding) && not (is_in is_review r.outcome))
        value_error
    check_finding r.finding r.finding_digest
    check_audit (is_in is_pass_inconclusive r.outcome) r.review_audit r.review_audit_digest
    ok r

-- `validate_build_only`
unfoldable pub validate_build_only : ScreenResultRequest → Result ScreenResultRequest
validate_build_only r = do
  raise_if (r.deferred_source_review && not r.build_only) value_error
  raise_if (r.build_only && not r.deferred_source_review && is_in is_quarantine r.outcome)
      value_error
  ok r

-- The construction of a request.
module _ (H : Hashlib) where
  unfoldable pub validate : ScreenResultRequest → Result ScreenResultRequest
  unfolding fits validate_typed_outcome validate_review_payloads validate_build_only
  validate r = do
    raise_if (not (fits r)) value_error
    typed ← validate_typed_outcome r
    reviewed ← validate_review_payloads H typed
    validate_build_only reviewed
