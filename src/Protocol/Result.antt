-- ===== src/Protocol/Result.antt =====
-- `ScreenResultRequest` and the payloads it carries, of ditto_screening_protocol/models.py. A UUID is
-- its text.
use ditto_screener.Prelude.{
  ℕ, String, Bool, true, false, ◌||◌, Option, none, some, List, [], ◌∷◌, ltb, is_none, is_some,
  differ, nat_equality, text_equality,
}
use ditto_screener.Prelude.Int.{pos}
use ditto_screener.Prelude.Results.{Result, ok, value_error, raise_if, ◌>>◌}
use ditto_screener.Json.{
  Json, null, int, float, str, arr, obj, Items, nil, cons, end, field, Double, dumps, sorted_set,
}
use ditto_screener.Policy.Hash.{Hashlib}
use ditto_screener.Policy.Outcome.{ScreeningOutcome, pass_inconclusive, quarantine, inconclusive}
use ditto_screener.Policy.Decision.{PolicyEvidence}

pub record SourceReviewEvidenceItem : Type 0 where
  pub path : String
  pub line : ℕ
  pub category : String

pub record SourceReviewFinding : Type 0 where
  pub artifact_sha256 : String
  pub prompt_revision : String
  pub risk_level : String
  pub confidence : Double
  pub categories : List String
  pub evidence : List SourceReviewEvidenceItem
  pub summary : String

texts_json : List String → Items
texts_json [] = nil
texts_json (s ∷ ss) = cons (str s) (texts_json ss)

locations_json : List SourceReviewEvidenceItem → Items
locations_json [] = nil
locations_json (item ∷ items) =
    cons
      (obj (
        field "path" (str item.path)
          (field "line" (int (pos item.line)) (field "category" (str item.category) end))))
      (locations_json items)

pub record ScreenReviewAudit : Type 0 where
  pub stage : String
  pub reason_code : String
  pub prompt_revision : String
  pub harness_revision : Option String
  pub max_steps : ℕ
  pub steps_used : ℕ
  pub max_read_bytes : Option ℕ
  pub read_bytes_used : Option ℕ
  pub max_input_tokens : Option ℕ
  pub input_tokens_used : Option ℕ
  pub max_output_tokens : Option ℕ
  pub output_tokens_used : Option ℕ
  pub max_cost_usd : Option Double
  pub cost_usd_used : Option Double

-- `validate_pairs_and_usage`
unfoldable pub validate_pairs_and_usage : ScreenReviewAudit → Result ScreenReviewAudit
validate_pairs_and_usage a = do
  raise_if (differ (is_none a.max_read_bytes) (is_none a.read_bytes_used)) value_error
  raise_if (differ (is_none a.max_input_tokens) (is_none a.input_tokens_used)) value_error
  raise_if (differ (is_none a.max_output_tokens) (is_none a.output_tokens_used)) value_error
  raise_if (differ (is_none a.max_cost_usd) (is_none a.cost_usd_used)) value_error
  raise_if (ltb a.max_steps a.steps_used) value_error
  ok a

-- An optional value as JSON has it.
abbrev pub text_json : Option String → Json
text_json none = null
text_json (some s) = str s

abbrev pub number_json : Option ℕ → Json
number_json none = null
number_json (some n) = int (pos n)

abbrev pub float_json : Option Double → Json
float_json none = null
float_json (some x) = float x

module _ (H : Hashlib) where
  -- `SourceReviewFinding.canonical_digest`
  unfoldable pub finding_digest_of : SourceReviewFinding → String
  unfolding texts_json locations_json
  finding_digest_of f = H.hexdigest (
      dumps (
        obj (
          field "artifact_sha256" (str f.artifact_sha256) (
            field "prompt_revision" (str f.prompt_revision) (
              field "risk_level" (str f.risk_level) (
                field "confidence" (float f.confidence) (
                  field "categories" (arr (texts_json (sorted_set f.categories))) (
                    field "evidence" (arr (locations_json f.evidence))
                      (field "summary" (str f.summary) end)))))))))

  -- `ScreenReviewAudit.canonical_digest`
  unfoldable pub audit_digest_of : ScreenReviewAudit → String
  audit_digest_of a = H.hexdigest (
      dumps (
        obj (
          field "stage" (str a.stage) (
            field "reason_code" (str a.reason_code) (
              field "prompt_revision" (str a.prompt_revision) (
                field "harness_revision" (text_json a.harness_revision) (
                  field "max_steps" (int (pos a.max_steps)) (
                    field "steps_used" (int (pos a.steps_used)) (
                      field "max_read_bytes" (number_json a.max_read_bytes) (
                        field "read_bytes_used" (number_json a.read_bytes_used) (
                          field "max_input_tokens" (number_json a.max_input_tokens) (
                            field "input_tokens_used" (number_json a.input_tokens_used) (
                              field "max_output_tokens" (number_json a.max_output_tokens) (
                                field "output_tokens_used" (number_json a.output_tokens_used) (
                                  field "max_cost_usd" (float_json a.max_cost_usd) (
                                    field "cost_usd_used" (float_json a.cost_usd_used)
                                      end))))))))))))))))

-- `ScreenEvidenceItem` has the fields and the bounds of `PolicyEvidence`.
pub record ScreenResultRequest : Type 0 where
  pub screener_hotkey : String
  pub attempt_id : Option String
  pub signature : String
  pub passed : Bool
  pub outcome : Option ScreeningOutcome
  pub manifest_digest : Option String
  pub finding_digest : Option String
  pub review_audit_digest : Option String
  pub review_settings_revision : Option ℕ
  pub review_settings_instance_id : Option String
  pub review_settings_scope : Option String
  pub review_settings_checksum : Option String
  pub reason_code : Option String
  pub image_sha256 : Option String
  pub image_size_bytes : Option ℕ
  pub image_id : Option String
  pub image_ref : Option String
  pub image_upload_id : Option String
  pub evidence : Option (List PolicyEvidence)
  pub finding : Option SourceReviewFinding
  pub review_audit : Option ScreenReviewAudit
  pub policy_version : ℕ
  pub detail : String
  pub build_only : Bool
  pub deferred_source_review : Bool

abbrev pub is_quarantine : ScreeningOutcome → Bool
is_quarantine quarantine = true
is_quarantine _ = false

-- `{QUARANTINE, INCONCLUSIVE, PASS_INCONCLUSIVE}`
abbrev pub is_review : ScreeningOutcome → Bool
is_review quarantine = true
is_review inconclusive = true
is_review pass_inconclusive = true
is_review _ = false

-- `{QUARANTINE, PASS_INCONCLUSIVE}`
abbrev pub is_audited : ScreeningOutcome → Bool
is_audited quarantine = true
is_audited pass_inconclusive = true
is_audited _ = false

-- Membership of `self.outcome`, which may be `None`, in a set of outcomes.
abbrev pub is_in : (ScreeningOutcome → Bool) → Option ScreeningOutcome → Bool
is_in set none = false
is_in set (some outcome) = set outcome

-- `any(value is not None for value in image_fields)`, `any(value is None for ...)`
abbrev pub has_image : ScreenResultRequest → Bool
has_image r =
    is_some r.image_sha256
    || is_some r.image_size_bytes
    || is_some r.image_id
    || is_some r.image_ref
    || is_some r.image_upload_id

abbrev pub lacks_image : ScreenResultRequest → Bool
lacks_image r =
    is_none r.image_sha256
    || is_none r.image_size_bytes
    || is_none r.image_id
    || is_none r.image_ref
    || is_none r.image_upload_id

abbrev pub has_settings : ScreenResultRequest → Bool
has_settings r =
    is_some r.review_settings_revision
    || is_some r.review_settings_instance_id
    || is_some r.review_settings_scope
    || is_some r.review_settings_checksum

abbrev pub lacks_settings : ScreenResultRequest → Bool
lacks_settings r =
    is_none r.review_settings_revision
    || is_none r.review_settings_instance_id
    || is_none r.review_settings_scope
    || is_none r.review_settings_checksum
