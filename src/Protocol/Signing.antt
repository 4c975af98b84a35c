-- ===== src/Protocol/Signing.antt =====
-- `verdict_signing_message` of ditto_screening_protocol/signing.py: the bytes that a screener signs.
-- The bytes are ASCII, except that a hotkey or a slug would bring its own; they are kept as code
-- points, which `.encode()` maps to UTF-8 one by one.
use ditto_screener.Prelude.{
  ℕ, String, Bool, true, false, ◌||◌, Option, none, some, List, [], ◌∷◌, ◌++◌, codes, leb, is_some,
}
use ditto_screener.Prelude.Int.{pos}
use ditto_screener.Prelude.Results.{Result, ok, raised, value_error, raise_if, ◌>>◌}
use ditto_screener.Json.{bool, int, str, obj, Fields, end, field, dumps, signed}
use ditto_screener.Policy.Outcome.{ScreeningOutcome, outcome_value}
use ditto_screener.Policy.Decision.{policy_version}
use ditto_screener.Protocol.Result.{text_json, number_json}

-- The keyword arguments.
pub record Verdict : Type 0 where
  pub screener_hotkey : String
  pub agent_id : String
  pub passed : Bool
  pub policy_version : ℕ
  pub attempt_id : Option String
  pub outcome : Option ScreeningOutcome
  pub manifest_digest : Option String
  pub finding_digest : Option String
  pub review_audit_digest : Option String
  pub deferred_source_review : Bool
  pub review_settings_revision : Option ℕ
  pub review_settings_instance_id : Option String
  pub review_settings_scope : Option String
  pub review_settings_checksum : Option String
  pub reason_code : Option String
  pub image_sha256 : Option String
  pub image_size_bytes : Option ℕ
  pub image_id : Option String
  pub image_ref : Option String
  pub image_upload_id : Option String

settings_fields : Verdict → Fields → Fields
settings_fields v rest = elim v.review_settings_revision [
  | none ↦ rest
  | some revision ↦ field "review_settings_checksum" (text_json v.review_settings_checksum) (
      field "review_settings_instance_id" (text_json v.review_settings_instance_id) (
        field "review_settings_revision" (int (pos revision))
          (field "review_settings_scope" (text_json v.review_settings_scope) rest)))
]

audit_fields : Verdict → Fields → Fields
audit_fields v rest = elim v.review_audit_digest [
  | none ↦ rest
  | some digest ↦ field "review_audit_digest" (str digest) rest
]

deferred_fields : Verdict → Fields
deferred_fields v = elim v.deferred_source_review [
  | true ↦ field "deferred_source_review" (bool true) end
  | false ↦ end
]

-- The dict `fields`, for a typed outcome and an attempt.
unfoldable pub signed_fields : Verdict → ScreeningOutcome → String → Fields
unfolding settings_fields audit_fields deferred_fields outcome_value
signed_fields v outcome attempt = field "agent_id" (str v.agent_id) (
    field "attempt_id" (str attempt) (
      field "finding_digest" (text_json v.finding_digest) (
        field "image_id" (text_json v.image_id) (
          field "image_ref" (text_json v.image_ref) (
            field "image_sha256" (text_json v.image_sha256) (
              field "image_size_bytes" (number_json v.image_size_bytes) (
                field "image_upload_id" (text_json v.image_upload_id) (
                  field "manifest_digest" (text_json v.manifest_digest) (
                    field "outcome" (str (outcome_value outcome)) (
                      field "policy_version" (int (pos v.policy_version)) (
                        field "reason_code" (text_json v.reason_code) (
                          field "screener_hotkey" (str v.screener_hotkey)
                            (settings_fields v (audit_fields v (deferred_fields v)))))))))))))))

-- `f"{passed}"`
shown : Bool → List ℕ
shown true = codes "True"
shown false = codes "False"

colon : List ℕ
colon = b':' ∷ []

-- The messages without a typed outcome.
legacy_message : Verdict → List ℕ
unfolding shown colon
legacy_message v =
    let tail = colon ++ shown v.passed ++ colon ++ signed (pos v.policy_version) in
    elim v.attempt_id [
      | some attempt ↦
          codes "ditto-screen-verdict:v2:"
          ++ codes v.screener_hotkey
          ++ colon
          ++ codes v.agent_id
          ++ colon
          ++ codes attempt
          ++ tail
      | none ↦ codes v.screener_hotkey ++ colon ++ codes v.agent_id ++ tail
    ]

unfoldable pub verdict_signing_message : Verdict → Result (List ℕ)
unfolding signed_fields legacy_message
verdict_signing_message v = elim v.outcome [
  | some outcome ↦ elim v.attempt_id [
    | none ↦ raised value_error
    | some attempt ↦
        ok (codes "ditto-screen-result:v5:" ++ dumps (obj (signed_fields v outcome attempt)))
  ]
  | none ↦ do
    raise_if (leb policy_version v.policy_version) value_error
    raise_if
        (is_some v.image_sha256
          || is_some v.image_size_bytes
          || is_some v.image_id
          || is_some v.image_ref
          || is_some v.image_upload_id)
        value_error
    ok (legacy_message v)
]
