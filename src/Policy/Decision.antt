-- ===== src/Policy/Decision.antt =====
-- The records of ditto_screener/policy.py, with the checks of their `__post_init__`.
use ditto_screener.Prelude.{
  ℕ, String, Bool, true, false, not, ◌&&◌, Option, none, some, List, [], ◌∷◌, length, len, leb, ltb,
  ◌==◌, nat_equality, is_none,
}
use ditto_screener.Prelude.Int.{pos}
use ditto_screener.Prelude.Results.{Result, ok, value_error, raise_if, ◌>>=◌, ◌>>◌}
use ditto_screener.Json.{int, str, arr, obj, Items, nil, cons, Fields, end, field, dumps}
use ditto_screener.Policy.Outcome.{
  ScreeningOutcome, pass_inconclusive, ModuleDisposition, is_passing,
}
use ditto_screener.Policy.Outcome.{is_verdict}
use ditto_screener.Policy.Hash.{is_sha256, Hashlib}

abbrev pub policy_version : ℕ
policy_version = 9

abbrev pub max_modules : ℕ
max_modules = 16

abbrev pub max_evidence : ℕ
max_evidence = 16

abbrev pub max_challenges : ℕ
max_challenges = 8

abbrev pub max_id : ℕ
max_id = 64

abbrev pub max_code : ℕ
max_code = 64

abbrev pub max_summary : ℕ
max_summary = 240

abbrev pub max_finding_bytes : ℕ
max_finding_bytes = 8192

abbrev pub max_detail : ℕ
max_detail = 3900

-- `1 <= len(text) <= bound`
abbrev pub is_bounded : String → ℕ → Bool
is_bounded text bound = leb 1 (len text) && leb (len text) bound

pub record PolicyEvidence : Type 0 where
  pub module_id : String
  pub code : String
  pub summary : String
  pub digest : Option String

abbrev pub is_digest : Option String → Bool
is_digest none = true
is_digest (some d) = is_sha256 d

-- `PolicyEvidence.__post_init__`
unfoldable pub check_evidence : PolicyEvidence → Result PolicyEvidence
check_evidence e = do
  raise_if (not (is_bounded e.module_id max_id)) value_error
  raise_if (not (is_bounded e.code max_code)) value_error
  raise_if (not (is_bounded e.summary max_summary)) value_error
  raise_if (not (is_digest e.digest)) value_error
  ok e

pub record ScreeningDecision : Type 0 where
  pub outcome : ScreeningOutcome
  pub detail : String
  pub manifest_digest : String
  pub evidence : List PolicyEvidence
  pub version : ℕ
  pub finding : Option Fields
  pub review_audit : Option Fields

abbrev pub is_oversized : Option Fields → Bool
is_oversized none = false
is_oversized (some payload) = ltb max_finding_bytes (length (dumps (obj payload)))

abbrev pub is_pass_inconclusive : ScreeningOutcome → Bool
is_pass_inconclusive pass_inconclusive = true
is_pass_inconclusive _ = false

-- `ScreeningDecision.__post_init__`
unfoldable pub check_decision : ScreeningDecision → Result ScreeningDecision
check_decision d = do
  raise_if (not (d.version == policy_version)) value_error
  raise_if (ltb max_detail (len d.detail)) value_error
  raise_if (not (is_sha256 d.manifest_digest)) value_error
  raise_if (ltb max_evidence (length d.evidence)) value_error
  raise_if (is_oversized d.finding) value_error
  raise_if (is_oversized d.review_audit) value_error
  raise_if (is_pass_inconclusive d.outcome && is_none d.review_audit) value_error
  ok d

unfoldable pub submits_verdict : ScreeningDecision → Bool
submits_verdict d = is_verdict d.outcome

-- the property `passed`
unfoldable pub passed : ScreeningDecision → Result Bool
unfolding submits_verdict
passed d = do raise_if (not (submits_verdict d)) value_error; ok (is_passing d.outcome)

pub record ModuleResult : Type 0 where
  pub disposition : ModuleDisposition
  pub evidence : List PolicyEvidence
  pub finding : Option Fields
  pub review_audit : Option Fields

pub record PolicyManifest : Type 0 where
  pub rotation_id : String
  pub module_specs : List Fields
  pub version : ℕ

-- `PolicyManifest.__post_init__`
unfoldable pub check_manifest : PolicyManifest → Result PolicyManifest
check_manifest m = do
  raise_if (not (is_bounded m.rotation_id max_id)) value_error
  raise_if (not (m.version == policy_version)) value_error
  raise_if (ltb max_modules (length m.module_specs)) value_error
  ok m

spec_items : List Fields → Items
spec_items [] = nil
spec_items (spec ∷ specs) = cons (obj spec) (spec_items specs)

-- `PolicyManifest.digest`
module _ (H : Hashlib) where
  unfoldable pub digest : PolicyManifest → String
  unfolding spec_items
  digest m = H.hexdigest (
      dumps (
        obj (
          field "policy_version" (int (pos m.version)) (
            field "rotation_id" (str m.rotation_id)
              (field "modules" (arr (spec_items m.module_specs)) end)))))

abbrev pub core_only_manifest : PolicyManifest
core_only_manifest = record {
  rotation_id = "v8-core-build-health-no-run";
  module_specs = [];
  version = policy_version;
}

-- `core_decision`
module _ (H : Hashlib) where
  unfoldable pub core_decision :
      ScreeningOutcome → String → String → String → Result ScreeningDecision
  unfolding check_evidence check_decision
  core_decision outcome code summary detail = do
    e ←
        check_evidence
          (record { module_id = "stable-core"; code = code; summary = summary; digest = none })
    check_decision (record {
      outcome = outcome;
      detail = detail;
      manifest_digest = digest H core_only_manifest;
      evidence = e ∷ [];
      version = policy_version;
      finding = none;
      review_audit = none;
    })
