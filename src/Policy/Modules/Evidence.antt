-- ===== src/Policy/Modules/Evidence.antt =====
-- A module's result with one evidence entry, or the `ValueError` of an entry out of bounds.
use ditto_screener.Prelude.{◌≡◌, refl, String, true, Option, none, List, [], ◌∷◌, ◌++◌, arith}
use ditto_screener.Prelude.Results.{Result, ok, ◌>>=◌}
use ditto_screener.Json.{Fields}
use ditto_screener.Policy.Outcome.{ModuleDisposition, clear}
use ditto_screener.Policy.Decision.{
  PolicyEvidence, ModuleResult, check_evidence, is_bounded, is_digest, max_id, max_code,
  max_summary,
}

unfoldable pub evidence_of : String → String → String → Option String → Result PolicyEvidence
unfolding check_evidence
evidence_of module_id code summary digest =
    check_evidence
      (record { module_id = module_id; code = code; summary = summary; digest = digest })

abbrev pub cleared : Option Fields → ModuleResult
cleared finding = record {
  disposition = clear;
  evidence = [];
  finding = finding;
  review_audit = none;
}

-- The entries gathered so far, and one more.
unfoldable pub result_of :
    ModuleDisposition
    → List PolicyEvidence
    → String
    → String
    → String
    → Option String
    → Result ModuleResult
unfolding evidence_of
result_of disposition earlier module_id code summary digest = do
  e ← evidence_of module_id code summary digest
  ok (record {
    disposition = disposition;
    evidence = earlier ++ (e ∷ []);
    finding = none;
    review_audit = none;
  })

-- Within the bounds of an evidence entry the result is the one asked for.
module _ (module_id code summary : String) (digest : Option String) where
  pub record IsInBounds : Type 0 where
    pub id_bounded : is_bounded module_id max_id ≡ true
    pub code_bounded : is_bounded code max_code ≡ true
    pub summary_bounded : is_bounded summary max_summary ≡ true
    pub digest_valid : is_digest digest ≡ true

  pub evidence_of-eq-ok :
      IsInBounds
      → evidence_of module_id code summary digest
        ≡ ok (record { module_id = module_id; code = code; summary = summary; digest = digest })
  unfolding evidence_of
  evidence_of-eq-ok b = rw (b.id_bounded, b.code_bounded, b.summary_bounded, b.digest_valid) refl

  pub result_of-eq-ok :
      (disposition : ModuleDisposition) (earlier : List PolicyEvidence)
      → IsInBounds
      → (r : ModuleResult) × (result_of disposition earlier module_id code summary digest ≡ ok r)
        × (r.disposition ≡ disposition)
  unfolding result_of
  result_of-eq-ok disposition earlier b = (
    record {
      disposition = disposition;
      evidence =
          earlier
          ++ (record { module_id = module_id; code = code; summary = summary; digest = digest }
              ∷ []);
      finding = none;
      review_audit = none;
    },
    rw (evidence_of-eq-ok b) refl,
    refl,
  )

  -- Whatever the bounds, a result that is returned has the disposition asked for.
  pub result_of-disposition :
      (disposition : ModuleDisposition) (earlier : List PolicyEvidence) {r : ModuleResult}
      → result_of disposition earlier module_id code summary digest ≡ ok r
      → r.disposition ≡ disposition
  unfolding result_of
  result_of-disposition disposition earlier h = ground arith
