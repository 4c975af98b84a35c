-- ===== src/Policy/Modules/SourceReview/Exact.antt =====
-- What the agentic source review makes of each observation, and that it always answers.
use ditto_screener.Prelude.{
  ◌≡◌, refl, String, Bool, true, false, not, ◌&&◌, Option, none, List, [], arith, ◌==◌,
  text_equality, Bool-cases, inl, inr, if◌then◌else◌,
}
use ditto_screener.Prelude.Results.{ok}
use ditto_screener.Policy.Outcome.{
  ModuleDisposition, tripwire, retryable_infra, inconclusive, pass_inconclusive, is_clear,
  is_tripwire,
}
use ditto_screener.Policy.Decision.{
  ModuleResult, is_bounded, is_digest, max_id, max_code, max_summary,
}
use ditto_screener.Policy.Context.{SourceReviewObservation}
use ditto_screener.Policy.Engine.Loops.{is_harmless}
use ditto_screener.Policy.Modules.Evidence.{evidence_of, result_of, result_of-eq-ok, cleared}
use ditto_screener.Policy.Modules.SourceReview.{
  judge_review, source_review_reason, is_clean, is_known_level, or_text, meets,
  malicious_source_categories, private_challenge_categories, originality_categories,
  advisory_source_categories,
}

abbrev pub is_pass_inconclusive : ModuleDisposition → Bool
is_pass_inconclusive pass_inconclusive = true
is_pass_inconclusive _ = false

-- Every reason fits an evidence entry.
reason_bounded :
    (categories : List String)
    → (is_bounded (source_review_reason categories).0 max_code ≡ true)
      × (is_bounded (source_review_reason categories).1 max_summary ≡ true)
unfolding source_review_reason
reason_bounded categories = elim (Bool-cases (meets categories malicious_source_categories)) [
  | inl a ↦ rw a (refl, refl)
  | inr a ↦ elim (Bool-cases (meets categories private_challenge_categories)) [
    | inl b ↦ rw (a, b) (refl, refl)
    | inr b ↦ elim (Bool-cases (meets categories originality_categories)) [
      | inl c ↦ rw (a, b, c) (refl, refl)
      | inr c ↦ elim (Bool-cases (meets categories advisory_source_categories)) [
        | inl d ↦ rw (a, b, c, d) (refl, refl)
        | inr d ↦ rw (a, b, c, d) (refl, refl)
      ]
    ]
  ]
]

-- The bounds that an evidence entry about the observation needs.
pub record IsReportable (module_id : String) (o : SourceReviewObservation) : Type 0 where
  pub id_bounded : is_bounded module_id max_id ≡ true
  pub error_bounded : is_bounded (or_text o.error_code "source-review-inconclusive") max_code ≡ true
  pub digest_valid : is_digest o.finding_digest ≡ true

abbrev pub Answers : String → SourceReviewObservation → Type 0
Answers module_id o =
    (r : ModuleResult) × (judge_review module_id o ≡ ok r)
    × (is_clear r.disposition ≡ (o.is_ok && is_clean o))
    × (is_tripwire r.disposition ≡ (o.is_ok && not (is_clean o) && is_known_level o.risk_level))
    × (is_pass_inconclusive r.disposition
        ≡ (not o.is_ok && o.failure_disposition == "pass_inconclusive"))

module _ (module_id : String) (o : SourceReviewObservation) (b : IsReportable module_id o) where
  -- A result within the bounds, with the finding and the review audit that the branch adds to it.
  reported :
      (d : ModuleDisposition) (code summary : String) (digest : Option String)
      → is_bounded code max_code ≡ true
      → is_bounded summary max_summary ≡ true
      → is_digest digest ≡ true
      → (r : ModuleResult) × (result_of d [] module_id code summary digest ≡ ok r)
        × (r.disposition ≡ d)
  reported d code summary digest c s g =
      result_of-eq-ok module_id code summary digest d [] (record {
        id_bounded = b.id_bounded;
        code_bounded = c;
        summary_bounded = s;
        digest_valid = g;
      })

  answer_failed : o.is_ok ≡ false → Answers module_id o
  unfolding judge_review
  answer_failed failed = elim (Bool-cases (o.failure_disposition == "pass_inconclusive")) [
    | inl soft ↦
        let (r, e, d) =
          reported pass_inconclusive "source-review-inconclusive"
            "bounded source review exhausted without a decisive finding" o.finding_digest refl refl
            b.digest_valid in
        (
          record r { finding = o.finding; review_audit = o.review_audit },
          rw (failed, soft, e) refl,
          ground (arith, d),
          ground (arith, d),
          ground (arith, d, soft),
        )
    | inr hard ↦
        let x = if o.failure_disposition == "inconclusive" then inconclusive else retryable_infra in
        let (r, e, d) =
          reported x (or_text o.error_code "source-review-inconclusive")
            "private source review did not produce a usable result" none b.error_bounded refl
            refl in
        (r, rw (failed, hard) e, ground (arith, d), ground (arith, d), ground (arith, d, hard))
  ]

  answer_risky : o.is_ok ≡ true → is_clean o ≡ false → Answers module_id o
  unfolding judge_review
  answer_risky good risky = elim (Bool-cases (is_known_level o.risk_level)) [
    | inl known ↦
        let (c, s) = reason_bounded o.categories in
        let (r, e, d) =
          reported tripwire (source_review_reason o.categories).0
            (source_review_reason o.categories).1 o.finding_digest c s b.digest_valid in
        (
          record r { finding = o.finding },
          rw (good, risky, known, e) refl,
          rw (d, good, risky) refl,
          rw (d, good, risky, known) refl,
          rw (d, good) refl,
        )
    | inr unknown ↦
        let (r, e, d) =
          reported inconclusive "source-review-invalid-risk"
            "private source review returned an invalid risk level" none refl refl refl in
        (
          r,
          rw (good, risky, unknown) e,
          rw (d, good, risky) refl,
          rw (d, good, risky, unknown) refl,
          rw (d, good) refl,
        )
  ]

  -- An observation that can be reported always gets an answer: clear exactly if the review succeeded
  -- with a low risk in advisory categories only, a tripwire exactly if it succeeded with any other
  -- known risk, and pass-inconclusive exactly if it failed with that disposition.
  pub judge_review-exact : Answers module_id o
  unfolding judge_review
  judge_review-exact = elim (Bool-cases o.is_ok) [
    | inr failed ↦ answer_failed failed
    | inl good ↦ elim (Bool-cases (is_clean o)) [
      | inl clean ↦ (
        cleared o.finding,
        rw (good, clean) refl,
        rw (good, clean) refl,
        rw (good, clean) refl,
        rw good refl,
      )
      | inr risky ↦ answer_risky good risky
    ]
  ]

-- Without the bounds: what a result that was returned says about the observation.
pub judge_review_sound :
    (module_id : String) (o : SourceReviewObservation) {r : ModuleResult}
    → judge_review module_id o ≡ ok r
    → is_harmless r ≡ true
    → is_tripwire r.disposition ≡ false
    → (o.is_ok && is_clean o) ≡ true
unfolding judge_review result_of evidence_of
judge_review_sound module_id o h harmless quiet = ground arith
