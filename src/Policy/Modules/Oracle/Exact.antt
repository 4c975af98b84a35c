-- ===== src/Policy/Modules/Oracle/Exact.antt =====
-- Which exchanges the behavioral oracle accepts, which it quarantines, and that it always answers.
use ditto_screener.Prelude.{
  ◌≡◌, refl, ◌∙◌, Bool, true, false, not, ◌&&◌, ◌||◌, [], arith, ltb, leb, ◌==◌, nat_equality,
  Bool-cases, inl, inr, String,
}
use ditto_screener.Prelude.Results.{ok}
use ditto_screener.Policy.Outcome.{ModuleDisposition, clear, quarantine, inconclusive, is_clear}
use ditto_screener.Policy.Decision.{
  ModuleResult, is_bounded, is_digest, max_id, max_code, max_summary,
}
use ditto_screener.Policy.Context.{ChallengeObservation}
use ditto_screener.Policy.Engine.Loops.{is_harmless}
use ditto_screener.Policy.Modules.Evidence.{evidence_of, result_of, result_of-eq-ok}
use ditto_screener.Policy.Modules.SourceReview.{or_text}
use ditto_screener.Policy.Modules.Oracle.{Oracle, judge_exchange}

-- The bounds that an evidence entry about the observation needs.
pub record IsReportable (oracle : Oracle) (o : ChallengeObservation) : Type 0 where
  pub id_bounded : is_bounded oracle.module_id max_id ≡ true
  pub error_bounded :
      is_bounded (or_text o.error_code "behavioral-oracle-inconclusive") max_code ≡ true
  pub digest_valid : is_digest o.response_digest ≡ true

-- The model was called, its token came back, and not faster than a model can answer.
abbrev pub is_accepted : Oracle → ChallengeObservation → Bool
is_accepted oracle o =
    o.is_ok
    && leb oracle.min_gateway_calls o.gateway_calls
    && o.gateway_token_observed
    && leb oracle.min_elapsed_ms o.elapsed_ms

-- The model was called often enough, and either more than once for a token that never came back, or
-- for a token that came back too soon.
abbrev pub is_suspicious : Oracle → ChallengeObservation → Bool
is_suspicious oracle o =
    o.is_ok
    && leb oracle.min_gateway_calls o.gateway_calls
    && ((not o.gateway_token_observed && not (o.gateway_calls == 1))
        || (o.gateway_token_observed && ltb o.elapsed_ms oracle.min_elapsed_ms))

abbrev pub is_quarantine : ModuleDisposition → Bool
is_quarantine quarantine = true
is_quarantine _ = false

-- What the module's result is, in terms of the two predicates.
abbrev pub Answers : Oracle → ChallengeObservation → Type 0
Answers oracle o =
    (r : ModuleResult) × (judge_exchange oracle o ≡ ok r)
    × (is_clear r.disposition ≡ is_accepted oracle o)
    × (is_quarantine r.disposition ≡ is_suspicious oracle o)

module _ (oracle : Oracle) (o : ChallengeObservation) (b : IsReportable oracle o) where
  answer :
      (d : ModuleDisposition) (code summary : String)
      → is_bounded code max_code ≡ true
      → is_bounded summary max_summary ≡ true
      → judge_exchange oracle o ≡ result_of d [] oracle.module_id code summary o.response_digest
      → is_clear d ≡ is_accepted oracle o
      → is_quarantine d ≡ is_suspicious oracle o
      → Answers oracle o
  answer d code summary code_bounded summary_bounded judged c q =
      let (r, e, same) =
        result_of-eq-ok oracle.module_id code summary o.response_digest d [] (record {
          id_bounded = b.id_bounded;
          code_bounded = code_bounded;
          summary_bounded = summary_bounded;
          digest_valid = b.digest_valid;
        }) in
      (r, judged ∙ e, rw same c, rw same q)

  -- The three tests, each with the answer that it leads to.
  answer_relayed :
      o.is_ok ≡ true
      → leb oracle.min_gateway_calls o.gateway_calls ≡ true
      → o.gateway_token_observed ≡ true
      → Answers oracle o
  unfolding judge_exchange
  answer_relayed good enough token = elim (Bool-cases (ltb o.elapsed_ms oracle.min_elapsed_ms)) [
    | inl fast ↦
        answer quarantine "behavioral-oracle-implausibly-fast"
          "behavioral oracle round-trip returned faster than any genuine model call" refl refl
          (ground arith) (ground arith) (ground arith)
    | inr slow ↦
        answer clear "behavioral-oracle-passed"
          "behavioral oracle round-trip returned the gateway-encoded value" refl refl (ground arith)
          (ground arith) (ground arith)
  ]

  answer_unrelayed : o.is_ok ≡ true → o.gateway_token_observed ≡ false → Answers oracle o
  unfolding judge_exchange
  answer_unrelayed good token =
      elim (Bool-cases (
        ltb o.gateway_calls oracle.min_gateway_calls
        || (o.gateway_calls == 1 && not o.gateway_token_observed))) [
          | inl few ↦
              answer inconclusive "behavioral-oracle-insufficient-round-trips"
                "behavioral oracle had too few round-trips for a decision" refl refl (ground arith)
                (ground arith) (ground arith)
          | inr more ↦
              answer quarantine "behavioral-oracle-wrong-answer"
                "behavioral oracle final answer did not carry the gateway-encoded token" refl refl
                (ground arith) (ground arith) (ground arith)
        ]

  -- An observation that can be reported always gets an answer: clear exactly if it is accepted,
  -- quarantine exactly if it is suspicious.
  pub judge_exchange-exact : Answers oracle o
  unfolding judge_exchange
  judge_exchange-exact = elim (Bool-cases o.is_ok) [
    | inr failed ↦
        answer inconclusive (or_text o.error_code "behavioral-oracle-inconclusive")
          "always-on behavioral oracle did not produce a usable result" b.error_bounded refl
          (ground arith) (ground arith) (ground arith)
    | inl good ↦ elim (Bool-cases o.gateway_token_observed) [
      | inr token ↦ answer_unrelayed good token
      | inl token ↦ elim (Bool-cases (leb oracle.min_gateway_calls o.gateway_calls)) [
        | inl enough ↦ answer_relayed good enough token
        | inr few ↦
            answer inconclusive "behavioral-oracle-insufficient-round-trips"
              "behavioral oracle had too few round-trips for a decision" refl refl (ground arith)
              (ground arith) (ground arith)
      ]
    ]
  ]

-- Without the bounds: a result that was returned is harmless only if the exchange was accepted.
pub judge_exchange_sound :
    (oracle : Oracle) (o : ChallengeObservation) {r : ModuleResult}
    → judge_exchange oracle o ≡ ok r
    → is_harmless r ≡ true
    → is_accepted oracle o ≡ true
unfolding judge_exchange result_of evidence_of
judge_exchange_sound oracle o h harmless = ground arith
