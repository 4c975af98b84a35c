-- ===== src/Policy/Default.antt =====
-- The default policy as a whole: source review, then the behavioral oracle.
use ditto_screener.Prelude.{
  ◌≡◌, refl, ap, ◌∙◌, String, true, false, ◌&&◌, none, some, List, [], ◌∷◌, arith, Bool-cases, inl,
  inr, ◌==◌, text_equality, Option-cases,
}
use ditto_screener.Prelude.Results.{Result, ok}
use ditto_screener.Prelude.Actions.{Action, after-eq-ok}
use ditto_screener.Json.{Fields}
use ditto_screener.Policy.Hash.{Hashlib}
use ditto_screener.Policy.Outcome.{pass, is_tripwire, retryable_infra}
use ditto_screener.Policy.Decision.{check_manifest, ModuleResult, ScreeningDecision}
use ditto_screener.Policy.Engine.{
  PolicyEngine, evaluate, PolicyModule, modules_of, is_selector, is_challenge,
}
use ditto_screener.Policy.Engine.Loops.{collect, collect-cons, collect-nil, is_harmless}
use ditto_screener.Policy.Engine.Variables.{is_released}
use ditto_screener.Policy.Engine.Verdicts.{evaluate-pass_sound}
use ditto_screener.Policy.Context.{
  SourceReviewObservation, ChallengeObservation, PolicyContext, Machine,
}
use ditto_screener.Policy.Modules.Evidence.{result_of-disposition}
use ditto_screener.Policy.Modules.SourceReview
use ditto_screener.Policy.Modules.SourceReview.{is_clean, judge_review}
use ditto_screener.Policy.Modules.SourceReview.Exact.{judge_review_sound}
use ditto_screener.Policy.Modules.Oracle
use ditto_screener.Policy.Modules.Oracle.{Oracle, judge_exchange, oracle_request}
use ditto_screener.Policy.Modules.Oracle.Exact.{is_accepted, judge_exchange_sound}
use ditto_screener.Policy.Build.{
  BuiltModule, Rotation, default_rotation_of, checked_id, agentic_source_review, behavioral_oracle,
  default_oracle, default_rotation, modules_from, module_of,
}

-- The engine of a rotation, for one submission.
abbrev pub engine_of :
    (H : Hashlib) {W : Type 0} → Machine W → PolicyContext W → Rotation → PolicyEngine W
engine_of H machine context rotation = record {
  manifest = rotation.manifest;
  modules = modules_from H machine context rotation.built;
}

module _ {W : Type 0} (machine : Machine W) (context : PolicyContext W) where
  -- The review was made, and found a low risk in advisory categories at most.
  abbrev pub ReviewedClean : W → W → Type 0
  ReviewedClean w w' =
      (review : Action W SourceReviewObservation) × (o : SourceReviewObservation)
      × (context.review_source ≡ some review)
      × (review w ≡ (ok o, w'))
      × ((o.is_ok && is_clean o) ≡ true)

  -- The oracle's challenge was run, and its exchange accepted.
  abbrev pub ExchangeAccepted : Oracle → W → Type 0
  ExchangeAccepted oracle w' =
      (request : Fields) × (w : W) × (x : ChallengeObservation) × (context.run_challenge
          oracle.challenge_id request oracle.timeout_seconds w
        ≡ (ok x, w'))
      × (is_accepted oracle x ≡ true)

  review_harmless :
      (i : String) (w : W) {r : ModuleResult} {w' : W}
      → SourceReview.evaluate i context w ≡ (ok r, w')
      → is_harmless r ≡ true
      → is_tripwire r.disposition ≡ false
      → ReviewedClean w w'
  unfolding SourceReview.evaluate
  review_harmless i w {r} {w'} h harmless quiet = elim (Option-cases context.review_source) [
    | inl missing ↦
        let d =
          result_of-disposition i "source-review-unavailable"
            "private source-review infrastructure was unavailable" none retryable_infra []
            (ap (λ (p : Result ModuleResult × W). p.0) (rw missing at h)) in
        ground (arith, d)
    | inr (review, present) ↦
        let (o, w1, e, k) = after-eq-ok (review w) _ (rw present at h) in
        (
          review,
          o,
          present,
          rw (← ap (λ (p : Result ModuleResult × W). p.1) k) e,
          judge_review_sound i o (ap (λ (p : Result ModuleResult × W). p.0) k) harmless quiet,
        )
  ]

  exchange_harmless :
      (oracle : Oracle) (w : W) {r : ModuleResult} {w' : W}
      → Oracle.evaluate machine oracle context w ≡ (ok r, w')
      → is_harmless r ≡ true
      → ExchangeAccepted oracle w'
  unfolding Oracle.evaluate
  exchange_harmless oracle w {r} {w'} h harmless =
      let (subject, w1, e1, k1) = after-eq-ok (machine.token_hex 4 w) _ h in
      let (case_hex, w2, e2, k2) = after-eq-ok (machine.token_hex 8 w1) _ k1 in
      let (index, w3, e3, k3) = after-eq-ok (machine.randbelow _ w2) _ k2 in
      let (x, w4, e4, k4) =
        after-eq-ok
          (context.run_challenge oracle.challenge_id (oracle_request subject case_hex index)
            oracle.timeout_seconds w3)
          _ k3 in
      (
        oracle_request subject case_hex index,
        w3,
        x,
        e4 ∙ ap (λ (v : W). (ok x, v)) (ap (λ (p : Result ModuleResult × W). p.1) k4),
        judge_exchange_sound oracle x (ap (λ (p : Result ModuleResult × W). p.0) k4) harmless,
      )

  released_apart :
      (m : PolicyModule W)
      → m.clears_selection ≡ false
      → (r x : ModuleResult) (rs cs : List ModuleResult) → rs ≡ r ∷ []
      → cs ≡ x ∷ []
      → is_released (m ∷ []) rs cs ≡ true
      → (is_harmless r ≡ true) × (is_tripwire r.disposition ≡ false) × (is_harmless x ≡ true)
  released_apart m shut r x rs cs p q h =
      let h' : is_released (m ∷ []) (r ∷ []) (x ∷ []) ≡ true = rw (p, q) at h in
      ground (arith, shut)

  -- The default modules, run with no objection.
  both_content :
      (i j : String) (H : Hashlib) (rs cs : List ModuleResult) (w w1 : W) {w' : W}
      → collect (modules_from H machine context (agentic_source_review i ∷ [])) w ≡ (ok rs, w1)
      → collect (modules_from H machine context (behavioral_oracle (default_oracle j) ∷ [])) w1
        ≡ (ok cs, w')
      → is_released
          (modules_from H machine context (behavioral_oracle (default_oracle j) ∷ []))
          rs
          cs
        ≡ true
      → ReviewedClean w w1 × ExchangeAccepted (default_oracle j) w'
  unfolding modules_from module_of
  both_content i j H rs cs w w1 c c2 released =
      let (r, rest, w2, e, k, q) = collect-cons _ [] w rs c in
      let (q1, o1) = collect-nil w2 rest k in
      let (x, rest2, w3, e2, k2, q2) = collect-cons _ [] w1 cs c2 in
      let (q3, o3) = collect-nil w3 rest2 k2 in
      let s =
        released_apart (module_of H machine context (behavioral_oracle (default_oracle j))) refl r x
          rs cs (q ∙ ap (λ (l : List ModuleResult). r ∷ l) q1)
          (q2 ∙ ap (λ (l : List ModuleResult). x ∷ l) q3) released in
      (
        review_harmless i w (e ∙ ap (λ (v : W). (ok r, v)) o1) s.0 s.1,
        exchange_harmless (default_oracle j) w1 (e2 ∙ ap (λ (v : W). (ok x, v)) o3) s.2,
      )

  default_content :
      (i j : String) (H : Hashlib) (built : List BuiltModule)
      → built ≡ agentic_source_review i ∷ behavioral_oracle (default_oracle j) ∷ []
      → (rs cs : List ModuleResult) (w w1 : W) {w' : W}
      → collect (modules_of is_selector (modules_from H machine context built)) w ≡ (ok rs, w1)
      → collect (modules_of is_challenge (modules_from H machine context built)) w1 ≡ (ok cs, w')
      → is_released (modules_of is_challenge (modules_from H machine context built)) rs cs ≡ true
      → ReviewedClean w w1 × ExchangeAccepted (default_oracle j) w'
  unfolding modules_from module_of
  default_content i j H built q rs cs w w1 c c2 released =
      both_content i j H rs cs w w1 (rw q at c) (rw q at c2) (rw q at released)

default_rotation-eq-ok :
    (rotation_id review_id : String) (rotation : Rotation)
    → default_rotation_of rotation_id review_id ≡ ok rotation
    → rotation.built
      ≡ agentic_source_review review_id
        ∷ behavioral_oracle (default_oracle "v8-behavioral-oracle")
        ∷ []
unfolding default_rotation_of checked_id check_manifest
default_rotation-eq-ok rotation_id review_id rotation h = ground arith

default_rotation-built :
    (l2_mode : String) (rotation : Rotation)
    → default_rotation l2_mode ≡ ok rotation
    → (i : String) × (rotation.built
        ≡ agentic_source_review i ∷ behavioral_oracle (default_oracle "v8-behavioral-oracle") ∷ [])
unfolding default_rotation
default_rotation-built l2_mode rotation h = elim (Bool-cases (l2_mode == "enforce")) [
  | inl q ↦
      let e =
        default_rotation-eq-ok "v8-luna-sol-l2-source-review-behavioral-oracle"
          "luna-sol-source-review" rotation (rw q at h) in
      ("luna-sol-source-review", e)
  | inr q ↦
      let e =
        default_rotation-eq-ok "v8-luna-source-review-behavioral-oracle" "luna-source-review"
          rotation (rw q at h) in
      ("luna-source-review", e)
]

-- If the default policy, in whichever review mode, lets a full review pass, then the source review
-- was made and found a low risk in advisory categories at most, with no tripwire, and after it
-- the oracle's challenge was run and its exchange accepted. No other way leads to a pass.
pub default_review-pass :
    (H : Hashlib) {W : Type 0} (machine : Machine W) (context : PolicyContext W) (l2_mode : String)
    (rotation : Rotation) (w : W) {w' : W} {d : ScreeningDecision}
    → default_rotation l2_mode ≡ ok rotation
    → evaluate H (engine_of H machine context rotation) false false w ≡ (ok d, w')
    → d.outcome ≡ pass
    → (w1 : W) × ReviewedClean machine context w w1
      × ExchangeAccepted machine context (default_oracle "v8-behavioral-oracle") w'
default_review-pass H machine context l2_mode rotation w loaded h p =
    let (rs, cs, w1, c, c2, released) =
      evaluate-pass_sound H (engine_of H machine context rotation) w h p in
    let (i, built) = default_rotation-built l2_mode rotation loaded in
    let (r, x) =
      default_content machine context i "v8-behavioral-oracle" H rotation.built built rs cs w w1 c
        c2 released in
    (w1, r, x)
