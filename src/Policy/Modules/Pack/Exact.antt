-- ===== src/Policy/Modules/Pack/Exact.antt =====
-- When a challenge pack is clear, and what a pack that parses is like.
use ditto_screener.Prelude.{
  ◌≡◌, refl, ap, String, Bool, true, false, not, ◌&&◌, ◌||◌, Option, none, List, [], ◌∷◌, ◌++◌,
  arith, leb, ltb, Bool-cases, inl, inr, text_equality,
}
use ditto_screener.Prelude.Results.{Result, ok, raised, ◌>>=◌, >>=-eq-ok}
use ditto_screener.Prelude.Actions.{Action, after, lift, after-eq-ok}
use ditto_screener.Json.{Json}
use ditto_screener.Policy.Outcome.{
  ModuleDisposition, retryable_infra, quarantine, inconclusive, is_clear,
}
use ditto_screener.Policy.Decision.{PolicyEvidence, ModuleResult}
use ditto_screener.Policy.Context.{ChallengeObservation, PolicyContext, Machine}
use ditto_screener.Policy.Modules.Evidence.{result_of, evidence_of, result_of-disposition}
use ditto_screener.Policy.Modules.SourceReview.{or_text}
use ditto_screener.Policy.Modules.Pack.{
  Challenge, Round, stop, go_on, misses_keys, follow, judge_challenge, challenge_loop,
  parse_challenges, evaluate, on_loaded, is_unreadable, max_manifest_bytes,
}

-- What a challenge asks of the observed response.
abbrev pub satisfies : Challenge → ChallengeObservation → Bool
satisfies c o =
    o.is_ok
    && (not c.require_model_call || leb 1 o.gateway_calls)
    && (not c.require_gateway_token || o.gateway_token_observed)
    && not (misses_keys c.required_keys o.json_keys)

abbrev pub is_stop : Round → Bool
is_stop (stop r) = true
is_stop (go_on e) = false

abbrev not_clear : Round → Bool
not_clear (stop r) = not (is_clear r.disposition)
not_clear (go_on e) = true

-- A loop whose result is clear did not stop at a round that is not.
round_went_on :
    {W : Type 0} (rest : List PolicyEvidence → Action W ModuleResult) (round : Round) (w : W)
    {r : ModuleResult} {w' : W}
    → not_clear round ≡ true
    → follow rest round w ≡ (ok r, w')
    → is_clear r.disposition ≡ true
    → (is_stop round ≡ false) × (more : List PolicyEvidence) × (rest more w ≡ (ok r, w'))
round_went_on {W} rest (stop result) w {r} out k content =
    ground (arith, ap (λ (p : Result ModuleResult × W). p.0) k)
round_went_on rest (go_on more) w out k content = (refl, more, k)

module _ (module_id : String) where
  stop_not_clear :
      (d : ModuleDisposition) (evidence : List PolicyEvidence) (code summary : String)
      (digest : Option String) {round : Round}
      → is_clear d ≡ false
      → (result_of d evidence module_id code summary digest >>= λ result. ok (stop result))
        ≡ ok round
      → (is_stop round ≡ true) × (not_clear round ≡ true)
  stop_not_clear d evidence code summary digest {round} dc h =
      let (r, e, q) = >>=-eq-ok (result_of d evidence module_id code summary digest) _ h in
      let same = result_of-disposition module_id code summary digest d evidence e in
      let q' : round ≡ stop r = cc q in (rw q' refl, rw (q', same, dc) refl)

  -- A round goes on exactly if the response satisfies the challenge; one that stops is not clear.
  judge_challenge_lem :
      (c : Challenge) (evidence : List PolicyEvidence) (o : ChallengeObservation) {round : Round}
      → judge_challenge module_id c evidence o ≡ ok round
      → (is_stop round ≡ not (satisfies c o)) × (not_clear round ≡ true)
  unfolding judge_challenge
  judge_challenge_lem c evidence o {round} h = elim (Bool-cases o.is_ok) [
    | inr a ↦
        let p =
          stop_not_clear inconclusive evidence (or_text o.error_code "challenge-inconclusive")
            "private behavioral challenge was inconclusive" none refl (rw a at h) in
        (ground (arith, p.0), p.1)
    | inl a ↦ elim (Bool-cases (c.require_model_call && ltb o.gateway_calls 1)) [
      | inl b ↦
          let p =
            stop_not_clear quarantine evidence "challenge-model-call-missing"
              "private challenge returned without an observed model call" o.response_digest refl
              (rw (a, b) at h) in
          (ground (arith, p.0), p.1)
      | inr b ↦ elim (Bool-cases (c.require_gateway_token && not o.gateway_token_observed)) [
        | inl t ↦
            let p =
              stop_not_clear quarantine evidence "challenge-gateway-token-missing"
                "private challenge response was not bound to the ephemeral model output"
                o.response_digest refl (rw (a, b, t) at h) in
            (ground (arith, p.0), p.1)
        | inr t ↦ elim (Bool-cases (misses_keys c.required_keys o.json_keys)) [
          | inl m ↦
              let p =
                stop_not_clear quarantine evidence "challenge-shape-anomaly"
                  "private challenge response shape requires operator review" o.response_digest refl
                  (rw (a, b, t, m) at h) in
              (ground (arith, p.0), p.1)
          | inr m ↦
              let (e, q, k) =
                >>=-eq-ok
                  (evidence_of module_id "challenge-observed"
                    "private challenge completed; this is not proof of causal model use"
                    o.response_digest)
                  _ (rw (a, b, t, m) at h) in
              let k' : round ≡ go_on (evidence ++ (e ∷ [])) = cc k in
              (ground (arith, ap is_stop k'), rw k' refl)
        ]
      ]
    ]
  ]

  module _ {W : Type 0} (context : PolicyContext W) where
    -- Every challenge was run, in order, and its response satisfied it.
    abbrev pub AllSatisfied : List Challenge → W → W → Type 0
    AllSatisfied [] w w' = w ≡ w'
    AllSatisfied (c ∷ cs) w w' =
        (o : ChallengeObservation) × (w1 : W) × (context.run_challenge c.challenge_id c.request
            c.timeout w
          ≡ (ok o, w1))
        × (satisfies c o ≡ true)
        × AllSatisfied cs w1 w'

    pub challenge_loop-clear :
        (cs : List Challenge) (evidence : List PolicyEvidence) (w : W) {r : ModuleResult} {w' : W}
        → challenge_loop module_id context cs evidence w ≡ (ok r, w')
        → is_clear r.disposition ≡ true
        → AllSatisfied cs w w'
    unfolding challenge_loop
    challenge_loop-clear [] evidence w {r} {w'} h content =
        ap (λ (p : Result ModuleResult × W). p.1) h
    challenge_loop-clear (c ∷ cs) evidence w {r} {w'} h content =
        let (o, w1, e, k) =
          after-eq-ok (context.run_challenge c.challenge_id c.request c.timeout w) _ h in
        let (round, w2, e2, k2) = after-eq-ok (judge_challenge module_id c evidence o, w1) _ k in
        let (on, out) = judge_challenge_lem c evidence o (ap (λ (p : Result Round × W). p.0) e2) in
        let (running, more, k3) =
          round_went_on (challenge_loop module_id context cs) round w2 out k2 content in
        (
          o,
          w1,
          e,
          ground (arith, on, running),
          rw (ap (λ (p : Result Round × W). p.1) e2) (challenge_loop-clear cs more w2 k3 content),
        )

  loaded_and_clear :
      {W : Type 0} (machine : Machine W) (pack_path : String) (context : PolicyContext W)
      (p : Result (List Challenge) × W) {r : ModuleResult} {w' : W}
      → on_loaded machine module_id pack_path context p ≡ (ok r, w')
      → is_clear r.disposition ≡ true
      → (cs : List Challenge) × (w1 : W) × (p ≡ (ok cs, w1))
        × (challenge_loop module_id context cs [] w1 ≡ (ok r, w'))
  unfolding on_loaded
  loaded_and_clear machine pack_path context (ok cs, w) h content = (cs, w, refl, h)
  loaded_and_clear {W} machine pack_path context (raised e, w) {r} {w'} h content =
      elim (Bool-cases (is_unreadable e)) [
        | inl q ↦
            let u = ap (λ (p : Result ModuleResult × W). p.0) (rw q at h) in
            let d =
              result_of-disposition module_id "challenge-pack-unavailable"
                "private behavioral challenge pack was unavailable" none retryable_infra [] u in
            cc (ap is_clear d, content)
        | inr q ↦ cc (ap (λ (p : Result ModuleResult × W). p.0) (rw q at h))
      ]

  -- A pack that is clear, and so may release a selection, was read and parsed, and every one of its
  -- challenges was run in order and satisfied by its response.
  pub evaluate-clear :
      {W : Type 0} (machine : Machine W) (pack_path : String) (context : PolicyContext W) (w : W)
      {r : ModuleResult} {w' : W}
      → evaluate machine module_id pack_path context w ≡ (ok r, w')
      → is_clear r.disposition ≡ true
      → (pack : Json) × (cs : List Challenge) × (w1 : W) × (machine.read_json pack_path
            max_manifest_bytes w
          ≡ (ok pack, w1))
        × (parse_challenges pack ≡ ok cs)
        × AllSatisfied context cs w1 w'
  unfolding evaluate
  evaluate-clear {W} machine pack_path context w h content =
      let (cs, w2, e, k) =
        loaded_and_clear machine pack_path context
          (after (machine.read_json pack_path max_manifest_bytes w)
            (λ pack. lift (parse_challenges pack)))
          h content in
      let (pack, w1, er, ek) = after-eq-ok (machine.read_json pack_path max_manifest_bytes w) _ e in
      (
        pack,
        cs,
        w1,
        er,
        ap (λ (p : Result (List Challenge) × W). p.0) ek,
        rw (ap (λ (p : Result (List Challenge) × W). p.1) ek)
            (challenge_loop-clear context cs [] w2 k content),
      )
