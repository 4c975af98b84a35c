-- ===== src/Policy/Engine/Verdicts.antt =====
-- What `PolicyEngine.evaluate` decides, over any modules.
use mathlib.Core.List.{foldl}
use ditto_screener.Prelude.{
  ℕ, zero, suc, take, length, ltb, Option, [], ◌∷◌, refl, ◌≡◌, sym, ap, ◌∙◌, ◌≢◌, Bool, true, false,
  not, ◌&&◌, ◌||◌, none, List, ◌++◌, any, all, arith, inl, inr,
}
use ditto_screener.Prelude.Results.{Result, ok}
use ditto_screener.Prelude.Actions.{after}
use ditto_screener.Policy.Hash.{Hashlib}
use ditto_screener.Policy.Outcome.{pass, deterministic_reject}
use ditto_screener.Json.{Fields}
use ditto_screener.Policy.Decision.{
  ModuleResult, ScreeningDecision, PolicyEvidence, PolicyManifest, is_oversized, check_decision,
  digest,
}
use ditto_screener.Policy.Engine.{
  PolicyEngine, Review, decide, decision, conclude, challenges, finish, evaluate, new_review,
}
use ditto_screener.Policy.Engine.Loops.{
  collect, trips, is_harmless, any_clears, selector_next, after_challenges, length-collect,
  selector_loop-collect, challenge_loop-collect,
}
use ditto_screener.Policy.Engine.Variables.{
  entries, last_finding, last_audit, foldl-selector_next, after_challenges_lem, is_released,
  harmless_of_goes_on, goes_on_of_harmless, stops_with-ne,
}
use ditto_screener.Policy.Engine.Decided.{
  selectors, packs, Decided, stopped, concluded, decide-outcome, conclude_cases, evaluate-Decided,
}

length-take_most : (n : ℕ) (es : List PolicyEvidence) → ltb n (length (take n es)) ≡ false
length-take_most zero es = refl
length-take_most (suc n) [] = ground arith
length-take_most (suc n) (e ∷ es) = let ih = length-take_most n es in ground arith

decision_pass :
    (H : Hashlib) (manifest : PolicyManifest) (evidence : List PolicyEvidence)
    (finding review_audit : Option Fields)
    → is_oversized finding ≡ false
    → is_oversized review_audit ≡ false
    → decision H manifest pass evidence finding review_audit
      ≡ ok (record {
        outcome = pass;
        detail = "";
        manifest_digest = digest H manifest;
        evidence = take 16 evidence;
        version = 9;
        finding = finding;
        review_audit = review_audit;
      })
unfolding decision check_decision digest
decision_pass H manifest evidence finding review_audit f a =
    rw (H.hexdigest-is_sha256 _, length-take_most 16 evidence, f, a) refl

module _ (H : Hashlib) {W : Type 0} (engine : PolicyEngine W) where
  released_by :
      (w : W) {w' : W} {d : ScreeningDecision}
      → Decided H engine w d w'
      → d.outcome ≡ pass
      → (rs cs : List ModuleResult) × (w1 : W) × (collect (selectors engine) w ≡ (ok rs, w1))
        × (collect (packs engine) w1 ≡ (ok cs, w'))
        × (is_released (packs engine) rs cs ≡ true)
  released_by w (stopped x e) p = absurd ((stops_with-ne x).0 (sym e ∙ p))
  released_by w (concluded rs cs w1 v c c2 g g2 s i r k) p = elim (conclude_cases H engine v k) [
    | inl q ↦ cc (q.0, p)
    | inr (inl q) ↦ cc (q.0, p)
    | inr (inr q) ↦ (
      rs,
      cs,
      w1,
      c,
      c2,
      ground (arith, s, i, r, q.1, q.2, harmless_of_goes_on rs g (sym i ∙ q.1)),
    )
  ]

  -- A full review that passes has run every module, none objected, and if a selector tripped, a
  -- challenge module that may release the selection was clear.
  pub evaluate-pass_sound :
      (w : W) {w' : W} {d : ScreeningDecision}
      → evaluate H engine false false w ≡ (ok d, w')
      → d.outcome ≡ pass
      → (rs cs : List ModuleResult) × (w1 : W) × (collect (selectors engine) w ≡ (ok rs, w1))
        × (collect (packs engine) w1 ≡ (ok cs, w'))
        × (is_released (packs engine) rs cs ≡ true)
  evaluate-pass_sound w h p = released_by w (evaluate-Decided H engine w h) p

  not_rejected_by :
      (w : W) {w' : W} {d : ScreeningDecision}
      → Decided H engine w d w'
      → d.outcome ≢ deterministic_reject
  not_rejected_by w (stopped x e) p = (stops_with-ne x).1 (sym e ∙ p)
  not_rejected_by w (concluded rs cs w1 v c c2 g g2 s i r k) p =
      elim (conclude_cases H engine v k) [
        | inl q ↦ cc (q.0, p)
        | inr (inl q) ↦ cc (q.0, p)
        | inr (inr q) ↦ cc (q.0, p)
      ]

  passed_mechanically :
      {d : ScreeningDecision}
      → decide H engine pass new_review ≡ ok d
      → d.outcome ≢ deterministic_reject
  passed_mechanically h p = cc (decide-outcome H engine pass new_review h, p)

  -- No private module, in either lane, can make the engine reject a submission.
  pub evaluate-never_rejects :
      (build_only deferred : Bool) (w : W) {w' : W} {d : ScreeningDecision}
      → evaluate H engine build_only deferred w ≡ (ok d, w')
      → d.outcome ≢ deterministic_reject
  evaluate-never_rejects false false w h = not_rejected_by w (evaluate-Decided H engine w h)
  evaluate-never_rejects false true w h =
      unfold evaluate in cc (ap (λ (p : Result ScreeningDecision × W). p.0) h)
  evaluate-never_rejects true false w {d} h =
      passed_mechanically {d = d}
        (unfold evaluate in ap (λ (p : Result ScreeningDecision × W). p.0) h)
  evaluate-never_rejects true true w {d} h =
      passed_mechanically {d = d}
        (unfold evaluate in ap (λ (p : Result ScreeningDecision × W). p.0) h)

  conclude_released :
      (v : Review)
      → (v.selected && not v.cleared) ≡ false
      → v.passes_inconclusive ≡ false
      → conclude H engine v ≡ decision H engine.manifest pass v.evidence v.finding v.review_audit
  unfolding conclude
  conclude_released v s i = rw (s, i)

  evaluate_released :
      (w : W) (rs cs : List ModuleResult) {w1 w' : W}
      → collect (selectors engine) w ≡ (ok rs, w1)
      → collect (packs engine) w1 ≡ (ok cs, w')
      → is_released (packs engine) rs cs ≡ true
      → evaluate H engine false false w ≡ (
        decision H engine.manifest pass
            (entries rs ++ entries cs)
            (last_finding (last_finding none rs) cs)
            (last_audit (last_audit none rs) cs),
        w',
      )
  unfolding evaluate challenges finish
  evaluate_released w rs cs {w1} {w'} c c2 r =
      let h : all is_harmless rs ≡ true = ground (arith, r) in
      let h2 : all is_harmless cs ≡ true = ground (arith, r) in
      let h3 : (not (any trips rs) || any_clears (packs engine) cs) ≡ true = ground (arith, r) in
      let g = goes_on_of_harmless rs h in
      let v = foldl selector_next new_review rs in
      let s = foldl-selector_next new_review rs in
      let t = after_challenges_lem (packs engine) v cs (length-collect (packs engine) w1 cs c2) in
      rw (selector_loop-collect H engine (selectors engine) new_review w rs c g.0, after)
        (rw (challenge_loop-collect H engine (packs engine) v w1 cs c2 h2, after)
          (rw
            (conclude_released (after_challenges (packs engine) v cs)
              (ground (arith, h3, s.selected, s.cleared, t.selected, t.cleared))
              (t.passes_inconclusive ∙ s.passes_inconclusive ∙ g.1))
            (rw (t.evidence, s.evidence, t.finding, s.finding, t.review_audit, s.review_audit))))

  -- A full review in which every module returns and none objects passes, if a selector's tripwire,
  -- where there is one, is released, and neither the last finding nor the last review audit is
  -- oversized. The decision has the evidence of all modules in order, cut to its first 16 pieces,
  -- that finding, that review audit, and the manifest's digest.
  pub evaluate-pass_complete :
      (w : W) (rs cs : List ModuleResult) {w1 w' : W}
      → collect (selectors engine) w ≡ (ok rs, w1)
      → collect (packs engine) w1 ≡ (ok cs, w')
      → is_released (packs engine) rs cs ≡ true
      → is_oversized (last_finding (last_finding none rs) cs) ≡ false
      → is_oversized (last_audit (last_audit none rs) cs) ≡ false
      → evaluate H engine false false w ≡ (
        ok (record {
          outcome = pass;
          detail = "";
          manifest_digest = digest H engine.manifest;
          evidence = take 16 (entries rs ++ entries cs);
          version = 9;
          finding = last_finding (last_finding none rs) cs;
          review_audit = last_audit (last_audit none rs) cs;
        }),
        w',
      )
  evaluate-pass_complete w rs cs {w1} {w'} c c2 r f a =
      evaluate_released w rs cs c c2 r
      ∙ ap (λ (d : Result ScreeningDecision). (d, w'))
          (decision_pass H engine.manifest (entries rs ++ entries cs)
            (last_finding (last_finding none rs) cs) (last_audit (last_audit none rs) cs) f a)
