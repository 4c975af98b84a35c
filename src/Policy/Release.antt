-- ===== src/Policy/Release.antt =====
-- What may release a selection in a rotation of ditto_screener/policy.py.
use ditto_screener.Prelude.{
  ◌≡◌, refl, ◌∙◌, Bool, true, false, not, ◌&&◌, ◌||◌, List, [], ◌∷◌, any, all, arith, Bool-cases,
  inl, inr,
}
use ditto_screener.Prelude.Results.{ok}
use ditto_screener.Policy.Hash.{Hashlib}
use ditto_screener.Policy.Outcome.{pass}
use ditto_screener.Policy.Decision.{ModuleResult, ScreeningDecision}
use ditto_screener.Policy.Context.{PolicyContext, Machine}
use ditto_screener.Policy.Engine.{PolicyModule, evaluate, modules_of, is_challenge}
use ditto_screener.Policy.Engine.Loops.{collect, trips, is_harmless, any_clears}
use ditto_screener.Policy.Engine.Decided.{selectors, packs}
use ditto_screener.Policy.Engine.Verdicts.{evaluate-pass_sound}
use ditto_screener.Policy.Build.{
  BuiltModule, timing_relay_risk, random, source_fingerprint, agentic_source_review,
  behavioral_challenge_pack, behavioral_oracle, Rotation, modules_from, module_of,
}
use ditto_screener.Policy.Default.{engine_of}

abbrev pub is_pack : BuiltModule → Bool
is_pack (behavioral_challenge_pack i pack_path) = true
is_pack _ = false

any_clears-cons :
    {W : Type 0} (m : PolicyModule W) (ms : List (PolicyModule W)) (cs : List ModuleResult)
    → m.clears_selection ≡ false
    → ((rest : List ModuleResult) → any_clears ms rest ≡ false)
    → any_clears (m ∷ ms) cs ≡ false
any_clears-cons m ms [] shut later = refl
any_clears-cons m ms (c ∷ cs) shut later = rw (shut, later cs)

harmless_first : (a b c t : Bool) → (a && b && (not t || c)) ≡ true → a ≡ true
harmless_first a b c t h = ground arith

untripped : (a b c t : Bool) → (a && b && (not t || c)) ≡ true → c ≡ false → t ≡ false
untripped a b c t h shut = ground arith

module _ (H : Hashlib) {W : Type 0} (machine : Machine W) (context : PolicyContext W) where
  only_packs_clear :
      (b : BuiltModule) → (module_of H machine context b).clears_selection ≡ is_pack b
  unfolding module_of
  only_packs_clear (timing_relay_risk i feed_path limits) = refl
  only_packs_clear (random i rate seed_env) = refl
  only_packs_clear (source_fingerprint i known suffixes) = refl
  only_packs_clear (agentic_source_review i) = refl
  only_packs_clear (behavioral_challenge_pack i pack_path) = refl
  only_packs_clear (behavioral_oracle oracle) = refl

  not_first :
      (b : BuiltModule) (bs : List BuiltModule) → any is_pack (b ∷ bs) ≡ false → is_pack b ≡ false
  not_first b bs h = ground arith

  not_later :
      (b : BuiltModule) (bs : List BuiltModule)
      → any is_pack (b ∷ bs) ≡ false
      → any is_pack bs ≡ false
  not_later b bs h = ground arith

  any_clears-no_pack :
      (built : List BuiltModule) (cs : List ModuleResult)
      → any is_pack built ≡ false
      → any_clears (modules_of is_challenge (modules_from H machine context built)) cs ≡ false
  unfolding modules_from
  any_clears-no_pack [] cs h = refl
  any_clears-no_pack (b ∷ bs) cs h =
      elim (Bool-cases (is_challenge (module_of H machine context b).phase)) [
        | inl q ↦ rw q (
            any_clears-cons (module_of H machine context b)
              (modules_of is_challenge (modules_from H machine context bs)) cs
              (only_packs_clear b ∙ not_first b bs h)
              (λ rest. any_clears-no_pack bs rest (not_later b bs h)))
        | inr q ↦ rw q (any_clears-no_pack bs cs (not_later b bs h))
      ]

  -- In a rotation without a challenge pack nothing releases a selection: if its full review passes,
  -- every selector was run and none tripped.
  pub evaluate-untripped :
      (rotation : Rotation) (w : W) {w' : W} {d : ScreeningDecision}
      → any is_pack rotation.built ≡ false
      → evaluate H (engine_of H machine context rotation) false false w ≡ (ok d, w')
      → d.outcome ≡ pass
      → (rs : List ModuleResult) × (w1 : W) × (collect
            (selectors (engine_of H machine context rotation))
            w
          ≡ (ok rs, w1))
        × (all is_harmless rs ≡ true)
        × (any trips rs ≡ false)
  evaluate-untripped rotation w no_pack h p =
      let (rs, cs, w1, c, c2, released) =
        evaluate-pass_sound H (engine_of H machine context rotation) w h p in
      (
        rs,
        w1,
        c,
        harmless_first (all is_harmless rs) (all is_harmless cs)
            (any_clears (packs (engine_of H machine context rotation)) cs) (any trips rs) released,
        untripped (all is_harmless rs) (all is_harmless cs)
            (any_clears (packs (engine_of H machine context rotation)) cs) (any trips rs) released
            (any_clears-no_pack rotation.built cs no_pack),
      )
