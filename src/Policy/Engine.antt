-- ===== src/Policy/Engine.antt =====
-- `PolicyEngine` of ditto_screener/policy.py. A module is an action on the state `W` of what it
-- talks to: the submission's container, the reviewer, files and the environment.
pub mod Loops
pub mod Variables
pub mod Decided
pub mod Verdicts
use ditto_screener.Prelude.{
  String, Bool, true, false, not, ◌&&◌, ◌||◌, Option, none, some, List, [], ◌∷◌, ◌++◌, length, take,
  is_empty, ltb, ◌==◌, nat_equality, if◌then◌else◌,
}
use ditto_screener.Prelude.Results.{Result, ok, raised, value_error, raise_if}
use ditto_screener.Prelude.Results
use ditto_screener.Prelude.Actions.{Action, pure, raise, lift, ◌>>=◌}
use ditto_screener.Json.{Fields, end, field}
use ditto_screener.Policy.Outcome.{
  ScreeningOutcome, module_terminal, is_tripwire, is_clear, pass, pass_inconclusive,
  retryable_infra, quarantine, inconclusive,
}
use ditto_screener.Policy.Hash.{Hashlib}
use ditto_screener.Policy.Decision.{
  PolicyEvidence, ScreeningDecision, ModuleResult, PolicyManifest, check_decision, digest,
  policy_version, max_modules, max_evidence,
}

pub data Phase : Type 0 where
  selector challenge : Phase

pub record PolicyModule (W : Type 0) : Type 0 where
  pub module_id : String
  pub phase : Phase
  pub clears_selection : Bool
  pub evaluate : Action W ModuleResult

abbrev pub is_selector : Phase → Bool
is_selector selector = true
is_selector challenge = false

abbrev pub is_challenge : Phase → Bool
is_challenge selector = false
is_challenge challenge = true

pub record PolicyEngine (W : Type 0) : Type 0 where
  pub manifest : PolicyManifest
  pub modules : List (PolicyModule W)

-- `PolicyEngine.__init__`
unfoldable pub new_engine :
    {W : Type 0} → PolicyManifest → List (PolicyModule W) → Result (PolicyEngine W)
new_engine manifest modules =
    Results.◌>>◌ (raise_if (not (length modules == length manifest.module_specs)) value_error) (
      Results.◌>>◌ (raise_if (ltb max_modules (length modules)) value_error)
        (ok (record { manifest = manifest; modules = modules })))

-- The detail that `_decision` gives each outcome.
abbrev pub decision_detail : ScreeningOutcome → String
decision_detail retryable_infra = "screener error: private policy infrastructure unavailable"
decision_detail quarantine = "private policy quarantine pending operator review"
decision_detail inconclusive = "private policy audit inconclusive"
decision_detail pass_inconclusive = "bounded source review inconclusive; admitted for scoring"
decision_detail _ = ""

-- `_decision`
module _ (H : Hashlib) where
  unfoldable pub decision :
      PolicyManifest
      → ScreeningOutcome
      → List PolicyEvidence
      → Option Fields
      → Option Fields
      → Result ScreeningDecision
  decision manifest outcome evidence finding review_audit = check_decision (record {
    outcome = outcome;
    detail = decision_detail outcome;
    manifest_digest = digest H manifest;
    evidence = take max_evidence evidence;
    version = policy_version;
    finding = finding;
    review_audit = review_audit;
  })

-- `payload or earlier`: an empty dict counts as missing.
abbrev pub or_payload : Option Fields → Option Fields → Option Fields
or_payload none earlier = earlier
or_payload (some end) earlier = earlier
or_payload (some (field k v rest)) earlier = some (field k v rest)

-- The local variables of `evaluate`.
pub record Review : Type 0 where
  pub evidence : List PolicyEvidence
  pub finding : Option Fields
  pub review_audit : Option Fields
  pub selected : Bool
  pub passes_inconclusive : Bool
  pub cleared : Bool

abbrev pub new_review : Review
new_review = record {
  evidence = [];
  finding = none;
  review_audit = none;
  selected = false;
  passes_inconclusive = false;
  cleared = false;
}

abbrev pub take_result : Review → ModuleResult → Review
take_result v r = record v {
  evidence = v.evidence ++ r.evidence;
  finding = or_payload r.finding v.finding;
  review_audit = or_payload r.review_audit v.review_audit;
}

-- A loop has returned from `evaluate`, or goes on.
pub data Loop : Type 0 where
  returned : Result ScreeningDecision → Loop
  running : Review → Loop

abbrev pub modules_of :
    {W : Type 0} → (Phase → Bool) → List (PolicyModule W) → List (PolicyModule W)
modules_of wanted [] = []
modules_of wanted (m ∷ ms) =
    let rest = modules_of wanted ms in if wanted m.phase then m ∷ rest else rest

module _ (H : Hashlib) {W : Type 0} (engine : PolicyEngine W) where
  pub decide : ScreeningOutcome → Review → Result ScreeningDecision
  decide outcome v = decision H engine.manifest outcome v.evidence v.finding v.review_audit

  -- The body of the selector loop, after the module's call.
  pub selector_step : Review → ModuleResult → Loop
  unfolding decide
  selector_step v r =
      let taken = take_result v r in
      elim (module_terminal r.disposition) [
        | none ↦ running (record taken { selected = v.selected || is_tripwire r.disposition })
        | some pass_inconclusive ↦ running (record taken { passes_inconclusive = true })
        | some terminal ↦ returned (decide terminal taken)
      ]

  -- The body of the challenge loop, after the module's call.
  pub challenge_step : Bool → Review → ModuleResult → Loop
  unfolding decide
  challenge_step clears v r =
      let taken = take_result v r in
      elim (module_terminal r.disposition) [
        | none ↦
            running (record taken { cleared = v.cleared || (clears && is_clear r.disposition) })
        | some terminal ↦ returned (decide terminal taken)
      ]

  pub selector_loop : List (PolicyModule W) → Review → Action W Loop
  unfolding selector_step
  selector_loop [] v = pure (running v)
  selector_loop (m ∷ ms) v = m.evaluate >>= λ r. elim (selector_step v r) [
    | returned d ↦ pure (returned d)
    | running v' ↦ selector_loop ms v'
  ]

  pub challenge_loop : List (PolicyModule W) → Review → Action W Loop
  unfolding challenge_step
  challenge_loop [] v = pure (running v)
  challenge_loop (m ∷ ms) v = m.evaluate >>= λ r. elim (challenge_step m.clears_selection v r) [
    | returned d ↦ pure (returned d)
    | running v' ↦ challenge_loop ms v'
  ]

  pub awaiting : PolicyEvidence
  awaiting = record {
    module_id = "policy-engine";
    code = "audit-awaiting-private-challenge";
    summary = "tripwire selected quarantine until a private challenge is available";
    digest = none;
  }

  -- What follows the two loops.
  pub conclude : Review → Result ScreeningDecision
  unfolding decide awaiting
  conclude v =
      if v.selected && not v.cleared
      then decide quarantine
          (record v { evidence = if is_empty v.evidence then awaiting ∷ [] else v.evidence })
      else if v.passes_inconclusive
      then decide pass_inconclusive v
      else decide pass v

  pub finish : Loop → Action W ScreeningDecision
  unfolding conclude
  finish (returned d) = lift d
  finish (running v) = lift (conclude v)

  pub challenges : Loop → Action W ScreeningDecision
  unfolding challenge_loop finish
  challenges (returned d) = lift d
  challenges (running v) = challenge_loop (modules_of is_challenge engine.modules) v >>= finish

  -- `evaluate`. `_decision` on the mechanical lane has no review audit.
  unfoldable pub evaluate : Bool → Bool → Action W ScreeningDecision
  unfolding selector_loop challenges decide
  evaluate build_only deferred =
      if deferred && not build_only
      then raise value_error
      else if build_only
      then lift (decide pass new_review)
      else selector_loop (modules_of is_selector engine.modules) new_review >>= challenges
