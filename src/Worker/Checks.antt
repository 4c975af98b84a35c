-- ===== src/Worker/Checks.antt =====
-- The single conditions of the protocol's validators, for the parts that the worker's report of
-- ditto_screener/worker.py puts together.
use ditto_screener.Prelude.{
  ◌≡◌, refl, String, Bool, true, false, not, ◌&&◌, ◌||◌, Option, none, some, List, [], ◌∷◌, arith,
  Bool-cases, inl, inr, leb, is_none, is_some, ◌==◌, text_equality, if◌then◌else◌, differ, is_empty,
}
use ditto_screener.Prelude.Results.{Result, ok, >>=-eq-ok}
use ditto_screener.Json.{Fields}
use ditto_screener.Policy.Hash.{Hashlib}
use ditto_screener.Policy.Outcome.{
  ScreeningOutcome, pass, pass_inconclusive, deterministic_reject, retryable_infra, quarantine,
  inconclusive,
}
use ditto_screener.Policy.Decision.{
  PolicyEvidence, ScreeningDecision, check_decision, is_pass_inconclusive,
}
use ditto_screener.Protocol.Result.{
  SourceReviewFinding, ScreenReviewAudit, finding_digest_of, audit_digest_of, is_quarantine,
  is_review, is_audited,
}
use ditto_screener.Protocol.Valid.{check_finding, check_audit}
use ditto_screener.Worker.Report.{
  ScreenerQueueItem, validate_precheck, ScreenedImage, only_if, trail, last_code, image_part,
  applied, ReviewSettingsStatus,
}

pub last_known :
    (evidence : List PolicyEvidence)
    → is_empty evidence ≡ false
    → is_none (last_code evidence) ≡ false
last_known [] h = cc
last_known (e ∷ []) h = refl
last_known (e ∷ f ∷ es) h = last_known (f ∷ es) refl

pub self_digest : (s : String) → (s == s) ≡ true
self_digest s = (text_equality.equal_iff s s).1 refl

pub differ_self : (b : Bool) → differ b b ≡ false
differ_self true = refl
differ_self false = refl

pub attempted : (o : ScreeningOutcome) → (is_review o && false) ≡ false
attempted o = ground arith

-- The manifest digest and the reason of an audited decision are there.
pub explained :
    (o : ScreeningOutcome) (evidence : List PolicyEvidence) (digest : String)
    → (is_quarantine o && is_empty evidence) ≡ false
    → (is_audited o
        && (is_none (if is_audited o then some digest else none)
            || is_none (
                if is_pass_inconclusive o
                then some "source-review-inconclusive"
                else last_code evidence)))
      ≡ false
explained pass evidence digest h = refl
explained pass_inconclusive evidence digest h = refl
explained deterministic_reject evidence digest h = refl
explained retryable_infra evidence digest h = refl
explained quarantine evidence digest h = last_known evidence h
explained inconclusive evidence digest h = refl

pub imaged :
    (passing : Bool) (image : Option ScreenedImage)
    → (passing && is_none image) ≡ false
    → (not passing && is_some image) ≡ false
    → (if passing
        then is_none (image_part ScreenedImage.sha256 image)
          || is_none (image_part ScreenedImage.size_bytes image)
          || is_none (image_part ScreenedImage.image_id image)
          || is_none (image_part ScreenedImage.image_ref image)
          || is_none (image_part ScreenedImage.upload_id image)
        else is_some (image_part ScreenedImage.sha256 image)
          || is_some (image_part ScreenedImage.size_bytes image)
          || is_some (image_part ScreenedImage.image_id image)
          || is_some (image_part ScreenedImage.image_ref image)
          || is_some (image_part ScreenedImage.upload_id image))
      ≡ false
imaged true (some image) g h = refl
imaged false none g h = refl
imaged true none g h = cc
imaged false (some image) g h = cc

-- The settings are bound together or not at all.
pub bound_together :
    (status : ReviewSettingsStatus) (instance_id : String)
    → ((is_some (applied status status.revision)
          || is_some (applied status instance_id)
          || is_some (applied status status.scope)
          || is_some (applied status status.checksum))
        && (is_none (applied status status.revision)
            || is_none (applied status instance_id)
            || is_none (applied status status.scope)
            || is_none (applied status status.checksum)))
      ≡ false
bound_together status instance_id = elim (Bool-cases (leb 1 status.revision)) [
  | inl q ↦ rw q refl
  | inr q ↦ rw q refl
]

-- Evidence and a finding go with an audited outcome, which is a review outcome.
pub review_bound :
    (o : ScreeningOutcome) (evidence : Option (List PolicyEvidence))
    (finding : Option SourceReviewFinding)
    → (is_audited o ≡ false → (evidence ≡ none) × (finding ≡ none))
    → ((is_some evidence || is_some finding) && not (is_review o)) ≡ false
review_bound quarantine evidence finding h = ground arith
review_bound pass_inconclusive evidence finding h = ground arith
review_bound inconclusive evidence finding h = ground arith
review_bound pass evidence finding h = let (a, b) = h refl in rw (a, b) refl
review_bound deterministic_reject evidence finding h = let (a, b) = h refl in rw (a, b) refl
review_bound retryable_infra evidence finding h = let (a, b) = h refl in rw (a, b) refl

module _ (H : Hashlib) where
  pub finding_checked :
      (finding : Option SourceReviewFinding) (other : Option String)
      → check_finding H finding
          (elim finding [ some f ↦ some (finding_digest_of H f) | none ↦ other ])
        ≡ ok tt
  unfolding check_finding
  finding_checked none other = refl
  finding_checked (some f) other = rw (self_digest (finding_digest_of H f)) refl

  pub audit_checked :
      (b : Bool) (audit : Option ScreenReviewAudit)
      → is_some audit ≡ b
      → check_audit H b audit (elim audit [ some a ↦ some (audit_digest_of H a) | none ↦ none ])
        ≡ ok tt
  unfolding check_audit
  audit_checked true (some a) h = rw (self_digest (audit_digest_of H a)) refl
  audit_checked false none h = refl
  audit_checked true none h = cc
  audit_checked false (some a) h = cc

pub only_if-false :
    {A : Type 0} (b : Bool) (parse : Fields → Result A) (payload : Option Fields) {o : Option A}
    → only_if b parse payload ≡ ok o
    → b ≡ false
    → o ≡ none
unfolding only_if
only_if-false true parse payload h q = cc
only_if-false false parse payload h q = cc

pub trail-false :
    (b : Bool) (items : List PolicyEvidence) {o : Option (List PolicyEvidence)}
    → trail b items ≡ ok o
    → b ≡ false
    → o ≡ none
unfolding trail
trail-false true items h q = cc
trail-false false items h q = cc

-- A payload that must be there is parsed.
pub only_if_some :
    {A : Type 0} (b : Bool) (parse : Fields → Result A) (payload : Option Fields) {o : Option A}
    → only_if b parse payload ≡ ok o
    → (b && is_none payload) ≡ false
    → is_some o ≡ b
unfolding only_if
only_if_some true parse (some payload) {o} h q =
    let (a, e, k) = >>=-eq-ok (parse payload) _ h in let same : o ≡ some a = cc k in rw same refl
only_if_some true parse none h q = cc
only_if_some false parse payload {o} h q = let same : o ≡ none = cc h in rw same refl

pub audit_present :
    (d : ScreeningDecision) {d' : ScreeningDecision}
    → check_decision d ≡ ok d'
    → (is_pass_inconclusive d.outcome && is_none d.review_audit) ≡ false
unfolding check_decision
audit_present d h = ground arith

pub item_valid :
    (item : ScreenerQueueItem) {item' : ScreenerQueueItem}
    → validate_precheck item ≡ ok item'
    → (item.deferred_source_review && not item.build_only) ≡ false
unfolding validate_precheck
item_valid item h = ground arith
