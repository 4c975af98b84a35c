-- ===== src/Heartbeat/Stages.antt =====
-- The bucket that `source_review_progress_stage` takes.
use native.Mathlib.Nat.{div-mul-le_self, lt-div-mul-add, mul-le-mul_right}
use ditto_screener.Prelude.{
  ℕ, zero, suc, ◌+◌, ◌-◌, ◌*◌, ◌/◌, ◌≤◌, ◌<◌, ◌≡◌, min, refl, String, List, [], ◌∷◌, arith, leb,
  leb→le, Bool-cases, get_or, inl, inr, length,
}
use ditto_screener.Prelude.Int.{ℤ, pos}
use ditto_screener.Prelude.Results.{ok}
use ditto_screener.Heartbeat.{
  source_review_progress_stages, stage_at, bounded_steps, source_review_progress_stage,
}

stage_at-ok :
    (stages : List String) (b : ℕ) → b < length stages → stage_at stages b ≡ ok (get_or stages b "")
stage_at-ok [] b h = absurd (omega arith)
stage_at-ok (s ∷ stages) zero h = refl
stage_at-ok (s ∷ stages) (suc b) h = stage_at-ok stages b (omega (arith, h))

-- Rounded up: the least bucket whose share is not below the completed one.
abbrev pub RoundsUp : ℕ → ℕ → ℕ → Type 0
RoundsUp bucket completed total =
    (completed * 10 ≤ bucket * total) × (bucket * total < completed * 10 + total)

quotient-RoundsUp :
    (completed n : ℕ) → RoundsUp ((completed * 10 + suc n - 1) / suc n) completed (suc n)
quotient-RoundsUp completed n =
    let q = (completed * 10 + suc n - 1) / suc n in
    let low : q * suc n ≤ completed * 10 + suc n - 1 =
      div-mul-le_self (completed * 10 + suc n - 1) (suc n) in
    let high : completed * 10 + suc n - 1 < q * suc n + suc n = lt-div-mul-add (omega arith) in
    (omega (arith, high), omega (arith, low))

-- The share is at most the whole.
quotient_bound :
    (q completed total : ℕ)
    → 0 < total
    → completed ≤ total
    → q * total < completed * 10 + total
    → q ≤ 10
quotient_bound q completed total h most high = elim (Bool-cases (leb q 10)) [
  | inl e ↦ leb→le q 10 e
  | inr e ↦
      let eleven : 11 ≤ q = ground (arith, e) in
      let product : 11 * total ≤ q * total = mul-le-mul_right total eleven in
      absurd (omega (arith, product, most, high, h))
]

-- For a total of at least one step the stage is one of the eleven: the least whose share of the total is
-- not below the completed steps, which count from none to the total.
pub source_review_progress_stage-RoundsUp :
    (completed : ℤ) (n : ℕ)
    → (bucket : ℕ) × (bucket ≤ 10)
      × RoundsUp bucket (bounded_steps completed (suc n)) (suc n)
      × (source_review_progress_stage completed (pos (suc n))
          ≡ ok (get_or source_review_progress_stages bucket ""))
unfolding source_review_progress_stage
source_review_progress_stage-RoundsUp completed n =
    let done = bounded_steps completed (suc n) in
    let q = (done * 10 + suc n - 1) / suc n in
    let (low, high) = quotient-RoundsUp done n in
    let most : q ≤ 10 = quotient_bound q done (suc n) (omega arith) (omega arith) high in
    let e : min 10 q ≡ q = omega (arith, most) in
    (q, most, (low, high), rw e (stage_at-ok source_review_progress_stages q (omega (arith, most))))
