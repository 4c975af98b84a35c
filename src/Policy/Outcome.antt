-- ===== src/Policy/Outcome.antt =====
-- The enums of ditto_screener/policy.py, and the sets of outcomes that the program tests.
use ditto_screener.Prelude.{Bool, true, false, Option, none, some, String}

pub data ScreeningOutcome : Type 0 where
  pass pass_inconclusive deterministic_reject retryable_infra quarantine inconclusive :
      ScreeningOutcome

pub data ModuleDisposition : Type 0 where
  clear tripwire retryable_infra quarantine inconclusive pass_inconclusive : ModuleDisposition

-- `{PASS, PASS_INCONCLUSIVE}`
abbrev pub is_passing : ScreeningOutcome → Bool
is_passing pass = true
is_passing pass_inconclusive = true
is_passing _ = false

-- The outcomes of `submits_verdict`.
abbrev pub is_verdict : ScreeningOutcome → Bool
is_verdict pass = true
is_verdict pass_inconclusive = true
is_verdict deterministic_reject = true
is_verdict retryable_infra = true
is_verdict _ = false

-- `_module_terminal`
abbrev pub module_terminal : ModuleDisposition → Option ScreeningOutcome
module_terminal retryable_infra = some ScreeningOutcome.retryable_infra
module_terminal quarantine = some ScreeningOutcome.quarantine
module_terminal inconclusive = some ScreeningOutcome.inconclusive
module_terminal pass_inconclusive = some ScreeningOutcome.pass_inconclusive
module_terminal _ = none

abbrev pub is_tripwire : ModuleDisposition → Bool
is_tripwire tripwire = true
is_tripwire _ = false

abbrev pub is_clear : ModuleDisposition → Bool
is_clear clear = true
is_clear _ = false

-- `outcome.value`
unfoldable pub outcome_value : ScreeningOutcome → String
outcome_value pass = "pass"
outcome_value pass_inconclusive = "pass_inconclusive"
outcome_value deterministic_reject = "deterministic_reject"
outcome_value retryable_infra = "retryable_infra"
outcome_value quarantine = "quarantine"
outcome_value inconclusive = "inconclusive"
