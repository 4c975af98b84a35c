-- ===== src/Heartbeat.antt =====
-- ditto_screener/heartbeat.py: the progress stages of a source review, and Docker's health with its
-- validator and its probe.
pub mod Stages
pub mod Docker
mod Tests
use ditto_screener.Prelude.{
  ℕ, zero, suc, ◌+◌, ◌-◌, ◌*◌, ◌/◌, min, String, codes, Bool, true, false, not, ◌||◌, ◌&&◌, Option,
  none, some, is_none, is_some, List, [], ◌∷◌, length, take, get_elem?, leb, ltb, ◌==◌,
  nat_equality, if◌then◌else◌,
}
use ditto_screener.Prelude.Int.{ℤ, pos, negsuc, pos_part}
use ditto_screener.Prelude.Results.{
  Exn, value_error, other_error, Result, ok, raised, raise_if, ◌>>=◌, ◌>>◌,
}
use ditto_screener.Signals.Paths.{occurs}

-- `_SOURCE_REVIEW_PROGRESS_STAGES`
abbrev pub source_review_progress_stages : List String
source_review_progress_stages =
    "source_review_0" ∷ "source_review_10" ∷ "source_review_20" ∷ "source_review_30"
    ∷ "source_review_40" ∷ "source_review_50" ∷ "source_review_60" ∷ "source_review_70"
    ∷ "source_review_80" ∷ "source_review_90" ∷ "source_review_100" ∷ []

-- `stages[bucket]`, which raises IndexError out of range
abbrev pub stage_at : List String → ℕ → Result String
stage_at stages bucket = elim (get_elem? stages bucket) [
  | none ↦ raised other_error
  | some stage ↦ ok stage
]

-- The completed steps, within the total.
abbrev pub bounded_steps : ℤ → ℕ → ℕ
bounded_steps completed total = min total (pos_part completed)

abbrev pub bucket_of : ℕ → ℕ → ℕ
bucket_of completed total = min 10 ((completed * 10 + total - 1) / total)

-- `source_review_progress_stage`
unfoldable pub source_review_progress_stage : ℤ → ℤ → Result String
source_review_progress_stage completed (negsuc n) = raised value_error
source_review_progress_stage completed (pos zero) = raised value_error
source_review_progress_stage completed (pos (suc n)) =
    stage_at source_review_progress_stages (bucket_of (bounded_steps completed (suc n)) (suc n))

pub data DockerStatus : Type 0 where
  healthy degraded unavailable : DockerStatus

pub record DockerHealth : Type 0 where
  pub status : DockerStatus
  pub running_containers : ℕ
  pub unhealthy_containers : ℕ

abbrev pub is_healthy : DockerStatus → Bool
is_healthy healthy = true
is_healthy degraded = false
is_healthy unavailable = false

abbrev pub is_degraded : DockerStatus → Bool
is_degraded healthy = false
is_degraded degraded = true
is_degraded unavailable = false

abbrev pub is_unavailable : DockerStatus → Bool
is_unavailable healthy = false
is_unavailable degraded = false
is_unavailable unavailable = true

-- The constraints of the fields, then `DockerHealth.validate_counts`; pydantic raises a ValueError.
unfoldable pub check_docker_health : DockerHealth → Result (Unit {0})
check_docker_health d =
    raise_if (ltb 1000 d.running_containers || ltb 1000 d.unhealthy_containers) value_error
    >> raise_if (ltb d.running_containers d.unhealthy_containers) value_error
    >> raise_if (is_healthy d.status && ltb 0 d.unhealthy_containers) value_error
    >> raise_if (is_degraded d.status && not (ltb 0 d.unhealthy_containers)) value_error
    >> raise_if
        (is_unavailable d.status && (ltb 0 d.running_containers || ltb 0 d.unhealthy_containers))
        value_error

abbrev pub docker_health : DockerStatus → ℕ → ℕ → Result DockerHealth
docker_health status running unhealthy =
    let d : DockerHealth = record {
      status = status;
      running_containers = running;
      unhealthy_containers = unhealthy;
    } in
    check_docker_health d >> ok d

-- The lines that say "(unhealthy)"; `lower` stands for `str.lower`.
abbrev pub count_unhealthy : (List ℕ → List ℕ) → List (List ℕ) → ℕ
count_unhealthy lower [] = 0
count_unhealthy lower (line ∷ lines) =
    let rest = count_unhealthy lower lines in
    if occurs (codes "(unhealthy)") (lower line) then suc rest else rest

-- What `subprocess.run` comes to: none for the exceptions that are caught, any other one raised, else
-- whether the return code is zero, and the lines of the output.
abbrev pub report_docker : (List ℕ → List ℕ) → Option (Bool × List (List ℕ)) → Result DockerHealth
report_docker lower none = docker_health unavailable 0 0
report_docker lower (some (false, lines)) = docker_health unavailable 0 0
report_docker lower (some (true, lines)) =
    let statuses = take 1000 lines in
    let unhealthy = count_unhealthy lower statuses in
    docker_health (if ltb 0 unhealthy then degraded else healthy) (length statuses) unhealthy

-- `probe_docker_health`
unfoldable pub probe_docker_health :
    (List ℕ → List ℕ) → Result (Option (Bool × List (List ℕ))) → Result DockerHealth
probe_docker_health lower run = run >>= report_docker lower
