-- ===== src/Heartbeat/Tests.antt =====
-- The theorems about ditto_screener/heartbeat.py at concrete inputs.
use ditto_screener.Prelude.{
  ℕ, ◌≤◌, ◌≡◌, refl, codes, Bool, true, Option, some, List, [], ◌∷◌, get_or,
}
use ditto_screener.Prelude.Int.{pos}
use ditto_screener.Prelude.Results.{Result, ok}
use ditto_screener.Heartbeat.{
  source_review_progress_stages, bounded_steps, source_review_progress_stage, probe_docker_health,
}
use ditto_screener.Heartbeat.Stages.{RoundsUp, source_review_progress_stage-RoundsUp}
use ditto_screener.Heartbeat.Docker.{Reported, probe_docker_health-Reported}

one_of_three : source_review_progress_stage (pos 1) (pos 3) ≡ ok "source_review_40"
unfolding source_review_progress_stage
one_of_three = refl

source_review_progress_stage-RoundsUp_example :
    (bucket : ℕ) × (bucket ≤ 10)
    × RoundsUp bucket (bounded_steps (pos 1) 3) 3
    × (source_review_progress_stage (pos 1) (pos 3)
        ≡ ok (get_or source_review_progress_stages bucket ""))
source_review_progress_stage-RoundsUp_example = source_review_progress_stage-RoundsUp (pos 1) 2

abbrev same_text : List ℕ → List ℕ
same_text text = text

abbrev two_lines : Result (Option (Bool × List (List ℕ)))
two_lines = ok (some (true, codes "Up 2 hours" ∷ codes "Up 3 hours (unhealthy)" ∷ []))

probe_docker_health-Reported_example :
    Reported same_text two_lines (probe_docker_health same_text two_lines)
probe_docker_health-Reported_example = probe_docker_health-Reported same_text two_lines
