-- ===== src/Policy/Context.antt =====
-- What a policy module is given (`PolicyContext`), what it is told (`ChallengeObservation`,
-- `SourceReviewObservation`) and what it reads of the machine. `W` is the state of the outside.
use ditto_screener.Prelude.{ℕ, String, Bool, Option, List}
use ditto_screener.Prelude.Actions.{Action}
use ditto_screener.Json.{Json, Double, Fields}

pub record ChallengeObservation : Type 0 where
  pub challenge_id : String
  pub is_ok : Bool
  pub response_digest : Option String
  pub elapsed_ms : ℕ
  pub json_keys : List String
  pub error_code : Option String
  pub gateway_calls : ℕ
  pub gateway_token_observed : Bool
  pub oracle_answer_correct : Bool

pub record SourceReviewObservation : Type 0 where
  pub is_ok : Bool
  pub risk_level : Option String
  pub finding_digest : Option String
  pub categories : List String
  pub error_code : Option String
  pub finding : Option Fields
  pub failure_disposition : String
  pub clearance_certified : Bool
  pub review_audit : Option Fields

pub record PolicyContext (W : Type 0) : Type 0 where
  pub agent_id : String
  pub agent_bytes : List ℕ
  pub attempt_id : String
  pub miner_hotkey : String
  pub artifact_sha256 : String
  pub source_digest : String
  pub source_paths : List String
  pub build_elapsed_ms : ℕ
  pub health_elapsed_ms : ℕ
  pub run_challenge : String → Fields → Double → Action W ChallengeObservation
  pub review_source : Option (Action W SourceReviewObservation)

-- `_read_json` (a file, read and parsed under a byte cap, or an exception), `os.environ.get` to
-- bytes, `hmac.digest` with SHA-256, and the randomness of `secrets`.
pub record Machine (W : Type 0) : Type 0 where
  pub read_json : String → ℕ → Action W Json
  pub getenv : String → Action W (List ℕ)
  pub hmac_sha256 : List ℕ → List ℕ → List ℕ
  pub token_hex : ℕ → Action W String
  pub randbelow : ℕ → Action W ℕ
