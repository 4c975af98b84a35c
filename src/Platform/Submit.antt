-- ===== src/Platform/Submit.antt =====
-- The retry loop of `PlatformClient.submit_result` in ditto_screener/platform.py, for a payload that
-- has been validated. A transport failure is the exception `httpx.HTTPError`.
pub mod Retries
use ditto_screener.Prelude.{
  ℕ, Bool, true, false, List, [], ◌∷◌, contains, ◌==◌, nat_equality, if◌then◌else◌,
}
use ditto_screener.Prelude.Results.{
  Result, ok, raised, Exn, http_error, platform_error, runtime_error,
}
use ditto_screener.Prelude.Actions
use ditto_screener.Prelude.Actions.{Action}
use ditto_screener.Json.{Json}
use ditto_screener.Platform.Http.{Response, Round, over, again, settle, is_transport}

-- `_VERDICT_RETRY_DELAYS_SECONDS`, in half seconds
abbrev pub verdict_retry_delays : List ℕ
verdict_retry_delays = 1 ∷ 2 ∷ 4 ∷ 8 ∷ 16 ∷ 32 ∷ 60 ∷ []

-- `_TRANSIENT_VERDICT_STATUSES`
abbrev pub transient_verdict_statuses : List ℕ
transient_verdict_statuses = 408 ∷ 425 ∷ 429 ∷ 500 ∷ 502 ∷ 503 ∷ 504 ∷ []

-- `parse` is the validation of the response's body.
module _ {A : Type 0} (parse : Json → Result A) where
  -- The round's `try`, for a round that is the last or not.
  unfoldable pub judge : Bool → Result Response → Round A
  judge last (raised e) =
      if is_transport e
      then (if last then over (raised platform_error) else again)
      else over (raised e)
  judge last (ok response) =
      if response.status_code == 200
      then over (parse response.body)
      else if contains transient_verdict_statuses response.status_code
      then (if last then over (raised platform_error) else again)
      else over (raised platform_error)

-- `post` sends the payload and `sleep` is `asyncio.sleep`. No delay is left in the last round.
module _ {W A : Type 0} (post : Action W Response) (sleep : ℕ → Action W (Unit {0}))
    (parse : Json → Result A) where
  unfoldable pub retry : List ℕ → Action W A
  unfolding judge
  retry [] w = let (r, w1) = post w in settle (judge parse true r) (Actions.raise runtime_error) w1
  retry (delay ∷ delays) w =
      let (r, w1) = post w in
      settle (judge parse false r) (Actions.◌>>◌ (sleep delay) (retry delays)) w1

  unfoldable pub submit : Action W A
  unfolding retry
  submit = retry verdict_retry_delays
