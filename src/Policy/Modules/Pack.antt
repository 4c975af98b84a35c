-- ===== src/Policy/Modules/Pack.antt =====
-- `BehavioralChallengePackModule` and `_parse_challenges`.
pub mod Exact
pub mod Parsing
use ditto_screener.Prelude.{
  ℕ, suc, ◌*◌, ◌-◌, ◌^◌, String, Bool, true, false, not, ◌&&◌, ◌||◌, Option, none, some, List, [],
  ◌∷◌, ◌++◌, length, all, any, contains, len, leb, ltb, ◌==◌, text_equality, if◌then◌else◌,
}
use ditto_screener.Prelude.Int.{ℤ, pos, negsuc, pos_part, neg_part}
use ditto_screener.Prelude.Results.{
  Result, ok, raised, Exn, value_error, os_error, other_error, raise_if, ◌>>=◌, ◌>>◌,
}
use ditto_screener.Prelude.Actions
use ditto_screener.Prelude.Actions.{Action}
use ditto_screener.Json.{
  Json, null, bool, int, float, str, arr, obj, Items, nil, cons, Fields, end, field, Double, finite,
  infinite, nan, get, keys, signed, sorted_set,
}
use ditto_screener.Policy.Outcome.{clear, retryable_infra, quarantine, inconclusive}
use ditto_screener.Policy.Decision.{
  PolicyEvidence, ModuleResult, is_bounded, max_challenges, max_id,
}
use ditto_screener.Policy.Context.{ChallengeObservation, PolicyContext, Machine}
use ditto_screener.Policy.Modules.Evidence.{result_of, evidence_of}
use ditto_screener.Policy.Modules.SourceReview.{or_text}

pub record Challenge : Type 0 where
  pub challenge_id : String
  pub request : Fields
  pub timeout : Double
  pub required_keys : List String
  pub require_model_call : Bool
  pub require_gateway_token : Bool

-- `set(d) == expected`
abbrev pub has_exactly : Fields → List String → Bool
has_exactly d expected = all (contains expected) (keys d) && all (contains (keys d)) expected

-- `low <= x <= high`, for whole bounds above 0
abbrev pub is_between : ℕ → ℕ → Double → Bool
is_between low high (finite text n d) = leb (low * d) (pos_part n) && leb (pos_part n) (high * d)
is_between low high (infinite negative) = false
is_between low high nan = false

-- The least integer that `float` refuses with an `OverflowError`.
abbrev pub float_overflow : ℕ
float_overflow = 2 ^ 1024 - 2 ^ 970

-- `float(timeout)` of an `int` or a `float`, for a timeout that passed the type tests. A float of
-- an int is printed with a fraction of `.0` in the range that is accepted.
unfoldable pub to_float : ℤ → Result Double
to_float n =
    if leb float_overflow (pos_part n) || leb float_overflow (neg_part n)
    then raised other_error
    else ok (finite (signed n ++ (b'.' ∷ b'0' ∷ [])) n 1)

-- `isinstance(timeout, (int, float))` and not a bool, then `1 <= float(timeout) <= 60`
parse_timeout : Option Json → Result Double
unfolding to_float
parse_timeout (some (int n)) = do
  x ← to_float n
  raise_if (not (is_between 1 60 x)) value_error
  ok x
parse_timeout (some (float x)) = do raise_if (not (is_between 1 60 x)) value_error; ok x
parse_timeout other = raised value_error

parse_id : Option Json → Result String
parse_id (some (str s)) = if is_bounded s max_id then ok s else raised value_error
parse_id other = raised value_error

parse_request : Option Json → Result Fields
parse_request (some (obj d)) = ok d
parse_request other = raised value_error

-- A list of non-empty texts.
unfoldable pub texts_of : Items → Result (List String)
texts_of nil = ok []
texts_of (cons (str s) xs) = do raise_if (s == "") value_error; rest ← texts_of xs; ok (s ∷ rest)
texts_of (cons other xs) = raised value_error

parse_keys : Option Json → Result (List String)
unfolding texts_of
parse_keys (some (arr xs)) = texts_of xs
parse_keys other = raised value_error

-- `item.get(key, False)`, refused if it is not a bool
parse_flag : Option Json → Result Bool
parse_flag none = ok false
parse_flag (some (bool b)) = ok b
parse_flag (some other) = raised value_error

abbrev required_fields : List String
required_fields = "id" ∷ "request" ∷ "timeout_seconds" ∷ "required_response_keys" ∷ []

abbrev allowed_fields : List String
allowed_fields = required_fields ++ ("require_model_call" ∷ "require_gateway_token" ∷ [])

abbrev challenge_of : String → Fields → Double → List String → Bool → Bool → Challenge
challenge_of challenge_id request timeout required model_call gateway_token = record {
  challenge_id = challenge_id;
  request = request;
  timeout = timeout;
  required_keys = sorted_set required;
  require_model_call = model_call;
  require_gateway_token = gateway_token;
}

abbrev has_unexpected : Fields → Bool
has_unexpected item =
    not (all (contains (keys item)) required_fields)
    || not (all (contains allowed_fields) (keys item))

-- One round of the loop of `_parse_challenges`. The tests are those of its one condition, in order.
unfoldable pub parse_challenge : Json → Result Challenge
unfolding parse_id parse_request parse_timeout parse_keys parse_flag sorted_set
parse_challenge (obj item) = do
  raise_if (has_unexpected item) value_error
  challenge_id ← parse_id (get "id" item)
  request ← parse_request (get "request" item)
  timeout ← parse_timeout (get "timeout_seconds" item)
  required ← parse_keys (get "required_response_keys" item)
  model_call ← parse_flag (get "require_model_call" item)
  gateway_token ← parse_flag (get "require_gateway_token" item)
  raise_if (gateway_token && not model_call) value_error
  ok (challenge_of challenge_id request timeout required model_call gateway_token)
parse_challenge other = raised value_error

parse_items : Items → Result (List Challenge)
unfolding parse_challenge
parse_items nil = ok []
parse_items (cons item items) = do c ← parse_challenge item; cs ← parse_items items; ok (c ∷ cs)

count_items : Items → ℕ
count_items nil = 0
count_items (cons item items) = suc (count_items items)

parse_list : Option Json → Result (List Challenge)
unfolding parse_items count_items
parse_list (some (arr items)) = do
  raise_if (not (leb 1 (count_items items) && leb (count_items items) max_challenges)) value_error
  parse_items items
parse_list other = raised value_error

-- `_parse_challenges`
unfoldable pub parse_challenges : Json → Result (List Challenge)
unfolding parse_list
parse_challenges (obj pack) =
    if has_exactly pack ("challenges" ∷ [])
    then parse_list (get "challenges" pack)
    else raised value_error
parse_challenges other = raised value_error

-- What a round of the pack's loop leads to: it returns a result, or goes on with more evidence.
pub data Round : Type 0 where
  stop : ModuleResult → Round
  go_on : List PolicyEvidence → Round

-- A round's result, or the rounds that are left.
abbrev pub follow :
    {W : Type 0} → (List PolicyEvidence → Action W ModuleResult) → Round → Action W ModuleResult
follow rest (stop result) = Actions.pure result
follow rest (go_on more) = rest more

abbrev stopped : Result ModuleResult → Result Round
stopped r = r >>= λ result. ok (stop result)

-- `set(required_keys).difference(observation.json_keys)`, as a test
abbrev pub misses_keys : List String → List String → Bool
misses_keys required json_keys = not (all (contains json_keys) required)

module _ (module_id : String) where
  -- What the module makes of one observed challenge.
  unfoldable pub judge_challenge :
      Challenge → List PolicyEvidence → ChallengeObservation → Result Round
  judge_challenge c evidence o =
      if not o.is_ok
      then stopped (
          result_of inconclusive evidence module_id (or_text o.error_code "challenge-inconclusive")
            "private behavioral challenge was inconclusive" none)
      else if c.require_model_call && ltb o.gateway_calls 1
      then stopped (
          result_of quarantine evidence module_id "challenge-model-call-missing"
            "private challenge returned without an observed model call" o.response_digest)
      else if c.require_gateway_token && not o.gateway_token_observed
      then stopped (
          result_of quarantine evidence module_id "challenge-gateway-token-missing"
            "private challenge response was not bound to the ephemeral model output"
            o.response_digest)
      else if misses_keys c.required_keys o.json_keys
      then stopped (
          result_of quarantine evidence module_id "challenge-shape-anomaly"
            "private challenge response shape requires operator review" o.response_digest)
      else (do
        e ←
            evidence_of module_id "challenge-observed"
              "private challenge completed; this is not proof of causal model use" o.response_digest
        ok (go_on (evidence ++ (e ∷ []))))

  module _ {W : Type 0} (context : PolicyContext W) where
    unfoldable pub challenge_loop : List Challenge → List PolicyEvidence → Action W ModuleResult
    unfolding judge_challenge
    challenge_loop [] evidence =
        Actions.pure
          (record { disposition = clear; evidence = evidence; finding = none; review_audit = none })
    challenge_loop (c ∷ cs) evidence =
        Actions.◌>>=◌ (context.run_challenge c.challenge_id c.request c.timeout) λ o.
          Actions.◌>>=◌ (Actions.lift (judge_challenge c evidence o)) (follow (challenge_loop cs))

abbrev pub max_manifest_bytes : ℕ
max_manifest_bytes = 131072

-- The exceptions of `except (OSError, ValueError, json.JSONDecodeError)`.
abbrev pub is_unreadable : Exn → Bool
is_unreadable os_error = true
is_unreadable value_error = true
is_unreadable _ = false

module _ {W : Type 0} (machine : Machine W) (module_id pack_path : String)
    (context : PolicyContext W) where
  unavailable : Action W ModuleResult
  unavailable = Actions.lift (
      result_of retryable_infra [] module_id "challenge-pack-unavailable"
        "private behavioral challenge pack was unavailable" none)

  on_loaded : Result (List Challenge) × W → Result ModuleResult × W
  unfolding unavailable challenge_loop
  on_loaded (ok cs, w) = challenge_loop module_id context cs [] w
  on_loaded (raised e, w) = if is_unreadable e then unavailable w else (raised e, w)

  -- `BehavioralChallengePackModule.evaluate`
  unfoldable pub evaluate : Action W ModuleResult
  unfolding on_loaded parse_challenges
  evaluate w = on_loaded (
      Actions.◌>>=◌ (machine.read_json pack_path max_manifest_bytes)
        (λ pack. Actions.lift (parse_challenges pack)) w)
