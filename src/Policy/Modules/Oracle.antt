-- ===== src/Policy/Modules/Oracle.antt =====
-- `BehavioralOracleModule`: the always-on behavioral oracle.
pub mod Exact
use Prim.Native.Char.{code}
use Prim.Native.String.{◌++◌ as ◌<>◌}
use ditto_screener.Prelude.{
  ℕ, String, Bool, true, false, not, ◌&&◌, ◌||◌, Option, none, some, List, [], ◌∷◌, length, get_or,
  ltb, nat_eqb, ◌==◌, nat_equality, if◌then◌else◌,
}
use ditto_screener.Prelude.Results.{Result}
use ditto_screener.Prelude.Actions.{Action, lift, ◌>>=◌}
use ditto_screener.Json.{Json, Double, str, arr, obj, Items, nil, cons, Fields, end, field}
use ditto_screener.Policy.Outcome.{ModuleDisposition, clear, quarantine, inconclusive}
use ditto_screener.Policy.Decision.{ModuleResult}
use ditto_screener.Policy.Context.{ChallengeObservation, PolicyContext, Machine}
use ditto_screener.Policy.Modules.Evidence.{result_of}
use ditto_screener.Policy.Modules.SourceReview.{or_text}

pub record Oracle : Type 0 where
  pub module_id : String
  pub challenge_id : String
  pub timeout_seconds : Double
  pub min_gateway_calls : ℕ
  pub min_elapsed_ms : ℕ

module _ (oracle : Oracle) where
  -- What the module makes of the observed exchange.
  unfoldable pub judge_exchange : ChallengeObservation → Result ModuleResult
  judge_exchange o =
      if not o.is_ok
      then result_of inconclusive [] oracle.module_id
          (or_text o.error_code "behavioral-oracle-inconclusive")
          "always-on behavioral oracle did not produce a usable result" o.response_digest
      else if ltb o.gateway_calls oracle.min_gateway_calls
          || (o.gateway_calls == 1 && not o.gateway_token_observed)
      then result_of inconclusive [] oracle.module_id "behavioral-oracle-insufficient-round-trips"
          "behavioral oracle had too few round-trips for a decision" o.response_digest
      else if not o.gateway_token_observed
      then result_of quarantine [] oracle.module_id "behavioral-oracle-wrong-answer"
          "behavioral oracle final answer did not carry the gateway-encoded token" o.response_digest
      else if ltb o.elapsed_ms oracle.min_elapsed_ms
      then result_of quarantine [] oracle.module_id "behavioral-oracle-implausibly-fast"
          "behavioral oracle round-trip returned faster than any genuine model call"
          o.response_digest
      else result_of clear [] oracle.module_id "behavioral-oracle-passed"
          "behavioral oracle round-trip returned the gateway-encoded value" o.response_digest

abbrev pub oracle_system_prompt : String
oracle_system_prompt =
    "You are Ditto, a helpful assistant with access to tools. Call a tool only when it is the right action for the user's request."

abbrev pub oracle_tool_names : List String
oracle_tool_names =
    "create_image" ∷ "edit_image" ∷ "read_links" ∷ "search_web" ∷ "search_memories"
    ∷ "search_subjects" ∷ "fetch_memories" ∷ "search_memories_in_subjects" ∷ "artifacts"
    ∷ "execute_agent_job" ∷ "execute_agent_workflow" ∷ "get_agent_job_status" ∷ "list_agent_jobs"
    ∷ "file_feedback_for_team" ∷ "set_theme" ∷ "set_main_model" ∷ "set_reasoning_effort"
    ∷ "set_chat_tool_preferences" ∷ "create_automation" ∷ "list_automations" ∷ "create_recipe"
    ∷ "apply_recipe" ∷ "discover_capabilities" ∷ "save_memory" ∷ "update_memory" ∷ "delete_memory"
    ∷ "calendar_create_event" ∷ "calendar_search_events" ∷ "gmail_send" ∷ "set_accent_color"
    ∷ "set_chat_font" ∷ []

-- `name.replace('_', ' ')`
unfoldable pub spaced : String → String
spaced String.[] = String.[]
spaced (String.◌∷◌ c s) = String.◌∷◌ (if nat_eqb (code c) b'_' then " " else c) (spaced s)

oracle_tool : String → Json
unfolding spaced
oracle_tool name = obj (
    field "name" (str name) (
      field "description" (str ("The " <> spaced name <> " tool.")) (
        field "parameters"
          (obj (
            field "type" (str "object") (
              field "properties"
                (obj (
                  field "input"
                    (obj
                      (field "type" (str "string") (field "description" (str "Tool input.") end)))
                    end))
                end)))
          end)))

oracle_tools_of : List String → Items
unfolding oracle_tool
oracle_tools_of [] = nil
oracle_tools_of (name ∷ names) = cons (oracle_tool name) (oracle_tools_of names)

-- `_oracle_tools`
unfoldable pub oracle_tools : Json
unfolding oracle_tools_of
oracle_tools = arr (oracle_tools_of oracle_tool_names)

-- What stands before and after `{subject}` in each of `_ORACLE_USER_INPUTS`.
abbrev pub oracle_user_inputs : List (String × String)
oracle_user_inputs =
    ("Look up what I previously noted about item ", " and summarize it in one sentence.")
    ∷ ("Check my saved notes for anything about ", " and tell me what they say.")
    ∷ ("Find my note on ", " and give me the key detail from it.")
    ∷ ("See what I recorded about ", " and report back concisely.")
    ∷ []

-- The request of one exchange, from the three draws.
unfoldable pub oracle_request : String → String → ℕ → Fields
unfolding oracle_tools
oracle_request subject case_hex index =
    let (before, behind) = get_or oracle_user_inputs index ("", "") in
    field "case_id" (str ("c" <> case_hex)) (
      field "system_prompt" (str oracle_system_prompt)
        (field "user_input" (str (before <> subject <> behind)) (field "tools" oracle_tools end)))

module _ {W : Type 0} (machine : Machine W) (oracle : Oracle) where
  unfoldable pub evaluate : PolicyContext W → Action W ModuleResult
  unfolding judge_exchange
  evaluate context = do
    subject ← machine.token_hex 4
    case_hex ← machine.token_hex 8
    index ← machine.randbelow (length oracle_user_inputs)
    observation ←
        context.run_challenge oracle.challenge_id (oracle_request subject case_hex index)
          oracle.timeout_seconds
    lift (judge_exchange oracle observation)
