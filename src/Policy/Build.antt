-- ===== src/Policy/Build.antt =====
-- `_build_module` and `load_policy_engine` of ditto_screener/policy.py: from a private manifest, or
-- the default one, to an engine. `_normalize_spec` sorts the keys of a spec that JSON has parsed,
-- which no reader of the spec can tell, so it is not written out.
use ditto_screener.Prelude.{
  ℕ, String, Bool, true, false, not, some, List, [], ◌∷◌, all, leb, ltb, ◌==◌, nat_equality,
  text_equality, if◌then◌else◌,
}
use ditto_screener.Prelude.Int.{pos}
use ditto_screener.Prelude.Results.{Result, ok, raised, value_error, raise_if, ◌>>=◌, ◌>>◌}
use ditto_screener.Prelude.Actions
use ditto_screener.Json.{int, float, str, arr, Fields, end, field, Double, finite, get}
use ditto_screener.Policy.Hash.{Hashlib, is_sha256}
use ditto_screener.Policy.Decision.{
  PolicyManifest, check_manifest, is_bounded, policy_version, max_id,
}
use ditto_screener.Policy.Engine.{PolicyModule, selector, challenge}
use ditto_screener.Policy.Context.{PolicyContext, Machine}
use ditto_screener.Policy.Modules.Pack.{has_exactly, to_float, texts_of, max_manifest_bytes}
use ditto_screener.Policy.Modules.Pack
use ditto_screener.Policy.Modules.SourceReview
use ditto_screener.Policy.Modules.Oracle
use ditto_screener.Policy.Modules.Oracle.{Oracle}
use ditto_screener.Policy.Modules.Selectors.{RiskLimits, timing_relay, random_audit, fingerprint}

-- The module classes, with the values of their fields.
pub data BuiltModule : Type 0 where
  timing_relay_risk : String → String → RiskLimits → BuiltModule
  random : String → ℕ → String → BuiltModule
  source_fingerprint : String → List String → List String → BuiltModule
  agentic_source_review : String → BuiltModule
  behavioral_challenge_pack : String → String → BuiltModule
  behavioral_oracle : Oracle → BuiltModule

-- `_string`
string_field : Fields → String → Result String
string_field spec key = elim (get key spec) [
  | some (str text) ↦ if text == "" then raised value_error else ok text
  | _ ↦ raised value_error
]

-- `_integer`, for a field that its class wants to be at least 0
natural_field : Fields → String → Result ℕ
natural_field spec key = elim (get key spec) [ some (int (pos n)) ↦ ok n | _ ↦ raised value_error ]

-- `_number`
number_field : Fields → String → Result Double
number_field spec key = elim (get key spec) [
  | some (int n) ↦ to_float n
  | some (float x) ↦ ok x
  | _ ↦ raised value_error
]

-- `_string_list`
strings_field : Fields → String → Result (List String)
strings_field spec key = elim (get key spec) [
  | some (arr items) ↦ texts_of items
  | _ ↦ raised value_error
]

-- `0 <= x <= 1`
is_unit : Double → Bool
is_unit (finite text (pos n) d) = leb n d
is_unit other = false

-- `_BaseModule.__post_init__`
unfoldable pub checked_id : String → Result String
checked_id module_id = do raise_if (not (is_bounded module_id max_id)) value_error; ok module_id

-- `_expect_keys`
expect_keys : Fields → List String → Result (Unit {0})
expect_keys spec expected = raise_if (not (has_exactly spec expected)) value_error

-- The fields of `BehavioralOracleModule` that have defaults.
abbrev pub default_oracle : String → Oracle
default_oracle module_id = record {
  module_id = module_id;
  challenge_id = "v8-behavioral-oracle";
  timeout_seconds = finite (b'2' ∷ b'0' ∷ b'.' ∷ b'0' ∷ []) (pos 20) 1;
  min_gateway_calls = 1;
  min_elapsed_ms = 250;
}

build_timing : Fields → String → Result BuiltModule
unfolding string_field natural_field number_field is_unit checked_id expect_keys to_float
build_timing spec module_id = do
  expect_keys spec ("kind" ∷ "id" ∷ "feed_path" ∷ "min_composite" ∷ "max_median_ms" ∷ [])
  feed_path ← string_field spec "feed_path"
  low ← number_field spec "min_composite"
  high ← natural_field spec "max_median_ms"
  i ← checked_id module_id
  raise_if (not (is_unit low)) value_error
  ok (timing_relay_risk i feed_path (record { min_composite = low; max_median_ms = high }))

build_random : Fields → String → Result BuiltModule
unfolding string_field natural_field checked_id expect_keys
build_random spec module_id = do
  expect_keys spec ("kind" ∷ "id" ∷ "rate_basis_points" ∷ "seed_env" ∷ [])
  rate ← natural_field spec "rate_basis_points"
  seed_env ← string_field spec "seed_env"
  i ← checked_id module_id
  raise_if (ltb 10000 rate) value_error
  ok (random i rate seed_env)

build_fingerprint : Fields → String → Result BuiltModule
unfolding strings_field checked_id expect_keys
build_fingerprint spec module_id = do
  expect_keys spec ("kind" ∷ "id" ∷ "known_source_digests" ∷ "suspicious_path_suffixes" ∷ [])
  known ← strings_field spec "known_source_digests"
  suffixes ← strings_field spec "suspicious_path_suffixes"
  i ← checked_id module_id
  raise_if (not (all is_sha256 known)) value_error
  ok (source_fingerprint i known suffixes)

build_pack : Fields → String → Result BuiltModule
unfolding string_field checked_id expect_keys
build_pack spec module_id = do
  expect_keys spec ("kind" ∷ "id" ∷ "pack_path" ∷ [])
  pack_path ← string_field spec "pack_path"
  i ← checked_id module_id
  ok (behavioral_challenge_pack i pack_path)

build_kind : Fields → String → String → Result BuiltModule
unfolding build_timing build_random build_fingerprint build_pack checked_id expect_keys
build_kind spec kind module_id =
    if kind == "timing_relay_risk"
    then build_timing spec module_id
    else if kind == "random_audit"
    then build_random spec module_id
    else if kind == "source_fingerprint"
    then build_fingerprint spec module_id
    else if kind == "agentic_source_review"
    then (do
      expect_keys spec ("kind" ∷ "id" ∷ [])
      i ← checked_id module_id
      ok (agentic_source_review i))
    else if kind == "behavioral_challenge_pack"
    then build_pack spec module_id
    else if kind == "behavioral_oracle"
    then (do
      expect_keys spec ("kind" ∷ "id" ∷ [])
      i ← checked_id module_id
      ok (behavioral_oracle (default_oracle i)))
    else raised value_error

-- `_build_module`
unfoldable pub build_module : Fields → Result BuiltModule
unfolding build_kind
build_module spec = elim (get "kind" spec) [
  | some (str kind) ↦ elim (get "id" spec) [
    | some (str module_id) ↦ build_kind spec kind module_id
    | _ ↦ raised value_error
  ]
  | _ ↦ raised value_error
]

-- What a built module does in one submission's context. Only a challenge pack may release a
-- selection.
module _ (H : Hashlib) {W : Type 0} (machine : Machine W) (context : PolicyContext W) where
  unfoldable pub module_of : BuiltModule → PolicyModule W
  module_of (timing_relay_risk i feed_path limits) = record {
    module_id = i;
    phase = selector;
    clears_selection = false;
    evaluate = timing_relay H i limits machine feed_path context;
  }
  module_of (random i rate seed_env) = record {
    module_id = i;
    phase = selector;
    clears_selection = false;
    evaluate = random_audit machine i rate seed_env context;
  }
  module_of (source_fingerprint i known suffixes) = record {
    module_id = i;
    phase = selector;
    clears_selection = false;
    evaluate = Actions.lift (fingerprint i known suffixes context);
  }
  module_of (agentic_source_review i) = record {
    module_id = i;
    phase = selector;
    clears_selection = false;
    evaluate = SourceReview.evaluate i context;
  }
  module_of (behavioral_challenge_pack i pack_path) = record {
    module_id = i;
    phase = challenge;
    clears_selection = true;
    evaluate = Pack.evaluate machine i pack_path context;
  }
  module_of (behavioral_oracle oracle) = record {
    module_id = oracle.module_id;
    phase = challenge;
    clears_selection = false;
    evaluate = Oracle.evaluate machine oracle context;
  }

  unfoldable pub modules_from : List BuiltModule → List (PolicyModule W)
  unfolding module_of
  modules_from [] = []
  modules_from (b ∷ bs) = module_of b ∷ modules_from bs

-- A manifest and the modules that it describes.
pub record Rotation : Type 0 where
  pub manifest : PolicyManifest
  pub built : List BuiltModule

unfoldable pub spec_of : String → String → Fields
spec_of kind module_id = field "kind" (str kind) (field "id" (str module_id) end)

unfoldable pub default_rotation_of : String → String → Result Rotation
unfolding spec_of check_manifest checked_id
default_rotation_of rotation_id review_id = do
  manifest ← check_manifest (record {
    rotation_id = rotation_id;
    module_specs =
        spec_of "agentic_source_review" review_id
        ∷ spec_of "behavioral_oracle" "v8-behavioral-oracle"
        ∷ [];
    version = policy_version;
  })
  review ← checked_id review_id
  oracle ← checked_id "v8-behavioral-oracle"
  ok (record {
    manifest = manifest;
    built = agentic_source_review review ∷ behavioral_oracle (default_oracle oracle) ∷ [];
  })

-- `load_policy_engine(None, l2_mode=...)`
unfoldable pub default_rotation : String → Result Rotation
unfolding default_rotation_of
default_rotation l2_mode =
    if l2_mode == "enforce"
    then default_rotation_of "v8-luna-sol-l2-source-review-behavioral-oracle"
        "luna-sol-source-review"
    else default_rotation_of "v8-luna-source-review-behavioral-oracle" "luna-source-review"
