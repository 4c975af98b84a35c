-- ===== src/Policy/Load.antt =====
-- The rest of `load_policy_engine`: a private manifest file.
pub mod Names
use ditto_screener.Prelude.{
  ℕ, zero, suc, ◌*◌, ◌-◌, String, Bool, false, not, Option, none, some, List, [], ◌∷◌, length, len,
  ltb, ◌==◌, nat_equality, text_equality, if◌then◌else◌,
}
use Prim.Native.String.{◌++◌ as ◌<>◌}
use ditto_screener.Prelude.Int.{pos}
use ditto_screener.Prelude.Results.{Result, ok, raised, value_error, raise_if, ◌>>=◌, ◌>>◌}
use ditto_screener.Prelude.Actions
use ditto_screener.Prelude.Actions.{Action}
use ditto_screener.Json.{Json, int, float, str, arr, obj, Items, nil, cons, Fields, finite, get}
use ditto_screener.Policy.Decision.{check_manifest, policy_version, max_id, max_modules}
use ditto_screener.Policy.Context.{Machine}
use ditto_screener.Policy.Modules.Pack.{has_exactly, max_manifest_bytes}
use ditto_screener.Policy.Build.{BuiltModule, Rotation, build_module, default_rotation}

-- `text[:n]`
unfoldable pub take_text : ℕ → String → String
take_text zero s = String.[]
take_text (suc n) String.[] = String.[]
take_text (suc n) (String.◌∷◌ c s) = String.◌∷◌ c (take_text n s)

-- `raw["policy_version"] == SCREENING_POLICY_VERSION`, which a float may meet too
is_version : Option Json → Bool
is_version (some (int (pos n))) = n == policy_version
is_version (some (float (finite text (pos n) d))) = n == policy_version * d
is_version other = false

-- The specs, each checked to be an object, and their modules.
build_all : Items → Result (List Fields × List BuiltModule)
unfolding build_module
build_all nil = ok ([], [])
build_all (cons (obj spec) items) = do
  b ← build_module spec
  (specs, bs) ← build_all items
  ok (spec ∷ specs, b ∷ bs)
build_all (cons other items) = raised value_error

abbrev pub enforce_suffix : String
enforce_suffix = "-sol-l2-v1"

-- What the two arguments of `load_policy_engine` make of a manifest's name.
unfoldable pub rotation_name : String → String → String
unfolding take_text
rotation_name l2_mode rotation_id =
    if l2_mode == "enforce"
    then take_text (max_id - len enforce_suffix) rotation_id <> enforce_suffix
    else rotation_id

build_rotation : String → Option Json → Option Json → Result Rotation
unfolding build_all rotation_name check_manifest
build_rotation l2_mode (some (str rotation_id)) (some (arr items)) = do
  (specs, built) ← build_all items
  manifest ← check_manifest (record {
    rotation_id = rotation_name l2_mode rotation_id;
    module_specs = specs;
    version = policy_version;
  })
  raise_if (not (length built == length specs)) value_error
  raise_if (ltb max_modules (length built)) value_error
  ok (record { manifest = manifest; built = built })
build_rotation l2_mode _ _ = raised value_error

unfoldable pub rotation_from : String → Json → Result Rotation
unfolding build_rotation is_version
rotation_from l2_mode (obj raw) = do
  raise_if (not (has_exactly raw ("policy_version" ∷ "rotation_id" ∷ "modules" ∷ []))) value_error
  raise_if (not (is_version (get "policy_version" raw))) value_error
  build_rotation l2_mode (get "rotation_id" raw) (get "modules" raw)
rotation_from l2_mode other = raised value_error

-- `load_policy_engine`
module _ {W : Type 0} (machine : Machine W) where
  unfoldable pub load_policy_engine : Option String → String → Action W Rotation
  unfolding rotation_from default_rotation
  load_policy_engine none l2_mode = Actions.lift (default_rotation l2_mode)
  load_policy_engine (some manifest_path) l2_mode =
      Actions.◌>>=◌ (machine.read_json manifest_path max_manifest_bytes)
        (λ raw. Actions.lift (rotation_from l2_mode raw))
