-- ===== src/Policy/Modules/Selectors.antt =====
-- The selectors `RandomAuditModule`, `SourceFingerprintTriageModule` and `TimingRelayRiskModule`.
use ditto_screener.Prelude.{
  ℕ, ◌+◌, ◌*◌, ◌%◌, String, Bool, true, false, not, ◌&&◌, ◌||◌, Option, none, some, List, [], ◌∷◌,
  length, any, contains, codes, drop, take, leb, ltb, nat_eqb, ◌==◌, nat_equality, text_equality,
  if◌then◌else◌, ◌-◌,
}
use ditto_screener.Prelude.Int.{ℤ, pos, negsuc, pos_part, neg_part}
use ditto_screener.Prelude.Results.{Result, ok, raised, other_error, ◌>>=◌}
use ditto_screener.Prelude.Actions
use ditto_screener.Prelude.Actions.{Action}
use ditto_screener.Json.{
  Json, int, float, str, arr, obj, Items, nil, cons, Fields, end, Double, finite, infinite, get,
  dumps,
}
use ditto_screener.Policy.Hash.{Hashlib}
use ditto_screener.Policy.Outcome.{tripwire, retryable_infra}
use ditto_screener.Policy.Decision.{ModuleResult}
use ditto_screener.Policy.Context.{PolicyContext, Machine}
use ditto_screener.Policy.Modules.Evidence.{result_of, cleared}
use ditto_screener.Policy.Modules.Pack.{is_unreadable, float_overflow}

-- `int.from_bytes(bytes, "big")`
abbrev pub from_bytes : ℕ → List ℕ → ℕ
from_bytes acc [] = acc
from_bytes acc (b ∷ bs) = from_bytes (acc * 256 + b) bs

module _ {W : Type 0} (machine : Machine W) (module_id : String) where
  -- The draw of one agent under one seed, in basis points.
  unfoldable pub draw : List ℕ → PolicyContext W → ℕ
  draw seed context = from_bytes 0 (take 8 (machine.hmac_sha256 seed context.agent_bytes)) % 10000

  audit_seeded : ℕ → List ℕ → PolicyContext W → Result ModuleResult
  unfolding draw
  audit_seeded rate seed context =
      if ltb (length seed) 16
      then result_of retryable_infra [] module_id "audit-seed-unavailable"
          "private random-audit seed was unavailable" none
      else if leb rate (draw seed context)
      then ok (cleared none)
      else result_of tripwire [] module_id "random-control-selected"
          "submission was selected for the private random control sample" none

  -- `RandomAuditModule.evaluate`
  unfoldable pub random_audit : ℕ → String → PolicyContext W → Action W ModuleResult
  unfolding audit_seeded
  random_audit rate seed_env context =
      Actions.◌>>=◌ (machine.getenv seed_env)
        (λ seed. Actions.lift (audit_seeded rate seed context))

-- `path.endswith(suffix)`, by code points
abbrev pub list_eqb : List ℕ → List ℕ → Bool
list_eqb [] [] = true
list_eqb [] (y ∷ ys) = false
list_eqb (x ∷ xs) [] = false
list_eqb (x ∷ xs) (y ∷ ys) = nat_eqb x y && list_eqb xs ys

abbrev pub ends_with : String → String → Bool
ends_with path suffix =
    leb (length (codes suffix)) (length (codes path))
    && list_eqb (drop (length (codes path) - length (codes suffix)) (codes path)) (codes suffix)

abbrev pub matches_suffix : List String → String → Bool
matches_suffix suffixes path = any (λ suffix. not (suffix == "") && ends_with path suffix) suffixes

module _ (module_id : String) where
  -- `SourceFingerprintTriageModule.evaluate`
  unfoldable pub fingerprint :
      {W : Type 0} → List String → List String → PolicyContext W → Result ModuleResult
  fingerprint known suffixes context =
      if not
        (contains known context.source_digest || any (matches_suffix suffixes) context.source_paths)
      then ok (cleared none)
      else result_of tripwire [] module_id "source-fingerprint-tripwire"
          "private source or layout fingerprint selected a deeper audit"
          (some context.source_digest)

-- `a >= b` on floats
abbrev pub double_ge : Double → Double → Bool
double_ge (finite _ m d) (finite _ n e) =
    leb (pos_part n * d + neg_part m * e) (pos_part m * e + neg_part n * d)
double_ge (finite _ m d) (infinite negative) = negative
double_ge (infinite negative) (finite _ n e) = not negative
double_ge (infinite a) (infinite b) = not a || b
double_ge _ _ = false

pub record RiskLimits : Type 0 where
  pub min_composite : Double
  pub max_median_ms : ℕ

-- `isinstance(composite, (int, float)) and not bool`, then `float(composite) >= min_composite`. A
-- composite is only compared if the median passed its type tests.
abbrev pub composite_ge : Json → Double → Result Bool
composite_ge (int n) low =
    if leb float_overflow (pos_part n) || leb float_overflow (neg_part n)
    then raised other_error
    else ok (double_ge (finite [] n 1) low)
composite_ge (float x) low = ok (double_ge x low)
composite_ge other low = ok false

abbrev pub is_fast : ℤ → ℕ → Bool
is_fast (pos m) high = leb m high
is_fast (negsuc m) high = true

-- `fast_high`
unfoldable pub fast_high : RiskLimits → Option Json → Option Json → Result Bool
fast_high limits (some composite) (some (int median)) =
    composite_ge composite limits.min_composite >>= λ high.
    ok (high && is_fast median limits.max_median_ms)
fast_high limits _ _ = ok false

abbrev pub any_flag : Items → Bool
any_flag nil = false
any_flag (cons (str flag) flags) = not (flag == "") || any_flag flags
any_flag (cons other flags) = any_flag flags

-- `relayed`
abbrev pub relayed : Option Json → Bool
relayed (some (arr flags)) = any_flag flags
relayed _ = false

module _ (H : Hashlib) (module_id : String) (limits : RiskLimits) where
  -- What the module makes of the record of one agent.
  unfoldable pub judge_record : Json → Result ModuleResult
  unfolding fast_high
  judge_record (obj entry) =
      fast_high limits (get "composite" entry) (get "median_ms" entry) >>= λ fast.
      if not (fast || relayed (get "relay_flags" entry))
      then ok (cleared none)
      else result_of tripwire [] module_id "timing-relay-tripwire"
          "aggregate timing, score, or relay risk selected a private audit"
          (some (H.hexdigest (dumps (obj entry))))
  judge_record other = ok (cleared none)

  -- `feed.get(agent_id, feed.get(miner_hotkey, {}))`
  abbrev entry_of : Fields → String → String → Json
  entry_of feed agent_id hotkey = elim (get agent_id feed) [
    | some entry ↦ entry
    | none ↦ elim (get hotkey feed) [ some entry ↦ entry | none ↦ obj end ]
  ]

  judge_feed : {W : Type 0} → PolicyContext W → Json → Result ModuleResult
  unfolding judge_record
  judge_feed context (obj feed) = judge_record (entry_of feed context.agent_id context.miner_hotkey)
  judge_feed context other =
      result_of retryable_infra [] module_id "risk-feed-invalid"
        "private timing and relay feed was invalid" none

  judge_read : {W : Type 0} → PolicyContext W → Result Json × W → Result ModuleResult × W
  unfolding judge_feed
  judge_read context (ok feed, w) = (judge_feed context feed, w)
  judge_read context (raised e, w) = (
    if is_unreadable e
        then result_of retryable_infra [] module_id "risk-feed-unavailable"
            "private timing and relay feed was unavailable" none
        else raised e,
    w,
  )

  -- `TimingRelayRiskModule.evaluate`
  unfoldable pub timing_relay :
      {W : Type 0} → Machine W → String → PolicyContext W → Action W ModuleResult
  unfolding judge_read
  timing_relay machine feed_path context w =
      judge_read context (machine.read_json feed_path 262144 w)
