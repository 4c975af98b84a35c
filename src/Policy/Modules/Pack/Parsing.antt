-- ===== src/Policy/Modules/Pack/Parsing.antt =====
-- What a challenge pack that parses is like.
use ditto_screener.Prelude.{
  suc, ◌≤◌, ◌≡◌, refl, ap, String, true, not, ◌&&◌, Option, some, List, [], ◌∷◌, arith, length, leb,
  All, all, text_equality, Bool-cases, inl, inr,
}
use ditto_screener.Prelude.Results.{ok, >>=-eq-ok, guarded-eq-ok, value_error}
use ditto_screener.Json.{Json, int, float, arr, obj, Items, nil, cons, Double, get}
use ditto_screener.Policy.Decision.{is_bounded, max_challenges, max_id}
use ditto_screener.Policy.Modules.Pack.{
  Challenge, is_between, parse_challenges, parse_challenge, parse_items, count_items, parse_list,
  parse_id, parse_timeout, parse_request, parse_keys, parse_flag, has_unexpected, has_exactly,
  to_float, challenge_of,
}

-- The bounds of one challenge.
pub record IsValidChallenge (c : Challenge) : Type 0 where
  pub id_bounded : is_bounded c.challenge_id max_id ≡ true
  pub timeout_bounded : is_between 1 60 c.timeout ≡ true
  pub token_needs_call : c.require_gateway_token ≡ true → c.require_model_call ≡ true

parse_id-bounded : (j : Option Json) {s : String} → parse_id j ≡ ok s → is_bounded s max_id ≡ true
unfolding parse_id
parse_id-bounded j h = ground arith

parse_timeout-between :
    (j : Option Json) {x : Double} → parse_timeout j ≡ ok x → is_between 1 60 x ≡ true
unfolding parse_timeout
parse_timeout-between (some (int n)) {x} h =
    let (y, e, k) = >>=-eq-ok (to_float n) _ h in
    let (g, same) = guarded-eq-ok (not (is_between 1 60 y)) value_error (ok y) k in
    let q : x ≡ y = cc same in rw q (ground arith)
parse_timeout-between (some (float y)) {x} h =
    let (g, same) = guarded-eq-ok (not (is_between 1 60 y)) value_error (ok y) h in
    let q : x ≡ y = cc same in rw q (ground arith)
parse_timeout-between j h = cc

parse_challenge-IsValid : (j : Json) {c : Challenge} → parse_challenge j ≡ ok c → IsValidChallenge c
unfolding parse_challenge
parse_challenge-IsValid (obj item) {c} h =
    let (g, k) = guarded-eq-ok (has_unexpected item) value_error _ h in
    let (i, ei, ki) = >>=-eq-ok (parse_id (get "id" item)) _ k in
    let (request, er, kr) = >>=-eq-ok (parse_request (get "request" item)) _ ki in
    let (t, et, kt) = >>=-eq-ok (parse_timeout (get "timeout_seconds" item)) _ kr in
    let (required, ek, kk) = >>=-eq-ok (parse_keys (get "required_response_keys" item)) _ kt in
    let (m, em, km) = >>=-eq-ok (parse_flag (get "require_model_call" item)) _ kk in
    let (gt, eg, kg) = >>=-eq-ok (parse_flag (get "require_gateway_token" item)) _ km in
    let (v, kv) = guarded-eq-ok (gt && not m) value_error _ kg in
    let same : c ≡ challenge_of i request t required m gt = cc kv in
    rw same (record {
      id_bounded = parse_id-bounded (get "id" item) ei;
      timeout_bounded = parse_timeout-between (get "timeout_seconds" item) et;
      token_needs_call = ground arith;
    })
parse_challenge-IsValid j h = cc

parse_items-All :
    (items : Items) {cs : List Challenge}
    → parse_items items ≡ ok cs
    → All IsValidChallenge cs × (length cs ≡ count_items items)
unfolding parse_items count_items
parse_items-All nil {cs} h = let e : cs ≡ [] = cc h in rw e (tt, refl)
parse_items-All (cons item items) {cs} h =
    let (c, ec, k) = >>=-eq-ok (parse_challenge item) _ h in
    let (rest, er, kr) = >>=-eq-ok (parse_items items) _ k in
    let e : cs ≡ c ∷ rest = cc kr in
    let ih = parse_items-All items er in rw e ((parse_challenge-IsValid item ec, ih.0), ap suc ih.1)

parse_list-bounded :
    (j : Option Json) {cs : List Challenge}
    → parse_list j ≡ ok cs
    → (1 ≤ length cs) × (length cs ≤ max_challenges) × All IsValidChallenge cs
unfolding parse_list
parse_list-bounded (some (arr items)) h =
    let (g, k) =
      guarded-eq-ok (not (leb 1 (count_items items) && leb (count_items items) max_challenges))
        value_error _ h in
    let (all, same) = parse_items-All items k in (ground (arith, same), ground (arith, same), all)
parse_list-bounded j h = cc

-- A pack that parses has between 1 and 8 challenges, each with an identifier of 1 to 64 characters,
-- a timeout of 1 to 60 seconds, and no demand for the model's token without one for a model call.
pub parse_challenges-IsValid :
    (pack : Json) {cs : List Challenge}
    → parse_challenges pack ≡ ok cs
    → (1 ≤ length cs) × (length cs ≤ max_challenges) × All IsValidChallenge cs
unfolding parse_challenges
parse_challenges-IsValid (obj pack) h = elim (Bool-cases (has_exactly pack ("challenges" ∷ []))) [
  | inl q ↦ parse_list-bounded (get "challenges" pack) (rw q at h)
  | inr q ↦ cc (rw q at h)
]
parse_challenges-IsValid j h = cc
