-- ===== src/Policy/Load/Names.antt =====
-- The name of a rotation that `load_policy_engine` gives to its manifest.
use Prim.Native.String.{◌++◌ as ◌<>◌}
use Prim.Native.String.append
use ditto_screener.Prelude.{
  ap, ℕ, zero, suc, ◌+◌, ◌≤◌, ◌≡◌, String, true, arith, len, text_equality,
}
use ditto_screener.Policy.Decision.{is_bounded, max_id}
use ditto_screener.Policy.Load.{take_text, rotation_name, enforce_suffix}

len-append : (s t : String) → len (s <> t) ≡ len s + len t
len-append String.[] t = let e = ap len (append.nil t) in omega (arith, e)
len-append (String.◌∷◌ c s) t =
    let e = ap len (append.cons c s t) in omega (arith, e, len-append s t)

len-take_text : (n : ℕ) (s : String) → len (take_text n s) ≤ n
unfolding take_text
len-take_text zero s = omega arith
len-take_text (suc n) String.[] = omega arith
len-take_text (suc n) (String.◌∷◌ c s) = omega (arith, len-take_text n s)

-- The enforcing mode keeps a manifest's name within its bounds, however long or short it was.
pub rotation_name-is_bounded :
    (rotation_id : String) → is_bounded (rotation_name "enforce" rotation_id) max_id ≡ true
unfolding rotation_name
rotation_name-is_bounded rotation_id =
    let a = len-append (take_text 54 rotation_id) enforce_suffix in
    let b = len-take_text 54 rotation_id in ground (arith, a, b)
