-- ===== src/Prelude/Results.antt =====
-- Exceptions as values, and actions that pass a state on and may raise.
use mathlib.Core.Path.{◌≡◌, refl}
use mathlib.Core.Bool.{Bool, true, false}

-- The exception classes that the modelled code raises or tells apart.
pub data Exn : Type 0 where
  value_error os_error platform_error http_error timeout_error runtime_error assertion_error
        type_error :
      Exn
  other_error : Exn

-- What a call comes to: an exception, or a value.
pub data Result {ℓ} (V : Type ℓ) : Type ℓ where
  raised : Exn → Result V
  ok : V → Result V

infixl 5 ◌>>=◌ ◌>>◌
abbrev pub ◌>>=◌ {ℓ κ} : {V : Type ℓ} {U : Type κ} → Result V → (V → Result U) → Result U
raised exn >>= next = raised exn
ok value >>= next = next value

-- A statement without a value, then the rest.
abbrev pub ◌>>◌ {κ} : {U : Type κ} → Result (Unit {0}) → Result U → Result U
statement >> rest = statement >>= (λ done. rest)

-- `if condition: raise error`
abbrev pub raise_if : Bool → Exn → Result (Unit {0})
raise_if true e = raised e
raise_if false e = ok tt

-- A chain that returned went through its first call.
pub >>=-eq-ok {ℓ κ} :
    {V : Type ℓ} {U : Type κ} (call : Result V) (next : V → Result U) {final : U}
    → (call >>= next) ≡ ok final
    → (value : V) × (call ≡ ok value) × (next value ≡ ok final)
>>=-eq-ok (raised exn) next returned = cc
>>=-eq-ok (ok value) next returned = (value, refl, returned)

pub guarded-eq-ok {ℓ} :
    {B : Type ℓ} (c : Bool) (e : Exn) (m : Result B) {b : B}
    → (raise_if c e >> m) ≡ ok b
    → (c ≡ false) × (m ≡ ok b)
guarded-eq-ok true e m h = cc
guarded-eq-ok false e m h = (refl, h)

-- There is a value, and what holds of it, or an exception of those that are allowed.
abbrev pub OkOr {ℓ} : {V : Type ℓ} → (Exn → Type 0) → (V → Type 0) → Result V → Type 0
OkOr allowed P (raised exn) = allowed exn
OkOr allowed P (ok value) = P value

-- There is a value, and what holds of it.
abbrev pub Returns {ℓ} : {V : Type ℓ} → (V → Type 0) → Result V → Type 0
Returns P (raised exn) = ⊥
Returns P (ok value) = P value

pub >>=-OkOr {ℓ κ} :
    {V : Type ℓ} {U : Type κ} (allowed : Exn → Type 0) (P : V → Type 0) (Q : U → Type 0)
    (call : Result V) (next : V → Result U)
    → OkOr allowed P call
    → ((value : V) → P value → OkOr allowed Q (next value))
    → OkOr allowed Q (call >>= next)
>>=-OkOr allowed P Q (raised exn) next h then_next = h
>>=-OkOr allowed P Q (ok value) next h then_next = then_next value h

pub >>=-Returns {ℓ κ} :
    {V : Type ℓ} {U : Type κ} (P : V → Type 0) (Q : U → Type 0) (call : Result V)
    (next : V → Result U)
    → Returns P call
    → ((value : V) → P value → Returns Q (next value))
    → Returns Q (call >>= next)
>>=-Returns P Q (raised exn) next h then_next = absurd h
>>=-Returns P Q (ok value) next h then_next = then_next value h

pub Returns-OkOr {ℓ} :
    {V : Type ℓ} (allowed : Exn → Type 0) (P : V → Type 0) (call : Result V)
    → Returns P call
    → OkOr allowed P call
Returns-OkOr allowed P (raised exn) h = absurd h
Returns-OkOr allowed P (ok value) h = h

pub OkOr-allow {ℓ} :
    {V : Type ℓ} (few more : Exn → Type 0) (P : V → Type 0) (call : Result V)
    → ((exn : Exn) → few exn → more exn)
    → OkOr few P call
    → OkOr more P call
OkOr-allow few more P (raised exn) wider h = wider exn h
OkOr-allow few more P (ok value) wider h = h
