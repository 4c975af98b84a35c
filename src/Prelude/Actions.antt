-- ===== src/Prelude/Actions.antt =====
-- Actions: a state is passed on, also past an exception, and a value is returned or an exception
-- raised. A coroutine that talks to the outside is an action on the state of the outside.
use mathlib.Core.Path.{◌≡◌, refl, ap}
use ditto_screener.Prelude.Results.{Exn, Result, ok, raised}

abbrev pub Action : Type 0 → Type 0 → Type 0
Action W A = W → Result A × W

module _ {W A : Type 0} where
  abbrev pub pure : A → Action W A
  pure a w = (ok a, w)

  abbrev pub raise : Exn → Action W A
  raise e w = (raised e, w)

  -- code that neither reads nor changes the state
  abbrev pub lift : Result A → Action W A
  lift r w = (r, w)

-- What follows a call, on the call's result.
abbrev pub after : {W A B : Type 0} → Result A × W → (A → Action W B) → Result B × W
after (ok a, w) f = f a w
after (raised e, w) f = (raised e, w)

infixl 5 ◌>>=◌ ◌>>◌
abbrev pub ◌>>=◌ : {W A B : Type 0} → Action W A → (A → Action W B) → Action W B
◌>>=◌ m f w = after (m w) f

abbrev pub ◌>>◌ : {W B : Type 0} → Action W (Unit {0}) → Action W B → Action W B
m >> k = m >>= λ _. k

-- A result of a chain comes from one of its first call.
pub after-eq-ok :
    {W A B : Type 0} (p : Result A × W) (f : A → Action W B) {b : B} {w' : W}
    → after p f ≡ (ok b, w')
    → (a : A) × (w1 : W) × (p ≡ (ok a, w1)) × (f a w1 ≡ (ok b, w'))
after-eq-ok (ok a, w) f h = (a, w, refl, h)
after-eq-ok {W} {B} (raised e, w) f h = cc (ap (λ (p : Result B × W). p.0) h)

pub ok-eq-ok : {A : Type 0} {a b : A} → Path (Result A) (ok a) (ok b) → a ≡ b
ok-eq-ok h = cc h

-- What is known of a value that was returned at once.
pub pure-eq-ok :
    {W A : Type 0} (a : A) (w : W) {b : A} {w' : W} → pure a w ≡ (ok b, w') → (a ≡ b) × (w ≡ w')
pure-eq-ok {W} {A} a w h =
    (ok-eq-ok (ap (λ (p : Result A × W). p.0) h), ap (λ (p : Result A × W). p.1) h)

-- Two chains agree if what follows agrees on every value that their first call can return.
pub after-cong :
    {W A B : Type 0} (p : Result A × W) (f g : A → Action W B)
    → ((a : A) (w : W) → p ≡ (ok a, w) → f a w ≡ g a w)
    → after p f ≡ after p g
after-cong (ok a, w) f g h = h a w refl
after-cong (raised e, w) f g h = refl
