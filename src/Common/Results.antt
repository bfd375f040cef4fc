-- ===== src/Common/Results.antt =====
-- Steps that return a value or an error, and what is known where a chain of them succeeds.
use mathlib.Core.Path.{◌≡◌, refl, ap}
use mathlib.Core.Bool.{Bool, true, false, not}
use mathlib.Core.Option.{Option, none, some}
use native.Mathlib.Omega.{arith}

pub data Result (E A : Type 0) : Type 0 where
  err : E → Result E A
  ok : A → Result E A

infixl 5 ◌>>=◌ ◌>>◌
abbrev pub ◌>>=◌ : {E A B : Type 0} → Result E A → (A → Result E B) → Result E B
err e >>= next = err e
ok a >>= next = next a

abbrev pub ◌>>◌ : {E B : Type 0} → Result E (Unit {0}) → Result E B → Result E B
m >> next = m >>= (λ _. next)

-- An early return: the error where the test holds.
abbrev pub refuse_if : {E : Type 0} → Bool → E → Result E (Unit {0})
refuse_if false e = ok tt
refuse_if true e = err e

abbrev pub or_err : {E A : Type 0} → E → Option A → Result E A
or_err e none = err e
or_err e (some a) = ok a

pub >>=-ok :
    {E A B : Type 0} (m : Result E A) (next : A → Result E B) {b : B}
    → (m >>= next) ≡ ok b
    → (a : A) × (m ≡ ok a) × (next a ≡ ok b)
>>=-ok (err e) next h = cc
>>=-ok (ok a) next h = (a, refl, h)

pub refuse_if-ok : {E : Type 0} (t : Bool) (e : E) {u : Unit {0}} → refuse_if t e ≡ ok u → t ≡ false
refuse_if-ok false e h = refl
refuse_if-ok true e h = cc

pub or_err-ok : {E A : Type 0} (e : E) (o : Option A) {a : A} → or_err e o ≡ ok a → o ≡ some a
or_err-ok e none h = cc
or_err-ok e (some a) h = cc

pub not-false : (b : Bool) → not b ≡ false → b ≡ true
not-false b h = ground arith

pub ok_pair :
    {E A B : Type 0} {a c : A} {b d : B}
    → ◌≡◌ {A = Result E (A × B)} (ok (a, b)) (ok (c, d))
    → (a ≡ c) × (b ≡ d)
ok_pair {a} {b} h =
    (ap (λ r. elim r [ err e ↦ a | ok p ↦ p.0 ]) h, ap (λ r. elim r [ err e ↦ b | ok p ↦ p.1 ]) h)

pub ok_inj : {E A : Type 0} {a b : A} → ◌≡◌ {A = Result E A} (ok a) (ok b) → a ≡ b
ok_inj {a} h = ap (λ r. elim r [ err e ↦ a | ok x ↦ x ]) h
