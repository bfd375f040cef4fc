-- ===== src/Common/Decimal.antt =====
-- Numbers in decimal: what `strconv.Itoa`, `%d` and `%04d` print, and what `strconv.Atoi` reads.
use Prim.Native.Nat.{ℕ, zero, suc, ◌+◌, ◌-◌, ◌*◌, ◌/◌, ◌%◌, ◌<◌, ◌≤◌}
use mathlib.Core.Path.{◌≡◌, refl, ap, ◌∙◌}
use mathlib.Core.Logic.{◌≢◌, inl, inr}
use mathlib.Core.Bool.{Bool, true, false, ◌&&◌}
use mathlib.Core.Option.{Option, none, some}
use mathlib.Core.List.{[], ◌∷◌, ◌++◌}
use native.Mathlib.Omega.{arith}
use masuda.Common.Tests.{ltb, leb, ◌==◌, Bool-cases, if◌then◌else◌}
use masuda.Common.Strings.{Text, codes}
use masuda.Common.Int.{ℤ, pos, negsuc}

-- The digits of a number, on fuel; `n + 1` rounds are enough for `n`.
decimal_on : ℕ → ℕ → Text
decimal_on zero n = []
decimal_on (suc f) n =
    let front = decimal_on f (n / 10) in
    if ltb n 10 then (b'0' + n) ∷ [] else front ++ (b'0' + n % 10) ∷ []

-- More fuel than the number changes nothing.
decimal_on-enough : (f g n : ℕ) → n < f → n < g → decimal_on f n ≡ decimal_on g n
unfolding decimal_on
decimal_on-enough zero g n h k = absurd (omega (arith, h))
decimal_on-enough (suc f) zero n h k = absurd (omega (arith, k))
decimal_on-enough (suc f) (suc g) n h k = elim (Bool-cases (ltb n 10)) [
  | inl e ↦ rw e refl
  | inr e ↦ rw e (
      ap (λ (front : Text). front ++ (b'0' + n % 10) ∷ [])
        (decimal_on-enough f g (n / 10) (ground (arith, e, h)) (ground (arith, e, k))))
]

unfoldable pub decimal : ℕ → Text
unfolding decimal_on
decimal n = decimal_on (n + 1) n

-- `strconv.Itoa`.
unfoldable pub itoa : ℤ → Text
itoa (pos n) = decimal n
itoa (negsuc n) = b'-' ∷ decimal (n + 1)

-- `%04d` on a number that is not negative.
unfoldable pub pad4 : ℕ → Text
pad4 n =
    if ltb n 10
    then codes "000" ++ decimal n
    else if ltb n 100
    then codes "00" ++ decimal n
    else if ltb n 1000
    then codes "0" ++ decimal n
    else decimal n

abbrev is_digit : ℕ → Bool
is_digit c = leb b'0' c && leb c b'9'

-- The loop of `strconv.ParseUint` for base 10, without the check of the range.
unfoldable pub digits_value : ℕ → Text → Option ℕ
digits_value acc [] = some acc
digits_value acc (c ∷ s) = if is_digit c then digits_value (acc * 10 + (c - b'0')) s else none

-- One digit at least.
unfoldable pub unsigned : Text → Option ℕ
unsigned [] = none
unsigned (c ∷ s) = digits_value 0 (c ∷ s)

abbrev pub max_int : ℕ
max_int = 9223372036854775807

at_most : ℕ → Option ℕ → Option ℕ
at_most bound none = none
at_most bound (some n) = if leb n bound then some n else none

positive : Option ℕ → Option ℤ
positive none = none
positive (some n) = some (pos n)

negative : Option ℕ → Option ℤ
negative none = none
negative (some zero) = some (pos 0)
negative (some (suc n)) = some (negsuc n)

-- `strconv.Atoi` with 64 bits: an optional sign, digits, and a number in range.
unfoldable pub atoi : Text → Option ℤ
unfolding at_most positive negative
atoi [] = none
atoi (c ∷ s) =
    if c == b'-'
    then negative (at_most (max_int + 1) (unsigned s))
    else if c == b'+'
    then positive (at_most max_int (unsigned s))
    else positive (at_most max_int (unsigned (c ∷ s)))

digits_value-digit :
    (acc d : ℕ) (s : Text)
    → d < 10
    → digits_value acc ((b'0' + d) ∷ s) ≡ digits_value (acc * 10 + d) s
unfolding digits_value
digits_value-digit acc d s h =
    let value : b'0' + d - b'0' ≡ d = omega arith in
    let test : (leb b'0' (b'0' + d) && leb (b'0' + d) b'9') ≡ true = ground arith in
    rw (test, value) refl

digits_value-one : (d : ℕ) → d < 10 → digits_value 0 ((b'0' + d) ∷ []) ≡ some d
unfolding digits_value
digits_value-one d h = digits_value-digit 0 d [] h ∙ ap some (omega arith)

digits_value-snoc :
    (s : Text) (acc v d : ℕ)
    → d < 10
    → digits_value acc s ≡ some v
    → digits_value acc (s ++ (b'0' + d) ∷ []) ≡ some (v * 10 + d)
unfolding digits_value
digits_value-snoc [] acc v d h e =
    let same : acc ≡ v = cc in digits_value-digit acc d [] h ∙ ap (λ a. some (a * 10 + d)) same
digits_value-snoc (c ∷ s) acc v d h e = elim (Bool-cases (is_digit c)) [
  | inl t ↦ rw t (digits_value-snoc s (acc * 10 + (c - b'0')) v d h (rw t at e))
  | inr t ↦ absurd (cc (rw t at e))
]

digits_value-decimal_on : (f n : ℕ) → n < f → digits_value 0 (decimal_on f n) ≡ some n
unfolding decimal_on
digits_value-decimal_on zero n h = absurd (omega (arith, h))
digits_value-decimal_on (suc f) n h = elim (Bool-cases (ltb n 10)) [
  | inl e ↦ rw e (digits_value-one n (ground (arith, e)))
  | inr e ↦
      let front = digits_value-decimal_on f (n / 10) (ground (arith, e, h)) in
      let split : n / 10 * 10 + n % 10 ≡ n = omega arith in
      rw e (
        digits_value-snoc (decimal_on f (n / 10)) 0 (n / 10) (n % 10) (omega arith) front
        ∙ ap some split)
]

-- What is printed is read back.
pub digits_value-decimal : (n : ℕ) → digits_value 0 (decimal n) ≡ some n
unfolding decimal
digits_value-decimal n = digits_value-decimal_on (n + 1) n (omega arith)

-- Leading zeros do not count.
pub digits_value-pad4 : (n : ℕ) → digits_value 0 (pad4 n) ≡ some n
unfolding pad4 digits_value
digits_value-pad4 n = ground (arith, digits_value-decimal n)

snoc≢nil : (s : Text) (c : ℕ) → s ++ c ∷ [] ≢ []
snoc≢nil [] c = cc
snoc≢nil (x ∷ s) c = cc

decimal_on≢nil : (f n : ℕ) → decimal_on (suc f) n ≢ []
unfolding decimal_on
decimal_on≢nil f n = elim (Bool-cases (ltb n 10)) [
  | inl e ↦ rw e cc
  | inr e ↦ rw e (snoc≢nil (decimal_on f (n / 10)) (b'0' + n % 10))
]

unsigned-of : (s : Text) (v : ℕ) → s ≢ [] → digits_value 0 s ≡ some v → unsigned s ≡ some v
unfolding unsigned
unsigned-of [] v h e = absurd (h refl)
unsigned-of (c ∷ s) v h e = e

decimal≢nil : (n : ℕ) → decimal n ≢ []
unfolding decimal
decimal≢nil n = let fuel : n + 1 ≡ suc n = omega arith in rw fuel (decimal_on≢nil n n)

pad4≢nil : (n : ℕ) → pad4 n ≢ []
unfolding pad4
pad4≢nil n = ground (arith, decimal≢nil n)

-- Both forms are numerals, and are read back.
pub unsigned-decimal : (n : ℕ) → unsigned (decimal n) ≡ some n
unsigned-decimal n = unsigned-of (decimal n) n (decimal≢nil n) (digits_value-decimal n)

pub unsigned-pad4 : (n : ℕ) → unsigned (pad4 n) ≡ some n
unsigned-pad4 n = unsigned-of (pad4 n) n (pad4≢nil n) (digits_value-pad4 n)

-- A numeral in range is what `atoi` reads.
pub atoi-unsigned : (s : Text) (v : ℕ) → unsigned s ≡ some v → v ≤ max_int → atoi s ≡ some (pos v)
unfolding atoi unsigned digits_value at_most positive negative
atoi-unsigned [] v e h = cc
atoi-unsigned (c ∷ s) v e h = elim (Bool-cases (is_digit c)) [
  | inl t ↦
      let minus : (c == b'-') ≡ false = ground (arith, t) in
      let plus : (c == b'+') ≡ false = ground (arith, t) in
      let range : leb v max_int ≡ true = ground (arith, h) in rw (minus, plus, e, range) refl
  | inr t ↦ absurd (cc (rw t at e))
]
