-- ===== src/Common/Strings.antt =====
-- Go strings as lists of code points, and the functions of `strings` and `slices` that the code
-- calls on them.
use mathlib.Core.Logic.{◌≢◌}
use Prim.Native.Nat.{ℕ}
use Prim.Native.Char.{code}
use Prim.Native.String.{String}
use mathlib.Core.Path.{◌≡◌, refl, sym, ap, ◌∙◌}
use mathlib.Core.Logic.{◌↔◌, inl, inr}
use mathlib.Core.Bool.{Bool, true, false, ◌&&◌, ◌||◌}
use mathlib.Core.Option.{Option, none, some}
use mathlib.Core.List.{List, [], ◌∷◌, ◌++◌, reverse, reverse-append, reverse-reverse}
use native.Mathlib.Omega.{arith}
use masuda.Common.Tests.{ltb, leb, ◌==◌, Option-cases, if◌then◌else◌}
use masuda.Common.Lists.{◌∈◌}

-- A string by its code points; for ASCII these are its bytes.
abbrev pub Text : Type 0
Text = List ℕ

abbrev pub codes : String → Text
codes String.[] = []
codes (String.◌∷◌ c s) = code c ∷ codes s

-- `a == b` on strings.
unfoldable pub same : Text → Text → Bool
same [] [] = true
same (x ∷ xs) (y ∷ ys) = x == y && same xs ys
same _ _ = false

same→eq : (a b : Text) → same a b ≡ true → a ≡ b
unfolding same
same→eq [] [] h = refl
same→eq (x ∷ xs) (y ∷ ys) h = ground (arith, same→eq xs ys)
same→eq [] (y ∷ ys) h = cc
same→eq (x ∷ xs) [] h = cc

pub same_refl : (a : Text) → same a a ≡ true
unfolding same
same_refl [] = refl
same_refl (x ∷ xs) = ground (arith, same_refl xs)

pub same_iff : (a b : Text) → (same a b ≡ true) ↔ (a ≡ b)
same_iff a b = (same→eq a b, λ e. rw e (same_refl b))

pub not_same : (a b : Text) → same a b ≡ false → a ≢ b
not_same a b h e = ground (arith, same_iff a b)

pub differs : (a b : Text) → a ≢ b → same a b ≡ false
differs a b h = ground (arith, same_iff a b)

-- `slices.Contains`.
unfoldable pub contains : List Text → Text → Bool
contains [] a = false
contains (x ∷ xs) a = same x a || contains xs a

contains→mem : (xs : List Text) (a : Text) → contains xs a ≡ true → a ∈ xs
unfolding contains
contains→mem [] a h = cc
contains→mem (x ∷ xs) a h = ground (arith, same_iff x a, contains→mem xs a)

mem→contains : (xs : List Text) (a : Text) → a ∈ xs → contains xs a ≡ true
unfolding contains
mem→contains [] a m = absurd m
mem→contains (x ∷ xs) a m = ground (arith, same_iff x a, mem→contains xs a)

pub contains_iff : (xs : List Text) (a : Text) → (contains xs a ≡ true) ↔ (a ∈ xs)
contains_iff xs a = (contains→mem xs a, mem→contains xs a)

-- `unicode.IsSpace`.
abbrev pub is_space : ℕ → Bool
is_space c =
    (leb 9 c && leb c 13)
    || c == 0x20
    || c == 0x85
    || c == 0xa0
    || c == 0x1680
    || (leb 0x2000 c && leb c 0x200a)
    || c == 0x2028
    || c == 0x2029
    || c == 0x202f
    || c == 0x205f
    || c == 0x3000

unfoldable pub trim_left : Text → Text
trim_left [] = []
trim_left (c ∷ s) = if is_space c then trim_left s else c ∷ s

-- `strings.TrimSpace`.
unfoldable pub trim_space : Text → Text
unfolding trim_left
trim_space s = reverse (trim_left (reverse (trim_left s)))

unfoldable pub grow : ℕ → List Text → List Text
grow x [] = (x ∷ []) ∷ []
grow x (p ∷ ps) = (x ∷ p) ∷ ps

-- The part of `s` before the first `sep`, and what follows each further one: `strings.Split`.
unfoldable pub split : ℕ → Text → List Text
unfolding grow
split sep [] = [] ∷ []
split sep (c ∷ s) = if c == sep then [] ∷ split sep s else grow c (split sep s)

-- `strings.CutPrefix`: the rest behind the prefix, if it is there.
unfoldable pub cut_prefix : Text → Text → Option Text
cut_prefix s [] = some s
cut_prefix [] (p ∷ ps) = none
cut_prefix (c ∷ s) (p ∷ ps) = if c == p then cut_prefix s ps else none

unfoldable pub has_prefix : Text → Text → Bool
unfolding cut_prefix
has_prefix s p = elim (cut_prefix s p) [ some r ↦ true | none ↦ false ]

unfoldable pub has_suffix : Text → Text → Bool
unfolding has_prefix
has_suffix s p = has_prefix (reverse s) (reverse p)

pub cut_prefix_sound : (s p r : Text) → cut_prefix s p ≡ some r → s ≡ p ++ r
unfolding cut_prefix
cut_prefix_sound s [] r h = cc
cut_prefix_sound [] (p ∷ ps) r h = cc
cut_prefix_sound (c ∷ s) (p ∷ ps) r h = ground (arith, cut_prefix_sound s ps r)

pub cut_prefix-append : (p r : Text) → cut_prefix (p ++ r) p ≡ some r
unfolding cut_prefix
cut_prefix-append [] r = refl
cut_prefix-append (c ∷ p) r = ground (arith, cut_prefix-append p r)

-- A Go map by its entries; only the first entry of a key counts.
unfoldable pub lookup : {V : Type 0} → Text → List (Text × V) → Option V
lookup key [] = none
lookup key ((other, value) ∷ rest) = if same other key then some value else lookup key rest

-- `m[k] = v`.
unfoldable pub insert : {V : Type 0} → Text → V → List (Text × V) → List (Text × V)
insert key value [] = (key, value) ∷ []
insert key value ((other, old) ∷ rest) =
    if same other key then (key, value) ∷ rest else (other, old) ∷ insert key value rest

pub lookup-insert :
    {V : Type 0} (k j : Text) (v : V) (m : List (Text × V))
    → lookup j (insert k v m) ≡ (if same k j then some v else lookup j m)
unfolding lookup insert
lookup-insert k j v [] = refl
lookup-insert k j v ((i, w) ∷ m) =
    ground (arith, same_iff k j, same_iff i k, same_iff i j, lookup-insert k j v m)

pub has_prefix_sound : (s p : Text) → has_prefix s p ≡ true → (r : Text) × (s ≡ p ++ r)
unfolding has_prefix
has_prefix_sound s p h = elim (Option-cases (cut_prefix s p)) [
  | inl e ↦ cc (rw (e, has_prefix) at h)
  | inr (r, e) ↦ (r, cut_prefix_sound s p r e)
]

pub has_prefix-append : (p r : Text) → has_prefix (p ++ r) p ≡ true
unfolding has_prefix
has_prefix-append p r = rw (cut_prefix-append p r, has_prefix)

pub has_suffix_sound : (s p : Text) → has_suffix s p ≡ true → (r : Text) × (s ≡ r ++ p)
unfolding has_suffix
has_suffix_sound s p h =
    let (r, e) = has_prefix_sound (reverse s) (reverse p) h in (reverse r, turned r e)
  where
    turned : (r : Text) → reverse s ≡ reverse p ++ r → s ≡ reverse r ++ p
    turned r e =
        sym (reverse-reverse s)
        ∙ ap reverse e
        ∙ reverse-append (reverse p) r
        ∙ ap (λ t. reverse r ++ t) (reverse-reverse p)

pub has_suffix-append : (r p : Text) → has_suffix (r ++ p) p ≡ true
unfolding has_suffix
has_suffix-append r p = rw reverse-append (has_prefix-append (reverse p) (reverse r))

-- `a < b` on strings.
unfoldable pub text_lt : Text → Text → Bool
text_lt [] [] = false
text_lt [] (y ∷ ys) = true
text_lt (x ∷ xs) [] = false
text_lt (x ∷ xs) (y ∷ ys) = ltb x y || (x == y && text_lt xs ys)
