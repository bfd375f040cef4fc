-- ===== src/Config/Names.antt =====
-- internal/config/config.go: the regular expressions of the names, as recognisers.
use masuda.Common.{
  ℕ, ◌+◌, ◌-◌, ◌*◌, ◌≡◌, ◌∈◌, refl, inl, inr, arith, Bool-cases, ◌++◌, List, [], ◌∷◌, none, some,
  Bool, true, false, ◌&&◌, ◌||◌, ◌==◌, leb, Text, codes, split, cut_prefix,
}
use masuda.Common.Decimal.{digits_value, unsigned}

abbrev is_alpha : ℕ → Bool
is_alpha c = (leb b'A' c && leb c b'Z') || (leb b'a' c && leb c b'z')

abbrev is_alnum : ℕ → Bool
is_alnum c = is_alpha c || (leb b'0' c && leb c b'9')

unfoldable pub every : (ℕ → Bool) → Text → Bool
every p [] = true
every p (c ∷ s) = p c && every p s

-- A first character and the rest, each of its class.
unfoldable pub named : (ℕ → Bool) → (ℕ → Bool) → Text → Bool
unfolding every
named first rest [] = false
named first rest (c ∷ s) = first c && every rest s

-- `envNameRe`, `ValidName`.
unfoldable pub valid_name : Text → Bool
unfolding named
valid_name = named (λ c. is_alpha c || c == b'_') (λ c. is_alnum c || c == b'_')

abbrev name_char : ℕ → Bool
name_char c = is_alnum c || c == b'.' || c == b'_' || c == b'-'

-- `checkNameRe`, `ValidCheckName`.
unfoldable pub valid_check_name : Text → Bool
unfolding named
valid_check_name = named is_alnum name_char

-- `remoteNameRe`.
unfoldable pub valid_remote_name : Text → Bool
unfolding named
valid_remote_name =
    named (λ c. is_alnum c || c == b'_')
      (λ c. is_alnum c || c == b'.' || c == b'_' || c == b'/' || c == b'-')

ends_alnum : Text → Bool
ends_alnum [] = false
ends_alnum (c ∷ []) = is_alnum c
ends_alnum (c ∷ s) = ends_alnum s

-- One label of a host name: it begins and ends with a letter or digit.
label : Text → Bool
unfolding named ends_alnum
label s = named is_alnum (λ c. is_alnum c || c == b'-') s && ends_alnum s

labels : List Text → Bool
unfolding label
labels [] = true
labels (l ∷ ls) = label l && labels ls

-- `hostRe`: labels between dots, behind an optional `*.`.
unfoldable pub valid_host : Text → Bool
unfolding labels
valid_host h = elim (cut_prefix h (codes "*.")) [
  | none ↦ labels (split b'.' h)
  | some rest ↦ labels (split b'.' rest)
]

-- `occPattern` of internal/workspace and internal/runner.
unfoldable pub valid_occurrence : Text → Bool
unfolding named
valid_occurrence = named is_alnum (λ c. is_alnum c || c == b'.' || c == b'_' || c == b'-')

-- `dataNamePattern` of internal/runner.
unfoldable pub valid_data_name : Text → Bool
unfolding named
valid_data_name =
    named (λ c. leb b'a' c && leb c b'z')
      (λ c. (leb b'a' c && leb c b'z') || (leb b'0' c && leb c b'9') || c == b'-')

every-digits : (s : Text) (acc : ℕ) {v : ℕ} → digits_value acc s ≡ some v → every name_char s ≡ true
unfolding every digits_value
every-digits [] acc e = refl
every-digits (c ∷ s) acc e = elim (Bool-cases (leb b'0' c && leb c b'9')) [
  | inl t ↦ ground (arith, t, every-digits s (acc * 10 + (c - b'0')) (rw t at e))
  | inr t ↦ absurd (cc (rw t at e))
]

-- A numeral is a name of this form, also behind a name.
pub valid_check_name-unsigned : (s : Text) {v : ℕ} → unsigned s ≡ some v → valid_check_name s ≡ true
unfolding valid_check_name named unsigned digits_value
valid_check_name-unsigned [] e = cc
valid_check_name-unsigned (c ∷ s) e = elim (Bool-cases (leb b'0' c && leb c b'9')) [
  | inl t ↦ ground (arith, t, every-digits s (0 * 10 + (c - b'0')) (rw t at e))
  | inr t ↦ absurd (cc (rw t at e))
]

every-append :
    (a b : Text)
    → every name_char a ≡ true
    → every name_char b ≡ true
    → every name_char (a ++ b) ≡ true
unfolding every
every-append [] b h k = k
every-append (c ∷ a) b h k = ground (arith, every-append a b)

pub valid_check_name-append :
    (a b : Text)
    → valid_check_name a ≡ true
    → valid_check_name b ≡ true
    → valid_check_name (a ++ b) ≡ true
unfolding valid_check_name named every
valid_check_name-append [] b h k = k
valid_check_name-append (c ∷ a) [] h k = ground (arith, every-append a [])
valid_check_name-append (c ∷ a) (d ∷ b) h k = ground (arith, every-append a (d ∷ b))

every-mem : (p : ℕ → Bool) (s : Text) (c : ℕ) → every p s ≡ true → c ∈ s → p c ≡ true
unfolding every
every-mem p [] c h m = absurd m
every-mem p (d ∷ s) c h m = elim m [
  | inl e ↦ ground (arith, e)
  | inr k ↦ ground (arith, every-mem p s c, k)
]

-- The name of a secret has no slash.
pub valid_name-slash : (s : Text) → valid_name s ≡ true → ¬ (b'/' ∈ s)
unfolding valid_name named
valid_name-slash [] h m = m
valid_name-slash (c ∷ s) h m = elim m [
  | inl e ↦ ground (arith, e)
  | inr k ↦
      let rest = every-mem (λ d. is_alnum d || d == b'_') s b'/' (ground (arith, h)) k in cc rest
]

-- Nor have the names of data and of occurrences.
pub valid_data_name-slash : (s : Text) → valid_data_name s ≡ true → ¬ (b'/' ∈ s)
unfolding valid_data_name named
valid_data_name-slash [] h m = m
valid_data_name-slash (c ∷ s) h m = elim m [
  | inl e ↦ ground (arith, e)
  | inr k ↦
      let rest =
        every-mem (λ d. (leb b'a' d && leb d b'z') || (leb b'0' d && leb d b'9') || d == b'-') s
          b'/' (ground (arith, h)) k in
      cc rest
]
