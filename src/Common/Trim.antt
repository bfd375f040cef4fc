-- ===== src/Common/Trim.antt =====
-- `strings.TrimSpace` and `strings.Split` of lines: what is trimmed stays as it is, and lines that are
-- joined are split again. A path is taken apart at its last slash.
use Prim.Native.Nat.{ℕ}
use mathlib.Core.Path.{◌≡◌, refl, sym, ap, subst, ◌∙◌}
use mathlib.Core.Logic.{inl, inr}
use mathlib.Core.Bool.{true, false}
use mathlib.Core.List.{List, [], ◌∷◌, ◌++◌, reverse, reverse-append, reverse-reverse, reverse-cons}
use native.Mathlib.Omega.{arith}
use masuda.Common.Tests.{◌==◌, Bool-cases}
use masuda.Common.Lists.{◌∈◌, mem-append, mem-append_right}
use masuda.Common.Strings.{Text, is_space, trim_left, trim_space, split, grow}

-- A text that does not begin with a space.
abbrev pub Led : Text → Type 0
Led [] = Unit
Led (c ∷ s) = is_space c ≡ false

-- A text that neither begins nor ends with a space.
abbrev pub IsTrimmed : Text → Type 0
IsTrimmed s = Led s × Led (reverse s)

trim_left-Led : (s : Text) → Led (trim_left s)
unfolding trim_left
trim_left-Led [] = tt
trim_left-Led (c ∷ s) = elim (Bool-cases (is_space c)) [
  | inl e ↦ rw e (trim_left-Led s)
  | inr e ↦ rw e e
]

trim_left-of : (s : Text) → Led s → trim_left s ≡ s
unfolding trim_left
trim_left-of [] h = refl
trim_left-of (c ∷ s) h = rw h refl

trim_left-snoc :
    (s : Text) (c : ℕ) → is_space c ≡ false → (x : Text) × (trim_left (s ++ c ∷ []) ≡ x ++ c ∷ [])
unfolding trim_left
trim_left-snoc [] c h = ([], rw h refl)
trim_left-snoc (d ∷ s) c h = elim (Bool-cases (is_space d)) [
  | inl e ↦ rw e (trim_left-snoc s c h)
  | inr e ↦ (d ∷ s, rw e refl)
]

Led-reverse_snoc : (x : Text) (c : ℕ) → is_space c ≡ false → Led (reverse (x ++ c ∷ []))
Led-reverse_snoc x c h = rw (reverse-append x (c ∷ [])) h

trim_left-IsTrimmed : (a : Text) → Led a → IsTrimmed (reverse (trim_left (reverse a)))
unfolding trim_left
trim_left-IsTrimmed [] h = (tt, tt)
trim_left-IsTrimmed (c ∷ a) h =
    let (x, e) = trim_left-snoc (reverse a) c h in
    let whole : trim_left (reverse (c ∷ a)) ≡ x ++ c ∷ [] = ap trim_left (reverse-cons c a) ∙ e in
    (
      subst (λ (b : Text). Led (reverse b)) (sym whole) (Led-reverse_snoc x c h),
      subst Led (sym (reverse-reverse (trim_left (reverse (c ∷ a)))))
          (trim_left-Led (reverse (c ∷ a))),
    )

pub trim_space-IsTrimmed : (s : Text) → IsTrimmed (trim_space s)
unfolding trim_space
trim_space-IsTrimmed s = trim_left-IsTrimmed (trim_left s) (trim_left-Led s)

-- Trimming a trimmed text changes nothing.
pub trim_space-of : (s : Text) → IsTrimmed s → trim_space s ≡ s
unfolding trim_space
trim_space-of s h =
    ap (λ (a : Text). reverse (trim_left (reverse a))) (trim_left-of s h.0)
    ∙ ap reverse (trim_left-of (reverse s) h.1)
    ∙ reverse-reverse s

mem-trim_left : (a : ℕ) (s : Text) → a ∈ trim_left s → a ∈ s
unfolding trim_left
mem-trim_left a [] m = m
mem-trim_left a (c ∷ s) m = elim (Bool-cases (is_space c)) [
  | inl e ↦ inr (mem-trim_left a s (rw e at m))
  | inr e ↦ rw e at m
]

mem-reverse : (a : ℕ) (s : Text) → a ∈ reverse s → a ∈ s
mem-reverse a [] m = m
mem-reverse a (c ∷ s) m =
    elim (mem-append a (reverse s) (c ∷ []) (subst (λ (t : Text). a ∈ t) (reverse-cons c s) m)) [
      | inl k ↦ inr (mem-reverse a s k)
      | inr k ↦ elim k [ inl e ↦ inl e | inr b ↦ absurd b ]
    ]

pub mem-trim_space : (a : ℕ) (s : Text) → a ∈ trim_space s → a ∈ s
unfolding trim_space
mem-trim_space a s m =
    mem-trim_left a s
      (mem-reverse a _ (mem-trim_left a _ (mem-reverse a (trim_left (reverse (trim_left s))) m)))

-- Every part has no separator.
Parted : ℕ → List Text → Type 0
Parted sep ps = (p : Text) → p ∈ ps → ¬ (sep ∈ p)

grow-Parted :
    (sep c : ℕ) (ps : List Text) → (c == sep) ≡ false → Parted sep ps → Parted sep (grow c ps)
unfolding grow Parted
grow-Parted sep c [] h k p m n = elim m [
  | inl e ↦ elim (subst (λ (t : Text). sep ∈ t) e n) [
    | inl f ↦ ground (arith, f, h)
    | inr b ↦ absurd b
  ]
  | inr b ↦ absurd b
]
grow-Parted sep c (q ∷ ps) h k p m n = elim m [
  | inl e ↦ elim (subst (λ (t : Text). sep ∈ t) e n) [
    | inl f ↦ ground (arith, f, h)
    | inr b ↦ k q (inl refl) b
  ]
  | inr b ↦ k p (inr b) n
]

split-Parted : (sep : ℕ) (s : Text) → Parted sep (split sep s)
unfolding split Parted
split-Parted sep [] p m n = elim m [ inl e ↦ subst (λ (t : Text). sep ∈ t) e n | inr b ↦ absurd b ]
split-Parted sep (c ∷ s) p m n = elim (Bool-cases (c == sep)) [
  | inl e ↦ elim (rw e at m) [
    | inl k ↦ subst (λ (t : Text). sep ∈ t) k n
    | inr k ↦ split-Parted sep s p k n
  ]
  | inr e ↦ grow-Parted sep c (split sep s) e (split-Parted sep s) p (rw e at m) n
]

pub mem-split : (sep : ℕ) (s p : Text) → p ∈ split sep s → ¬ (sep ∈ p)
unfolding Parted
mem-split sep s p m = split-Parted sep s p m

-- A part without the separator, and what follows it.
pub split-append : (sep : ℕ) (p s : Text) → ¬ (sep ∈ p) → split sep (p ++ sep ∷ s) ≡ p ∷ split sep s
unfolding split grow
split-append sep [] s h = let e : (sep == sep) ≡ true = ground arith in rw e refl
split-append sep (c ∷ p) s h =
    let e : (c == sep) ≡ false = differs c λ k. h (inl (sym k)) in
    let rest = split-append sep p s (λ m. h (inr m)) in rw (e, rest) refl
  where
    differs : (d : ℕ) → ¬ (d ≡ sep) → (d == sep) ≡ false
    differs d k = ground arith

-- Two paths are the same only if what stands before the last slash is, and the names behind it.
pub last_slash :
    (a b n m : Text)
    → ¬ (b'/' ∈ n)
    → ¬ (b'/' ∈ m)
    → a ++ b'/' ∷ n ≡ b ++ b'/' ∷ m
    → (a ≡ b) × (n ≡ m)
last_slash [] [] n m hn hm e = (refl, cc)
last_slash [] (y ∷ b) n m hn hm e =
    let rest : n ≡ b ++ b'/' ∷ m = cc in
    absurd (hn (rw rest (mem-append_right b'/' b (b'/' ∷ m) (inl refl))))
last_slash (x ∷ a) [] n m hn hm e =
    let rest : a ++ b'/' ∷ n ≡ m = cc in
    absurd (hm (rw (← rest) (mem-append_right b'/' a (b'/' ∷ n) (inl refl))))
last_slash (x ∷ a) (y ∷ b) n m hn hm e =
    let (front, last) = last_slash a b n m hn hm cc in let k : x ≡ y = cc in (cc, last)
