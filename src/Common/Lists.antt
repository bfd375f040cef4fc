-- ===== src/Common/Lists.antt =====
-- Lists over the native numbers, with membership and "every" by recursion.
use Prim.Native.Nat.{ℕ, zero, suc, ◌+◌, ◌-◌, ◌≤◌}
use mathlib.Core.Path.{◌≡◌, refl, ap, sym, subst, ◌∙◌}
use mathlib.Core.Logic.{◌⊎◌, inl, inr}
use mathlib.Core.Bool.{Bool, true}
use mathlib.Core.List.{List, [], ◌∷◌, ◌++◌}
use native.Mathlib.Omega.{arith}
use masuda.Common.Tests.{if◌then◌else◌, Bool-cases, if_either}

infix 50 ◌∈◌
abbrev pub ◌∈◌ : {A : Type 0} → A → List A → Type 0
a ∈ [] = ⊥
a ∈ (x ∷ xs) = (a ≡ x) ⊎ (a ∈ xs)

abbrev pub All : {A : Type 0} → (A → Type 0) → List A → Type 0
All P [] = Unit
All P (x ∷ xs) = P x × All P xs

pub All-at : {A : Type 0} (P : A → Type 0) (xs : List A) {a : A} → All P xs → a ∈ xs → P a
All-at P [] h m = absurd m
All-at P (x ∷ xs) h (inl e) = subst P (sym e) h.0
All-at P (x ∷ xs) h (inr m) = All-at P xs h.1 m

pub All-map :
    {A : Type 0} {P Q : A → Type 0} (f : (a : A) → P a → Q a) (xs : List A) → All P xs → All Q xs
All-map f [] h = tt
All-map f (x ∷ xs) h = (f x h.0, All-map f xs h.1)

module _ {ℓ} {A : Type ℓ} where
  abbrev pub length : List A → ℕ
  length [] = 0
  length (x ∷ xs) = suc (length xs)

  abbrev pub drop : ℕ → List A → List A
  drop zero xs = xs
  drop (suc n) [] = []
  drop (suc n) (x ∷ xs) = drop n xs

  -- `xs[len(xs)-n:]`: the last n elements, or all of them.
  abbrev pub take_last : ℕ → List A → List A
  take_last n xs = drop (length xs - n) xs

  -- The elements that a test keeps, in order.
  abbrev pub keep : (A → Bool) → List A → List A
  keep p [] = []
  keep p (x ∷ xs) = if p x then x ∷ keep p xs else keep p xs

  pub length-append : (xs ys : List A) → length (xs ++ ys) ≡ length xs + length ys
  length-append [] ys = omega arith
  length-append (x ∷ xs) ys = omega (arith, length-append xs ys)

  pub length-drop : (n : ℕ) (xs : List A) → length (drop n xs) ≡ length xs - n
  length-drop zero xs = omega arith
  length-drop (suc n) [] = omega arith
  length-drop (suc n) (x ∷ xs) = omega (arith, length-drop n xs)

  pub drop-append : (n : ℕ) (xs ys : List A) → n ≤ length xs → drop n (xs ++ ys) ≡ drop n xs ++ ys
  drop-append zero xs ys h = refl
  drop-append (suc n) [] ys h = absurd (omega arith)
  drop-append (suc n) (x ∷ xs) ys h = drop-append n xs ys (omega arith)

  pub drop-nil : (n : ℕ) → [] ≡ drop n []
  drop-nil zero = refl
  drop-nil (suc n) = refl

  pub drop-drop : (m n : ℕ) (xs : List A) → drop m (drop n xs) ≡ drop (n + m) xs
  drop-drop m zero xs = ap (λ k. drop k xs) (omega arith)
  drop-drop zero (suc n) [] = drop-nil (suc n + 0)
  drop-drop (suc m) (suc n) [] = drop-nil (suc n + suc m)
  drop-drop m (suc n) (x ∷ xs) = drop-drop m n xs ∙ shift
    where
      shift : drop (n + m) xs ≡ drop (suc n + m) (x ∷ xs)
      shift = let e : suc (n + m) ≡ suc n + m = omega arith in ap (λ k. drop k (x ∷ xs)) e

-- No element stands twice.
abbrev pub Distinct : {A : Type 0} → List A → Type 0
Distinct [] = Unit
Distinct (x ∷ xs) = (¬ (x ∈ xs)) × Distinct xs

module _ {A : Type 0} where
  pub mem_last : (a x : A) (xs : List A) → a ∈ (xs ++ x ∷ []) → (a ∈ xs) ⊎ (a ≡ x)
  mem_last a x [] (inl e) = inr e
  mem_last a x [] (inr m) = absurd m
  mem_last a x (y ∷ xs) (inl e) = inl (inl e)
  mem_last a x (y ∷ xs) (inr m) = elim (mem_last a x xs m) [ inl k ↦ inl (inr k) | inr e ↦ inr e ]

  pub mem-append_left : (a : A) (xs ys : List A) → a ∈ xs → a ∈ (xs ++ ys)
  mem-append_left a [] ys m = absurd m
  mem-append_left a (x ∷ xs) ys (inl e) = inl e
  mem-append_left a (x ∷ xs) ys (inr m) = inr (mem-append_left a xs ys m)

  pub mem-append_right : (a : A) (xs ys : List A) → a ∈ ys → a ∈ (xs ++ ys)
  mem-append_right a [] ys m = m
  mem-append_right a (x ∷ xs) ys m = inr (mem-append_right a xs ys m)

  pub mem-append : (a : A) (xs ys : List A) → a ∈ (xs ++ ys) → (a ∈ xs) ⊎ (a ∈ ys)
  mem-append a [] ys m = inr m
  mem-append a (x ∷ xs) ys (inl e) = inl (inl e)
  mem-append a (x ∷ xs) ys (inr m) = elim (mem-append a xs ys m) [
    | inl k ↦ inl (inr k)
    | inr k ↦ inr k
  ]

  pub Distinct-append :
      (xs ys : List A)
      → Distinct xs
      → Distinct ys
      → ((a : A) → a ∈ ys → ¬ (a ∈ xs))
      → Distinct (xs ++ ys)
  Distinct-append [] ys d e n = e
  Distinct-append (x ∷ xs) ys d e n = (
    λ m. elim (mem-append x xs ys m) [ inl k ↦ d.0 k | inr k ↦ n x k (inl refl) ],
    Distinct-append xs ys d.1 e (λ a k m. n a k (inr m)),
  )

  pub Distinct-last : (x : A) (xs : List A) → Distinct xs → ¬ (x ∈ xs) → Distinct (xs ++ x ∷ [])
  Distinct-last x [] d n = (λ m. m, tt)
  Distinct-last x (y ∷ xs) d n = (
    λ m. elim (mem_last y x xs m) [ inl k ↦ d.0 k | inr e ↦ n (inl (sym e)) ],
    Distinct-last x xs d.1 (λ m. n (inr m)),
  )

  keep_head :
      (p : A → Bool) (a x : A) (xs : List A)
      → p x ≡ true
      → (a ∈ keep p xs → (a ∈ xs) × (p a ≡ true))
      → a ∈ (x ∷ keep p xs)
      → (a ∈ (x ∷ xs)) × (p a ≡ true)
  keep_head p a x xs e rest (inl k) = (inl k, subst (λ y. p y ≡ true) (sym k) e)
  keep_head p a x xs e rest (inr k) = let (n, t) = rest k in (inr n, t)

  pub mem-keep : (p : A → Bool) (a : A) (xs : List A) → a ∈ keep p xs → (a ∈ xs) × (p a ≡ true)
  mem-keep p a [] m = absurd m
  mem-keep p a (x ∷ xs) m = elim (Bool-cases (p x)) [
    | inr e ↦ let (k, t) = mem-keep p a xs (rw e at m) in (inr k, t)
    | inl e ↦ keep_head p a x xs e (mem-keep p a xs) (rw e at m)
  ]

  pub keep-append : (p : A → Bool) (xs ys : List A) → keep p (xs ++ ys) ≡ keep p xs ++ keep p ys
  keep-append p [] ys = refl
  keep-append p (x ∷ xs) ys = elim (Bool-cases (p x)) [
    | inl e ↦ rw (e, keep-append p xs ys) refl
    | inr e ↦ rw (e, keep-append p xs ys) refl
  ]

  pub keep-mem : (p : A → Bool) (a : A) (xs : List A) → a ∈ xs → p a ≡ true → a ∈ keep p xs
  keep-mem p a [] m t = absurd m
  keep-mem p a (x ∷ xs) (inl e) t = let h : p x ≡ true = subst (λ y. p y ≡ true) e t in rw h (inl e)
  keep-mem p a (x ∷ xs) (inr m) t = elim (Bool-cases (p x)) [
    | inl e ↦ rw e (inr (keep-mem p a xs m t))
    | inr e ↦ rw e (keep-mem p a xs m t)
  ]

  pub All-keep : (P : A → Type 0) (p : A → Bool) (xs : List A) → All P xs → All P (keep p xs)
  All-keep P p [] h = tt
  All-keep P p (x ∷ xs) h = if_either (All P) (p x) (h.0, All-keep P p xs h.1) (All-keep P p xs h.1)
