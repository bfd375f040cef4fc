-- ===== src/Common/Sets.antt =====
-- Lists of names without repetition, as Go builds them by `append` behind a membership test.
use mathlib.Core.Path.{◌≡◌}
use mathlib.Core.Logic.{◌↔◌, ◌⊎◌, inl, inr}
use mathlib.Core.List.{List, [], ◌∷◌, ◌++◌}
use masuda.Common.Tests.{if◌then◌else◌, Bool-cases}
use masuda.Common.Lists.{◌∈◌, Distinct, mem_last, mem-append_left, mem-append_right, Distinct-last}
use masuda.Common.Strings.{Text, contains, contains_iff}

-- Append each name that is not there yet.
unfoldable pub append_new : List Text → List Text → List Text
append_new out [] = out
append_new out (h ∷ hs) = append_new (if contains out h then out else out ++ h ∷ []) hs

abbrev next_new : List Text → Text → List Text
next_new out h = if contains out h then out else out ++ h ∷ []

next_new_cases :
    (P : List Text → Type 0) (out : List Text) (h : Text)
    → (h ∈ out → P out)
    → (¬ (h ∈ out) → P (out ++ h ∷ []))
    → P (next_new out h)
next_new_cases P out h old new = elim (Bool-cases (contains out h)) [
  | inl e ↦ rw e (old ((contains_iff out h).0 e))
  | inr e ↦ rw e (new (λ m. cc ((contains_iff out h).1 m)))
]

next_new_iff : (out : List Text) (h x : Text) → (x ∈ next_new out h) ↔ ((x ∈ out) ⊎ (x ≡ h))
next_new_iff out h x =
    next_new_cases (λ o. (x ∈ o) ↔ ((x ∈ out) ⊎ (x ≡ h))) out h
      (λ old. (λ m. inl m, λ k. elim k [ inl m ↦ m | inr e ↦ rw e old ]))
      (λ _. (
        λ m. mem_last x h out m,
        λ k. elim k [
          | inl m ↦ mem-append_left x out (h ∷ []) m
          | inr e ↦ mem-append_right x out (h ∷ []) (inl e)
        ],
      ))

pub append_new_sound :
    (out hs : List Text) (x : Text) → x ∈ append_new out hs → (x ∈ out) ⊎ (x ∈ hs)
unfolding append_new
append_new_sound out [] x m = inl m
append_new_sound out (h ∷ hs) x m = elim (append_new_sound (next_new out h) hs x m) [
  | inr k ↦ inr (inr k)
  | inl k ↦ elim ((next_new_iff out h x).0 k) [ inl old ↦ inl old | inr e ↦ inr (inl e) ]
]

pub append_new_complete :
    (out hs : List Text) (x : Text) → (x ∈ out) ⊎ (x ∈ hs) → x ∈ append_new out hs
unfolding append_new
append_new_complete out [] x (inl m) = m
append_new_complete out [] x (inr m) = absurd m
append_new_complete out (h ∷ hs) x (inl m) =
    append_new_complete (next_new out h) hs x (inl ((next_new_iff out h x).1 (inl m)))
append_new_complete out (h ∷ hs) x (inr (inl e)) =
    append_new_complete (next_new out h) hs x (inl ((next_new_iff out h x).1 (inr e)))
append_new_complete out (h ∷ hs) x (inr (inr m)) = append_new_complete (next_new out h) hs x (inr m)

pub append_new-Distinct : (out hs : List Text) → Distinct out → Distinct (append_new out hs)
unfolding append_new
append_new-Distinct out [] d = d
append_new-Distinct out (h ∷ hs) d =
    append_new-Distinct (next_new out h) hs
      (next_new_cases Distinct out h (λ _. d) (λ n. Distinct-last h out d n))
