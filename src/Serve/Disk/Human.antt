-- ===== src/Serve/Disk/Human.antt =====
-- The loop of `humanBytes` (serve/disk.go).
use Prim.Native.Nat.{◌^◌}
use masuda.Common.{
  ℕ, ◌/◌, ◌≤◌, ◌<◌, ◌≡◌, refl, ap, ◌+◌, [], Option, arith, some, ltb, leb, Bool-cases, inl, inr,
  Text, zero, suc, codes, ◌∷◌, ◌++◌, ◌⊎◌,
}
use masuda.Common.Decimal.{decimal}
use masuda.Serve.Disk.{unit_of, letter, in_unit, with_unit, human_bytes}

-- The prefix of a power of 1024, from 1024 itself on.
pub prefix : ℕ → Text
prefix zero = codes "K"
prefix (suc zero) = codes "M"
prefix (suc (suc zero)) = codes "G"
prefix (suc (suc (suc zero))) = codes "T"
prefix (suc (suc (suc (suc zero)))) = codes "P"
prefix (suc (suc (suc (suc (suc n))))) = codes "E"

-- The unit of a number: the largest power of 1024 that is not above it.
abbrev IsUnit : ℕ → ℕ → Option (ℕ × ℕ) → Type 0
IsUnit n exp u =
    (u ≡ some (1024 ^ (exp + 1), exp)) × (1024 ^ (exp + 1) ≤ n) × (n < 1024 ^ (exp + 2))

below_0 : (n : ℕ) → 1024 ≤ n → 1024 ^ 1 ≤ n
below_0 n h = h

above_0 : (n : ℕ) → n < 1048576 → n < 1024 ^ 2
above_0 n h = h

below_1 : (n : ℕ) → 1048576 ≤ n → 1024 ^ 2 ≤ n
below_1 n h = h

above_1 : (n : ℕ) → n < 1073741824 → n < 1024 ^ 3
above_1 n h = h

below_2 : (n : ℕ) → 1073741824 ≤ n → 1024 ^ 3 ≤ n
below_2 n h = h

above_2 : (n : ℕ) → n < 1099511627776 → n < 1024 ^ 4
above_2 n h = h

below_3 : (n : ℕ) → 1099511627776 ≤ n → 1024 ^ 4 ≤ n
below_3 n h = h

above_3 : (n : ℕ) → n < 1125899906842624 → n < 1024 ^ 5
above_3 n h = h

below_4 : (n : ℕ) → 1125899906842624 ≤ n → 1024 ^ 5 ≤ n
below_4 n h = h

above_4 : (n : ℕ) → n < 1152921504606846976 → n < 1024 ^ 6
above_4 n h = h

below_5 : (n : ℕ) → 1152921504606846976 ≤ n → 1024 ^ 6 ≤ n
below_5 n h = h

above_5 : (n : ℕ) → n < 1180591620717411303424 → n < 1024 ^ 7
above_5 n h = h

-- The loop ends within its six rounds at the number's unit.
unit_of-ends :
    (n : ℕ)
    → 1024 ≤ n
    → n < 2 ^ 63
    → (exp : ℕ) × (exp ≤ 5) × IsUnit n exp (unit_of 6 (n / 1024) 1024 0)
unfolding unit_of
unit_of-ends n h k = elim (Bool-cases (leb 1024 (n / 1024))) [
  | inr f ↦ (
    0,
    omega arith,
    (rw (f) refl, below_0 n (ground (arith, f, h)), above_0 n (ground (arith, f, h))),
  )
  | inl e0 ↦ elim (Bool-cases (leb 1024 (n / 1024 / 1024))) [
    | inr f ↦ (
      1,
      omega arith,
      (rw (e0, f) refl, below_1 n (ground (arith, e0, f, h)), above_1 n (ground (arith, e0, f, h))),
    )
    | inl e1 ↦ elim (Bool-cases (leb 1024 (n / 1024 / 1024 / 1024))) [
      | inr f ↦ (
        2,
        omega arith,
        (
          rw (e0, e1, f) refl,
          below_2 n (ground (arith, e0, e1, f, h)),
          above_2 n (ground (arith, e0, e1, f, h)),
        ),
      )
      | inl e2 ↦ elim (Bool-cases (leb 1024 (n / 1024 / 1024 / 1024 / 1024))) [
        | inr f ↦ (
          3,
          omega arith,
          (
            rw (e0, e1, e2, f) refl,
            below_3 n (ground (arith, e0, e1, e2, f, h)),
            above_3 n (ground (arith, e0, e1, e2, f, h)),
          ),
        )
        | inl e3 ↦ elim (Bool-cases (leb 1024 (n / 1024 / 1024 / 1024 / 1024 / 1024))) [
          | inr f ↦ (
            4,
            omega arith,
            (
              rw (e0, e1, e2, e3, f) refl,
              below_4 n (ground (arith, e0, e1, e2, e3, f, h)),
              above_4 n (ground (arith, e0, e1, e2, e3, f, h)),
            ),
          )
          | inl e4 ↦ elim (Bool-cases (leb 1024 (n / 1024 / 1024 / 1024 / 1024 / 1024 / 1024))) [
            | inr f ↦ (
              5,
              omega arith,
              (
                rw (e0, e1, e2, e3, e4, f) refl,
                below_5 n (ground (arith, e0, e1, e2, e3, e4, f, h)),
                above_5 n (ground (arith, e0, e1, e2, e3, e4, f, h)),
              ),
            )
            | inl f ↦ absurd (ground (arith, e0, e1, e2, e3, e4, f, k))
          ]
        ]
      ]
    ]
  ]
]

letter-prefix :
    (exp : ℕ) → exp ≤ 5 → (c : ℕ) × (letter exp (codes "KMGTPE") ≡ some c) × (c ∷ [] ≡ prefix exp)
unfolding letter prefix
letter-prefix zero h = (b'K', refl, refl)
letter-prefix (suc zero) h = (b'M', refl, refl)
letter-prefix (suc (suc zero)) h = (b'G', refl, refl)
letter-prefix (suc (suc (suc zero))) h = (b'T', refl, refl)
letter-prefix (suc (suc (suc (suc zero)))) h = (b'P', refl, refl)
letter-prefix (suc (suc (suc (suc (suc zero))))) h = (b'E', refl, refl)
letter-prefix (suc (suc (suc (suc (suc (suc n)))))) h = absurd (omega (arith, h))

-- `humanBytes` prints every number of bytes that fits 63 bits: its loop ends within six rounds. From
-- 1024 bytes on it divides by the largest power of 1024 that is not above the number, and prints that
-- power's prefix.
pub human_bytes-prints :
    (fraction : ℕ → ℕ → Text) (n : ℕ)
    → n < 2 ^ 63
    → ((n < 1024) × (human_bytes fraction n ≡ some (decimal n ++ codes "B")))
      ⊎ ((exp : ℕ) × (exp ≤ 5)
          × (1024 ^ (exp + 1) ≤ n)
          × (n < 1024 ^ (exp + 2))
          × (human_bytes fraction n
              ≡ some (fraction n (1024 ^ (exp + 1)) ++ (prefix exp ++ codes "iB"))))
unfolding human_bytes with_unit in_unit
human_bytes-prints fraction n k = elim (Bool-cases (ltb n 1024)) [
  | inl e ↦ inl (ground (arith, e), rw e refl)
  | inr e ↦
      let (exp, top, (r, low, high)) = unit_of-ends n (ground (arith, e)) k in
      let (c, l, q) = letter-prefix exp top in
      inr (
        exp,
        top,
        low,
        high,
        rw (e, r, l)
            (ap (λ (p : Text). some (fraction n (1024 ^ (exp + 1)) ++ (p ++ codes "iB"))) q),
      )
]
