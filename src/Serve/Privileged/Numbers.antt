-- ===== src/Serve/Privileged/Numbers.antt =====
-- The numbers of the runs of privileged commands (serve/privileged.go, `nextPrivilegedRun`).
use masuda.Common.{
  ℕ, ◌+◌, ◌≤◌, ◌<◌, ◌≡◌, refl, arith, List, [], ◌∷◌, Option, none, some, true, false, ◌==◌, ◌∈◌,
  inl, inr, Text, contains, contains_iff, Bool-cases,
}
use masuda.Common.Int.{ℤ, pos, negsuc}
use masuda.Common.Decimal.{atoi, pad4, max_int, atoi-unsigned, unsigned-pad4}
use masuda.Serve.Privileged.{larger, last_number, numbered, next_run}

larger-le : (o : Option ℤ) (last : ℕ) → last ≤ larger o last
unfolding larger
larger-le (some (pos n)) last = ground arith
larger-le (some (negsuc n)) last = omega arith
larger-le none last = omega arith

last_number-le : (es : List Text) (last : ℕ) → last ≤ last_number last es
unfolding last_number
last_number-le [] last = omega arith
last_number-le (e ∷ es) last =
    omega (arith, larger-le (atoi e) last, last_number-le es (larger (atoi e) last))

-- No name that reads as a number reads as a larger one.
last_number-bounds :
    (es : List Text) (last n : ℕ) (e : Text)
    → e ∈ es
    → atoi e ≡ some (pos n)
    → n ≤ last_number last es
unfolding last_number larger
last_number-bounds [] last n e m h = absurd m
last_number-bounds (x ∷ es) last n e m h = elim m [
  | inl k ↦
      let bound : n ≤ larger (atoi x) last = rw (← k, h) (ground arith) in
      omega (arith, bound, last_number-le es (larger (atoi x) last))
  | inr k ↦ last_number-bounds es (larger (atoi x) last) n e k h
]

-- The number that a run takes is that of no earlier run, so that its directory can always be made:
-- where the records can be listed and their numbers are below the largest 64-bit integer.
pub next_run_fresh :
    (entries : List Text)
    → last_number 0 entries < max_int
    → (next_run entries true ≡ some (pad4 (last_number 0 entries + 1)))
      × ¬ (pad4 (last_number 0 entries + 1) ∈ entries)
unfolding next_run numbered
next_run_fresh entries h = (rw (below, absent) refl, fresh)
  where
    id : Text
    id = pad4 (last_number 0 entries + 1)

    fresh : ¬ (id ∈ entries)
    fresh m =
        let read =
          atoi-unsigned id (last_number 0 entries + 1) (unsigned-pad4 _) (omega (arith, h)) in
        omega (arith, last_number-bounds entries 0 (last_number 0 entries + 1) id m read)

    below : (last_number 0 entries == max_int) ≡ false
    below = ground (arith, h)

    absent : contains entries id ≡ false
    absent = elim (Bool-cases (contains entries id)) [
      | inl e ↦ absurd (fresh ((contains_iff entries id).0 e))
      | inr e ↦ e
    ]
