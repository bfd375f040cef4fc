-- ===== src/Serve/Disk.antt =====
-- serve/disk.go: the measure of the workspaces' directory, the warning, and how a size is printed. What
-- the walk over the files meets is outside, and so is the printing of a fraction.
pub mod Warning
pub mod Human
use masuda.Common.{
  ℕ, zero, suc, ◌+◌, ◌*◌, ◌/◌, List, [], ◌∷◌, ◌++◌, Option, none, some, Bool, true, false, ◌&&◌,
  not, if◌then◌else◌, ltb, leb, Text, codes, same, split,
}
use masuda.Common.Decimal.{decimal}

-- `diskUsage`.
pub record DiskUsage : Type 0 where
  pub workspaces : ℕ
  pub exports : ℕ

-- What `WalkDir` hands to the function of `measureDisk`: an error, an entry that is no regular file, a
-- file whose size cannot be read, or one of a size, by its path from the root. `gone` where the error
-- says that the file does not exist.
pub data Visit : Type 0 where
  walk_error : (gone : Bool) → Visit
  no_file : Visit
  stat_error : (gone : Bool) → Visit
  file : (rel : Text) (size : ℕ) → Visit

third_of_exports : List Text → Bool
third_of_exports (id ∷ second ∷ third ∷ rest) = same second (codes "exports")
third_of_exports _ = false

-- `isUnderExports`.
unfoldable pub is_under_exports : Text → Bool
unfolding third_of_exports
is_under_exports rel = third_of_exports (split b'/' rel)

unfoldable pub counted : Text → ℕ → DiskUsage → DiskUsage
counted rel size u = record {
  workspaces = u.workspaces + size;
  exports = if is_under_exports rel then u.exports + size else u.exports;
}

-- `measureDisk`: `none` where it fails.
unfoldable pub measure : List Visit → DiskUsage → Option DiskUsage
measure [] u = some u
measure (walk_error true ∷ vs) u = measure vs u
measure (walk_error false ∷ vs) u = none
measure (no_file ∷ vs) u = measure vs u
measure (stat_error true ∷ vs) u = measure vs u
measure (stat_error false ∷ vs) u = none
measure (file rel size ∷ vs) u = measure vs (counted rel size u)

abbrev pub nothing_used : DiskUsage
nothing_used = record { workspaces = 0; exports = 0 }

unfoldable pub measure_disk : List Visit → Option DiskUsage
measure_disk vs = measure vs nothing_used

-- `checkDisk` on the flag `diskOver`: the flag after it, and whether it warns. A measure that failed
-- changes nothing.
unfoldable pub check_disk : ℕ → Option DiskUsage → Bool → Bool × Bool
check_disk limit none over = (over, false)
check_disk limit (some u) over = (ltb limit u.workspaces, ltb limit u.workspaces && not over)

-- The flag after some measures of `watchDisk`, from the start of the process.
unfoldable pub over_after : ℕ → Bool → List (Option DiskUsage) → Bool
over_after limit over [] = over
over_after limit over (m ∷ ms) = over_after limit (check_disk limit m over).0 ms

-- The loop of `humanBytes` on fuel: the divisor and the number of the unit, `none` without fuel.
unfoldable pub unit_of : ℕ → ℕ → ℕ → ℕ → Option (ℕ × ℕ)
unit_of zero m div exp = none
unit_of (suc f) m div exp =
    let rest = unit_of f (m / 1024) (div * 1024) (exp + 1) in
    if leb 1024 m then rest else some (div, exp)

-- `"KMGTPE"[exp]`, which panics beyond the text.
unfoldable pub letter : ℕ → Text → Option ℕ
letter n [] = none
letter zero (c ∷ s) = some c
letter (suc n) (c ∷ s) = letter n s

-- `%.1f` of the quotient of two numbers as floating-point numbers.
module _ (fraction : ℕ → ℕ → Text) where
  in_unit : ℕ → ℕ → Option ℕ → Option Text
  in_unit n div none = none
  in_unit n div (some c) = some (fraction n div ++ c ∷ codes "iB")

  with_unit : ℕ → Option (ℕ × ℕ) → Option Text
  unfolding in_unit
  with_unit n none = none
  with_unit n (some (div, exp)) = in_unit n div (letter exp (codes "KMGTPE"))

  -- `humanBytes`; six rounds of its loop are enough for 64 bits.
  unfoldable pub human_bytes : ℕ → Option Text
  unfolding with_unit
  human_bytes n =
      if ltb n 1024
      then some (decimal n ++ codes "B")
      else with_unit n (unit_of 6 (n / 1024) 1024 0)
