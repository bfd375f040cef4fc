-- ===== src/Serve/Resources.antt =====
-- serve/resources.go: what the probe in a machine prints, how it is read, and the warnings. Integers
-- have 64 bits.
pub mod Laws
use Prim.Native.Nat.{◌%◌, ◌^◌}
use masuda.Common.{
  ℕ, zero, suc, ◌+◌, ◌-◌, ◌*◌, List, [], ◌∷◌, ◌++◌, Option, none, some, Bool, true, false, ◌&&◌,
  ◌||◌, not, if◌then◌else◌, ltb, leb, ◌==◌, Text, codes, same, split, length,
}
use masuda.Common.{is_space}
use masuda.Common.{Result, ok, err, ◌>>=◌, ◌>>◌, refuse_if}
use masuda.Common.Int.{ℤ, pos, negsuc}
use masuda.Common.Decimal.{decimal, atoi, unsigned, max_int}

-- `diskCapacity` and `vmResources`.
pub record DiskCapacity : Type 0 where
  pub mount : Text
  pub percent : ℤ

pub record VmResources : Type 0 where
  pub mem_total_kb : ℤ
  pub mem_avail_kb : ℤ
  pub oom_kills : ℤ
  pub disks : List DiskCapacity

-- `resourceLimits`, which the settings keep within 0 and 100.
pub record ResourceLimits : Type 0 where
  pub memory_percent : ℕ
  pub disk_percent : ℕ

pub data ReadError : Type 0 where
  no_total no_available no_filesystem : ReadError

pub data Section : Type 0 where
  meminfo vmstat df : Section

end_field : Text → List Text → List Text
end_field [] fs = fs
end_field (c ∷ s) fs = (c ∷ s) ∷ fs

fields_of : Text → Text → List Text
unfolding end_field
fields_of cur [] = end_field cur []
fields_of cur (c ∷ s) =
    let rest = fields_of [] s in
    let more = fields_of (cur ++ c ∷ []) s in if is_space c then end_field cur rest else more

-- `strings.Fields`.
unfoldable pub fields : Text → List Text
unfolding fields_of
fields = fields_of []

-- The value of `strconv.ParseInt(s, 10, 64)` where its error is dropped: 0 for what is no number, and
-- the nearest integer for what is out of range.
clamp_pos : Option ℕ → ℤ
clamp_pos none = pos 0
clamp_pos (some n) = if leb n max_int then pos n else pos max_int

clamp_neg : Option ℕ → ℤ
clamp_neg none = pos 0
clamp_neg (some zero) = pos 0
clamp_neg (some (suc n)) = if leb n max_int then negsuc n else negsuc max_int

unfoldable pub parse_int : Text → ℤ
unfolding clamp_pos clamp_neg
parse_int [] = pos 0
parse_int (c ∷ s) =
    if c == b'-'
    then clamp_neg (unsigned s)
    else if c == b'+'
    then clamp_pos (unsigned s)
    else clamp_pos (unsigned (c ∷ s))

read_meminfo : List Text → VmResources → VmResources
read_meminfo (name ∷ value ∷ rest) r =
    if same name (codes "MemTotal:")
    then record r { mem_total_kb = parse_int value }
    else if same name (codes "MemAvailable:")
    then record r { mem_avail_kb = parse_int value }
    else r
read_meminfo _ r = r

read_vmstat : List Text → VmResources → VmResources
read_vmstat (name ∷ value ∷ []) r =
    if same name (codes "oom_kill") then record r { oom_kills = parse_int value } else r
read_vmstat _ r = r

-- The text before a `%` at its end.
unfoldable pub percent_of : Text → Option Text
percent_of [] = none
percent_of (c ∷ []) = if c == b'%' then some [] else none
percent_of (c ∷ d ∷ s) = elim (percent_of (d ∷ s)) [ none ↦ none | some t ↦ some (c ∷ t) ]

unfoldable pub joined : List Text → Text
joined [] = []
joined (f ∷ []) = f
joined (f ∷ fs) = f ++ (b' ' ∷ joined fs)

unfoldable pub has_mount : Text → List DiskCapacity → Bool
has_mount m [] = false
has_mount m (d ∷ ds) = same d.mount m || has_mount m ds

unfoldable pub add_disk : Text → Option ℤ → VmResources → VmResources
add_disk mount none r = r
add_disk mount (some p) r =
    if has_mount mount r.disks
    then r
    else record r { disks = r.disks ++ record { mount = mount; percent = p } ∷ [] }

unfoldable pub read_capacity : Option Text → List Text → VmResources → VmResources
read_capacity none mount r = r
read_capacity (some digits) mount r = add_disk (joined mount) (atoi digits) r

unfoldable pub read_df : List Text → VmResources → VmResources
read_df (fs ∷ blocks ∷ used ∷ avail ∷ capacity ∷ m ∷ mount) r =
    read_capacity (percent_of capacity) (m ∷ mount) r
read_df _ r = r

unfoldable pub read_line : Section → List Text → VmResources → VmResources
unfolding read_meminfo read_vmstat
read_line meminfo fs r = read_meminfo fs r
read_line vmstat fs r = read_vmstat fs r
read_line df fs r = read_df fs r

section_line : Text → Option Section
section_line line =
    if same line (codes "--vmstat")
    then some vmstat
    else if same line (codes "--df")
    then some df
    else none

-- The loop of `parseVMResources`.
unfoldable pub read_lines : Section → List Text → VmResources → VmResources
unfolding section_line
read_lines at [] r = r
read_lines at (line ∷ ls) r = elim (section_line line) [
  | some next ↦ read_lines next ls r
  | none ↦ read_lines at ls (read_line at (fields line) r)
]

is_positive : ℤ → Bool
is_positive (pos n) = ltb 0 n
is_positive (negsuc n) = false

no_disks : List DiskCapacity → Bool
no_disks [] = true
no_disks (d ∷ ds) = false

-- The lines that `bufio.Scanner` gives: without their ends, and none from one of 65536 bytes on.
without_return : Text → Text
without_return [] = []
without_return (c ∷ []) = if c == 13 then [] else c ∷ []
without_return (c ∷ d ∷ s) = c ∷ without_return (d ∷ s)

scanned : List Text → List Text
unfolding without_return
scanned [] = []
scanned ([] ∷ []) = []
scanned (l ∷ ls) =
    let rest = scanned ls in if leb 65536 (length l) then [] else without_return l ∷ rest

unfoldable pub scan_lines : Text → List Text
unfolding scanned
scan_lines out = scanned (split 10 out)

abbrev pub nothing_read : VmResources
nothing_read = record { mem_total_kb = pos 0; mem_avail_kb = pos 0; oom_kills = pos 0; disks = [] }

-- The checks at the end of `parseVMResources`.
unfoldable pub complete : VmResources → Result ReadError VmResources
unfolding is_positive no_disks
complete r = do
  refuse_if (not (is_positive r.mem_total_kb)) no_total
  refuse_if (not (is_positive r.mem_avail_kb)) no_available
  refuse_if (no_disks r.disks) no_filesystem
  ok r

-- `parseVMResources`.
unfoldable pub parse_vm_resources : Text → Result ReadError VmResources
parse_vm_resources out = complete (read_lines meminfo (scan_lines out) nothing_read)

magnitude : ℤ → ℕ
magnitude (pos n) = n
magnitude (negsuc n) = 2 ^ 64 - (n + 1)

-- The order of `int64` on numbers modulo 2 ^ 64.
signed_less : ℕ → ℕ → Bool
signed_less a b = ltb ((a + 2 ^ 63) % 2 ^ 64) ((b + 2 ^ 63) % 2 ^ 64)

unfoldable pub memory_low : ResourceLimits → ℤ → ℤ → Bool
unfolding magnitude signed_less
memory_low l avail total = signed_less (magnitude avail * 100) (magnitude total * l.memory_percent)

above : ℤ → ℕ → Bool
above (pos n) limit = ltb limit n
above (negsuc n) limit = false

unfoldable pub disk_warnings : ResourceLimits → List DiskCapacity → List Text
unfolding above
disk_warnings l [] = []
disk_warnings l (d ∷ ds) =
    if above d.percent l.disk_percent
    then (d.mount ++ codes " over " ++ decimal l.disk_percent ++ codes "%") ∷ disk_warnings l ds
    else disk_warnings l ds

kills_warning : ℤ → List Text
kills_warning (pos n) = if ltb 0 n then (codes "oom-kill x" ++ decimal n) ∷ [] else []
kills_warning (negsuc n) = []

-- `warnings`.
unfoldable pub warnings : ResourceLimits → VmResources → List Text
unfolding kills_warning
warnings l r =
    (if memory_low l r.mem_avail_kb r.mem_total_kb then codes "memory low" ∷ [] else [])
    ++ disk_warnings l r.disks
    ++ kills_warning r.oom_kills

join_comma : List Text → Text
join_comma [] = []
join_comma (w ∷ []) = w
join_comma (w ∷ ws) = w ++ codes ", " ++ join_comma ws

-- What the probe gave: no answer, an exit code that is not 0, or its output.
pub data Probe : Type 0 where
  no_answer failed_probe : Probe
  printed : Text → Probe

warned : ResourceLimits → Result ReadError VmResources → Text → Text × Bool
unfolding join_comma
warned l (err e) shown = (shown, false)
warned l (ok r) shown = let w = join_comma (warnings l r) in (w, not (same shown w))

-- `checkResources` on the warning that is shown: the one shown after it, and whether it changed.
unfoldable pub check_resources : ResourceLimits → Probe → Text → Text × Bool
unfolding warned
check_resources l no_answer shown = (shown, false)
check_resources l failed_probe shown = (shown, false)
check_resources l (printed out) shown = warned l (parse_vm_resources out) shown
