-- ===== src/Serve/Resources/Laws.antt =====
-- What is known of the resources that were read from a machine (serve/resources.go).
use masuda.Common.{
  ℕ, ◌≡◌, ◌≢◌, refl, sym, ap, subst, ◌<◌, arith, List, [], ◌∷◌, ◌++◌, map, Option, none, some, true,
  false, not, if_either, Bool-cases, Option-cases, inl, inr, ◌∈◌, Distinct, Distinct-last, Text,
  codes, same, same_iff,
}
use masuda.Common.{ok, refuse_if, >>=-ok, refuse_if-ok, not-false, ok_inj}
use masuda.Common.Int.{ℤ, pos, negsuc}
use masuda.Common.Decimal.{atoi}
use masuda.Serve.Resources.{
  DiskCapacity, VmResources, no_total, no_available, no_filesystem, Section, meminfo, vmstat, df,
  fields, read_meminfo, read_vmstat, has_mount, add_disk, read_capacity, percent_of, joined,
  read_df, read_line, section_line, read_lines, is_positive, no_disks, scan_lines, nothing_read,
  complete, parse_vm_resources,
}

abbrev mounts : VmResources → List Text
mounts r = map (λ d. d.mount) r.disks

has_mount-absent :
    (m : Text) (ds : List DiskCapacity) → has_mount m ds ≡ false → ¬ (m ∈ map (λ d. d.mount) ds)
unfolding has_mount
has_mount-absent m [] h k = k
has_mount-absent m (d ∷ ds) h k = elim k [
  | inl e ↦ ground (arith, same_iff d.mount m, sym e, h)
  | inr k' ↦ has_mount-absent m ds (ground (arith, h)) k'
]

map-snoc :
    (ds : List DiskCapacity) (d : DiskCapacity)
    → map (λ x. x.mount) (ds ++ d ∷ []) ≡ map (λ x. x.mount) ds ++ d.mount ∷ []
map-snoc [] d = refl
map-snoc (x ∷ ds) d = ap (λ (l : List Text). x.mount ∷ l) (map-snoc ds d)

add_disk-Distinct :
    (m : Text) (p : Option ℤ) (r : VmResources)
    → Distinct (mounts r)
    → Distinct (mounts (add_disk m p r))
unfolding add_disk
add_disk-Distinct m none r h = h
add_disk-Distinct m (some p) r h = elim (Bool-cases (has_mount m r.disks)) [
  | inl e ↦ rw e h
  | inr e ↦ rw e (
      subst (λ (l : List Text). Distinct l)
        (sym (map-snoc r.disks (record { mount = m; percent = p })))
        (Distinct-last m (mounts r) h (has_mount-absent m r.disks e)))
]

read_capacity-Distinct :
    (c : Option Text) (fs : List Text) (r : VmResources)
    → Distinct (mounts r)
    → Distinct (mounts (read_capacity c fs r))
unfolding read_capacity
read_capacity-Distinct none fs r h = h
read_capacity-Distinct (some digits) fs r h = add_disk-Distinct (joined fs) (atoi digits) r h

read_df-Distinct :
    (fs : List Text) (r : VmResources) → Distinct (mounts r) → Distinct (mounts (read_df fs r))
unfolding read_df
read_df-Distinct (a ∷ b ∷ c ∷ d ∷ e ∷ f ∷ g) r h = read_capacity-Distinct (percent_of e) (f ∷ g) r h
read_df-Distinct [] r h = h
read_df-Distinct (a ∷ []) r h = h
read_df-Distinct (a ∷ b ∷ []) r h = h
read_df-Distinct (a ∷ b ∷ c ∷ []) r h = h
read_df-Distinct (a ∷ b ∷ c ∷ d ∷ []) r h = h
read_df-Distinct (a ∷ b ∷ c ∷ d ∷ e ∷ []) r h = h

read_meminfo-disks : (fs : List Text) (r : VmResources) → (read_meminfo fs r).disks ≡ r.disks
unfolding read_meminfo
read_meminfo-disks [] r = refl
read_meminfo-disks (a ∷ []) r = refl
read_meminfo-disks (a ∷ b ∷ fs) r =
    if_either (λ (x : VmResources). x.disks ≡ r.disks) (same a (codes "MemTotal:")) refl
      (if_either (λ (x : VmResources). x.disks ≡ r.disks) (same a (codes "MemAvailable:")) refl
        refl)

read_vmstat-disks : (fs : List Text) (r : VmResources) → (read_vmstat fs r).disks ≡ r.disks
unfolding read_vmstat
read_vmstat-disks [] r = refl
read_vmstat-disks (a ∷ []) r = refl
read_vmstat-disks (a ∷ b ∷ []) r =
    if_either (λ (x : VmResources). x.disks ≡ r.disks) (same a (codes "oom_kill")) refl refl
read_vmstat-disks (a ∷ b ∷ c ∷ fs) r = refl

abbrev DistinctMounts : List DiskCapacity → Type 0
DistinctMounts ds = Distinct (map (λ d. d.mount) ds)

read_line-Distinct :
    (at : Section) (fs : List Text) (r : VmResources)
    → Distinct (mounts r)
    → Distinct (mounts (read_line at fs r))
unfolding read_line
read_line-Distinct meminfo fs r h = subst DistinctMounts (sym (read_meminfo-disks fs r)) h
read_line-Distinct vmstat fs r h = subst DistinctMounts (sym (read_vmstat-disks fs r)) h
read_line-Distinct df fs r h = read_df-Distinct fs r h

read_lines-Distinct :
    (at : Section) (ls : List Text) (r : VmResources)
    → Distinct (mounts r)
    → Distinct (mounts (read_lines at ls r))
unfolding read_lines
read_lines-Distinct at [] r h = h
read_lines-Distinct at (l ∷ ls) r h = elim (Option-cases (section_line l)) [
  | inl e ↦ rw (e, read_lines) (read_lines-Distinct at ls _ (read_line-Distinct at (fields l) r h))
  | inr (next, e) ↦ rw (e, read_lines) (read_lines-Distinct next ls r h)
]

-- A measure that is complete: both numbers of memory are positive, there is a file system, and none
-- is listed twice.
pub record IsMeasured (r : VmResources) : Type 0 where
  pub total : (n : ℕ) × (r.mem_total_kb ≡ pos n) × (0 < n)
  pub available : (n : ℕ) × (r.mem_avail_kb ≡ pos n) × (0 < n)
  pub some_disk : r.disks ≢ []
  pub distinct : Distinct (mounts r)

is_positive-pos : (z : ℤ) → is_positive z ≡ true → (n : ℕ) × (z ≡ pos n) × (0 < n)
unfolding is_positive
is_positive-pos (pos n) h = (n, refl, ground (arith, h))
is_positive-pos (negsuc n) h = cc

not_empty : (ds : List DiskCapacity) → no_disks ds ≡ false → ds ≢ []
unfolding no_disks
not_empty [] h = cc
not_empty (d ∷ ds) h = cc

-- Whatever a machine's probe prints, what is read of it and not refused is a complete measure.
pub parse_vm_resources-IsMeasured :
    (out : Text) (r : VmResources) → parse_vm_resources out ≡ ok r → IsMeasured r
unfolding parse_vm_resources complete
parse_vm_resources-IsMeasured out r h =
    let all : VmResources = read_lines meminfo (scan_lines out) nothing_read in
    let (_, e1, h1) = >>=-ok (refuse_if (not (is_positive all.mem_total_kb)) no_total) _ h in
    let (_, e2, h2) = >>=-ok (refuse_if (not (is_positive all.mem_avail_kb)) no_available) _ h1 in
    let (_, e3, h3) = >>=-ok (refuse_if (no_disks all.disks) no_filesystem) _ h2 in
    subst IsMeasured (ok_inj h3) (record {
      total = is_positive-pos all.mem_total_kb (not-false _ (refuse_if-ok _ _ e1));
      available = is_positive-pos all.mem_avail_kb (not-false _ (refuse_if-ok _ _ e2));
      some_disk = not_empty all.disks (refuse_if-ok _ _ e3);
      distinct = read_lines-Distinct meminfo (scan_lines out) nothing_read tt;
    })
