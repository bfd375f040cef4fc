-- ===== src/Workspace/Records/Files.antt =====
-- The directory of gate records as files with unique names (internal/workspace/records.go).
use masuda.Common.{
  ◌≡◌, refl, sym, ap, ◌∙◌, ◌⊎◌, inl, inr, List, [], ◌∷◌, true, false, arith, ◌∈◌, Bool-cases,
  same_iff,
}
use masuda.Workspace.Records.{GateRecord, same_file, write_file}

-- No two files of the directory have one name.
abbrev pub UniqueFiles : List GateRecord → Type 0
UniqueFiles [] = Unit
UniqueFiles (g ∷ gs) = ((h : GateRecord) → h ∈ gs → same_file h g ≡ false) × UniqueFiles gs

same_file_sym : (a b : GateRecord) → same_file a b ≡ false → same_file b a ≡ false
same_file_sym a b h =
    ground (arith, same_iff a.occurrence b.occurrence, same_iff b.occurrence a.occurrence)

same_file_trans :
    (a b c : GateRecord) → same_file b a ≡ true → same_file c b ≡ false → same_file c a ≡ false
same_file_trans a b c h k = ground (
  arith,
  same_iff b.occurrence a.occurrence,
  same_iff c.occurrence b.occurrence,
  same_iff c.occurrence a.occurrence,
)

pub mem-write_file :
    (g x : GateRecord) (dir : List GateRecord) → x ∈ write_file g dir → (x ≡ g) ⊎ (x ∈ dir)
unfolding write_file
mem-write_file g x [] m = m
mem-write_file g x (h ∷ hs) m = elim (Bool-cases (same_file h g)) [
  | inl t ↦ elim (let k : x ∈ (g ∷ hs) = rw (t, write_file) at m in k) [
    | inl e ↦ inl e
    | inr k ↦ inr (inr k)
  ]
  | inr t ↦ elim (let k : x ∈ (h ∷ write_file g hs) = rw (t, write_file) at m in k) [
    | inl e ↦ inr (inl e)
    | inr k ↦ elim (mem-write_file g x hs k) [ inl e ↦ inl e | inr n ↦ inr (inr n) ]
  ]
]

-- In a directory with unique names the file that is written is the only one of its name.
pub write_file-other :
    (g x : GateRecord) (dir : List GateRecord)
    → UniqueFiles dir
    → x ∈ write_file g dir
    → (x ≡ g) ⊎ ((x ∈ dir) × (same_file x g ≡ false))
unfolding write_file
write_file-other g x [] u m = elim m [ inl e ↦ inl e | inr k ↦ absurd k ]
write_file-other g x (h ∷ hs) u m = elim (Bool-cases (same_file h g)) [
  | inl t ↦ elim (let k : x ∈ (g ∷ hs) = rw (t, write_file) at m in k) [
    | inl e ↦ inl e
    | inr k ↦ inr (inr k, same_file_trans g h x t (u.0 x k))
  ]
  | inr t ↦ elim (let k : x ∈ (h ∷ write_file g hs) = rw (t, write_file) at m in k) [
    | inl e ↦ inr (inl e, rw e t)
    | inr k ↦ elim (write_file-other g x hs u.1 k) [ inl e ↦ inl e | inr n ↦ inr (inr n.0, n.1) ]
  ]
]

pub write_file-self : (g : GateRecord) (dir : List GateRecord) → g ∈ write_file g dir
unfolding write_file
write_file-self g [] = inl refl
write_file-self g (h ∷ hs) = elim (Bool-cases (same_file h g)) [
  | inl t ↦ rw (t, write_file) (inl refl)
  | inr t ↦ rw (t, write_file) (inr (write_file-self g hs))
]

pub write_file-keeps :
    (g x : GateRecord) (dir : List GateRecord)
    → same_file x g ≡ false
    → x ∈ dir
    → x ∈ write_file g dir
unfolding write_file
write_file-keeps g x [] n m = absurd m
write_file-keeps g x (h ∷ hs) n m = elim (Bool-cases (same_file h g)) [
  | inl t ↦
      rw (t, write_file) (elim m [ inl e ↦ cc (n, t, ap (λ z. same_file z g) e) | inr k ↦ inr k ])
  | inr t ↦
      rw (t, write_file) (elim m [ inl e ↦ inl e | inr k ↦ inr (write_file-keeps g x hs n k) ])
]

pub write_file-UniqueFiles :
    (g : GateRecord) (dir : List GateRecord) → UniqueFiles dir → UniqueFiles (write_file g dir)
unfolding write_file
write_file-UniqueFiles g [] u = (λ h m. absurd m, tt)
write_file-UniqueFiles g (h ∷ hs) u = elim (Bool-cases (same_file h g)) [
  | inl t ↦ rw (t, write_file) (λ x m. same_file_trans g h x t (u.0 x m), u.1)
  | inr t ↦
      rw (t, write_file)
        (
          λ x m. elim (mem-write_file g x hs m) [
            | inl e ↦ rw e (same_file_sym h g t)
            | inr k ↦ u.0 x k
          ],
          write_file-UniqueFiles g hs u.1,
        )
]

pub unique_file :
    (dir : List GateRecord) (x g : GateRecord)
    → UniqueFiles dir
    → x ∈ dir
    → g ∈ dir
    → same_file x g ≡ true
    → x ≡ g
unique_file [] x g u m n t = absurd m
unique_file (h ∷ hs) x g u (inl e) (inl k) t = e ∙ sym k
unique_file (h ∷ hs) x g u (inl e) (inr n) t =
    cc (same_file_sym g h (u.0 g n), ap (λ z. same_file z g) e, t)
unique_file (h ∷ hs) x g u (inr m) (inl k) t = cc (u.0 x m, ap (λ z. same_file x z) k, t)
unique_file (h ∷ hs) x g u (inr m) (inr n) t = unique_file hs x g u.1 m n t
