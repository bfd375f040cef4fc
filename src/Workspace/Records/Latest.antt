-- ===== src/Workspace/Records/Latest.antt =====
-- The numbers of gates, the latest gate of an occurrence, and what closing one changes
-- (internal/workspace/records.go).
use masuda.Common.{
  ℕ, ◌+◌, ◌≤◌, ◌<◌, ◌≡◌, refl, sym, ap, ◌∙◌, ◌⊎◌, inl, inr, ◌↔◌, List, [], ◌∷◌, Option, none, some,
  true, false, ◌&&◌, if◌then◌else◌, leb, arith, ◌∈◌, Bool-cases, Text, same, same_iff,
}
use masuda.Workspace.Records.{GateRecord, before, gates, next_seq, last_of, latest_gate}
use masuda.Workspace.Records.Order.{mem-gates, Ordered, gates-Ordered}

le-next_seq : (occ : Text) (seq : ℕ) (os : List GateRecord) → seq ≤ next_seq occ seq os
unfolding next_seq
le-next_seq occ seq [] = omega arith
le-next_seq occ seq (o ∷ os) =
    ground (arith, le-next_seq occ (o.seq + 1) os, le-next_seq occ seq os)

-- The number is above every number of the occurrence.
pub lt-next_seq :
    (occ : Text) (seq : ℕ) (os : List GateRecord) (o : GateRecord)
    → o ∈ os
    → o.occurrence ≡ occ
    → o.seq < next_seq occ seq os
unfolding next_seq
lt-next_seq occ seq [] o m e = absurd m
lt-next_seq occ seq (h ∷ hs) o (inr m) e =
    lt-next_seq occ (if same h.occurrence occ && leb seq h.seq then h.seq + 1 else seq) hs o m e
lt-next_seq occ seq (h ∷ hs) o (inl k) e =
    let h_occ : same h.occurrence occ ≡ true =
      (same_iff h.occurrence occ).1 (ap (λ g. g.occurrence) (sym k) ∙ e) in
    let h_seq : o.seq ≡ h.seq = ap (λ g. g.seq) k in
    ground (arith, le-next_seq occ (h.seq + 1) hs, le-next_seq occ seq hs)

-- The latest gate of an occurrence in a list, or that there is none.
abbrev pub IsLast : Text → List GateRecord → Option GateRecord → Type 0
IsLast occ gs none = (h : GateRecord) → h ∈ gs → ¬ (h.occurrence ≡ occ)
IsLast occ gs (some g) =
    (g ∈ gs)
    × (g.occurrence ≡ occ)
    × ((h : GateRecord) → h ∈ gs → h.occurrence ≡ occ → h.seq ≤ g.seq)

-- A later record of the same occurrence has no smaller number.
ordered_seq :
    (occ : Text) (g : GateRecord) (gs : List GateRecord)
    → ((h : GateRecord) → h ∈ gs → before h g ≡ false)
    → g.occurrence ≡ occ
    → (h : GateRecord) → h ∈ gs
    → h.occurrence ≡ occ
    → g.seq ≤ h.seq
unfolding before
ordered_seq occ g gs o e h m k = ground (arith, o h m, same_iff h.occurrence g.occurrence)

-- What the loop has found, once it has found something.
record Found (occ : Text) (f : GateRecord) (gs : List GateRecord) (g : GateRecord) : Type 0 where
  result : last_of occ (some f) gs ≡ some g
  source : (g ≡ f) ⊎ (g ∈ gs)
  named : g.occurrence ≡ occ
  above : f.seq ≤ g.seq
  last : (h : GateRecord) → h ∈ gs → h.occurrence ≡ occ → h.seq ≤ g.seq

last_of-Found :
    (occ : Text) (f : GateRecord) (gs : List GateRecord)
    → f.occurrence ≡ occ
    → Ordered gs
    → ((h : GateRecord) → h ∈ gs → h.occurrence ≡ occ → f.seq ≤ h.seq)
    → (g : GateRecord) × Found occ f gs g
unfolding last_of
last_of-Found occ f [] e o low = (
  f,
  record {
    result = refl;
    source = inl refl;
    named = e;
    above = omega arith;
    last = λ h m. absurd m;
  },
)
last_of-Found occ f (x ∷ xs) e o low = elim (Bool-cases (same x.occurrence occ)) [
  | inl t ↦
      let k = (same_iff x.occurrence occ).0 t in
      let (g, r) = last_of-Found occ x xs k o.1 (ordered_seq occ x xs o.0 k) in (g, moved t k g r)
  | inr t ↦ let (g, r) = last_of-Found occ f xs e o.1 (λ h m. low h (inr m)) in (g, stayed t g r)
]
  where
    moved :
        same x.occurrence occ ≡ true
        → x.occurrence ≡ occ
        → (g : GateRecord) → Found occ x xs g
        → Found occ f (x ∷ xs) g
    moved t k g r = record {
      result = rw (t, last_of) r.result;
      source = inr r.source;
      named = r.named;
      above = omega (arith, low x (inl refl) k, r.above);
      last = λ h m n. elim m [ inl i ↦ rw i r.above | inr i ↦ r.last h i n ];
    }

    stayed :
        same x.occurrence occ ≡ false → (g : GateRecord) → Found occ f xs g → Found occ f (x ∷ xs) g
    stayed t g r = record {
      result = rw (t, last_of) r.result;
      source = elim r.source [ inl i ↦ inl i | inr i ↦ inr (inr i) ];
      named = r.named;
      above = r.above;
      last = λ h m n. elim m [
        | inl i ↦ cc (t, (same_iff x.occurrence occ).1 (ap (λ z. z.occurrence) (sym i) ∙ n))
        | inr i ↦ r.last h i n
      ];
    }

IsLast-skip :
    (occ : Text) (x : GateRecord) (xs : List GateRecord) (r : Option GateRecord)
    → ¬ (x.occurrence ≡ occ)
    → IsLast occ xs r
    → IsLast occ (x ∷ xs) r
IsLast-skip occ x xs none n l =
    λ h m e. elim m [ inl i ↦ n (ap (λ z. z.occurrence) (sym i) ∙ e) | inr i ↦ l h i e ]
IsLast-skip occ x xs (some g) n l = (
  inr l.0,
  l.1,
  λ h m e. elim m [ inl i ↦ absurd (n (ap (λ z. z.occurrence) (sym i) ∙ e)) | inr i ↦ l.2 h i e ],
)

last_of-IsLast :
    (occ : Text) (gs : List GateRecord) → Ordered gs → IsLast occ gs (last_of occ none gs)
unfolding last_of
last_of-IsLast occ [] o = λ h m. absurd m
last_of-IsLast occ (x ∷ xs) o = elim (Bool-cases (same x.occurrence occ)) [
  | inl t ↦
      let k = (same_iff x.occurrence occ).0 t in
      let (g, r) = last_of-Found occ x xs k o.1 (ordered_seq occ x xs o.0 k) in
      rw (t, last_of)
        (rw r.result
          (r.source, r.named, λ h m n. elim m [ inl i ↦ rw i r.above | inr i ↦ r.last h i n ]))
  | inr t ↦
      rw (t, last_of)
        (IsLast-skip occ x xs (last_of occ none xs) (λ k. cc (t, (same_iff x.occurrence occ).1 k))
          (last_of-IsLast occ xs o.1))
]

IsLast-mem :
    (occ : Text) (gs dir : List GateRecord) (r : Option GateRecord)
    → ((x : GateRecord) → (x ∈ gs) ↔ (x ∈ dir))
    → IsLast occ gs r
    → IsLast occ dir r
IsLast-mem occ gs dir none same_items l = λ h m. l h ((same_items h).1 m)
IsLast-mem occ gs dir (some g) same_items l =
    ((same_items g).0 l.0, l.1, λ h m. l.2 h ((same_items h).1 m))

pub latest_gate-IsLast : (occ : Text) (dir : List GateRecord) → IsLast occ dir (latest_gate occ dir)
unfolding latest_gate
latest_gate-IsLast occ dir =
    IsLast-mem occ (gates dir) dir (last_of occ none (gates dir)) (λ x. mem-gates x dir)
      (last_of-IsLast occ (gates dir) (gates-Ordered dir))
