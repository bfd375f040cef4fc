-- ===== src/Workspace/Records/Order.antt =====
-- The order in which internal/workspace/records.go reads gates.
use masuda.Common.{
  ◌≡◌, refl, ◌⊎◌, inl, inr, ◌↔◌, List, [], ◌∷◌, true, false, arith, ◌∈◌, Bool-cases, Text, same_iff,
}
use masuda.Common.{text_lt}
use masuda.Workspace.Records.{GateRecord, before, insert_sorted, gates}

mem-insert_sorted :
    (g x : GateRecord) (gs : List GateRecord) → x ∈ insert_sorted g gs → (x ≡ g) ⊎ (x ∈ gs)
unfolding insert_sorted
mem-insert_sorted g x [] m = m
mem-insert_sorted g x (h ∷ hs) m = elim (Bool-cases (before h g)) [
  | inr e ↦ rw (e, insert_sorted) at m
  | inl e ↦ later (mem-insert_sorted g x hs) (rw (e, insert_sorted) at m)
]
  where
    later :
        (x ∈ insert_sorted g hs → (x ≡ g) ⊎ (x ∈ hs))
        → x ∈ (h ∷ insert_sorted g hs)
        → (x ≡ g) ⊎ (x ∈ (h ∷ hs))
    later rest (inl k) = inr (inl k)
    later rest (inr k) = elim (rest k) [ inl a ↦ inl a | inr b ↦ inr (inr b) ]

insert_sorted-mem :
    (g x : GateRecord) (gs : List GateRecord) → (x ≡ g) ⊎ (x ∈ gs) → x ∈ insert_sorted g gs
unfolding insert_sorted
insert_sorted-mem g x [] m = m
insert_sorted-mem g x (h ∷ hs) m = elim (Bool-cases (before h g)) [
  | inr e ↦ rw (e, insert_sorted) m
  | inl e ↦ rw (e, insert_sorted) (later (insert_sorted-mem g x hs) m)
]
  where
    later :
        ((x ≡ g) ⊎ (x ∈ hs) → x ∈ insert_sorted g hs)
        → (x ≡ g) ⊎ (x ∈ (h ∷ hs))
        → x ∈ (h ∷ insert_sorted g hs)
    later rest (inl a) = inr (rest (inl a))
    later rest (inr (inl b)) = inl b
    later rest (inr (inr b)) = inr (rest (inr b))

-- Reading the directory loses no record and makes none up.
pub mem-gates : (x : GateRecord) (dir : List GateRecord) → (x ∈ gates dir) ↔ (x ∈ dir)
unfolding gates
mem-gates x [] = (λ m. m, λ m. m)
mem-gates x (g ∷ gs) = (
  λ m. elim (mem-insert_sorted g x (gates gs) m) [
    | inl e ↦ inl e
    | inr k ↦ inr ((mem-gates x gs).0 k)
  ],
  λ m.
      insert_sorted-mem g x (gates gs)
        (elim m [ inl e ↦ inl e | inr k ↦ inr ((mem-gates x gs).1 k) ]),
)

not_after_trans : (x y z : Text) → text_lt y x ≡ false → text_lt z y ≡ false → text_lt z x ≡ false
unfolding text_lt
not_after_trans [] [] z h k = k
not_after_trans [] (y ∷ ys) [] h k = cc
not_after_trans [] (y ∷ ys) (z ∷ zs) h k = refl
not_after_trans (x ∷ xs) [] z h k = cc
not_after_trans (x ∷ xs) (y ∷ ys) [] h k = cc
not_after_trans (x ∷ xs) (y ∷ ys) (z ∷ zs) h k = ground (arith, not_after_trans xs ys zs)

not_after_antisym : (x y : Text) → text_lt y x ≡ false → text_lt x y ≡ false → x ≡ y
unfolding text_lt
not_after_antisym [] [] h k = refl
not_after_antisym [] (y ∷ ys) h k = cc
not_after_antisym (x ∷ xs) [] h k = cc
not_after_antisym (x ∷ xs) (y ∷ ys) h k = ground (arith, not_after_antisym xs ys)

text_lt_asym : (x y : Text) → text_lt x y ≡ true → text_lt y x ≡ false
unfolding text_lt
text_lt_asym [] [] h = cc
text_lt_asym [] (y ∷ ys) h = refl
text_lt_asym (x ∷ xs) [] h = cc
text_lt_asym (x ∷ xs) (y ∷ ys) h = ground (arith, text_lt_asym xs ys)

before_trans : (a b c : GateRecord) → before b a ≡ false → before c b ≡ false → before c a ≡ false
unfolding before
before_trans a b c h k = ground (
  arith,
  same_iff b.occurrence a.occurrence,
  same_iff c.occurrence b.occurrence,
  same_iff c.occurrence a.occurrence,
  not_after_trans a.occurrence b.occurrence c.occurrence,
  not_after_antisym a.occurrence b.occurrence,
)

before_asym : (a b : GateRecord) → before a b ≡ true → before b a ≡ false
unfolding before
before_asym a b h = ground (
  arith,
  same_iff a.occurrence b.occurrence,
  same_iff b.occurrence a.occurrence,
  text_lt_asym a.occurrence b.occurrence,
)

abbrev pub Ordered : List GateRecord → Type 0
Ordered [] = Unit
Ordered (g ∷ gs) = ((h : GateRecord) → h ∈ gs → before h g ≡ false) × Ordered gs

insert_sorted-Ordered :
    (g : GateRecord) (gs : List GateRecord) → Ordered gs → Ordered (insert_sorted g gs)
unfolding insert_sorted
insert_sorted-Ordered g [] o = (λ h m. absurd m, tt)
insert_sorted-Ordered g (h ∷ hs) o = elim (Bool-cases (before h g)) [
  | inl e ↦
      rw (e, insert_sorted)
        (
          λ x m. elim (mem-insert_sorted g x hs m) [
            | inl k ↦ rw k (before_asym h g e)
            | inr k ↦ o.0 x k
          ],
          insert_sorted-Ordered g hs o.1,
        )
  | inr e ↦
      rw (e, insert_sorted)
        (λ x m. elim m [ inl k ↦ rw k e | inr k ↦ before_trans g h x e (o.0 x k) ], o)
]

pub gates-Ordered : (dir : List GateRecord) → Ordered (gates dir)
unfolding gates
gates-Ordered [] = tt
gates-Ordered (g ∷ gs) = insert_sorted-Ordered g (gates gs) (gates-Ordered gs)
