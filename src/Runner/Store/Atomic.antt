-- ===== src/Runner/Store/Atomic.antt =====
-- A list of operations is written as a whole or not at all, and the file keeps what the memory has
-- (`Apply`, internal/runner/store.go).
use masuda.Common.{
  ◌≡◌, refl, sym, ap, subst, ◌∙◌, ◌↔◌, ◌⊎◌, inl, inr, List, [], ◌∷◌, Option, none, some, Bool, true,
  false, ◌||◌, if◌then◌else◌, arith, ◌∈◌, Bool-cases, if_either, Text, same, same_iff, lookup,
  lookup-insert,
}
use masuda.Runner.Store.{
  Values, Json, OpKind, op_put, op_delete, op_check, Op, WriteStep, Disk, FileStore, delete,
  bytes_of, write_file_atomic, check_value, checks_hold, write_kind, write_op, write_ops, is_write,
  changes, Applied, apply_locked, apply, get,
}

abbrev written : OpKind → Option Text → Option (Option Text)
written op_put v = some (some (elim v [ none ↦ [] | some b ↦ b ]))
written op_delete v = some none
written op_check v = none

-- What the last write among the operations leaves at a key, if one of them writes there.
abbrev writes : Text → Op → Option (Option Text)
writes k op = if same op.key k then written op.kind op.value else none

abbrev pub last_write : Text → List Op → Option (Option Text)
last_write k [] = none
last_write k (op ∷ ops) = elim (last_write k ops) [ some w ↦ some w | none ↦ writes k op ]

abbrev pub after : Text → List Op → Option Text → Option Text
after k ops before = elim (last_write k ops) [ none ↦ before | some w ↦ w ]

lookup-delete :
    (k j : Text) (m : Values) → lookup j (delete k m) ≡ (if same k j then none else lookup j m)
unfolding lookup delete
lookup-delete k j [] = ground (arith)
lookup-delete k j ((i, w) ∷ m) =
    ground (arith, same_iff k j, same_iff i k, same_iff i j, lookup-delete k j m)

lookup-write_kind :
    (kind : OpKind) (j : Text) (v : Option Text) (k : Text) (m : Values)
    → lookup k (write_kind kind j v m)
      ≡ (elim (if same j k then written kind v else none) [ none ↦ lookup k m | some w ↦ w ])
unfolding write_kind bytes_of
lookup-write_kind op_put j none k m = ground (arith, lookup-insert j k [] m)
lookup-write_kind op_put j (some b) k m = ground (arith, lookup-insert j k b m)
lookup-write_kind op_delete j v k m = ground (arith, lookup-delete j k m)
lookup-write_kind op_check j v k m = ground arith

lookup-write_op :
    (op : Op) (k : Text) (m : Values)
    → lookup k (write_op op m) ≡ (elim (writes k op) [ none ↦ lookup k m | some w ↦ w ])
unfolding write_op
lookup-write_op op k m = lookup-write_kind op.kind op.key op.value k m

lookup-write_ops :
    (ops : List Op) (k : Text) (m : Values) → lookup k (write_ops ops m) ≡ after k ops (lookup k m)
unfolding write_ops
lookup-write_ops [] k m = refl
lookup-write_ops (op ∷ ops) k m =
    lookup-write_ops ops k (write_op op m) ∙ ground (arith, lookup-write_op op k m)

check_value_iff :
    (kind : OpKind) (v cur : Option Text)
    → (check_value kind v cur ≡ true) ↔ (kind ≡ op_check → cur ≡ v)
unfolding check_value
check_value_iff op_put v cur = (λ h e. cc, λ h. refl)
check_value_iff op_delete v cur = (λ h e. cc, λ h. refl)
check_value_iff op_check none none = (λ h e. refl, λ h. refl)
check_value_iff op_check none (some cur) = (λ h. cc, λ h. cc (h refl))
check_value_iff op_check (some v) none = (λ h. cc, λ h. cc (h refl))
check_value_iff op_check (some v) (some cur) =
    (λ h e. ap some ((same_iff cur v).0 h), λ h. (same_iff cur v).1 (cc (h refl)))

-- The checks of `Apply` hold exactly where each key that is checked has the value that is named, and
-- is missing where none is named.
checks_hold_iff :
    (m : Values) (ops : List Op)
    → (checks_hold m ops ≡ true)
      ↔ ((op : Op) → op ∈ ops → op.kind ≡ op_check → lookup op.key m ≡ op.value)
unfolding checks_hold
checks_hold_iff m [] = (λ h op k. absurd k, λ h. refl)
checks_hold_iff m (op ∷ ops) =
    let here = check_value_iff op.kind op.value (lookup op.key m) in
    let rest = checks_hold_iff m ops in
    (
      λ h op' k e. elim k [
        | inl same_op ↦
            subst (λ (o : Op). o.kind ≡ op_check → lookup o.key m ≡ o.value) (sym same_op)
              (here.0 (both h).0) e
        | inr k' ↦ rest.0 (both h).1 op' k' e
      ],
      λ h. rw (here.1 (h op (inl refl))) (rest.1 (λ op' k. h op' (inr k))),
    )
  where
    both : {a b : Bool} → (if a then b else false) ≡ true → (a ≡ true) × (b ≡ true)
    both h = ground arith

-- A write succeeds and leaves the bytes in the file, or fails and leaves the file as it was.
Written : Text → Disk → Bool × Disk → Type 0
Written b d r = ((r.0 ≡ true) × (r.1.main ≡ some b)) ⊎ ((r.0 ≡ false) × (r.1.main ≡ d.main))

write_file_atomic-Written :
    (fails : WriteStep → Bool) (b : Text) (d : Disk) → Written b d (write_file_atomic fails b d)
unfolding write_file_atomic Written
write_file_atomic-Written fails b d = if_either (Written b d) (fails _) (inr (refl, refl)) (
    if_either (Written b d) (fails _) (inr (refl, refl)) (
      if_either (Written b d) (fails _) (inr (refl, refl)) (
        if_either (Written b d) (fails _) (inr (refl, refl))
          (if_either (Written b d) (fails _) (inr (refl, refl)) (inl (refl, refl))))))

write_kind-same :
    (kind : OpKind) (k : Text) (v : Option Text) (m : Values)
    → is_write kind ≡ false
    → write_kind kind k v m ≡ m
unfolding is_write write_kind
write_kind-same op_put k v m h = cc
write_kind-same op_delete k v m h = cc
write_kind-same op_check k v m h = refl

neither : (a b : Bool) → (a || b) ≡ false → (a ≡ false) × (b ≡ false)
neither a b h = ground arith

write_ops-same : (ops : List Op) (m : Values) → changes ops ≡ false → write_ops ops m ≡ m
unfolding write_ops write_op changes
write_ops-same [] m h = refl
write_ops-same (op ∷ ops) m h =
    let (none_here, none_later) = neither (is_write op.kind) (changes ops) h in
    rw (write_kind-same op.kind op.key op.value m none_here) (write_ops-same ops m none_later)

-- What one call of `Apply` can come to: nothing is done where a check fails; a write that fails
-- leaves the memory and the file; and otherwise each key has what the last operation on it wrote.
pub data Outcome (ops : List Op) (s : FileStore) : Applied × FileStore → Type 0 where
  not_held : checks_hold s.m ops ≡ false → Outcome ops s (Applied.applied false, s)
  not_written :
      (s' : FileStore)
      → checks_hold s.m ops ≡ true
      → s'.m ≡ s.m
      → s'.disk.main ≡ s.disk.main
      → Outcome ops s (Applied.write_failed, s')
  done :
      (s' : FileStore)
      → checks_hold s.m ops ≡ true
      → ((k : Text) → get k s' ≡ after k ops (get k s))
      → Outcome ops s (Applied.applied true, s')

-- What one call of `applyLocked` can come to.
pub data Locked (json : Json) (ops : List Op) (s : FileStore) : Bool × FileStore → Type 0 where
  same_values : changes ops ≡ false → Locked json ops s (true, s)
  kept : (s' : FileStore) → s'.m ≡ s.m → s'.disk.main ≡ s.disk.main → Locked json ops s (false, s')
  replaced :
      (s' : FileStore)
      → s'.m ≡ write_ops ops s.m
      → s'.disk.main ≡ some (json.marshal s'.m)
      → Locked json ops s (true, s')

pub apply_locked-Locked :
    (json : Json) (fails : WriteStep → Bool) (ops : List Op) (s : FileStore)
    → Locked json ops s (apply_locked json fails ops s)
unfolding apply_locked Written
apply_locked-Locked json fails ops s = elim (Bool-cases (changes ops)) [
  | inr t ↦ rw t (Locked.same_values t)
  | inl t ↦ elim (write_file_atomic-Written fails (json.marshal (write_ops ops s.m)) s.disk) [
    | inl (e, k) ↦ rw t (rw e (Locked.replaced _ refl k))
    | inr (e, k) ↦ rw t (rw e (Locked.kept _ refl k))
  ]
]

of_Locked :
    (json : Json) (ops : List Op) (s : FileStore) (r : Bool × FileStore)
    → checks_hold s.m ops ≡ true
    → Locked json ops s r
    → Outcome ops s (if r.0 then (Applied.applied true, r.1) else (Applied.write_failed, r.1))
unfolding get
of_Locked json ops s _ t (same_values u) =
    Outcome.done s t
      (λ k. ap (lookup k) (sym (write_ops-same ops s.m u)) ∙ lookup-write_ops ops k s.m)
of_Locked json ops s _ t (kept s' e k) = Outcome.not_written s' t e k
of_Locked json ops s _ t (replaced s' e _) =
    Outcome.done s' t (λ k. ap (lookup k) e ∙ lookup-write_ops ops k s.m)

-- Every call of `Apply`, whichever step of its write fails, comes to one of these: a check does not
-- hold and nothing changes; the write fails, and the memory and the file are as before; or every
-- check held and each key has what the last operation on it wrote.
pub apply-Outcome :
    (json : Json) (fails : WriteStep → Bool) (ops : List Op) (s : FileStore)
    → Outcome ops s (apply json fails ops s)
unfolding apply
apply-Outcome json fails ops s = elim (Bool-cases (checks_hold s.m ops)) [
  | inr t ↦ rw t (Outcome.not_held t)
  | inl t ↦ rw t (of_Locked json ops s _ t (apply_locked-Locked json fails ops s))
]
