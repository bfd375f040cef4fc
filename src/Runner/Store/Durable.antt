-- ===== src/Runner/Store/Durable.antt =====
-- The file keeps what the memory has (`Apply` and `OpenFileStore`, internal/runner/store.go).
use masuda.Common.{
  ◌≡◌, refl, sym, ap, subst, ◌∙◌, List, [], ◌∷◌, Option, some, Bool, inl, inr, Bool-cases,
  Option-cases, Text, lookup,
}
use masuda.Runner.Store.{
  Values, Json, Op, WriteStep, Disk, FileStore, checks_hold, apply_locked, apply, records,
  open_file_store, get,
}
use masuda.Runner.Store.Atomic.{Locked, same_values, kept, replaced, apply_locked-Locked}

-- What a file holds answers every key as the map does.
Holds : Json → Option Text → Values → Type 0
Holds json main m =
    (m' : Values) × (records json main ≡ some m') × ((k : Text) → lookup k m' ≡ lookup k m)

Locked-Holds :
    (json : Json) (ops : List Op) (s : FileStore) (r : Bool × FileStore)
    → Locked json ops s r
    → Holds json s.disk.main s.m
    → Holds json r.1.disk.main r.1.m
unfolding records Holds
Locked-Holds json ops s _ (same_values t) h = h
Locked-Holds json ops s _ (kept s' e k) (m, o, at) =
    (m, ap (records json) k ∙ o, λ j. at j ∙ ap (lookup j) (sym e))
Locked-Holds json ops s _ (replaced s' e k) h =
    let (m, o, at) = json.unmarshal-marshal s'.m in (m, ap (records json) k ∙ o, at)

apply-Holds :
    (json : Json) (fails : WriteStep → Bool) (ops : List Op) (s : FileStore)
    → Holds json s.disk.main s.m
    → Holds json (apply json fails ops s).1.disk.main (apply json fails ops s).1.m
unfolding apply
apply-Holds json fails ops s h = elim (Bool-cases (checks_hold s.m ops)) [
  | inr t ↦ rw t h
  | inl t ↦ elim (Bool-cases (apply_locked json fails ops s).0) [
    | inl u ↦ rw t (rw u (Locked-Holds json ops s _ (apply_locked-Locked json fails ops s) h))
    | inr u ↦ rw t (rw u (Locked-Holds json ops s _ (apply_locked-Locked json fails ops s) h))
  ]
]

-- Several calls of `Apply`, each with the steps that fail in its write.
unfoldable pub apply_all : Json → List ((WriteStep → Bool) × List Op) → FileStore → FileStore
apply_all json [] s = s
apply_all json ((fails, ops) ∷ calls) s = apply_all json calls (apply json fails ops s).1

apply_all-Holds :
    (json : Json) (calls : List ((WriteStep → Bool) × List Op)) (s : FileStore)
    → Holds json s.disk.main s.m
    → Holds json (apply_all json calls s).disk.main (apply_all json calls s).m
unfolding apply_all
apply_all-Holds json [] s h = h
apply_all-Holds json ((fails, ops) ∷ calls) s h =
    apply_all-Holds json calls (apply json fails ops s).1 (apply-Holds json fails ops s h)

same_store : (s t : FileStore) → ◌≡◌ {A = Option FileStore} (some s) (some t) → s ≡ t
same_store s t h = cc

open_file_store-some :
    (json : Json) (d : Disk) (s : FileStore)
    → open_file_store json d ≡ some s
    → Holds json s.disk.main s.m
unfolding open_file_store Holds
open_file_store-some json d s h = elim (Option-cases (records json d.main)) [
  | inl e ↦ cc (rw (e, open_file_store) at h)
  | inr (m, e) ↦
      subst (λ (t : FileStore). Holds json t.disk.main t.m)
        (same_store _ _ (rw (e, open_file_store) at h)) (m, e, λ k. refl)
]

-- After `OpenFileStore` and any calls of `Apply`, whichever steps of their writes failed, opening the
-- file again succeeds, and the store then answers every `Get` as the one in memory does.
pub apply_all-reopen :
    (json : Json) (d : Disk) (s : FileStore) (calls : List ((WriteStep → Bool) × List Op))
    → open_file_store json d ≡ some s
    → (s' : FileStore) × (open_file_store json (apply_all json calls s).disk ≡ some s')
      × ((k : Text) → get k s' ≡ get k (apply_all json calls s))
unfolding open_file_store get Holds
apply_all-reopen json d s calls h =
    let (m, o, at) = apply_all-Holds json calls s (open_file_store-some json d s h) in
    (record { m = m; disk = (apply_all json calls s).disk }, rw (o, open_file_store) refl, at)
