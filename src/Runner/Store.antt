-- ===== src/Runner/Store.antt =====
-- internal/runner/store.go: the engine's records, a map in memory and the one file that holds it.
-- Outside are the JSON encoding, `json`, and which step of a write to the disk fails, `fails`. A
-- value is its bytes; the lock makes each call one step.
pub mod Atomic
pub mod Durable
use masuda.Common.{
  ◌≡◌, List, [], ◌∷◌, Option, none, some, Bool, true, false, not, ◌||◌, if◌then◌else◌, keep, Text,
  same, lookup, insert, has_prefix,
}

abbrev pub Values : Type 0
Values = List (Text × Text)

-- `json.Marshal` and `json.Unmarshal` of a `map[string][]byte`: what was encoded is read back as the
-- same map.
pub record Json : Type 0 where
  pub marshal : Values → Text
  pub unmarshal : Text → Option Values
  pub unmarshal-marshal :
      (m : Values)
      → (m' : Values) × (unmarshal (marshal m) ≡ some m') × ((k : Text) → lookup k m' ≡ lookup k m)

-- `engine.Op`: a check has no value where the key has to be missing.
pub data OpKind : Type 0 where
  op_put : OpKind
  op_delete : OpKind
  op_check : OpKind

pub record Op : Type 0 where
  pub kind : OpKind
  pub key : Text
  pub value : Option Text

-- The steps of `writeFileAtomic`.
pub data WriteStep : Type 0 where
  make_dir : WriteStep
  create_temp : WriteStep
  write_temp : WriteStep
  close_temp : WriteStep
  rename_temp : WriteStep

-- The file at the store's path, and the temporary files that are left beside it.
pub record Disk : Type 0 where
  pub main : Option Text
  pub temps : List Text

-- `FileStore` and the disk below it.
pub record FileStore : Type 0 where
  pub m : Values
  pub disk : Disk

-- `delete` on a map.
unfoldable pub delete : Text → Values → Values
delete k = keep (λ e. not (same e.0 k))

bytes_of : Option Text → Text
bytes_of none = []
bytes_of (some v) = v

-- `writeFileAtomic`: whether it succeeded, and the disk.
unfoldable pub write_file_atomic : (WriteStep → Bool) → Text → Disk → Bool × Disk
write_file_atomic fails b d =
    if fails make_dir
    then (false, d)
    else if fails create_temp
    then (false, d)
    else if fails write_temp
    then (false, d)
    else if fails close_temp
    then (false, d)
    else if fails rename_temp
    then (false, record { main = d.main; temps = b ∷ d.temps })
    else (true, record { main = some b; temps = d.temps })

-- The first loop of `Apply`: the operation's kind and value, and what the map has at its key.
check_value : OpKind → Option Text → Option Text → Bool
check_value op_put v cur = true
check_value op_delete v cur = true
check_value op_check none none = true
check_value op_check none (some cur) = false
check_value op_check (some v) none = false
check_value op_check (some v) (some cur) = same cur v

unfoldable pub checks_hold : Values → List Op → Bool
unfolding check_value
checks_hold m [] = true
checks_hold m (op ∷ ops) =
    if check_value op.kind op.value (lookup op.key m) then checks_hold m ops else false

-- The loop of `applyLocked`.
write_kind : OpKind → Text → Option Text → Values → Values
unfolding bytes_of
write_kind op_put k v m = insert k (bytes_of v) m
write_kind op_delete k v m = delete k m
write_kind op_check k v m = m

unfoldable pub write_op : Op → Values → Values
unfolding write_kind
write_op op m = write_kind op.kind op.key op.value m

unfoldable pub write_ops : List Op → Values → Values
write_ops [] m = m
write_ops (op ∷ ops) m = write_ops ops (write_op op m)

is_write : OpKind → Bool
is_write op_put = true
is_write op_delete = true
is_write op_check = false

unfoldable pub changes : List Op → Bool
unfolding is_write
changes [] = false
changes (op ∷ ops) = is_write op.kind || changes ops

-- What `Apply` returns: whether the checks held, or the error of the write.
pub data Applied : Type 0 where
  applied : Bool → Applied
  write_failed : Applied

module _ (json : Json) where
  open json use {marshal, unmarshal}

  -- `applyLocked`: without an error or with it.
  unfoldable pub apply_locked : (WriteStep → Bool) → List Op → FileStore → Bool × FileStore
  apply_locked fails ops s =
      let next = write_ops ops s.m in
      let (written, disk) = write_file_atomic fails (marshal next) s.disk in
      if not (changes ops)
      then (true, s)
      else if written
      then (true, record { m = next; disk = disk })
      else (false, record (s) { disk = disk })

  -- `Put` and `Delete`.
  unfoldable pub put : (WriteStep → Bool) → Text → Text → FileStore → Bool × FileStore
  put fails k v = apply_locked fails (record { kind = op_put; key = k; value = some v } ∷ [])

  unfoldable pub remove : (WriteStep → Bool) → Text → FileStore → Bool × FileStore
  remove fails k = apply_locked fails (record { kind = op_delete; key = k; value = none } ∷ [])

  -- `Apply`.
  unfoldable pub apply : (WriteStep → Bool) → List Op → FileStore → Applied × FileStore
  apply fails ops s =
      let (done, s') = apply_locked fails ops s in
      if not (checks_hold s.m ops)
      then (applied false, s)
      else if done
      then (applied true, s')
      else (write_failed, s')

  -- The records in a file: none for one that does not decode.
  unfoldable pub records : Option Text → Option Values
  records none = some []
  records (some b) = unmarshal b

  -- `OpenFileStore` on a disk.
  unfoldable pub open_file_store : Disk → Option FileStore
  open_file_store d = elim (records d.main) [
    | none ↦ none
    | some m ↦ some (record { m = m; disk = d })
  ]

-- `Get`.
unfoldable pub get : Text → FileStore → Option Text
get k s = lookup k s.m
