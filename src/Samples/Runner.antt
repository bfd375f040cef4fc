-- ===== src/Samples/Runner.antt =====
-- A node's policy and a store of records, with an encoding of its map.
use masuda.Common.{
  ℕ, zero, suc, ◌≡◌, refl, ap, ◌∙◌, ◌↔◌, ◌⊎◌, List, [], ◌∷◌, ◌++◌, Option, none, some, Bool, true,
  false, ◌∈◌, Distinct, Text, codes, same, lookup, cut_prefix, contains, append_new, insert,
}
use masuda.Config.Egress.{host_allowed, one_allows}
use masuda.Runner.Policy.{
  Policy, Options, SandboxPolicy, sent, set_policy, check_policy, problems_of, may_reach,
  may_select, sandbox_policy, union,
}
use masuda.Runner.Policy.Bounds.{Within, set_policy_iff, set_policy_bounds}
use masuda.Runner.Store.{
  Values, Json, op_put, op_delete, op_check, Op, WriteStep, rename_temp, Disk, FileStore,
  checks_hold, apply, open_file_store, get, records, apply_locked, changes, write_file_atomic,
  write_ops, write_op,
}
use masuda.Runner.Store.Atomic.{Outcome, apply-Outcome}
use masuda.Runner.Store.Durable.{apply_all, apply_all-reopen}

abbrev options : Options
options = record {
  always_hosts = codes "api.test" ∷ [];
  always_secrets = codes "T" ∷ [];
  egress = codes "a.test" ∷ [];
  secrets = codes "S" ∷ [];
  plaintext = [];
}

abbrev policy : Policy
policy = record { egress = codes "a.test" ∷ []; secrets = codes "S" ∷ [] }

abbrev told : SandboxPolicy
told = record {
  allowed_hosts = codes "api.test" ∷ codes "a.test" ∷ [];
  enabled_secrets = codes "T" ∷ codes "S" ∷ [];
}

set_policy_runs : set_policy options policy ≡ sent told
unfolding set_policy check_policy problems_of may_reach host_allowed one_allows same cut_prefix
    may_select contains sandbox_policy union append_new
set_policy_runs = refl

set_policy_bounds_example :
    ((h : Text)
      → h ∈ told.allowed_hosts
      → (h ∈ options.always_hosts)
        ⊎ ((h ∈ policy.egress) × (host_allowed (options.always_hosts ++ options.egress) h ≡ true)))
    × ((n : Text)
        → n ∈ told.enabled_secrets
        → (n ∈ options.always_secrets) ⊎ ((n ∈ policy.secrets) × (n ∈ options.secrets)))
    × Distinct told.allowed_hosts
    × Distinct told.enabled_secrets
set_policy_bounds_example = set_policy_bounds options policy told set_policy_runs

set_policy_iff_example :
    ((q : SandboxPolicy) × (set_policy options policy ≡ sent q)) ↔ Within options policy
set_policy_iff_example = set_policy_iff options policy

-- Each text ends in a 0, and its characters stand one higher.
abbrev put_text : Text → Text → Text
put_text [] rest = 0 ∷ rest
put_text (c ∷ s) rest = suc c ∷ put_text s rest

abbrev encode : Values → Text
encode [] = []
encode ((k, v) ∷ m) = put_text k (put_text v (encode m))

abbrev push : ℕ → List Text → List Text
push c [] = (c ∷ []) ∷ []
push c (t ∷ ts) = (c ∷ t) ∷ ts

abbrev texts : Text → List Text
texts [] = []
texts (zero ∷ s) = [] ∷ texts s
texts (suc c ∷ s) = push c (texts s)

abbrev cons_entry : Text → Text → Option Values → Option Values
cons_entry k v none = none
cons_entry k v (some m) = some ((k, v) ∷ m)

abbrev paired : List Text → Option Values
paired [] = some []
paired (k ∷ []) = none
paired (k ∷ v ∷ ts) = cons_entry k v (paired ts)

texts-put_text : (k rest : Text) → texts (put_text k rest) ≡ k ∷ texts rest
texts-put_text [] rest = refl
texts-put_text (c ∷ k) rest = ap (push c) (texts-put_text k rest)

paired-encode : (m : Values) → paired (texts (encode m)) ≡ some m
paired-encode [] = refl
paired-encode ((k, v) ∷ m) =
    ap paired (texts-put_text k (put_text v (encode m)))
    ∙ ap (λ ts. paired (k ∷ ts)) (texts-put_text v (encode m))
    ∙ ap (cons_entry k v) (paired-encode m)

abbrev json : Json
json = record {
  marshal = encode;
  unmarshal = λ s. paired (texts s);
  unmarshal-marshal = λ m. (m, paired-encode m, λ k. refl);
}

abbrev no_fault : WriteStep → Bool
no_fault step = false

abbrev no_rename : WriteStep → Bool
no_rename rename_temp = true
no_rename _ = false

abbrev empty_disk : Disk
empty_disk = record { main = none; temps = [] }

abbrev empty_store : FileStore
empty_store = record { m = []; disk = empty_disk }

abbrev set_a : List Op
set_a =
    record { kind = op_check; key = codes "a"; value = none }
    ∷ record { kind = op_put; key = codes "a"; value = some (codes "1") }
    ∷ []

apply-Outcome_example : Outcome set_a empty_store (apply json no_fault set_a empty_store)
apply-Outcome_example = apply-Outcome json no_fault set_a empty_store

abbrev calls : List ((WriteStep → Bool) × List Op)
calls =
    (no_fault, set_a)
    ∷ (no_rename, record { kind = op_delete; key = codes "a"; value = none } ∷ [])
    ∷ []

opens : open_file_store json empty_disk ≡ some empty_store
unfolding open_file_store records
opens = refl

apply_all-reopen_example :
    (s' : FileStore) × (open_file_store json (apply_all json calls empty_store).disk ≡ some s')
    × ((k : Text) → get k s' ≡ get k (apply_all json calls empty_store))
apply_all-reopen_example = apply_all-reopen json empty_disk empty_store calls opens

-- The write whose rename fails leaves the earlier value.
rename_fails : get (codes "a") (apply_all json calls empty_store) ≡ some (codes "1")
unfolding get lookup apply_all apply checks_hold apply_locked changes write_file_atomic write_ops
    write_op insert same
rename_fails = refl
