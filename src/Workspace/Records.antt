-- ===== src/Workspace/Records.antt =====
-- internal/workspace/records.go: the records of gates. The directory `records/gates` is the list of
-- its files, one for each occurrence and number; reading it sorts them. Times are numbers.
pub mod Order
pub mod Latest
pub mod Files
pub mod Closing
use masuda.Common.{
  ℕ, ◌+◌, List, [], ◌∷◌, Option, none, some, Bool, true, false, ◌&&◌, ◌||◌, not, if◌then◌else◌, ltb,
  leb, ◌==◌, keep, Text, codes, same,
}
use masuda.Common.{text_lt}
use masuda.Config.Names.{valid_occurrence}

pub record DecisionRecord : Type 0 where
  pub outcome : Text
  pub comment : Text
  pub target_hash : Text
  pub approved_files : List Text
  pub decided_at : ℕ

pub record GateRecord : Type 0 where
  pub occurrence : Text
  pub seq : ℕ
  pub gate : Text
  pub target : Text
  pub target_hash : Text
  pub subject : Text
  pub staging_commit : Text
  pub opened_at : ℕ
  pub decision : Option DecisionRecord

-- `OutcomeSuperseded`.
abbrev pub outcome_superseded : Text
outcome_superseded = codes "superseded"

-- The order of `gatesLocked`.
unfoldable pub before : GateRecord → GateRecord → Bool
before a b =
    if same a.occurrence b.occurrence then ltb a.seq b.seq else text_lt a.occurrence b.occurrence

-- `sort.SliceStable`, by insertion.
unfoldable pub insert_sorted : GateRecord → List GateRecord → List GateRecord
insert_sorted g [] = g ∷ []
insert_sorted g (h ∷ hs) = if before h g then h ∷ insert_sorted g hs else g ∷ h ∷ hs

-- `Gates`.
unfoldable pub gates : List GateRecord → List GateRecord
gates [] = []
gates (g ∷ gs) = insert_sorted g (gates gs)

-- The file `<occurrence>-<seq>.json`.
abbrev pub same_file : GateRecord → GateRecord → Bool
same_file a b = same a.occurrence b.occurrence && a.seq == b.seq

-- `writeJSON`: replace the file or make it.
unfoldable pub write_file : GateRecord → List GateRecord → List GateRecord
write_file g [] = g ∷ []
write_file g (h ∷ hs) = if same_file h g then g ∷ hs else h ∷ write_file g hs

-- The loop of `AddGate` over the records there are.
unfoldable pub next_seq : Text → ℕ → List GateRecord → ℕ
next_seq occ seq [] = seq
next_seq occ seq (o ∷ os) =
    next_seq occ (if same o.occurrence occ && leb seq o.seq then o.seq + 1 else seq) os

-- `AddGate`: the numbered record and the directory; `none` is the refusal of a bad occurrence.
unfoldable pub add_gate : GateRecord → List GateRecord → Option (GateRecord × List GateRecord)
add_gate g dir =
    if valid_occurrence g.occurrence
    then (let numbered = record g { seq = next_seq g.occurrence 1 (gates dir) } in
        some (numbered, write_file numbered dir))
    else none

-- `SaveGate`.
unfoldable pub save_gate : GateRecord → List GateRecord → Option (List GateRecord)
save_gate g dir = if valid_occurrence g.occurrence then some (write_file g dir) else none

-- The last record of an occurrence: the loop that `SupersedeGate` and `latestGate` share.
unfoldable pub last_of : Text → Option GateRecord → List GateRecord → Option GateRecord
last_of occ found [] = found
last_of occ found (g ∷ gs) = last_of occ (if same g.occurrence occ then some g else found) gs

-- `latestGate` of serve/gates.go.
unfoldable pub latest_gate : Text → List GateRecord → Option GateRecord
latest_gate occ dir = last_of occ none (gates dir)

undecided : GateRecord → Bool
undecided g = elim g.decision [ none ↦ true | some d ↦ false ]

-- `SupersedeGate`: whether it closed a gate, and the directory.
unfoldable pub supersede_gate : Text → Text → ℕ → List GateRecord → Bool × List GateRecord
unfolding undecided
supersede_gate occ comment at dir = elim (latest_gate occ dir) [
  | none ↦ (false, dir)
  | some g ↦
      if undecided g
      then (
        true,
        write_file
            (record g {
              decision = some (record {
                outcome = outcome_superseded;
                comment = comment;
                target_hash = [];
                approved_files = [];
                decided_at = at;
              });
            })
            dir,
      )
      else (false, dir)
]

-- `OpenGates`.
unfoldable pub open_gates : List GateRecord → List GateRecord
unfolding undecided
open_gates dir = keep undecided (gates dir)
