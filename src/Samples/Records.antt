-- ===== src/Samples/Records.antt =====
-- A gate that is opened and closed again.
use masuda.Common.{ℕ, ◌≡◌, refl, ◌↔◌, ◌⊎◌, [], ◌∷◌, none, some, ◌∈◌, codes, same}
use masuda.Workspace.Records.{
  GateRecord, add_gate, latest_gate, supersede_gate, next_seq, write_file, gates, insert_sorted,
}
use masuda.Workspace.Records.Files.{UniqueFiles}
use masuda.Workspace.Records.Closing.{Closed, add_gate-opens, supersede_gate-Closed}
use masuda.Config.Names.{valid_occurrence}

abbrev numbered : ℕ → GateRecord
numbered n = record {
  occurrence = codes "o1";
  seq = n;
  gate = codes "diff";
  target = [];
  target_hash = codes "h";
  subject = [];
  staging_commit = [];
  opened_at = 1;
  decision = none;
}

add_runs : add_gate (numbered 0) (numbered 1 ∷ []) ≡ some (numbered 2, numbered 1 ∷ numbered 2 ∷ [])
unfolding add_gate valid_occurrence next_seq write_file gates same insert_sorted
add_runs = refl

one_is_unique : UniqueFiles (numbered 1 ∷ [])
one_is_unique = (λ h m. absurd m, tt)

add_gate-opens_example :
    (latest_gate (codes "o1") (numbered 1 ∷ numbered 2 ∷ []) ≡ some (numbered 2))
    × ((x : GateRecord)
        → (x ∈ (numbered 1 ∷ numbered 2 ∷ [])) ↔ ((x ≡ numbered 2) ⊎ (x ∈ (numbered 1 ∷ []))))
    × UniqueFiles (numbered 1 ∷ numbered 2 ∷ [])
add_gate-opens_example =
    add_gate-opens (numbered 0) (numbered 1 ∷ []) (numbered 2) (numbered 1 ∷ numbered 2 ∷ [])
      one_is_unique add_runs

supersede_gate-Closed_example :
    Closed
      (codes "o1")
      (numbered 1 ∷ [])
      (supersede_gate (codes "o1") (codes "stopped") 9 (numbered 1 ∷ []))
supersede_gate-Closed_example =
    supersede_gate-Closed (codes "o1") (codes "stopped") 9 (numbered 1 ∷ []) one_is_unique
