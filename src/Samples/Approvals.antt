-- ===== src/Samples/Approvals.antt =====
-- A declared command and a declared host that are approved by a user who had approved neither.
use masuda.Common.{
  ◌≡◌, ◌≢◌, ◌↔◌, ◌⊎◌, refl, [], ◌∷◌, true, false, Text, codes, ◌∈◌, contains, same, lookup,
  trim_space, split, insert,
}
use masuda.Common.{ok}
use masuda.Config.Decl.{LocalSettings}
use masuda.Config.Egress.{allowed_egress}
use masuda.Privileged.Approval.{Resolved, resolve, validate, approval_state}
use masuda.Samples.Privileged.{glob, digest, has_image, settings, local}
use masuda.Serve.Approvals.{
  CommandEntry, approve_egress, reject_egress, approve_command, save_if, save_local,
  record_approval, privileged_entries, entries_of,
}
use masuda.Serve.Approvals.Hosts.{egress_decided}
use masuda.Serve.Approvals.Commands.{IsShown, approve_command-resolve}
use masuda.Config.Names.{valid_check_name}
use masuda.Privileged.Glob.{validate_pattern, segments_error, segment_error}
use masuda.Config.Hash.{decl_hash}
use masuda.Config.Secrets.{sorted_commands}

abbrev nothing_approved : LocalSettings
nothing_approved = record {
  egress_approved = [];
  secrets_approved = [];
  privileged_commands_approved = [];
  claude_token = [];
}

abbrev command_approved : LocalSettings
command_approved = record nothing_approved {
  privileged_commands_approved = (codes "deploy", codes "makep") ∷ [];
}

abbrev shown : CommandEntry
shown = record {
  name = codes "deploy";
  image = codes "default";
  command = codes "make";
  approved = true;
  stale = false;
}

approves :
    approve_command glob digest has_image true settings nothing_approved (codes "deploy")
    ≡ (command_approved, ok (shown ∷ []))
unfolding approve_command record_approval lookup same validate trim_space valid_check_name
    validate_pattern segments_error split segment_error decl_hash save_local insert
    privileged_entries entries_of sorted_commands approval_state
approves = refl

approve_command-resolve_example :
    ((r : Resolved) × (resolve glob digest has_image settings command_approved (codes "deploy")
        ≡ ok r))
    × ((other : Text)
        → other ≢ codes "deploy"
        → resolve glob digest has_image settings command_approved other
          ≡ resolve glob digest has_image settings nothing_approved other)
    × ((e : CommandEntry)
        → e ∈ (shown ∷ [])
        → e.approved ≡ true
        → IsShown glob digest has_image settings command_approved e)
approve_command-resolve_example =
    approve_command-resolve glob digest has_image true settings nothing_approved (codes "deploy")
      command_approved (shown ∷ []) approves

abbrev both_approved : LocalSettings
both_approved = record local { egress_approved = codes "a.test" ∷ codes "b.test" ∷ [] }

abbrev only_b : LocalSettings
only_b = record local { egress_approved = codes "b.test" ∷ [] }

approves_host : approve_egress true settings local (codes "b.test") ≡ ok both_approved
unfolding approve_egress contains same save_if save_local
approves_host = refl

rejects_host : reject_egress true settings both_approved (codes "a.test") ≡ ok only_b
unfolding reject_egress contains same save_if save_local
rejects_host = refl

egress_decided_example :
    ((x : Text)
      → (x ∈ allowed_egress settings both_approved)
        ↔ ((x ∈ allowed_egress settings local) ⊎ (x ≡ codes "b.test")))
    × ((x : Text)
        → (x ∈ allowed_egress settings only_b)
          ↔ ((x ∈ allowed_egress settings both_approved) × (x ≢ codes "a.test")))
egress_decided_example =
    egress_decided true true settings local both_approved only_b (codes "b.test") (codes "a.test")
      approves_host rejects_host
