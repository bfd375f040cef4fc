-- ===== src/Lib.antt =====
-- masuda: models and proofs for the Go program of this repository, which runs coding agents in
-- virtual machines, keeps what they may do within what a human has declared and approved, and asks
-- the human at gates and questions.
--
-- A workspace is one run of a workflow. The resident process (serve/) advances the workflow engine,
-- hands tasks to the agent's main session, records gates and questions, and reports events and
-- activity to clients. The runner (internal/runner) does what the engine asks: it sets the policy of
-- the sandbox before a node runs, keeps the engine's records, and commits the work tree to the
-- staging repository (internal/staging). Declarations and approvals come from internal/config;
-- privileged commands, which run in a machine of their own, from internal/privileged.
--
-- Common: tests, lists and texts that the models share. A text is the list of its code points, for
--   internal/privileged's output tail the list of its bytes; a Go map is the list of its entries.
-- Config: internal/config. Decl has the declared types of config.go and local.go with their
--   defaults; Names the regular expressions; Paths `path.Clean` and `validateEnvPath`; Egress
--   `AllowedEgress` and `HostAllowed`; Secrets `PrivilegedSecrets`; Validate
--   `Settings.Validate`; Hash `DeclHash`.
-- Privileged: internal/privileged. Glob has glob.go, Approval `Validate`, `ApprovalOf` and `Resolve`,
--   Tail the `tailBuffer`, Shell the refs and shell texts, Job the request of `Run`, Job/Run `runJob`, the
--   placing of results and `Run` itself.
-- Secrets: internal/secrets/secrets.go. Pitfalls: internal/pitfalls/pitfalls.go.
-- Runner: internal/runner. Policy has `CheckPolicy`, `SetPolicy` and `union` of runner.go; Data the data
--   references and the guest's outputs; Findings `importFindings`, `OpenGate` and `OpenQuestion`; Store
--   the `FileStore` of store.go, with the steps of `writeFileAtomic` that may fail.
-- Staging: internal/staging. Commit has commit.go, Publish publish.go; the records `Git` and `Commands`
--   have the git commands that they run.
-- Workspace: internal/workspace. Records has the gates and Questions the questions of records.go, Comments
--   comments.go.
-- Serve: serve/. Advance has `kick` and `advanceLoop` of run.go, Reflect its `reflect`, `positionOf` and
--   `wakesMainSession`; Wake has the sections under `seqMu` of run.go and wake.go; Events events.go; Gates
--   and Feedback gates.go with `runCtl.decide`; Questions questions.go with `runCtl.answer`; Activity
--   activity.go; Lifecycle lifecycle.go, whose operations exclude each other by `lifeMu`, while boots
--   and advances, which do not take it, write meanwhile; Tools the agent's tools of run.go;
--   Privileged privileged.go; Approvals config.go; Disk disk.go; Resources resources.go; Result the
--   errors that the services return.
-- Samples: concrete inputs on which the theorems are applied.
--
-- Outside are, as parameters: Go's `path.Match`, doublestar's `Match`, the hash of a declaration,
-- the existence of an image, the hash of a repository's path, git, the JSON encoding and decoding,
-- the sandbox service, the steps of a write that fail, and the engine's answers. Numbers are natural
-- numbers: times are nanoseconds, and the 64-bit counters of events and of records are taken not to
-- wrap. Texts of error messages are left out; an error is its kind. Loops are structural recursion,
-- but for two on fuel: `decimal` with one more than the number, of which each round takes a digit,
-- and `humanBytes` with six rounds, enough for 63 bits.
--
-- Not modelled: the engine, which is another repository; generated code; the command line; sockets,
-- streams and timers; the guest's scripts; a boot and the preparation of a guest; the loading of
-- definitions; snapshots and inspection of the staging repository; the lock `c.mu` and the calls of
-- `advance` that do not come from `advanceLoop`; `ask_human`; the commands that the runner has the guest run.
pub mod Common
pub mod Config
pub mod Privileged
pub mod Runner
pub mod Serve
pub mod Pitfalls
pub mod Secrets
pub mod Workspace
pub mod Staging
pub mod Samples
