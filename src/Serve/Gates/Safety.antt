-- ===== src/Serve/Gates/Safety.antt =====
-- What has to hold before a human's decision on a gate takes effect (serve/gates.go).
use masuda.Common.{
  ℕ, ◌≡◌, refl, ap, sym, ◌∙◌, List, [], Option, none, some, Bool, true, false, ◌&&◌, not, arith,
  ◌∈◌, Text, same, same_iff, contains, contains_iff,
}
use masuda.Workspace.Records.{GateRecord, latest_gate, save_gate, write_file}
use masuda.Serve.Gates.{
  EngineNames, Decision, Found, gate_outcomes, to_engine, decided, is_decided, code_of, decide,
}
use masuda.Common.{ok, refuse_if, or_err, >>=-ok, refuse_if-ok, or_err-ok, not-false, ok_pair}
use masuda.Serve.Result.{
  EngineReply, accepted, invalid_argument, not_found, failed_precondition, internal,
}

is_decided-none : (g : GateRecord) → is_decided g ≡ false → g.decision ≡ none
unfolding is_decided
is_decided-none g h = ground arith

code_of-ok : (r : EngineReply) {u : Unit {0}} → code_of r ≡ ok u → r ≡ accepted
code_of-ok EngineReply.accepted h = refl
code_of-ok EngineReply.not_implemented h = cc
code_of-ok EngineReply.refused h = cc

save_gate-some :
    (g : GateRecord) (dir : List GateRecord) {dir' : List GateRecord}
    → save_gate g dir ≡ some dir'
    → dir' ≡ write_file g dir
unfolding save_gate
save_gate-some g dir h = ground arith

module _ (names : EngineNames) (engine : Text → Decision → EngineReply) where
  -- A decision `d` on the gate `g` that took effect, with the record and the directory after it.
  pub record Taken (now : ℕ) (w : Found) (occurrence : Text) (d : Decision) (g g' : GateRecord)
      (dir' : List GateRecord) : Type 0 where
    pub latest : latest_gate occurrence w.dir ≡ some g
    pub was_open : g.decision ≡ none
    pub fits : d.outcome ∈ gate_outcomes names g.gate
    pub reviewed : d.outcome ≡ names.outcome_approved → d.target_hash ≡ g.target_hash
    pub running : w.running ≡ true
    pub agreed : engine g.occurrence (to_engine names w.comments g d) ≡ accepted
    pub recorded : g' ≡ decided names now d g
    pub written : dir' ≡ write_file g' w.dir

  reviewed_of :
      (d : Decision) (g : GateRecord)
      → (same d.outcome names.outcome_approved && not (same d.target_hash g.target_hash)) ≡ false
      → d.outcome ≡ names.outcome_approved
      → d.target_hash ≡ g.target_hash
  reviewed_of d g h e =
      ground
        (arith, same_iff d.outcome names.outcome_approved, same_iff d.target_hash g.target_hash)

  -- A decision takes effect only on the latest gate of its occurrence, while that gate is undecided
  -- and the workspace runs, with an outcome of that kind of gate, and approves only the content that
  -- was reviewed; the engine has accepted it, and the one record that changes is that gate's.
  pub decide-Taken :
      (now : ℕ) (workspace : Option Found) (occurrence : Text) (request : Option Decision)
      (g' : GateRecord) (dir' : List GateRecord)
      → decide names engine now workspace occurrence request ≡ ok (g', dir')
      → (w : Found) × (d : Decision) × (g : GateRecord) × (workspace ≡ some w)
        × (request ≡ some d)
        × Taken now w occurrence d g g' dir'
  unfolding decide
  decide-Taken now workspace occurrence request g' dir' h =
      let (d, e0, h0) = >>=-ok (or_err invalid_argument request) _ h in
      let (_, e1, h1) = >>=-ok (refuse_if (same d.outcome []) invalid_argument) _ h0 in
      let (w, e2, h2) = >>=-ok (or_err not_found workspace) _ h1 in
      let (g, e3, h3) = >>=-ok (or_err not_found (latest_gate occurrence w.dir)) _ h2 in
      let (_, e4, h4) = >>=-ok (refuse_if (is_decided g) failed_precondition) _ h3 in
      let (_, e5, h5) =
        >>=-ok (refuse_if (not (contains (gate_outcomes names g.gate) d.outcome)) invalid_argument)
          _ h4 in
      let (_, e6, h6) = >>=-ok (refuse_if (stale d g) failed_precondition) _ h5 in
      let (_, e7, h7) = >>=-ok (refuse_if (not w.running) failed_precondition) _ h6 in
      let (_, e8, h8) =
        >>=-ok (code_of (engine g.occurrence (to_engine names w.comments g d))) _ h7 in
      let (dir, e9, h9) = >>=-ok (or_err internal (save_gate (decided names now d g) w.dir)) _ h8 in
      let (k, l) = ok_pair h9 in
      (
        w,
        d,
        g,
        or_err-ok _ _ e2,
        or_err-ok _ _ e0,
        record {
          latest = or_err-ok _ _ e3;
          was_open = is_decided-none g (refuse_if-ok _ _ e4);
          fits = (contains_iff _ _).0 (not-false _ (refuse_if-ok _ _ e5));
          reviewed = reviewed_of d g (refuse_if-ok _ _ e6);
          running = not-false _ (refuse_if-ok _ _ e7);
          agreed = code_of-ok _ e8;
          recorded = sym k;
          written =
              sym l ∙ save_gate-some _ w.dir (or_err-ok _ _ e9) ∙ ap (λ r. write_file r w.dir) k;
        },
      )
    where
      stale : Decision → GateRecord → Bool
      stale d g = same d.outcome names.outcome_approved && not (same d.target_hash g.target_hash)
