-- ===== src/Privileged/Job/Run/Outcome.antt =====
-- What `Run` (internal/privileged/privileged.go) says of a job, and what it puts in the main guest.
use mathlib.Core.List.{append-nil}
use masuda.Common.{
  ℕ, suc, zero, ◌==◌, not_same, ◌≢◌, same_iff, ◌&&◌, map, ◌≡◌, refl, ap, subst, sym, ◌∙◌, ◌⊎◌, inl,
  inr, arith, List, [], ◌∷◌, Option, none, some, Bool, true, false, not, if◌then◌else◌, Text, codes,
  same, take_last, Bool-cases,
}
use masuda.Common.{
  Result, ok, err, refuse_if, or_err, >>=-ok, refuse_if-ok, or_err-ok, not-false, ok_inj, ok_pair,
}
use masuda.Common.Int.{ℤ, pos, negsuc}
use masuda.Privileged.Tail.{Bytes, TailBuffer, new_buffer, write, bytes, write_all, concat}
use masuda.Privileged.Tail.Exact.{bytes-write_all}
use masuda.Privileged.Shell.{snapshot_ref_ok, bundle_guest}
use masuda.Privileged.Job.{
  Options, JobRequest, Exit, Finished, Event, phase, stdout, stderr, finished, RunResult, JobError,
  bad_ref, bad_host_dir, no_outputs_dir, no_bundle, not_started, stream_broken, no_finish,
  setup_failed, Service, log_tail_bytes, request, JobInput, host_file, host_input, sandbox_inputs,
}
use masuda.Privileged.Job.Run.{
  Collected, collecting, put_output, receive, receive_all, run_job, setup_ok, exit_code_of, ended,
  is_zero, collected_result, outcome, place_guest, place, prepare_job, run,
}

-- What the command wrote: the chunks behind the phase `running`.
pub command_output : Bool → List Event → List Bytes
command_output in_log [] = []
command_output in_log (phase name ∷ es) =
    command_output (if same name (codes "running") then true else in_log) es
command_output true (stdout p ∷ es) = p ∷ command_output true es
command_output true (stderr p ∷ es) = p ∷ command_output true es
command_output false (stdout p ∷ es) = command_output false es
command_output false (stderr p ∷ es) = command_output false es
command_output in_log (finished f ∷ es) = command_output in_log es

-- The last report of the job's end.
pub last_finished : Option Finished → List Event → Option Finished
last_finished fin [] = fin
last_finished fin (finished f ∷ es) = last_finished (some f) es
last_finished fin (phase name ∷ es) = last_finished fin es
last_finished fin (stdout p ∷ es) = last_finished fin es
last_finished fin (stderr p ∷ es) = last_finished fin es

receive_all-log :
    (es : List Event) (log setup_log : TailBuffer) (in_log : Bool) (fin : Option Finished)
    → let c : Collected = record { log = log; setup_log = setup_log; in_log = in_log; fin = fin } in
      ((receive_all es c).log ≡ write_all log (command_output in_log es))
      × ((receive_all es c).fin ≡ last_finished fin es)
unfolding receive_all receive put_output command_output last_finished write_all
receive_all-log [] log setup_log in_log fin = (refl, refl)
receive_all-log (phase name ∷ es) log setup_log in_log fin =
    receive_all-log es log setup_log (if same name (codes "running") then true else in_log) fin
receive_all-log (stdout p ∷ es) log setup_log true fin =
    receive_all-log es (write log p) setup_log true fin
receive_all-log (stdout p ∷ es) log setup_log false fin =
    receive_all-log es log (write setup_log p) false fin
receive_all-log (stderr p ∷ es) log setup_log true fin =
    receive_all-log es (write log p) setup_log true fin
receive_all-log (stderr p ∷ es) log setup_log false fin =
    receive_all-log es log (write setup_log p) false fin
receive_all-log (finished f ∷ es) log setup_log in_log fin =
    receive_all-log es log setup_log in_log (some f)

-- The exit code that stands for an end of the command: the command's own, or -1 where it would be 0
-- although a signal ended the command.
abbrev pub ExitAs : Exit → ℤ → Type 0
ExitAs e code =
    ((code ≡ e.exit_code) × (code ≡ pos 0 → e.signal ≡ []))
    ⊎ ((e.exit_code ≡ pos 0) × (e.signal ≢ []) × (code ≡ negsuc 0))

later : (n : ℕ) → pos (suc n) ≢ pos 0
later n h = cc

suc-nonzero : (n : ℕ) → (suc n == 0) ≡ false
suc-nonzero n = ground arith

code-ExitAs :
    (e : Exit) (z : ℤ)
    → e.exit_code ≡ z
    → ExitAs e (if is_zero z && not (same e.signal []) then negsuc 0 else z)
unfolding is_zero
code-ExitAs e (negsuc n) k = inl (sym k, λ h. cc)
code-ExitAs e (pos zero) k = elim (Bool-cases (same e.signal [])) [
  | inl q ↦ rw q (inl (sym k, λ h. (same_iff e.signal []).0 q))
  | inr q ↦ rw q (inr (k, not_same e.signal [] q, refl))
]
code-ExitAs e (pos (suc n)) k = rw (suc-nonzero n) (inl (sym k, λ h. absurd (later n h)))

-- How the command ended, against the job's report.
abbrev pub EndedAs : Finished → RunResult → Type 0
EndedAs fin res =
    ((e : Exit) × (fin.exited ≡ some e)
      × ExitAs e res.exit_code
      × (res.signal ≡ e.signal)
      × (res.timed_out ≡ e.timed_out))
    ⊎ ((fin.exited ≡ none)
        × (fin.job_timed_out ≡ true)
        × (res.exit_code ≡ negsuc 0)
        × (res.timed_out ≡ true))

-- A result against the job it reports: the request sent, the events received and the last report.
pub record Reported (o : Options) (service : Service) (res : RunResult) (bundle : Text)
    (es : List Event) (fin : Finished) : Type 0 where
  pub good_ref : snapshot_ref_ok o.snapshot_ref ≡ true
  pub streamed : service.run_job (request o bundle) ≡ some (es, false)
  pub last : last_finished none es ≡ some fin
  pub checked_out : setup_ok fin.setup ≡ true
  pub ended_as : EndedAs fin res
  pub tail : res.log ≡ take_last log_tail_bytes (concat (command_output false es))
  pub outputs : res.outputs ≡ fin.outputs

place-ok :
    (o : Options) (service : Service) (r : Result JobError RunResult) {res : RunResult}
    → (place o service r).result ≡ ok res
    → r ≡ ok res
unfolding place place_guest
place-ok o service (err e) h = h
place-ok o service (ok r) h = ground (arith, h)

ended-ok :
    (wanted : List Text) (fin : Finished) (exited : Option Exit) (late : Bool) (base : RunResult)
    {res : RunResult}
    → fin.exited ≡ exited
    → fin.job_timed_out ≡ late
    → ended wanted exited late base ≡ ok res
    → EndedAs fin res × (res.log ≡ base.log) × (res.outputs ≡ base.outputs)
unfolding ended exit_code_of
ended-ok wanted fin (some e) late base p q h =
    subst (λ (r : RunResult). EndedAs fin r × (r.log ≡ base.log) × (r.outputs ≡ base.outputs))
      (ok_inj h) (inl (e, p, code-ExitAs e e.exit_code refl, refl, refl), refl, refl)
ended-ok wanted fin none true base p q h =
    subst (λ (r : RunResult). EndedAs fin r × (r.log ≡ base.log) × (r.outputs ≡ base.outputs))
      (ok_inj h) (inr (p, q, refl, refl), refl, refl)
ended-ok wanted fin none false base p q h = cc

prepare_job-ok :
    (o : Options) (service : Service) {req : JobRequest}
    → prepare_job o service ≡ ok req
    → (snapshot_ref_ok o.snapshot_ref ≡ true) × ((bundle : Text) × (request o bundle ≡ req))
unfolding prepare_job
prepare_job-ok o service h =
    let (_, e1, h1) = >>=-ok (refuse_if (not (snapshot_ref_ok o.snapshot_ref)) bad_ref) _ h in
    let (_, e2, h2) = >>=-ok (refuse_if (not service.host_dir_found) bad_host_dir) _ h1 in
    let (_, e3, h3) = >>=-ok (refuse_if (not service.outputs_dir_made) no_outputs_dir) _ h2 in
    let (bundle, e4, h4) = >>=-ok (or_err no_bundle service.bundle) _ h3 in
    (not-false _ (refuse_if-ok _ _ e1), (bundle, ok_inj h4))

run_job-ok :
    (service : Service) (req : JobRequest) {fin : Finished} {c : Collected}
    → run_job service req ≡ ok (fin, c)
    → (es : List Event) × (service.run_job req ≡ some (es, false))
      × (last_finished none es ≡ some fin)
      × (c.log ≡ write_all (new_buffer log_tail_bytes) (command_output false es))
unfolding run_job
run_job-ok service req {fin} {c} h =
    let ((es, broken), e1, h1) = >>=-ok (or_err not_started (service.run_job req)) _ h in
    let (_, e2, h2) = >>=-ok (refuse_if broken stream_broken) _ h1 in
    let (last, e3, h3) = >>=-ok (or_err no_finish (receive_all es collecting).fin) _ h2 in
    let (k, l) = ok_pair h3 in
    let all =
      receive_all-log es (new_buffer log_tail_bytes) (new_buffer log_tail_bytes) false none in
    (
      es,
      or_err-ok _ _ e1 ∙ ap (λ (b : Bool). some (es, b)) (refuse_if-ok broken _ e2),
      sym all.1 ∙ or_err-ok _ _ e3 ∙ ap some k,
      ap (λ (d : Collected). d.log) (sym l) ∙ all.0,
    )

-- A run returns a result only of a job whose stream was read to its end, that reported how it
-- finished, and that checked out the snapshot of an accepted ref; the exit code, the outputs and the
-- flags are the job's, an exit of 0 with a signal being -1 as a job past its deadline is, and the
-- log is the last 204800 bytes of what the command itself wrote.
pub run-Reported :
    (o : Options) (service : Service) (res : RunResult)
    → (run o service).result ≡ ok res
    → (bundle : Text) × (es : List Event) × (fin : Finished) × Reported o service res bundle es fin
unfolding run outcome collected_result
run-Reported o service res h =
    let (req, e0, h0) =
      >>=-ok (prepare_job o service) (outcome o service) (place-ok o service _ h) in
    let (good, (bundle, e1)) = prepare_job-ok o service e0 in
    let ((fin, c), e2, h2) = >>=-ok (run_job service req) _ h0 in
    let (_, e3, h3) = >>=-ok (refuse_if (not (setup_ok fin.setup)) setup_failed) _ h2 in
    let (es, e4, e5, e6) = run_job-ok service req e2 in
    let (how, l, outs) = ended-ok o.decl.outputs fin fin.exited fin.job_timed_out _ refl refl h3 in
    (
      bundle,
      es,
      fin,
      record {
        good_ref = good;
        streamed = ap service.run_job e1 ∙ e4;
        last = e5;
        checked_out = not-false _ (refuse_if-ok _ _ e3);
        ended_as = how;
        tail = l ∙ ap bytes e6 ∙ bytes-write_all log_tail_bytes (command_output false es);
        outputs = outs;
      },
    )

write_nothing :
    (o : Options) (service : Service) (r : Result JobError RunResult)
    → o.main_id ≡ []
    → (place o service r).in_guest ≡ []
unfolding place same
write_nothing o service (err e) h = refl
write_nothing o service (ok res) h = elim (Bool-cases service.host_written) [
  | inl e ↦ rw (e, h) refl
  | inr e ↦ rw e refl
]

no_sandbox_inputs : (wanted : List Text) → sandbox_inputs [] wanted ≡ []
unfolding same
no_sandbox_inputs [] = refl
no_sandbox_inputs (p ∷ ps) = refl

-- Without a main guest a run puts no file anywhere but on the host, whatever becomes of the job, and
-- the job is given the bundle and the files of the host alone.
pub run_apart :
    (o : Options) (service : Service)
    → o.main_id ≡ []
    → ((run o service).in_guest ≡ [])
      × ((bundle : Text)
          → (request o bundle).inputs
            ≡ host_file bundle bundle_guest 420 ∷ map host_input o.host_inputs)
unfolding run request
run_apart o service h = (
  write_nothing o service _ h,
  λ bundle.
      rw (h, no_sandbox_inputs o.decl.inputs)
        (ap (λ (l : List JobInput). host_file bundle bundle_guest 420 ∷ l) (append-nil _)),
)
