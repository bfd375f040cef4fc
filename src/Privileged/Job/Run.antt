-- ===== src/Privileged/Job/Run.antt =====
-- internal/privileged/privileged.go: `runJob`, `placeHost`, `placeGuest` and `Run` itself.
pub mod Outcome
use masuda.Common.{
  List, [], ◌∷◌, ◌++◌, Option, none, some, Bool, true, false, ◌&&◌, ◌||◌, not, if◌then◌else◌, ◌==◌,
  Text, codes, same,
}
use masuda.Common.{Result, ok, err, ◌>>=◌, ◌>>◌, refuse_if, or_err}
use masuda.Common.Int.{ℤ, pos, negsuc}
use masuda.Common.Decimal.{itoa}
use masuda.Privileged.Tail.{Bytes, TailBuffer, new_buffer, write, bytes}
use masuda.Privileged.Shell.{snapshot_ref_ok}
use masuda.Privileged.Job.{
  Options, JobRequest, Exit, Finished, Event, phase, stdout, stderr, finished, RunResult, JobError,
  bad_ref, bad_host_dir, no_outputs_dir, no_bundle, not_started, stream_broken, no_finish,
  setup_failed, did_not_run, host_write_failed, guest_write_failed, Service, log_tail_bytes,
  request,
}

-- What the loop of `runJob` holds; `in_log` where `cur` is the log of the command.
pub record Collected : Type 0 where
  pub log : TailBuffer
  pub setup_log : TailBuffer
  pub in_log : Bool
  pub fin : Option Finished

abbrev pub collecting : Collected
collecting = record {
  log = new_buffer log_tail_bytes;
  setup_log = new_buffer log_tail_bytes;
  in_log = false;
  fin = none;
}

put_output : Bool → Bytes → Collected → Collected
put_output true p c = record c { log = write c.log p }
put_output false p c = record c { setup_log = write c.setup_log p }

unfoldable pub receive : Event → Collected → Collected
unfolding put_output
receive (phase name) c = record c {
  in_log = if same name (codes "running") then true else c.in_log;
}
receive (stdout p) c = put_output c.in_log p c
receive (stderr p) c = put_output c.in_log p c
receive (finished f) c = record c { fin = some f }

unfoldable pub receive_all : List Event → Collected → Collected
receive_all [] c = c
receive_all (e ∷ es) c = receive_all es (receive e c)

-- `runJob`, where the stream is read to its end.
unfoldable pub run_job : Service → JobRequest → Result JobError (Finished × Collected)
run_job service req = do
  stream ← or_err not_started (service.run_job req)
  refuse_if stream.1 stream_broken
  fin ← or_err no_finish (receive_all stream.0 collecting).fin
  ok (fin, receive_all stream.0 collecting)

-- `ResultsDir`.
unfoldable pub results_dir : Text → Text
results_dir run_id = codes "/masuda/privileged/" ++ run_id ++ codes "/"

is_zero : ℤ → Bool
is_zero (pos n) = n == 0
is_zero (negsuc n) = false

unfoldable pub setup_ok : Option Exit → Bool
unfolding is_zero
setup_ok none = false
setup_ok (some e) = is_zero e.exit_code && same e.signal [] && not e.timed_out

unfoldable pub exit_code_of : Exit → ℤ
unfolding is_zero
exit_code_of e = if is_zero e.exit_code && not (same e.signal []) then negsuc 0 else e.exit_code

abbrev outputs_lost : Text
outputs_lost = codes "outputs were not collected: the job deadline passed"

wants_outputs : List Text → Bool
wants_outputs [] = false
wants_outputs (o ∷ os) = true

-- The last `switch` of `Run`, on `fin.Exited` and `fin.JobTimedOut`.
unfoldable pub ended : List Text → Option Exit → Bool → RunResult → Result JobError RunResult
unfolding exit_code_of wants_outputs
ended wanted (some e) late res =
    ok (record res { exit_code = exit_code_of e; signal = e.signal; timed_out = e.timed_out })
ended wanted none true res = ok (record res {
  exit_code = negsuc 0;
  timed_out = true;
  outputs_error =
      if wants_outputs wanted && same res.outputs_error [] then outputs_lost else res.outputs_error;
})
ended wanted none false res = err did_not_run

-- The result before the command's end is looked at.
unfoldable pub collected_result : Options → Finished → Collected → RunResult
unfolding results_dir
collected_result o fin c = record {
  exit_code = pos 0;
  log = bytes c.log;
  truncated = c.log.truncated;
  results_dir = if same o.main_id [] then [] else results_dir o.run_id;
  outputs = fin.outputs;
  outputs_error = fin.outputs_error;
  timed_out = false;
  signal = [];
  denied_hosts = fin.denied_hosts;
}

-- What `Run` returns of the job.
unfoldable pub outcome : Options → Service → JobRequest → Result JobError RunResult
outcome o service req = do
  job ← run_job service req
  refuse_if (not (setup_ok job.0.setup)) setup_failed
  ended o.decl.outputs job.0.exited job.0.job_timed_out (collected_result o job.0 job.1)

-- Files to write, each with its contents, where they could be read.
unfoldable pub output_files : Service → Text → List Text → List (Text × Option Bytes)
output_files service dir [] = []
output_files service dir (rel ∷ rels) =
    (dir ++ codes "/outputs/" ++ rel, service.output_file rel) ∷ output_files service dir rels

unfoldable pub exit_code_file : RunResult → Bytes
exit_code_file res = itoa res.exit_code ++ codes "\n"

-- The writes up to the first that fails, that one among them, and whether all were made.
unfoldable pub write_guest : Service → List (Text × Option Bytes) → List (Text × Bytes) × Bool
write_guest service [] = ([], true)
write_guest service ((path, none) ∷ fs) = ([], false)
write_guest service ((path, some b) ∷ fs) =
    let rest = write_guest service fs in
    if service.guest_write path b then ((path, b) ∷ rest.0, rest.1) else ((path, b) ∷ [], false)

-- The files of `placeGuest`.
unfoldable pub guest_files : Service → Text → RunResult → List (Text × Option Bytes)
guest_files service dir res =
    (dir ++ codes "/exit-code", some (exit_code_file res))
    ∷ (dir ++ codes "/log", some res.log)
    ∷ output_files service dir res.outputs

-- What a run leaves: its result, and the files it put in the main guest.
pub record Left : Type 0 where
  pub result : Result JobError RunResult
  pub in_guest : List (Text × Bytes)

unfoldable pub place_guest : Options → Service → RunResult → Left
place_guest o service res =
    let (files, all) =
      write_guest service (guest_files service (codes "/masuda/privileged/" ++ o.run_id) res) in
    record { result = if all then ok res else err guest_write_failed; in_guest = files }

-- `placeHost`, and `placeGuest` where there is a main guest.
unfoldable pub place : Options → Service → Result JobError RunResult → Left
place o service (err e) = record { result = err e; in_guest = [] }
place o service (ok res) =
    if not service.host_written
    then record { result = err host_write_failed; in_guest = [] }
    else if same o.main_id []
    then record { result = ok res; in_guest = [] }
    else place_guest o service res

-- The steps of `Run` before the job.
unfoldable pub prepare_job : Options → Service → Result JobError JobRequest
prepare_job o service = do
  refuse_if (not (snapshot_ref_ok o.snapshot_ref)) bad_ref
  refuse_if (not service.host_dir_found) bad_host_dir
  refuse_if (not service.outputs_dir_made) no_outputs_dir
  bundle ← or_err no_bundle service.bundle
  ok (request o bundle)

-- `Run`.
unfoldable pub run : Options → Service → Left
run o service = place o service (prepare_job o service >>= outcome o service)
