-- ===== src/Samples/Jobs.antt =====
-- A privileged command with a secret that is run for a node, and the job of such a command.
use masuda.Common.{
  ℕ, ◌≡◌, ◌⊎◌, ◌<◌, ◌≤◌, ◌∷◌, ◌++◌, refl, List, [], none, some, true, false, Text, codes, arith,
}
use masuda.Common.{ok, cut_prefix, same}
use masuda.Common.Decimal.{decimal}
use masuda.Common.Int.{pos}
use masuda.Privileged.Shell.{shell_quote, shell_word, shell_word-shell_quote, snapshot_ref_ok}
use masuda.Privileged.Job.{
  Options, Exit, Finished, Event, phase, stdout, finished, RunResult, Service,
}
use masuda.Privileged.Job.Run.{
  run, place, prepare_job, outcome, run_job, receive_all, receive, setup_ok, ended,
  collected_result, place_guest, write_guest, guest_files, output_files, exit_code_of, results_dir,
}
use masuda.Privileged.Tail.{write, bytes, new_buffer}
use masuda.Config.Names.{valid_check_name, named, every}
use masuda.Privileged.Job.Run.Outcome.{Reported, run-Reported}
use masuda.Samples.Privileged.{glob, digest, has_image, settings, local, deploy}
use masuda.Serve.Privileged.{Host, Ran, run_privileged}
use masuda.Serve.Disk.{human_bytes}
use masuda.Serve.Disk.Human.{prefix, human_bytes-prints}
use Prim.Native.Nat.{◌^◌, ◌+◌}

abbrev exited : Exit
exited = record { exit_code = pos 0; signal = []; timed_out = false }

abbrev fin : Finished
fin = record {
  setup = some exited;
  exited = some exited;
  job_timed_out = false;
  outputs = [];
  outputs_error = [];
  denied_hosts = [];
}

abbrev service : Service
service = record {
  host_dir_found = true;
  outputs_dir_made = true;
  bundle = some (codes "/tmp/b");
  run_job = λ req. some (
    stdout (codes "Cloning") ∷ phase (codes "running") ∷ stdout (codes "built") ∷ finished fin ∷ [],
    false,
  );
  host_written = true;
  guest_write = λ path b. true;
  output_file = λ path. none;
}

abbrev job : Options
job = record {
  main_id = codes "w1";
  run_id = codes "0001";
  build_id = codes "b1";
  disk_mib = 4096;
  memory_mib = 2048;
  cpus = 2;
  egress = codes "api.test" ∷ [];
  secrets = [];
  decl = deploy;
  prepare = [];
  snapshot_ref = codes "refs/masuda/wip/privileged-0001";
  host_inputs = [];
}

abbrev result : RunResult
result = record {
  exit_code = pos 0;
  log = codes "built";
  truncated = false;
  results_dir = codes "/masuda/privileged/0001/";
  outputs = [];
  outputs_error = [];
  timed_out = false;
  signal = [];
  denied_hosts = [];
}

runs : (run job service).result ≡ ok result
unfolding run place prepare_job snapshot_ref_ok cut_prefix valid_check_name named every outcome
    run_job receive_all receive setup_ok ended collected_result place_guest write_guest guest_files
    output_files exit_code_of same results_dir write bytes new_buffer
runs = refl

run-Reported_example :
    (bundle : Text) × (es : List Event) × (fin : Finished) × Reported job service result bundle es
      fin
run-Reported_example = run-Reported job service result runs

abbrev host : Host
host = record {
  booted = true;
  found = true;
  id = codes "w1";
  repo_root = codes "/r";
  cfg = some settings;
  local = some local;
  files = (codes "/d/secrets/h/DEPLOY_TOKEN", codes "s3cret") ∷ [];
  entries = codes "0001" ∷ [];
  records_made = true;
  head = some (codes "abc");
  ref_set = true;
  captured = true;
  build = λ image. some (codes "b1");
  service = service;
}

abbrev repo_hash : Text → Text
repo_hash repo = codes "h"

abbrev ran : Ran
ran =
    run_privileged glob digest has_image (codes "/d") repo_hash host (codes "c3") (codes "deploy")
      (codes "abc")

-- The text `it's`.
shell_word-shell_quote_example : shell_word (shell_quote (codes "it's")) ≡ some (codes "it's")
shell_word-shell_quote_example = shell_word-shell_quote (codes "it's")

human_bytes-prints_example :
    ((3221225472 < 1024)
      × (human_bytes (λ n div. codes "3.0 ") 3221225472 ≡ some (decimal 3221225472 ++ codes "B")))
    ⊎ ((exp : ℕ) × (exp ≤ 5)
        × (1024 ^ (exp + 1) ≤ 3221225472)
        × (3221225472 < 1024 ^ (exp + 2))
        × (human_bytes (λ n div. codes "3.0 ") 3221225472
            ≡ some (codes "3.0 " ++ (prefix exp ++ codes "iB"))))
human_bytes-prints_example = human_bytes-prints (λ n div. codes "3.0 ") 3221225472 (omega arith)
