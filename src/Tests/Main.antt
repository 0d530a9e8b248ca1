-- ===== src/Tests/Main.antt =====
-- The program on its default flags and as a destination, with a manager that counts what it took.
use airgap_snapshots.Base.{ℕ, ◌+◌, ◌≡◌, refl, err, ok, errorf, external, [], M}
use airgap_snapshots.Base.Text.{bytes, text_eq}
use airgap_snapshots.Main.{System, Manager, CommandLine, default_flags, run_main}
use airgap_snapshots.Main.Started.{Started}

abbrev count : M ℕ (Unit {0})
count n = (ok tt, n + 1)

abbrev system : System ℕ
system = record {
  read_file = λ name n. (err (external "no such file"), n);
  getenv = λ name n. (ok [], n);
}

abbrev manager : Manager ℕ
manager = record {
  new_manager = λ metrics probe election id. count;
  register = λ r. count;
  add_healthz_check = count;
  add_readyz_check = count;
  start = count;
}

abbrev destination : CommandLine
destination = record default_flags {
  role = bytes "destination";
  destination = record default_flags.destination {
    endpoint = bytes "http://minio:9000";
    bucket = bytes "velero";
  };
}

run_default : run_main system manager default_flags 0 ≡ (ok tt, 6)
unfolding run_main text_eq
run_default = refl

-- No bucket and no endpoint: the manager has been made, and nothing else.
run_bare_destination :
    run_main system manager (record default_flags { role = bytes "destination" }) 0
    ≡ (err (errorf "--dest-endpoint is required for role=destination" []), 1)
unfolding run_main text_eq
run_bare_destination = refl
