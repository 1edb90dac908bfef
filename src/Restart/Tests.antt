-- ===== src/Restart/Tests.antt =====
-- A machine that is the scheduler's file; the scheduler does not run with the file "bad".
use semvi_btp.Common.{
  ◌≡◌, refl, ap, sym, String, Option, none, some, [], ◌∷◌, ◌==◌, if◌then◌else◌, returns, ok,
}
use semvi_btp.Restart.Defs.{
  Docker, Files, Service, restart_scheduler, restart_container, restart_first,
  update_scheduler_config, reset_scheduler,
}
use semvi_btp.Restart.Outcomes.{IsMachine, IsOutcome, restart_scheduler-IsOutcome}

abbrev runs : Option String → String
runs none = "exited"
runs (some text) = if text == "bad" then "exited" else "running"

abbrev docker : Docker (Option String) String
docker = record {
  container_list = λ w. ok (
      record { id = "1"; names = "/etcd" ∷ [] }
      ∷ record { id = "2"; names = "/simulator-scheduler" ∷ [] }
      ∷ []);
  container_restart = λ id w. (w, none);
  container_inspect = λ id w. ok (runs w);
}

abbrev files : Files (Option String) String String String
files = record {
  marshal_json = λ cfg. ok cfg;
  decode_yaml = λ text. ok text;
  marshal_yaml = λ yaml. ok yaml;
  write_file = λ path text w. (some text, none);
}

abbrev service : Service String
service = record { initial_scheduler_cfg = "initial"; current_scheduler_cfg = some "good" }

abbrev content : Option String → Option String
content w = w

machine-IsMachine : IsMachine docker files "scheduler.yaml" content
machine-IsMachine = record {
  writes = λ text w v h. sym (ap (λ x. x.0) h);
  keeps = λ id w v h. sym (ap (λ x. x.0) h);
}

-- The new configuration does not start: the scheduler runs with the old one, no error is returned,
-- and the service reports the new one.
rolled_back_silently :
    restart_scheduler docker files "scheduler.yaml" none (ok "good") "bad" service (some "good")
    ≡ returns (
      some "good",
      record { initial_scheduler_cfg = "initial"; current_scheduler_cfg = some "bad" },
      none,
    )
unfolding restart_scheduler restart_container restart_first update_scheduler_config
rolled_back_silently = refl

reset_to_initial :
    reset_scheduler docker files "scheduler.yaml" none (ok "good") service (some "good")
    ≡ returns (
      some "initial",
      record { initial_scheduler_cfg = "initial"; current_scheduler_cfg = some "initial" },
      none,
    )
unfolding reset_scheduler restart_scheduler restart_container restart_first update_scheduler_config
reset_to_initial = refl

restart_scheduler-IsOutcome_example :
    IsOutcome docker files "scheduler.yaml" content machine-IsMachine "bad" "bad" "good" service
      (restart_scheduler docker files "scheduler.yaml" none (ok "good") "bad" service (some "good"))
restart_scheduler-IsOutcome_example =
    restart_scheduler-IsOutcome docker files "scheduler.yaml" content machine-IsMachine none "bad"
      "good" "bad" "good" service (some "good") refl refl
