-- ===== src/Tests/Rounds.antt =====
-- The theorems on the walk of a Rollout and on the life of a TaskRun at sample inputs.
use software_distribution_pl.Prelude.{
  ◌+◌, ◌≡◌, refl, pos, leb_ℤ, ltb_ℤ, ◌&&◌, String, string_eq, true, false, Option, none, some, [],
  leb,
}
use software_distribution_pl.Api.Meta.{Time}
use software_distribution_pl.Api.Rollout.{Rollout, RolloutPhase, HealthCheckType}
use software_distribution_pl.Api.Pipeline.{TaskRunPhase}
use software_distribution_pl.Kube.Writes.{Only}
use software_distribution_pl.Canary.{evaluate}
use software_distribution_pl.Rollouts.{RolloutReconciler}
use software_distribution_pl.Rollouts.Changes.{probe_due}
use software_distribution_pl.Rollouts.Walk.{judged}
use software_distribution_pl.Rollouts.Gate.{advances_unchecked}
use software_distribution_pl.Tasks.{reconcile_task, start_job}
use software_distribution_pl.Tasks.Phases.{Stores, reconcile_task-Stores}
use software_distribution_pl.Tasks.Trust.{Ordered, start_job-Ordered}
use software_distribution_pl.Tests.{rollout_at, calm, task_run, compile, task_wired}

abbrev parse_time : String → Option Time
parse_time s = some 500

-- A client that answers every request with the status 500.
abbrev refusing : RolloutReconciler
refusing = record {
  format_time = λ t. "T";
  parse_time = parse_time;
  http = λ tr url timeout. some (record { status = 500; body = "" });
  floats = record { parse = λ text. none; at_most = λ a b. leb a b };
  prometheus_endpoint = "";
  canary_ingress_enabled = true;
  env_port = "";
  phase_text = λ p. "";
}

-- At ten per cent, checked a second ago.
abbrev checked : Rollout
checked =
    let ro = rollout_at true 0 (pos 10) (pos 2) [] in
    record ro {
      spec = record (ro.spec) {
        health_check = record (ro.spec.health_check) { type = HealthCheckType.http_probe };
      };
      status = record (ro.status) { last_health_check_time = some 1000000000 };
    }

not_due : probe_due checked 2000000000 ≡ false
unfolding probe_due
not_due = refl

advances_unchecked_example :
    let health =
      judged
        (calm [] [])
        refusing
        checked
        (probe_due checked 2000000000)
        (leb_ℤ (pos 1) (pos 1) && ltb_ℤ (pos 0) (pos 1))
        [] in
    let d = evaluate refusing.parse_time 2000000000 checked (pos 1) (pos 1) (pos 10) health in
    (d.current_step_index ≡ 0 + 1)
    × (d.phase ≡ RolloutPhase.progressing)
    × (d.consecutive_failures ≡ pos 0)
advances_unchecked_example =
    advances_unchecked (calm [] []) refusing checked 2000000000 (pos 1) (pos 1) (pos 10)
      (record { set_weight = some (pos 10); pause = none }) (pos 10) [] not_due refl refl refl refl
      refl

reconcile_task-Stores_example :
    Only
      (Stores (task_run TaskRunPhase.unset compile))
      (reconcile_task (calm [] []) task_wired (task_run TaskRunPhase.unset compile))
reconcile_task-Stores_example =
    reconcile_task-Stores (calm [] []) task_wired (task_run TaskRunPhase.unset compile)

start_job-Ordered_example :
    Ordered
      (calm [] [])
      task_wired
      (task_run TaskRunPhase.unset compile)
      []
      (start_job (calm [] []) task_wired (task_run TaskRunPhase.unset compile) []).0
start_job-Ordered_example =
    start_job-Ordered (calm [] []) task_wired (task_run TaskRunPhase.unset compile) []

-- The third failed check at ten per cent.
abbrev failing : Rollout
failing = rollout_at true 0 (pos 10) (pos 2) []
