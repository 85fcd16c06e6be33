-- ===== src/Tests/Runs.antt =====
-- The theorems on the PipelineRun reconciler in the sample cluster.
use software_distribution_pl.Prelude.{
  pos, ◌≡◌, ◌≢◌, refl, true, [], ◌∷◌, has_key, insert, values, arith,
}
use software_distribution_pl.Kube.{ok, send_status, update_run_status, patch_run}
use software_distribution_pl.Dag.{find_runnable_tasks, is_terminal_phase, index_by_task}
use software_distribution_pl.Kube.Runs.{calls}
use software_distribution_pl.Pipelines.{schedule, reconcile_run, apply_cancel_if_requested}
use software_distribution_pl.Pipelines.Changes.{status_payload, without_request}
use software_distribution_pl.Pipelines.Cancel.{
  cancelled_with, delete, apply_cancel_if_requested-calls,
}
use software_distribution_pl.Kube.Writes.{Only}
use software_distribution_pl.Pipelines.Life.{Serves}
use software_distribution_pl.Pipelines.Phases.{reconcile_run-Serves}
use software_distribution_pl.Pipelines.Outcome.{creation, schedule-calls}
use software_distribution_pl.Tests.{
  run, cancelling, tasks, compile, task_run, compiled, calm, wired,
}
use software_distribution_pl.Api.Pipeline.{TaskRunPhase}

reconcile_run-Serves_example :
    Only (Serves (calm [] []) wired run) (reconcile_run (calm [] []) wired run)
reconcile_run-Serves_example = reconcile_run-Serves (calm [] []) wired run

apply_cancel_if_requested-calls_example :
    let final =
      cancelled_with
        (calm [] [])
        wired
        cancelling
        (task_run TaskRunPhase.running compile ∷ [])
        1000 in
    apply_cancel_if_requested
      (calm (task_run TaskRunPhase.running compile ∷ []) [])
      wired
      cancelling
      []
    ≡ (
      patch_run final (without_request final)
          ∷ send_status (status_payload "site-a" final)
          ∷ update_run_status final
          ∷ delete (task_run TaskRunPhase.running compile)
          ∷ [],
      ok true,
    )
unfolding has_key is_terminal_phase task_run index_by_task insert values
apply_cancel_if_requested-calls_example =
    apply_cancel_if_requested-calls (calm (task_run TaskRunPhase.running compile ∷ []) []) wired
      cancelling [] (task_run TaskRunPhase.running compile ∷ []) (λ tr c. refl) refl refl refl refl
      (λ t q. refl)

starts : find_runnable_tasks tasks compiled ≢ []
unfolding find_runnable_tasks task_run
starts = ground arith

schedule-calls_example : schedule (calm [] []) wired run compiled [] ≡ (
  send_status (status_payload "site-a" run)
      ∷ update_run_status run
      ∷ calls (creation (calm [] []) wired run) (find_runnable_tasks tasks compiled) [],
  ok (pos 0),
)
schedule-calls_example =
    schedule-calls (calm [] []) wired run compiled [] (λ tr c. refl) (λ o x. refl) (λ t q. refl)
      refl refl starts
