-- ===== src/Tests/TaskRuns.antt =====
-- The theorems on the TaskRun reconciler at the sample TaskRuns.
use software_distribution_pl.Prelude.{pos, ◌≡◌, refl, true, some, [], inl, arith}
use software_distribution_pl.Api.Pipeline.{PipelineTaskType, TaskRunPhase}
use software_distribution_pl.Api.Rollout.{Rollout}
use software_distribution_pl.Api.Task.{TaskRun}
use software_distribution_pl.Kube.{Cluster, ok}
use software_distribution_pl.Tasks.Attempts.{failed_job, AllJobsFail, IsToStart, fail_times}
use software_distribution_pl.Tasks.Retry.{fail_times_retry_budget}
use software_distribution_pl.Tests.{compile, task_run, rollout_at, calm, task_wired}

-- A TaskRun that may be retried twice.
abbrev retrying : TaskRun
retrying =
    let t = task_run TaskRunPhase.running compile in
    record t {
      spec = record (t.spec) {
        retry_policy = some (record { max_retries = pos 2; backoff = pos 0 });
      };
    }

abbrev waiting : TaskRun
waiting =
    let t = task_run TaskRunPhase.unset compile in
    record t { spec = record (t.spec) { type = PipelineTaskType.approval } }

abbrev rollout : Rollout
rollout = rollout_at true 0 (pos 10) (pos 0) []

-- A cluster on which every Job fails.
abbrev failing : Cluster
failing = record (calm [] []) { get_job = λ tr key. ok failed_job }

all_fail : AllJobsFail failing
all_fail = record {
  accepts = λ tr c. refl;
  owns = λ owner object. refl;
  reads = λ tr key. inl refl;
  fails = λ tr key. refl;
}

fail_times_retry_budget_example :
    IsToStart (fail_times failing task_wired 2 retrying []).0
    × ((fail_times failing task_wired 3 retrying []).0.status.phase ≡ TaskRunPhase.failed)
unfolding task_run
fail_times_retry_budget_example =
    fail_times_retry_budget failing task_wired all_fail 2 retrying [] (omega arith)
      (record { unfinished = refl; jobless = refl }) refl refl
