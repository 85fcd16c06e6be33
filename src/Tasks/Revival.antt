-- ===== src/Tasks/Revival.antt =====
-- A task that a Rollout carries out, through a rollback that the walk leaves again.
use software_distribution_pl.Prelude.{ℤ, Bool, Option, String}
use software_distribution_pl.Api.Meta.{Time}
use software_distribution_pl.Api.Rollout.{Rollout}
use software_distribution_pl.Api.Task.{TaskRun}
use software_distribution_pl.Canary.{evaluate}
use software_distribution_pl.Rollouts.Changes.{decided}

module _ (parse_time : String → Option Time) (ro : Rollout) (total : ℤ) where
  -- The Rollout that a round of the walk stores.
  abbrev pub walked : Rollout → Time → (ready desired : ℤ) → (ok probed : Bool) → Rollout
  walked r now ready desired ok probed =
      decided r (evaluate parse_time now r ready desired total ok) probed now

  module _ (t : TaskRun) (now later seen seen' : Time) (ready desired ready' desired' : ℤ)
      (ok probed ok' probed' : Bool) where
    abbrev pub first : Rollout
    first = walked ro now ready desired ok probed

    abbrev pub second : Rollout
    second = walked first later ready' desired' ok' probed'
