-- ===== src/Metrics.antt =====
-- pkg/metrics/metrics.go: the feature flags and the counters. The Prometheus registry is outside; a
-- counter is a number, a gauge the value that was set last.
use software_distribution_pl.Prelude.{
  ℕ, suc, ℤ, String, string_eq, ◌==◌, Bool, true, not, ◌&&◌, none, some, Map, lookup, insert,
  if◌then◌else◌,
}

-- The value of an environment variable, empty if it is not set.
unfoldable pub env_on : String → Bool
env_on v = if v == "" then true else not (v == "false") && not (v == "0") && not (v == "off")

pub record Collectors : Type 0 where
  pub registered : Bool
  pub task_run_phase : Map ℕ  -- by the two labels, joined
  pub rollout_weight : ℤ
  pub reconnects : ℕ
  pub failures : Map ℕ

abbrev pub bump : String → Map ℕ → Map ℕ
bump label m = insert label (elim (lookup label m) [ none ↦ 1 | some n ↦ suc n ]) m

unfoldable pub register : Collectors → Collectors
register c = record c { registered = true }

unfoldable pub record_task_run_phase : (labels : String) → Collectors → Collectors
unfolding insert lookup
record_task_run_phase labels c =
    if c.registered then record c { task_run_phase = bump labels c.task_run_phase } else c

unfoldable pub set_rollout_weight : ℤ → Collectors → Collectors
set_rollout_weight weight c = if c.registered then record c { rollout_weight = weight } else c

unfoldable pub inc_reconnect : Collectors → Collectors
inc_reconnect c = if c.registered then record c { reconnects = suc c.reconnects } else c

-- The line in the log is left out.
unfoldable pub alert : (kind : String) → Collectors → Collectors
unfolding insert lookup
alert kind c = if c.registered then record c { failures = bump kind c.failures } else c
