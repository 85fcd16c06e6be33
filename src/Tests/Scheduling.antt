-- ===== src/Tests/Scheduling.antt =====
-- The theorems on the DAG at the sample run.
use software_distribution_pl.Prelude.{
  ◌≡◌, ◌≢◌, refl, sym, ap, ◌∙◌, Bool-cases, eq_iff, ◌↔◌, inl, inr, true, false, ◌==◌, string_eq, [],
  ◌∷◌, Elem, Map, lookup, arith,
}
use software_distribution_pl.Api.Pipeline.{TaskRunPhase, serial}
use software_distribution_pl.Api.Task.{TaskRun}
use software_distribution_pl.Dag.{find_runnable_tasks, all_tasks_succeeded, order_index}
use software_distribution_pl.Dag.Runnable.{IsReady, Succeeded, find_runnable_tasks_iff}
use software_distribution_pl.Dag.Serial.{IsSibling, IsEarlier, find_runnable_tasks_in_turn}
use software_distribution_pl.Dag.Progress.{IsRanked, IsSettled, find_runnable_tasks_progress}
use software_distribution_pl.Dag.Summary.{AllNamed}
use software_distribution_pl.Tests.{compile, lint, unit_test, tasks, task_run, compiled}

-- The compile and the lint task have Succeeded.
abbrev linted : Map TaskRun
linted = ("lint", task_run TaskRunPhase.succeeded lint) ∷ compiled

runnable : find_runnable_tasks tasks compiled ≡ lint ∷ []
unfolding find_runnable_tasks task_run
runnable = refl

runnable_next : find_runnable_tasks tasks linted ≡ unit_test ∷ []
unfolding find_runnable_tasks task_run
runnable_next = refl

find_runnable_tasks_iff_example :
    Elem lint (find_runnable_tasks tasks compiled) ↔ IsReady tasks compiled lint
find_runnable_tasks_iff_example = find_runnable_tasks_iff tasks compiled lint

siblings : IsSibling unit_test lint
siblings = record { staged = λ e. cc; same_stage = refl; serial_t = refl; serial_u = refl }

before : IsEarlier tasks lint unit_test
unfolding order_index
before = refl

find_runnable_tasks_in_turn_example : Succeeded linted "lint"
find_runnable_tasks_in_turn_example =
    find_runnable_tasks_in_turn tasks linted unit_test lint (rw runnable_next (inl refl))
      (inr (inl refl)) siblings before

differ : true ≡ false → ⊥
differ e = cc

not_serial : compile.execution_mode ≡ serial → ⊥
not_serial e = cc

-- A run of one task that has Succeeded.
one-IsRanked : IsRanked (λ name. 0) (compile ∷ [])
one-IsRanked = record {
  upstream = λ t m d k. elim m [ inl e ↦ elim (rw e at k) [ ] | inr n ↦ elim n [ ] ];
  siblings = λ t u m k st su same f. elim m [
    | inl e ↦ absurd (not_serial (rw e at st))
    | inr n ↦ elim n [ ]
  ];
}

compiled-IsSettled : IsSettled compiled
unfolding lookup task_run
compiled-IsSettled name tr e = ground arith

nothing_left : find_runnable_tasks (compile ∷ []) compiled ≡ []
unfolding find_runnable_tasks task_run
nothing_left = refl

find_runnable_tasks_progress_example : all_tasks_succeeded (compile ∷ []) compiled ≡ true
find_runnable_tasks_progress_example =
    find_runnable_tasks_progress (λ name. 0) (compile ∷ []) compiled one-IsRanked compiled-IsSettled
      nothing_left

compile_named : (task_run TaskRunPhase.succeeded compile).meta.name ≢ ""
unfolding task_run
compile_named e =
    absurd (differ (sym ((eq_iff ((task_run TaskRunPhase.succeeded compile).meta.name) "").1 e)))

compiled-AllNamed : AllNamed compiled
unfolding lookup
compiled-AllNamed name tr e k = elim (Bool-cases ("compile" == name)) [
  | inl h ↦
      let same : tr ≡ task_run TaskRunPhase.succeeded compile = ground arith in
      compile_named (sym (ap (λ (x : TaskRun). x.meta.name) same) ∙ k)
  | inr h ↦ absurd (ground arith)
]
