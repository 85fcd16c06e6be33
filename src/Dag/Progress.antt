-- ===== src/Dag/Progress.antt =====
-- The scheduler never gets stuck on an acyclic DAG.
use software_distribution_pl.Prelude.{
  ℕ, zero, suc, ◌<◌, leb_ℤ, String, string_eq, eq_iff, ◌==◌, ◌≡◌, refl, inl, inr, Bool, true, false,
  not, ◌||◌, any, Bool-cases, some, Option-cases, List, [], ◌∷◌, Elem, Map, lookup, arith,
}
use software_distribution_pl.Api.Pipeline.{PipelineTaskSpec, serial, TaskRunPhase}
use software_distribution_pl.Api.Task.{TaskRun}
use software_distribution_pl.Dag.{
  has_succeeded, serial_blocked, blocks, order_index, is_serial, find_runnable_tasks,
  all_tasks_succeeded,
}
use software_distribution_pl.Dag.Runnable.{
  Succeeded, has_succeeded_iff, all_iff, IsReady, find_runnable_tasks_iff,
}
use software_distribution_pl.Dag.Serial.{IsEarlier}

-- A rank that falls along every edge: from a task to what it depends on, which is a task of the run, and from a
-- serial task to its earlier siblings.
pub record IsRanked (rank : String → ℕ) (tasks : List PipelineTaskSpec) : Type 0 where
  pub upstream :
      (t : PipelineTaskSpec)
      → Elem t tasks
      → (d : String) → Elem d t.depends_on
      → (u : PipelineTaskSpec) × Elem u tasks × (u.name ≡ d) × (rank u.name < rank t.name)
  pub siblings :
      (t u : PipelineTaskSpec)
      → Elem t tasks
      → Elem u tasks
      → t.execution_mode ≡ serial
      → u.execution_mode ≡ serial
      → u.stage ≡ t.stage
      → IsEarlier tasks u t
      → rank u.name < rank t.name

-- Every task that was started has Succeeded.
abbrev pub IsSettled : Map TaskRun → Type 0
IsSettled existing =
    (name : String) (tr : TaskRun)
    → lookup name existing ≡ some tr
    → tr.status.phase ≡ TaskRunPhase.succeeded

any-intro :
    {A : Type 0} (p : A → Bool) (xs : List A)
    → ((x : A) → Elem x xs → p x ≡ false)
    → any p xs ≡ false
any-intro p [] h = refl
any-intro p (x ∷ xs) h = ground (arith, h x (inl refl), any-intro p xs (λ y k. h y (inr k)))

module _ (rank : String → ℕ) (tasks : List PipelineTaskSpec) (existing : Map TaskRun)
    (ranked : IsRanked rank tasks) (settled : IsSettled existing)
    (idle : find_runnable_tasks tasks existing ≡ []) where
  not_held_back :
      (t u : PipelineTaskSpec)
      → t.execution_mode ≡ serial
      → Elem t tasks
      → Elem u tasks
      → ((u : PipelineTaskSpec)
          → Elem u tasks
          → rank u.name < rank t.name
          → Succeeded existing u.name)
      → blocks t tasks existing u ≡ false
  unfolding blocks
  not_held_back t u st m k below =
      elim (Bool-cases (not (u.stage == t.stage) || not (is_serial u.execution_mode))) [
        | inl e ↦ rw (e, blocks)
        | inr e ↦ elim (Bool-cases (leb_ℤ (order_index tasks t.name) (order_index tasks u.name))) [
          | inl f ↦ rw (e, blocks) (rw (f, blocks))
          | inr f ↦
              let same : u.stage ≡ t.stage = ground (arith, eq_iff u.stage t.stage) in
              let su : u.execution_mode ≡ serial = ground arith in
              let d = below u k (ranked.siblings t u m k st su same f) in
              let done = (has_succeeded_iff existing u.name).1 d in ground arith
        ]
      ]

  in_turn :
      (t : PipelineTaskSpec)
      → Elem t tasks
      → ((u : PipelineTaskSpec)
          → Elem u tasks
          → rank u.name < rank t.name
          → Succeeded existing u.name)
      → serial_blocked t tasks existing ≡ false
  unfolding serial_blocked
  in_turn t m below = elim (Bool-cases (is_serial t.execution_mode)) [
    | inr e ↦ ground arith
    | inl e ↦
        let free =
          any-intro (blocks t tasks existing) tasks
            (λ u k. not_held_back t u (ground arith) m k below) in
        ground arith
  ]

  started :
      (t : PipelineTaskSpec)
      → Elem t tasks
      → ((u : PipelineTaskSpec)
          → Elem u tasks
          → rank u.name < rank t.name
          → Succeeded existing u.name)
      → Succeeded existing t.name
  started t m below = elim (Option-cases (lookup t.name existing)) [
    | inr (tr, e) ↦ (tr, e, settled t.name tr e)
    | inl e ↦
        let r : IsReady tasks existing t = record {
          listed = m;
          not_started = e;
          upstream = λ d k. let (u, l, n, lt) = ranked.upstream t m d k in rw n at (below u l lt);
          in_turn = in_turn t m below;
        } in
        absurd (rw idle at ((find_runnable_tasks_iff tasks existing t).1 r))
  ]

  all_below :
      (n : ℕ) (t : PipelineTaskSpec) → Elem t tasks → rank t.name < n → Succeeded existing t.name
  all_below zero t m h = absurd (omega arith)
  all_below (suc n) t m h = started t m (λ u k l. all_below n u k (omega arith))

-- On a DAG with a rank that falls along the dependencies and along the order of each serial stage,
-- a run in which every started task has Succeeded and nothing is runnable has all its tasks
-- Succeeded: it is never stuck before its end.
pub find_runnable_tasks_progress :
    (rank : String → ℕ) (tasks : List PipelineTaskSpec) (existing : Map TaskRun)
    → IsRanked rank tasks
    → IsSettled existing
    → find_runnable_tasks tasks existing ≡ []
    → all_tasks_succeeded tasks existing ≡ true
unfolding all_tasks_succeeded
find_runnable_tasks_progress rank tasks existing ranked settled idle =
    (all_iff (λ (t : PipelineTaskSpec). has_succeeded existing t.name) tasks).1 (λ t m.
      (has_succeeded_iff existing t.name).1
        (all_below rank tasks existing ranked settled idle (suc (rank t.name)) t m (omega arith)))
