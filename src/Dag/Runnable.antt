-- ===== src/Dag/Runnable.antt =====
-- Which tasks are started: findRunnableTasks against a description by predicates.
use software_distribution_pl.Prelude.{
  String, ◌≡◌, refl, sym, ap, ◌∙◌, ◌↔◌, inl, inr, Bool, true, false, Bool-cases, none, some,
  Option-cases, List, [], ◌∷◌, Elem, all, Map, lookup, arith,
}
use software_distribution_pl.Api.Pipeline.{PipelineTaskSpec}
use software_distribution_pl.Api.Pipeline.{TaskRunPhase}
use software_distribution_pl.Api.Task.{TaskRun}
use software_distribution_pl.Dag.{
  has_succeeded, serial_blocked, is_runnable, collect_runnable, find_runnable_tasks,
}

-- The task has a TaskRun that has Succeeded.
abbrev pub Succeeded : Map TaskRun → String → Type 0
Succeeded existing name =
    (tr : TaskRun) × (lookup name existing ≡ some tr) × (tr.status.phase ≡ TaskRunPhase.succeeded)

pub has_succeeded_iff :
    (existing : Map TaskRun) (name : String)
    → (has_succeeded existing name ≡ true) ↔ Succeeded existing name
unfolding has_succeeded
has_succeeded_iff existing name = elim (Option-cases (lookup name existing)) [
  | inl e ↦ ((λ h. absurd (ground arith)), (λ (tr, k, p). ground arith))
  | inr (tr, e) ↦ ((λ h. (tr, e, ground arith)), (λ (u, k, p). ground arith))
]

pub all_iff :
    {A : Type 0} (p : A → Bool) (xs : List A)
    → (all p xs ≡ true) ↔ ((x : A) → Elem x xs → p x ≡ true)
all_iff p [] = ((λ h x m. elim m [ ]), (λ h. refl))
all_iff p (x ∷ xs) = (
  (λ h y m. elim m [ inl e ↦ rw e (ground arith) | inr k ↦ (all_iff p xs).0 (ground arith) y k ]),
  (λ h. ground (arith, h x (inl refl), (all_iff p xs).1 (λ y k. h y (inr k)))),
)

-- What the source asks of a task before it starts it.
pub record IsReady (tasks : List PipelineTaskSpec) (existing : Map TaskRun) (t : PipelineTaskSpec)
    : Type 0 where
  pub listed : Elem t tasks
  pub not_started : lookup t.name existing ≡ none
  pub upstream : (d : String) → Elem d t.depends_on → Succeeded existing d
  pub in_turn : serial_blocked t tasks existing ≡ false

is_runnable_iff :
    (tasks : List PipelineTaskSpec) (existing : Map TaskRun) (t : PipelineTaskSpec)
    → Elem t tasks
    → (is_runnable tasks existing t ≡ true) ↔ IsReady tasks existing t
unfolding is_runnable
is_runnable_iff tasks existing t m =
    let deps = all_iff (has_succeeded existing) t.depends_on in
    (
      (λ h. record {
        listed = m;
        not_started = ground arith;
        upstream = λ d k. (has_succeeded_iff existing d).0 (deps.0 (ground arith) d k);
        in_turn = ground arith;
      }),
      (λ r. ground (
        arith,
        r.not_started,
        r.in_turn,
        deps.1 (λ d k. (has_succeeded_iff existing d).1 (r.upstream d k)),
      )),
    )

differ : false ≡ true → ⊥
differ h = cc

collect_runnable_iff :
    (tasks : List PipelineTaskSpec) (existing : Map TaskRun) (rest : List PipelineTaskSpec)
    (t : PipelineTaskSpec)
    → Elem t (collect_runnable tasks existing rest)
      ↔ Elem t rest × (is_runnable tasks existing t ≡ true)
unfolding collect_runnable
collect_runnable_iff tasks existing [] t = ((λ m. elim m [ ]), (λ m. m.0))
collect_runnable_iff tasks existing (u ∷ rest) t =
    let ih = collect_runnable_iff tasks existing rest t in
    elim (Bool-cases (is_runnable tasks existing u)) [
      | inl e ↦
          rw (e, collect_runnable)
            (
              (λ m. elim m [ inl p ↦ (inl p, rw p e) | inr k ↦ (inr (ih.0 k).0, (ih.0 k).1) ]),
              (λ m. elim m.0 [ inl p ↦ inl p | inr k ↦ inr (ih.1 (k, m.1)) ]),
            )
      | inr e ↦
          rw (e, collect_runnable)
            (
              (λ m. (inr (ih.0 m).0, (ih.0 m).1)),
              (λ m. elim m.0 [
                | inl p ↦ absurd (differ (sym e ∙ ap (is_runnable tasks existing) (sym p) ∙ m.1))
                | inr k ↦ ih.1 (k, m.1)
              ]),
            )
    ]

-- findRunnableTasks returns a task exactly when it is a task of the run that has no TaskRun yet,
-- all the tasks that it depends on have Succeeded, and serialBlocked does not hold it back.
pub find_runnable_tasks_iff :
    (tasks : List PipelineTaskSpec) (existing : Map TaskRun) (t : PipelineTaskSpec)
    → Elem t (find_runnable_tasks tasks existing) ↔ IsReady tasks existing t
unfolding find_runnable_tasks
find_runnable_tasks_iff tasks existing t =
    let c = collect_runnable_iff tasks existing tasks t in
    (
      (λ m. (is_runnable_iff tasks existing t (c.0 m).0).0 (c.0 m).1),
      (λ r. c.1 (r.listed, (is_runnable_iff tasks existing t r.listed).1 r)),
    )
