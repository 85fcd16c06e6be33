-- ===== src/Dag/Serial.antt =====
-- The one-at-a-time order of a Serial stage.
use mathlib.Core.Logic.{◌≢◌}
use software_distribution_pl.Prelude.{
  ℕ, suc, ℤ, pos, leb_ℤ, ◌≤ℤ◌, String, string_eq, eq_iff, ◌==◌, ◌≡◌, sym, ap, ◌∙◌, ◌⊎◌, inl, inr,
  Bool, true, false, any, Bool-cases, none, List, [], ◌∷◌, Elem, Map, lookup, arith,
}
use software_distribution_pl.Api.Pipeline.{PipelineTaskSpec, serial}
use software_distribution_pl.Api.Task.{TaskRun}
use software_distribution_pl.Dag.{
  serial_blocked, blocks, order_index, order_index_from, find_runnable_tasks,
}
use software_distribution_pl.Dag.Runnable.{Succeeded, has_succeeded_iff, find_runnable_tasks_iff}

-- Two tasks of one Serial stage.
pub record IsSibling (t u : PipelineTaskSpec) : Type 0 where
  pub staged : t.stage ≢ ""
  pub same_stage : u.stage ≡ t.stage
  pub serial_t : t.execution_mode ≡ serial
  pub serial_u : u.execution_mode ≡ serial

any-false :
    {A : Type 0} (p : A → Bool) (xs : List A) (x : A) → any p xs ≡ false → Elem x xs → p x ≡ false
any-false p [] x h m = elim m [ ]
any-false p (y ∷ ys) x h m = elim m [
  | inl e ↦ rw e (ground arith)
  | inr k ↦ any-false p ys x (ground arith) k
]

-- The sibling u stands before t in the order of the run's tasks.
abbrev pub IsEarlier : List PipelineTaskSpec → PipelineTaskSpec → PipelineTaskSpec → Type 0
IsEarlier tasks u t = leb_ℤ (order_index tasks t.name) (order_index tasks u.name) ≡ false

-- A task of a Serial stage is runnable only when every sibling of the stage that stands before it
-- has Succeeded.
pub find_runnable_tasks_in_turn :
    (tasks : List PipelineTaskSpec) (existing : Map TaskRun) (t u : PipelineTaskSpec)
    → Elem t (find_runnable_tasks tasks existing)
    → Elem u tasks
    → IsSibling t u
    → IsEarlier tasks u t
    → Succeeded existing u.name
unfolding serial_blocked blocks
find_runnable_tasks_in_turn tasks existing t u m k s before =
    let r = (find_runnable_tasks_iff tasks existing t).0 m in
    let free : any (blocks t tasks existing) tasks ≡ false =
      ground (arith, r.in_turn, eq_iff t.stage "", s) in
    let b = any-false (blocks t tasks existing) tasks u free k in
    (has_succeeded_iff existing u.name).0 (ground (arith, b, s, before, eq_iff u.stage t.stage))

abbrev Named : String → List PipelineTaskSpec → Type 0
Named a [] = ⊥
Named a (t ∷ tasks) = (t.name ≡ a) ⊎ Named a tasks

Elem-Named :
    (t : PipelineTaskSpec) (tasks : List PipelineTaskSpec) → Elem t tasks → Named t.name tasks
Elem-Named t [] m = elim m [ ]
Elem-Named t (u ∷ tasks) m = elim m [
  | inl e ↦ inl (ap (λ (x : PipelineTaskSpec). x.name) (sym e))
  | inr k ↦ inr (Elem-Named t tasks k)
]

-- The index of a name that is there lies among the places that are searched.
order_index_from-Named :
    (i : ℕ) (tasks : List PipelineTaskSpec) (a : String)
    → Named a tasks
    → pos i ≤ℤ order_index_from i tasks a
unfolding order_index_from
order_index_from-Named i [] a m = elim m [ ]
order_index_from-Named i (t ∷ tasks) a m = elim (Bool-cases (t.name == a)) [
  | inl e ↦ rw (e, order_index_from) (omega arith)
  | inr e ↦
      rw (e, order_index_from)
        (elim m [
          | inl n ↦ absurd (ground (arith, eq_iff t.name a))
          | inr k ↦ omega (arith, order_index_from-Named (suc i) tasks a k)
        ])
]

order_index_from-injective :
    (i : ℕ) (tasks : List PipelineTaskSpec) (a b : String)
    → Named a tasks
    → Named b tasks
    → order_index_from i tasks a ≡ order_index_from i tasks b
    → a ≡ b
unfolding order_index_from
order_index_from-injective i [] a b m k e = elim m [ ]
order_index_from-injective i (t ∷ tasks) a b m k e = ground (
  arith,
  eq_iff t.name a,
  eq_iff t.name b,
  order_index_from-Named (suc i) tasks a,
  order_index_from-Named (suc i) tasks b,
  order_index_from-injective (suc i) tasks a b,
)

not_both :
    (existing : Map TaskRun) (name : String)
    → lookup name existing ≡ none
    → Succeeded existing name
    → ⊥
not_both existing name e (tr, f, p) = cc

leb_antisymm : (a b : ℤ) → leb_ℤ a b ≡ true → leb_ℤ b a ≡ true → a ≡ b
leb_antisymm a b h k = ground arith

-- Two runnable tasks of one Serial stage have the same name: at most one task of a Serial stage is
-- started in a round.
pub find_runnable_tasks_exclusive :
    (tasks : List PipelineTaskSpec) (existing : Map TaskRun) (t u : PipelineTaskSpec)
    → Elem t (find_runnable_tasks tasks existing)
    → Elem u (find_runnable_tasks tasks existing)
    → IsSibling t u
    → t.name ≡ u.name
unfolding order_index
find_runnable_tasks_exclusive tasks existing t u m k s =
    let r = (find_runnable_tasks_iff tasks existing t).0 m in
    let q = (find_runnable_tasks_iff tasks existing u).0 k in
    let back : IsSibling u t = record {
      staged = λ e. s.staged (sym s.same_stage ∙ e);
      same_stage = sym s.same_stage;
      serial_t = s.serial_u;
      serial_u = s.serial_t;
    } in
    elim (Bool-cases (leb_ℤ (order_index tasks t.name) (order_index tasks u.name))) [
      | inr e ↦ absurd (
          not_both existing u.name q.not_started
            (find_runnable_tasks_in_turn tasks existing t u m q.listed s e))
      | inl a ↦ elim (Bool-cases (leb_ℤ (order_index tasks u.name) (order_index tasks t.name))) [
        | inr e ↦ absurd (
            not_both existing t.name r.not_started
              (find_runnable_tasks_in_turn tasks existing u t k r.listed back e))
        | inl b ↦
            order_index_from-injective 0 tasks t.name u.name (Elem-Named t tasks r.listed)
              (Elem-Named u tasks q.listed) (leb_antisymm _ _ a b)
      ]
    ]
