-- ===== src/Dispatch/Downstream.antt =====
-- internal/dispatch/rerun_handler.go, DownstreamTasks: the tasks behind a task in the DAG.
use mathlib.Core.List.{◌++◌}
use software_distribution_pl.Prelude.{
  ℕ, zero, suc, ◌+◌, ◌≤◌, ◌≡◌, refl, sym, subst, ◌↔◌, ◌⊎◌, inl, inr, String, string_eq, eq_iff,
  ◌==◌, Bool-cases, some, List, [], ◌∷◌, length, Elem, Map, lookup, insert, lookup-insert, arith,
}
use software_distribution_pl.Api.Pipeline.{PipelineTaskSpec}
use software_distribution_pl.Dispatch.Rerun.{
  dependents_at, add_edges, add_tasks, push, walk_queue, downstream_tasks,
}
use software_distribution_pl.Dispatch.Queue.{
  Elem-append, fresh, fresh-le, IsName, push-fresh, push-IsPushed,
}

-- The task named x depends on the task named d.
abbrev pub IsEdge : List PipelineTaskSpec → String → String → Type 0
IsEdge tasks d x = (t : PipelineTaskSpec) × Elem t tasks × (t.name ≡ x) × Elem d t.depends_on

-- The task named x depends on the root, directly or through others.
pub data IsDownstream (tasks : List PipelineTaskSpec) (root : String) : String → Type 0 where
  direct : {x : String} → IsEdge tasks root x → IsDownstream tasks root x
  further :
      {x y : String} → IsDownstream tasks root y → IsEdge tasks y x → IsDownstream tasks root x

found_lem :
    (d : String) (ys : List String) (m : Map (List String))
    → lookup d m ≡ some ys
    → dependents_at d m ≡ ys
found_lem d ys m e = rw (e, dependents_at) refl

same_lem :
    (d : String) (m m' : Map (List String))
    → lookup d m ≡ lookup d m'
    → dependents_at d m ≡ dependents_at d m'
same_lem d m m' e = rw (e, dependents_at) refl

dependents-insert :
    (dep name d x : String) (m : Map (List String))
    → Elem x (dependents_at d (insert dep (dependents_at dep m ++ (name ∷ [])) m))
      ↔ (Elem x (dependents_at d m) ⊎ ((d ≡ dep) × (name ≡ x)))
dependents-insert dep name d x m = elim (Bool-cases (dep == d)) [
  | inl e ↦
      let s : dep ≡ d = (eq_iff dep d).0 e in
      let ys : List String = dependents_at dep m ++ (name ∷ []) in
      let l : dependents_at d (insert dep ys m) ≡ ys =
        found_lem d ys (insert dep ys m) (ground (arith, e, lookup-insert dep d ys m)) in
      let a = Elem-append (dependents_at dep m) name x in
      subst
        (λ (zs : List String). Elem x zs ↔ (Elem x (dependents_at d m) ⊎ ((d ≡ dep) × (name ≡ x))))
        (sym l)
        (
          (λ h. elim (a.0 h) [ inl o ↦ inl (rw s at o) | inr q ↦ inr (sym s, sym q) ]),
          (λ h. elim h [ inl o ↦ a.1 (inl (rw s o)) | inr (q, n) ↦ a.1 (inr (sym n)) ]),
        )
  | inr e ↦
      let ys : List String = dependents_at dep m ++ (name ∷ []) in
      let l : dependents_at d (insert dep ys m) ≡ dependents_at d m =
        same_lem d (insert dep ys m) m (ground (arith, e, lookup-insert dep d ys m)) in
      subst
        (λ (zs : List String). Elem x zs ↔ (Elem x (dependents_at d m) ⊎ ((d ≡ dep) × (name ≡ x))))
        (sym l)
        (
          (λ h. inl h),
          (λ h. elim h [ inl o ↦ o | inr (q, n) ↦ absurd (ground (arith, eq_iff dep d)) ]),
        )
]

dependents-add_edges :
    (name : String) (deps : List String) (d x : String) (m : Map (List String))
    → Elem x (dependents_at d (add_edges name deps m))
      ↔ (Elem x (dependents_at d m) ⊎ (Elem d deps × (name ≡ x)))
unfolding add_edges
dependents-add_edges name [] d x m =
    ((λ h. inl h), (λ h. elim h [ inl o ↦ o | inr (n, e) ↦ elim n [ ] ]))
dependents-add_edges name (dep ∷ deps) d x m =
    let ih =
      dependents-add_edges name deps d x (insert dep (dependents_at dep m ++ (name ∷ [])) m) in
    let one = dependents-insert dep name d x m in
    (
      (λ h. elim (ih.0 h) [
        | inr (n, e) ↦ inr (inr n, e)
        | inl o ↦ elim (one.0 o) [ inl old ↦ inl old | inr (q, e) ↦ inr (inl q, e) ]
      ]),
      (λ h. elim h [
        | inl o ↦ ih.1 (inl (one.1 (inl o)))
        | inr (n, e) ↦ elim n [
          | inl q ↦ ih.1 (inl (one.1 (inr (q, e))))
          | inr n' ↦ ih.1 (inr (n', e))
        ]
      ]),
    )

dependents-add_tasks :
    (tasks : List PipelineTaskSpec) (d x : String) (m : Map (List String))
    → Elem x (dependents_at d (add_tasks tasks m)) ↔ (Elem x (dependents_at d m) ⊎ IsEdge tasks d x)
unfolding add_tasks
dependents-add_tasks [] d x m =
    ((λ h. inl h), (λ h. elim h [ inl o ↦ o | inr (t, n, e, k) ↦ elim n [ ] ]))
dependents-add_tasks (t ∷ tasks) d x m =
    let ih = dependents-add_tasks tasks d x (add_edges t.name t.depends_on m) in
    let one = dependents-add_edges t.name t.depends_on d x m in
    (
      (λ h. elim (ih.0 h) [
        | inr (u, n, e, k) ↦ inr (u, inr n, e, k)
        | inl o ↦ elim (one.0 o) [ inl old ↦ inl old | inr (k, e) ↦ inr (t, inl refl, e, k) ]
      ]),
      (λ h. elim h [
        | inl o ↦ ih.1 (inl (one.1 (inl o)))
        | inr (u, n, e, k) ↦ elim n [
          | inl s ↦ ih.1 (inl (one.1 (inr (rw s at k, rw s at e))))
          | inr n' ↦ ih.1 (inr (u, n', e, k))
        ]
      ]),
    )

-- The edges that the map holds are those of the run.
edges_iff :
    (tasks : List PipelineTaskSpec) (d x : String)
    → Elem x (dependents_at d (add_tasks tasks [])) ↔ IsEdge tasks d x
unfolding lookup
edges_iff tasks d x =
    let all = dependents-add_tasks tasks d x [] in
    ((λ h. elim (all.0 h) [ inl n ↦ elim n [ ] | inr e ↦ e ]), (λ e. all.1 (inr e)))

module _ (tasks : List PipelineTaskSpec) (root : String) where
  -- What holds between two rounds.
  record IsRound (out queue : List String) : Type 0 where
    sound : (x : String) → Elem x out → IsDownstream tasks root x
    origin : (x : String) → Elem x queue → (x ≡ root) ⊎ IsDownstream tasks root x
    closed : (y x : String) → (y ≡ root) ⊎ Elem y out → IsEdge tasks y x → Elem y queue ⊎ Elem x out

  push-IsRound :
      (cur : String) (out queue : List String)
      → IsRound out (cur ∷ queue)
      → (let next = push (dependents_at cur (add_tasks tasks [])) out queue in
          IsRound next.0 next.1)
  push-IsRound cur out queue h =
      let ds = dependents_at cur (add_tasks tasks []) in
      let p = push-IsPushed ds out queue in
      let behind : (x : String) → Elem x ds → IsDownstream tasks root x = λ x n.
        let e = (edges_iff tasks cur x).0 n in
        elim (h.origin cur (inl refl)) [ inl s ↦ direct (rw s at e) | inr d ↦ further d e ] in
      record {
        sound = λ x m. elim (p.origin x m) [ inl o ↦ h.sound x o | inr (n, q) ↦ behind x n ];
        origin =
            λ x m. elim (p.queued x m) [ inl q ↦ h.origin x (inr q) | inr n ↦ inr (behind x n) ];
        closed = λ y x w e.
            let old : ((y ≡ root) ⊎ Elem y out)
                → Elem y (push ds out queue).1 ⊎ Elem x (push ds out queue).0 =
              λ v. elim (h.closed y x v e) [
                | inr o ↦ inr (p.kept x o)
                | inl n ↦ elim n [
                  | inl s ↦ inr (p.taken x ((edges_iff tasks cur x).1 (rw s at e)))
                  | inr q ↦ inl (p.waiting y q)
                ]
              ] in
            elim w [
              | inl s ↦ old (inl s)
              | inr m ↦ elim (p.origin y m) [ inl o ↦ old (inr o) | inr (n, q) ↦ inl q ]
            ];
      }

  closed_all :
      (out : List String) (x : String) → IsRound out [] → IsDownstream tasks root x → Elem x out
  closed_all out x h (direct e) = elim (h.closed root x (inl refl) e) [
    | inl n ↦ elim n [ ]
    | inr m ↦ m
  ]
  closed_all out x h (further {y = y} d e) = elim (h.closed y x (inr (closed_all out y h d)) e) [
    | inl n ↦ elim n [ ]
    | inr m ↦ m
  ]

  -- The names that the walk returns, given fuel for the fresh names and the queue.
  IsClosure : List String → Type 0
  IsClosure out = (x : String) → Elem x out ↔ IsDownstream tasks root x

  walk_queue_lem :
      (fuel : ℕ) (out queue : List String)
      → IsRound out queue
      → fresh tasks out + length queue ≤ fuel
      → (res : List String) × (walk_queue fuel (add_tasks tasks []) out queue ≡ some res)
        × IsClosure res
  unfolding walk_queue IsClosure
  walk_queue_lem fuel out [] h enough = (out, refl, λ x. (h.sound x, closed_all out x h))
  walk_queue_lem zero out (cur ∷ queue) h enough = absurd (omega (arith, enough))
  walk_queue_lem (suc fuel) out (cur ∷ queue) h enough =
      let ds = dependents_at cur (add_tasks tasks []) in
      let names : (d : String) → Elem d ds → IsName tasks d =
        λ d n. let (t, m, e, k) = (edges_iff tasks cur d).0 n in (t, m, e) in
      walk_queue_lem fuel (push ds out queue).0 (push ds out queue).1 (push-IsRound cur out queue h)
        (omega (arith, push-fresh tasks ds out queue names, enough))

-- DownstreamTasks ends within a round for each task and one more, and it returns exactly the names
-- of the tasks that depend on the given one, directly or through others.
pub downstream_tasks_iff :
    (tasks : List PipelineTaskSpec) (root : String)
    → (res : List String) × (downstream_tasks tasks root ≡ some res)
      × ((x : String) → Elem x res ↔ IsDownstream tasks root x)
unfolding downstream_tasks IsClosure
downstream_tasks_iff tasks root =
    walk_queue_lem tasks root (length tasks + 1) [] (root ∷ [])
      (record {
        sound = λ x m. elim m [ ];
        origin = λ x m. elim m [ inl e ↦ inl e | inr n ↦ elim n [ ] ];
        closed = λ y x w e. elim w [ inl s ↦ inl (inl s) | inr m ↦ elim m [ ] ];
      })
      (omega (arith, fresh-le tasks []))
