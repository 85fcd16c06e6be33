-- ===== src/Dispatch/Queue.antt =====
-- The queue of DownstreamTasks: what a round adds, and the names that are left.
use mathlib.Core.List.{◌++◌}
use software_distribution_pl.Prelude.{
  ℕ, suc, ◌+◌, ◌≤◌, ◌≡◌, refl, sym, ◌↔◌, ◌⊎◌, inl, inr, String, string_eq, eq_iff, ◌==◌, true,
  false, Bool-cases, List, [], ◌∷◌, length, length-append, contains, Elem, if◌then◌else◌, arith,
}
use software_distribution_pl.Api.Pipeline.{PipelineTaskSpec}
use software_distribution_pl.Dispatch.Rerun.{push}

pub Elem-append :
    (xs : List String) (a x : String) → Elem x (xs ++ (a ∷ [])) ↔ (Elem x xs ⊎ (x ≡ a))
Elem-append [] a x = (
  (λ m. elim m [ inl e ↦ inr e | inr n ↦ elim n [ ] ]),
  (λ m. elim m [ inl n ↦ elim n [ ] | inr e ↦ inl e ]),
)
Elem-append (y ∷ ys) a x =
    let ih = Elem-append ys a x in
    (
      (λ m. elim m [
        | inl e ↦ inl (inl e)
        | inr n ↦ elim (ih.0 n) [ inl o ↦ inl (inr o) | inr e ↦ inr e ]
      ]),
      (λ m. elim m [
        | inl o ↦ elim o [ inl e ↦ inl e | inr n ↦ inr (ih.1 (inl n)) ]
        | inr e ↦ inr (ih.1 (inr e))
      ]),
    )

contains_iff : (xs : List String) (a : String) → (contains xs a ≡ true) ↔ Elem a xs
contains_iff [] a = ((λ e. absurd (ground arith)), (λ m. elim m [ ]))
contains_iff (x ∷ xs) a =
    let ih = contains_iff xs a in
    elim (Bool-cases (x == a)) [
      | inl e ↦ ((λ h. inl (sym ((eq_iff x a).0 e))), (λ m. ground arith))
      | inr e ↦ (
        (λ h. inr (ih.0 (ground arith))),
        (λ m. elim m [
          | inl s ↦ absurd (ground (arith, eq_iff x a))
          | inr n ↦ ground (arith, ih.1 n)
        ]),
      )
    ]

-- The names that can still be pushed.
abbrev pub fresh : List PipelineTaskSpec → List String → ℕ
fresh [] out = 0
fresh (t ∷ tasks) out = let rest = fresh tasks out in if contains out t.name then rest else suc rest

pub fresh-le : (tasks : List PipelineTaskSpec) (out : List String) → fresh tasks out ≤ length tasks
fresh-le [] out = omega arith
fresh-le (t ∷ tasks) out = ground (arith, fresh-le tasks out)

contains-append :
    (xs : List String) (a b : String)
    → contains (xs ++ (a ∷ [])) b ≡ (if contains xs b then true else a == b)
contains-append [] a b = ground arith
contains-append (x ∷ xs) a b = ground (arith, contains-append xs a b)

fresh-append_le :
    (tasks : List PipelineTaskSpec) (out : List String) (a : String)
    → fresh tasks (out ++ (a ∷ [])) ≤ fresh tasks out
fresh-append_le [] out a = omega arith
fresh-append_le (t ∷ tasks) out a =
    ground (arith, contains-append out a t.name, fresh-append_le tasks out a)

fresh-append_lt :
    (tasks : List PipelineTaskSpec) (out : List String) (t : PipelineTaskSpec)
    → Elem t tasks
    → contains out t.name ≡ false
    → suc (fresh tasks (out ++ (t.name ∷ []))) ≤ fresh tasks out
fresh-append_lt [] out t m h = elim m [ ]
fresh-append_lt (u ∷ tasks) out t m h = elim m [
  | inl e ↦ rw (← e) (
      ground (
        arith,
        contains-append out t.name t.name,
        eq_iff t.name t.name,
        fresh-append_le tasks out t.name,
        h,
      ))
  | inr n ↦ ground (arith, contains-append out t.name u.name, fresh-append_lt tasks out t n h)
]

-- The name of a task of the run.
abbrev pub IsName : List PipelineTaskSpec → String → Type 0
IsName tasks d = (t : PipelineTaskSpec) × Elem t tasks × (t.name ≡ d)

-- Each push takes a name from the fresh ones and puts it on the queue.
pub push-fresh :
    (tasks : List PipelineTaskSpec) (ds out queue : List String)
    → ((d : String) → Elem d ds → IsName tasks d)
    → fresh tasks (push ds out queue).0 + length (push ds out queue).1
      ≤ fresh tasks out + length queue
unfolding push
push-fresh tasks [] out queue names = omega arith
push-fresh tasks (d ∷ ds) out queue names =
    let (t, m, e) = names d (inl refl) in
    let ih = push-fresh tasks ds out queue (λ x n. names x (inr n)) in
    let ih' = push-fresh tasks ds (out ++ (d ∷ [])) (queue ++ (d ∷ [])) (λ x n. names x (inr n)) in
    elim (Bool-cases (contains out d)) [
      | inl c ↦ rw (c, push) ih
      | inr c ↦
          let lt : suc (fresh tasks (out ++ (d ∷ []))) ≤ fresh tasks out =
            rw e at (fresh-append_lt tasks out t m (rw e c)) in
          rw (c, push) (omega (arith, ih', lt, length-append queue (d ∷ [])))
    ]

-- What a round adds: the dependents, each of them on the queue if it is new.
pub record IsPushed (ds out queue out' queue' : List String) : Type 0 where
  pub kept : (x : String) → Elem x out → Elem x out'
  pub taken : (x : String) → Elem x ds → Elem x out'
  pub origin : (x : String) → Elem x out' → Elem x out ⊎ (Elem x ds × Elem x queue')
  pub waiting : (x : String) → Elem x queue → Elem x queue'
  pub queued : (x : String) → Elem x queue' → Elem x queue ⊎ Elem x ds

pub push-IsPushed :
    (ds out queue : List String) → IsPushed ds out queue (push ds out queue).0 (push ds out queue).1
unfolding push
push-IsPushed [] out queue = record {
  kept = λ x m. m;
  taken = λ x m. elim m [ ];
  origin = λ x m. inl m;
  waiting = λ x m. m;
  queued = λ x m. inl m;
}
push-IsPushed (d ∷ ds) out queue = elim (Bool-cases (contains out d)) [
  | inl c ↦
      let ih = push-IsPushed ds out queue in
      rw (c, push)
        (record {
          kept = ih.kept;
          taken = λ x m. elim m [
            | inl e ↦ ih.kept x (rw e ((contains_iff out d).0 c))
            | inr n ↦ ih.taken x n
          ];
          origin = λ x m. elim (ih.origin x m) [ inl o ↦ inl o | inr (n, q) ↦ inr (inr n, q) ];
          waiting = ih.waiting;
          queued = λ x m. elim (ih.queued x m) [ inl q ↦ inl q | inr n ↦ inr (inr n) ];
        })
  | inr c ↦
      let ih = push-IsPushed ds (out ++ (d ∷ [])) (queue ++ (d ∷ [])) in
      rw (c, push)
        (record {
          kept = λ x m. ih.kept x ((Elem-append out d x).1 (inl m));
          taken = λ x m. elim m [
            | inl e ↦ ih.kept x ((Elem-append out d x).1 (inr e))
            | inr n ↦ ih.taken x n
          ];
          origin = λ x m. elim (ih.origin x m) [
            | inr (n, q) ↦ inr (inr n, q)
            | inl o ↦ elim ((Elem-append out d x).0 o) [
              | inl old ↦ inl old
              | inr e ↦ inr (inl e, ih.waiting x ((Elem-append queue d x).1 (inr e)))
            ]
          ];
          waiting = λ x m. ih.waiting x ((Elem-append queue d x).1 (inl m));
          queued = λ x m. elim (ih.queued x m) [
            | inr n ↦ inr (inr n)
            | inl o ↦ elim ((Elem-append queue d x).0 o) [ inl q ↦ inl q | inr e ↦ inr (inl e) ]
          ];
        })
]
