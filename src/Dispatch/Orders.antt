-- ===== src/Dispatch/Orders.antt =====
-- What the hash of a DAG does not depend on.
use mathlib.Core.List.{Permᴰ, Mem, mem-cons_self, Nodup, Nodup-cons}
use mathlib.Core.List.Perm
use mathlib.Core.List.Permᴰ
use software_distribution_pl.Prelude.{
  String, text_lt, text_lt_asym, text_lt_trans, text_lt_total, List, [], ◌∷◌, map, true, false,
  Bool-cases, inl, inr, none, pos, ◌≡◌, refl, sym, ap, ap₂, ◌∙◌, subst,
}
use software_distribution_pl.Api.Pipeline.{PipelineTaskSpec}
use software_distribution_pl.Dispatch.Snapshot.{
  Proj, insert_by, sort_by, project, task_name, snapshot_spec,
}

module _ {A : Type 0} (key : A → String) where
  past :
      (x z : A) (l : List A)
      → text_lt (key z) (key x) ≡ true
      → insert_by key x (z ∷ l) ≡ z ∷ insert_by key x l
  unfolding insert_by
  past x z l h = rw h refl

  front :
      (x z : A) (l : List A) → text_lt (key z) (key x) ≡ false → insert_by key x (z ∷ l) ≡ x ∷ z ∷ l
  unfolding insert_by
  front x z l h = rw h refl

  insert_less :
      (x y : A)
      → text_lt (key x) (key y) ≡ true
      → (l : List A) → insert_by key x (insert_by key y l) ≡ insert_by key y (insert_by key x l)
  unfolding insert_by
  insert_less x y h [] = rw (h, text_lt_asym (key x) (key y) h) refl
  insert_less x y h (z ∷ l) = elim (Bool-cases (text_lt (key z) (key x))) [
    | inl a ↦
        let b = text_lt_trans (key z) (key x) (key y) a h in
        ap (insert_by key x) (past y z l b)
        ∙ past x z (insert_by key y l) a
        ∙ ap (λ t. z ∷ t) (insert_less x y h l)
        ∙ sym (past y z (insert_by key x l) b)
        ∙ sym (ap (insert_by key y) (past x z l a))
    | inr a ↦ elim (Bool-cases (text_lt (key z) (key y))) [
      | inl b ↦
          ap (insert_by key x) (past y z l b)
          ∙ front x z (insert_by key y l) a
          ∙ ap (λ t. x ∷ t) (sym (past y z l b))
          ∙ sym (past y x (z ∷ l) h)
          ∙ sym (ap (insert_by key y) (front x z l a))
      | inr b ↦
          ap (insert_by key x) (front y z l b)
          ∙ front x y (z ∷ l) (text_lt_asym (key x) (key y) h)
          ∙ ap (λ t. x ∷ t) (sym (front y z l b))
          ∙ sym (past y x (z ∷ l) h)
          ∙ sym (ap (insert_by key y) (front x z l a))
    ]
  ]

  insert_swap :
      (x y : A)
      → (key x ≡ key y → x ≡ y)
      → (l : List A) → insert_by key x (insert_by key y l) ≡ insert_by key y (insert_by key x l)
  insert_swap x y h l = elim (Bool-cases (text_lt (key x) (key y))) [
    | inl a ↦ insert_less x y a l
    | inr a ↦ elim (Bool-cases (text_lt (key y) (key x))) [
      | inl b ↦ sym (insert_less y x b l)
      | inr b ↦
          let e = h (text_lt_total (key x) (key y) a b) in
          ap₂ (λ v w. insert_by key v (insert_by key w l)) e (sym e)
    ]
  ]

  -- No two elements have one key.
  abbrev pub IsKeyed : List A → Type 0
  IsKeyed l = Nodup (map key l)

  sort_by-perm : {xs ys : List A} → Permᴰ xs ys → IsKeyed xs → sort_by key xs ≡ sort_by key ys
  unfolding sort_by
  sort_by-perm Permᴰ.nil u = refl
  sort_by-perm (Permᴰ.cons e p) u = ap₂ (insert_by key) e (sort_by-perm p (Nodup-cons.0 u).1)
  sort_by-perm (Permᴰ.swap {a} {b} {a'} {b'} {l} e f) u =
      insert_swap a b
        (λ same.
          absurd
            ((Nodup-cons.0 u).0 (subst (λ k. Mem k (key b ∷ map key l)) (sym same) mem-cons_self)))
        (sort_by key l)
      ∙ ap₂ (λ v w. insert_by key v (insert_by key w (sort_by key l))) f e
  sort_by-perm (Permᴰ.trans p q) u =
      sort_by-perm p u ∙ sort_by-perm q (Perm.nodup (∣ Permᴰ.map key p ∣₁) u)

  insert_by-map :
      (f : A → A)
      → ((a : A) → key (f a) ≡ key a)
      → (x : A) (l : List A) → insert_by key (f x) (map f l) ≡ map f (insert_by key x l)
  unfolding insert_by
  insert_by-map f h x [] = refl
  insert_by-map f h x (y ∷ l) = elim (Bool-cases (text_lt (key y) (key x))) [
    | inl e ↦ rw (h y, h x) (rw e (ap (λ t. f y ∷ t) (insert_by-map f h x l)))
    | inr e ↦ rw (h y, h x) (rw e refl)
  ]

  sort_by-map :
      (f : A → A)
      → ((a : A) → key (f a) ≡ key a)
      → (l : List A) → sort_by key (map f l) ≡ map f (sort_by key l)
  unfolding sort_by
  sort_by-map f h [] = refl
  sort_by-map f h (x ∷ l) =
      ap (insert_by key (f x)) (sort_by-map f h l) ∙ insert_by-map f h x (sort_by key l)

-- If no two tasks have the same name, the snapshot of the tasks in any other order is the same.
pub snapshot_spec-perm :
    (digest : List Proj → String) {tasks others : List PipelineTaskSpec}
    → Permᴰ tasks others
    → IsKeyed task_name tasks
    → snapshot_spec digest tasks ≡ snapshot_spec digest others
unfolding snapshot_spec
snapshot_spec-perm digest p u = ap (λ ts. digest (map project ts)) (sort_by-perm task_name p u)

-- A task without what the projection leaves out.
abbrev pub bare : PipelineTaskSpec → PipelineTaskSpec
bare t = record t {
  script_args = [];
  command = [];
  args = [];
  repo = none;
  produces = [];
  consumes = [];
  privileged = false;
  retry_policy = none;
  timeout_seconds = pos 0;
  approval_config = none;
  rollout_spec = none;
  release_spec = none;
}

project-bare : (ts : List PipelineTaskSpec) → map project (map bare ts) ≡ map project ts
unfolding project
project-bare [] = refl
project-bare (t ∷ ts) = ap (λ l. project t ∷ l) (project-bare ts)

snapshot_spec-bare :
    (digest : List Proj → String) (tasks : List PipelineTaskSpec)
    → snapshot_spec digest (map bare tasks) ≡ snapshot_spec digest tasks
unfolding snapshot_spec
snapshot_spec-bare digest tasks = ap digest (
    ap (map project) (sort_by-map task_name bare (λ a. refl) tasks)
    ∙ project-bare (sort_by task_name tasks))
