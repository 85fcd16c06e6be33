-- ===== src/Dispatch/Approvals.antt =====
-- The decisions on an approval task.
use mathlib.Core.List.{◌++◌}
use software_distribution_pl.Prelude.{
  pos, leb_ℤ, ◌≤ℤ◌, int32, String, string_eq, eq_iff, ◌==◌, ◌≡◌, ◌≢◌, ◌↔◌, refl, sym, ◌∙◌, true,
  false, Bool-cases, inl, inr, none, some, List, [], ◌∷◌, length, contains, arith,
}
use software_distribution_pl.Api.Meta.{Time}
use software_distribution_pl.Api.Pipeline.{ApprovalStatus, TaskRunPhase}
use software_distribution_pl.Api.Task.{TaskRun}
use software_distribution_pl.Api.Payloads.{ApproveTaskPayload}
use software_distribution_pl.Dispatch.{approval_of, approved, rejected, decide_approval}

-- No name stands twice in the list.
abbrev pub Distinct : List String → Type 0
Distinct [] = Unit {0}
Distinct (x ∷ xs) = (contains xs x ≡ false) × Distinct xs

contains-append_last : (xs : List String) (a : String) → contains (xs ++ (a ∷ [])) a ≡ true
contains-append_last [] a = ground (arith, eq_iff a a)
contains-append_last (x ∷ xs) a = ground (arith, contains-append_last xs a)

contains-append_other :
    (xs : List String) (a b : String)
    → contains xs b ≡ false
    → (a == b) ≡ false
    → contains (xs ++ (a ∷ [])) b ≡ false
contains-append_other [] a b h e = ground arith
contains-append_other (x ∷ xs) a b h e = ground (arith, contains-append_other xs a b)

Distinct-append_last :
    (xs : List String) (a : String)
    → Distinct xs
    → contains xs a ≡ false
    → Distinct (xs ++ (a ∷ []))
Distinct-append_last [] a d h = (refl, tt)
Distinct-append_last (x ∷ xs) a d h = (
  contains-append_other xs a x d.0 (ground (arith, eq_iff a x, eq_iff x a)),
  Distinct-append_last xs a d.1 (ground arith),
)

module _ (t : TaskRun) (p : ApproveTaskPayload) (now : Time) where
  -- The approvals after that of the payload.
  abbrev pub approvals : List String
  approvals = (approval_of t p.task_name now).approved_by ++ (p.approver ∷ [])

  approved_lem :
      p.rejected ≡ false
      → contains (approval_of t p.task_name now).approved_by p.approver ≡ false
      → decide_approval t p now ≡ some (approved t (approval_of t p.task_name now) p.approver)
  unfolding decide_approval
  approved_lem r c = rw (r, decide_approval) (rw (c, decide_approval) refl)

  new_approver :
      {t' : TaskRun}
      → p.rejected ≡ false
      → decide_approval t p now ≡ some t'
      → contains (approval_of t p.task_name now).approved_by p.approver ≡ false
  unfolding decide_approval
  new_approver r e =
      elim (Bool-cases (contains (approval_of t p.task_name now).approved_by p.approver)) [
        | inr c ↦ c
        | inl c ↦ absurd (ground arith)
      ]

  decided_lem :
      {t' : TaskRun}
      → p.rejected ≡ false
      → decide_approval t p now ≡ some t'
      → approved t (approval_of t p.task_name now) p.approver ≡ t'
  decided_lem r e = let q = sym (approved_lem r (new_approver r e)) ∙ e in cc

  -- If the approvers are distinct and the task is not Succeeded, an approval that is stored has in
  -- its stored record the approvers of before and then the new one, all distinct, and the required
  -- number as it was, and it makes the task Succeeded exactly when there are as many approvers as
  -- it requires.
  pub decide_approval_quorum :
      (t' : TaskRun)
      → p.rejected ≡ false
      → decide_approval t p now ≡ some t'
      → t.status.phase ≢ TaskRunPhase.succeeded
      → Distinct (approval_of t p.task_name now).approved_by
      → (a : ApprovalStatus) × (t'.status.approval ≡ some a)
        × (a.approved_by ≡ (approval_of t p.task_name now).approved_by ++ (p.approver ∷ []))
        × Distinct a.approved_by
        × (a.required_count ≡ (approval_of t p.task_name now).required_count)
        × ((t'.status.phase ≡ TaskRunPhase.succeeded)
            ↔ (a.required_count ≤ℤ int32 (pos (length a.approved_by))))
  unfolding approved
  decide_approval_quorum t' r e live d =
      let by = Distinct-append_last _ p.approver d (new_approver r e) in
      rw (← decided_lem r e) (
        record (approval_of t p.task_name now) { approved_by = approvals },
        ground arith,
        refl,
        by,
        refl,
        ((λ h. ground arith), (λ h. ground arith)),
      )

  -- An approval that was stored changes nothing when it comes again.
  pub decide_approval_idempotent :
      (t' : TaskRun) (later : Time)
      → p.rejected ≡ false
      → decide_approval t p now ≡ some t'
      → decide_approval t' p later ≡ none
  unfolding decide_approval approved approval_of
  decide_approval_idempotent t' later r e =
      let a : ApprovalStatus = approval_of t p.task_name now in
      let twice : contains (a.approved_by ++ (p.approver ∷ [])) p.approver ≡ true =
        contains-append_last a.approved_by p.approver in
      rw (← decided_lem r e)
        (elim (Bool-cases
          (leb_ℤ a.required_count (int32 (pos (length (a.approved_by ++ (p.approver ∷ []))))))) [
            | inl f ↦ ground (arith, twice)
            | inr f ↦ ground (arith, twice)
          ])

  -- After a rejection has made a task Failed, an approval by a new approver that completes the
  -- required number makes it Succeeded.
  pub decide_approval_after_rejection :
      (t' : TaskRun) (q : ApproveTaskPayload) (later : Time)
      → p.rejected ≡ true
      → decide_approval t p now ≡ some t'
      → q.rejected ≡ false
      → contains (approval_of t p.task_name now).approved_by q.approver ≡ false
      → (approval_of t p.task_name now).required_count
        ≤ℤ int32 (pos (length ((approval_of t p.task_name now).approved_by ++ (q.approver ∷ []))))
      → (t'.status.phase ≡ TaskRunPhase.failed)
        × ((t'' : TaskRun) × (decide_approval t' q later ≡ some t'')
            × (t''.status.phase ≡ TaskRunPhase.succeeded))
  unfolding decide_approval approved approval_of rejected
  decide_approval_after_rejection t' q later r e s c enough =
      let a : ApprovalStatus = approval_of t p.task_name now in
      let first : rejected t a p.approver ≡ t' = ground arith in
      rw (← first) (
        refl,
        (
          approved (rejected t a p.approver) (record a { rejected_by = p.approver }) q.approver,
          ground arith,
          ground arith,
        ),
      )
