-- ===== src/Pipelines/Resync.antt =====
-- The status that is sent again after a new connection to the hub.
use software_distribution_pl.Prelude.{
  String, ◌≡◌, refl, ap, sym, ◌∙◌, ◌↔◌, inl, inr, true, false, Bool-cases, List, [], ◌∷◌, Elem,
}
use software_distribution_pl.Api.Pipeline.{PipelineRun}
use software_distribution_pl.Api.Payloads.{StatusUpdatePayload}
use software_distribution_pl.Dag.{is_terminal_phase}
use software_distribution_pl.Kube.{Cluster, Trace, ok, note, send_status}
use software_distribution_pl.Kube.Runs.{calls, each-ok}
use software_distribution_pl.Pipelines.{resend, resync_all}
use software_distribution_pl.Pipelines.Changes.{status_payload}

-- The report of an unfinished run of the list.
abbrev pub IsDue : String → List PipelineRun → StatusUpdatePayload → Type 0
IsDue target items p =
    (pr : PipelineRun) × Elem pr items
    × (is_terminal_phase pr.status.phase ≡ false)
    × (status_payload target pr ≡ p)

differ : true ≡ false → ⊥
differ h = cc

resend_iff :
    (target : String) (items : List PipelineRun) (p : StatusUpdatePayload)
    → Elem p (resend target items) ↔ IsDue target items p
unfolding resend
resend_iff target [] p = ((λ m. elim m [ ]), (λ (pr, m, f, e). elim m [ ]))
resend_iff target (pr ∷ items) p =
    let ih = resend_iff target items p in
    elim (Bool-cases (is_terminal_phase pr.status.phase)) [
      | inl t ↦
          rw (t, resend)
            (
              (λ m. let (q, l, f, e) = ih.0 m in (q, inr l, f, e)),
              (λ (q, m, f, e). elim m [
                | inl s ↦ absurd (differ (sym t ∙ rw s at f))
                | inr l ↦ ih.1 (q, l, f, e)
              ]),
            )
      | inr t ↦
          rw (t, resend)
            (
              (λ m. elim m [
                | inl s ↦ (pr, inl refl, t, sym s)
                | inr l ↦ let (q, l', f, e) = ih.0 l in (q, inr l', f, e)
              ]),
              (λ (q, m, f, e). elim m [
                | inl s ↦ inl (sym e ∙ ap (status_payload target) s)
                | inr l ↦ inr (ih.1 (q, l, f, e))
              ]),
            )
    ]

-- Where the runs of the target can be listed, ResyncAll makes no call but one report for each
-- unfinished run, in the order of the list, and a report is sent exactly when it is that of an
-- unfinished run of the list.
pub resync_all-calls :
    (k : Cluster) (target : String) (tr : Trace) (items : List PipelineRun)
    → k.list_runs tr (("sdp.io/target", target) ∷ []) ≡ ok items
    → (resync_all k target tr ≡ (calls send_status (resend target items) tr, ok tt))
      × ((p : StatusUpdatePayload) → Elem p (resend target items) ↔ IsDue target items p)
unfolding resync_all
resync_all-calls k target tr items listed = (
  rw (listed, resync_all)
      (each-ok (λ p. note (send_status p)) send_status (λ p tr'. refl) (resend target items) tr),
  resend_iff target items,
)
