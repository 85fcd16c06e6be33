-- ===== src/Runner/Hook.antt =====
-- cmd/runner/main.go: the hook of a connection, which counts it and sends the runs again.
use software_distribution_pl.Prelude.{String, ◌≡◌, refl, ap, List, [], ◌∷◌}
use software_distribution_pl.Api.Pipeline.{PipelineRun}
use software_distribution_pl.Kube.{
  Cluster, Trace, Result, ok, err, M, ◌>>◌, note, ignore, send_status, count_reconnect,
}
use software_distribution_pl.Kube.Runs.{calls}
use software_distribution_pl.Pipelines.{resend, resync_all}
use software_distribution_pl.Pipelines.Resync.{resync_all-calls}

-- An error of ResyncAll is only logged.
unfoldable pub on_connect : Cluster → String → M (Unit {0})
on_connect k target = note count_reconnect >> ignore (resync_all k target)

-- The trace after the reports of what the List answered.
abbrev reported : String → Result (List PipelineRun) → Trace → Trace
reported target (ok items) tr = calls send_status (resend target items) tr
reported target (err e) tr = tr

resync_all-reported :
    (k : Cluster) (target : String) (tr : Trace) (listed : Result (List PipelineRun))
    → k.list_runs tr (("sdp.io/target", target) ∷ []) ≡ listed
    → ignore (resync_all k target) tr ≡ (reported target listed tr, ok tt)
unfolding resync_all
resync_all-reported k target tr (ok items) h =
    ap (λ x. (x.0, ok tt)) (resync_all-calls k target tr items h).0
resync_all-reported k target tr (err e) h = rw (h, resync_all) refl

-- Whatever the cluster answers, the hook of a connection returns no error, counts the connection and, if the
-- runs of the target can be listed then, makes no other call but the reports of ResyncAll in order; if
-- they cannot, it makes no other call.
on_connect-reported :
    (k : Cluster) (target : String) (tr : Trace)
    → (let counted = count_reconnect ∷ tr in
        on_connect k target tr
        ≡ (reported target (k.list_runs counted (("sdp.io/target", target) ∷ [])) counted, ok tt))
unfolding on_connect
on_connect-reported k target tr = resync_all-reported k target (count_reconnect ∷ tr) _ refl
