-- ===== src/AgentOps/Watch.antt =====
-- The chunks of a Job's log against the logs that were read: nothing is lost and nothing is sent twice.
use Prim.Native.String.{◌++◌}
use text.Mathlib.TextLemmas.{append_assoc, append-nil, nil-append}
use software_distribution_pl.Prelude.{
  ℕ, String, string_eq, ◌≡◌, refl, sym, ap, ◌∙◌, Option-cases, ◌⊎◌, inl, inr, ℤ, none, some, List,
  [], ◌∷◌, Map,
}
use software_distribution_pl.AgentOps.Drain.{
  Tick, Condition, JobRead, job_at, get_failed, offset_of, drain_logs, drain_tick, visited, verdict,
  watch_job,
}
use software_distribution_pl.AgentOps.Pods.{
  text_of, text_of-join, Seen, see_pods, Grows, IsKept, IsSent, drain_nothing, drain_pods-IsSent,
}

-- The logs once a tick is over.
unfoldable pub see_tick : Tick → Seen → Seen
unfolding see_pods
see_tick t seen = elim t.job [
  | get_failed _ ↦ seen
  | job_at _ _ ↦ see_pods t.log_of (visited t) seen
]

-- The logs as they were read last before the loop ends.
unfoldable pub last_seen : List Tick → Seen → Seen
unfolding see_tick
last_seen [] seen = seen
last_seen (t ∷ ts) seen =
    let later = last_seen ts (see_tick t seen) in
    elim (verdict t.job) [ none ↦ later | some _ ↦ see_tick t seen ]

abbrev pub AllGrow : List Tick → Seen → Type 0
AllGrow [] seen = Unit
AllGrow (t ∷ ts) seen = Grows seen t.log_of × AllGrow ts (see_tick t seen)

JobRead-cases :
    (r : JobRead)
    → ((text : String) × (r ≡ get_failed text))
      ⊎ ((n : ℤ) × (cs : List Condition) × (r ≡ job_at n cs))
JobRead-cases (get_failed text) = inl (text, refl)
JobRead-cases (job_at n cs) = inr (n, cs, refl)

drain_tick-IsSent :
    (t : Tick) (seen : Seen) (offsets : Map ℕ)
    → IsKept seen offsets
    → Grows seen t.log_of
    → IsSent seen (see_tick t seen) (drain_tick t offsets)
unfolding see_tick drain_tick drain_logs
drain_tick-IsSent t seen offsets k g = elim (JobRead-cases t.job) [
  | inl (text, e) ↦ rw (e, see_tick, drain_tick) (drain_nothing seen offsets k)
  | inr (n, cs, e) ↦
      rw (e, see_tick, drain_tick) (drain_pods-IsSent (visited t) t.log_of seen offsets k g)
]

watch_job-sent :
    (timeout : String) (ticks : List Tick) (seen : Seen) (offsets : Map ℕ)
    → IsKept seen offsets
    → AllGrow ticks seen
    → (pod : String)
    → seen pod ++ text_of pod (watch_job timeout ticks offsets).0 ≡ last_seen ticks seen pod
unfolding watch_job last_seen text_of
watch_job-sent timeout [] seen offsets k g pod = append-nil (seen pod)
watch_job-sent timeout (t ∷ ts) seen offsets k g pod =
    let first = drain_tick-IsSent t seen offsets k g.0 in
    elim (Option-cases (verdict t.job)) [
      | inl e ↦
          rw (e, watch_job, last_seen)
            (ap (λ s. seen pod ++ s)
                (text_of-join pod (drain_tick t offsets).0
                  (watch_job timeout ts (drain_tick t offsets).1).0)
              ∙ sym (append_assoc (seen pod) _ _)
              ∙ ap (λ s. s ++ text_of pod (watch_job timeout ts (drain_tick t offsets).1).0)
                  (first.sent pod)
              ∙ watch_job-sent timeout ts (see_tick t seen) (drain_tick t offsets).1 first.kept g.1
                  pod)
      | inr (v, e) ↦ rw (e, watch_job, last_seen) (first.sent pod)
    ]

abbrev pub nothing : Seen
nothing pod = ""

-- If the log of each pod only grows, the chunks that the watch of a Job sends for a pod, put
-- together, are the log of that pod as it was read last before the watch ends: nothing is left out
-- and nothing is sent twice.
pub text_of-watch_job :
    (timeout : String) (ticks : List Tick)
    → AllGrow ticks nothing
    → (pod : String) → text_of pod (watch_job timeout ticks []).0 ≡ last_seen ticks nothing pod
unfolding offset_of
text_of-watch_job timeout ticks g pod =
    sym (nil-append (text_of pod (watch_job timeout ticks []).0))
    ∙ watch_job-sent timeout ticks nothing [] (λ p. refl) g pod
