-- ===== src/Tests/Reads.antt =====
-- The theorems on logs, probes and the hash of a DAG at sample inputs.
use mathlib.Core.List.{Permᴰ, Mem, mem-cons, Nodup-cons, Nodup-nil, not-mem-nil}
use mathlib.Core.Logic.Or
use mathlib.Core.HLevel.{⊥_prop}
use software_distribution_pl.Prelude.{
  ℕ, pos, leb, string_eq, nat_eq, ◌==◌, if◌then◌else◌, String, true, false, Option, none, some,
  List, [], ◌∷◌, ◌++◌ as join, map, ◌≡◌, ◌↔◌, refl, arith, trim_space, eq_iff,
}
use software_distribution_pl.Api.Payloads.{LogChunkPayload, ApplyPipelineRunPayload}
use software_distribution_pl.Logs.{Sender, split_chunks, chunk_cap, chunk_size, stream_logs}
use software_distribution_pl.Logs.Groups.{IsGrouping, split_chunks-IsGrouping}
use software_distribution_pl.Logs.Delivery.{frame, stream_logs_prefix}
use software_distribution_pl.Dispatch.Snapshot.{Proj, snapshot_spec, task_name}
use software_distribution_pl.Dispatch.Orders.{IsKeyed, snapshot_spec-perm}
use software_distribution_pl.Dispatch.{handle_apply}
use software_distribution_pl.Dispatch.Applies.{Applies, handle_apply-Only}
use software_distribution_pl.Kube.Writes.{Only}
use software_distribution_pl.Health.{Floats, Get, prometheus_query_ok}
use software_distribution_pl.Tests.{compile, lint, run, calm}

split_chunks-IsGrouping_example :
    IsGrouping
      (chunk_cap (pos 4))
      ("a" ∷ "bc" ∷ "defgh" ∷ [])
      (split_chunks (pos 4) ("a" ∷ "bc" ∷ "defgh" ∷ []))
split_chunks-IsGrouping_example = split_chunks-IsGrouping (pos 4) ("a" ∷ "bc" ∷ "defgh" ∷ [])

-- A line over the cap is a chunk of its own.
splits : split_chunks (pos 4) ("a" ∷ "b" ∷ "defgh" ∷ "i" ∷ []) ≡ "a\nb\n" ∷ "defgh\n" ∷ "i\n" ∷ []
unfolding split_chunks
splits = refl

abbrev payload : LogChunkPayload
payload = record {
  target_id = "site-a";
  pipeline_run_name = "run-1";
  task_name = "build";
  stream = "stdout";
  chunk = "";
}

abbrev accepting : Sender String
accepting = record { cancelled = λ sent. none; send_log_chunk = λ sent p. none }

-- A hub that takes no frame.
abbrev refusing : Sender String
refusing = record { cancelled = λ sent. none; send_log_chunk = λ sent p. some "closed" }

abbrev scanned : List String × Option String
scanned = ("a" ∷ "b" ∷ [], none)

stream_logs_prefix_example :
    (unsent : List LogChunkPayload) × (join
        (stream_logs refusing ("a" ∷ "b" ∷ [], none) payload).0
        unsent
      ≡ map (frame payload) (split_chunks chunk_size ("a" ∷ "b" ∷ [])))
    × (((stream_logs refusing ("a" ∷ "b" ∷ [], none) payload).1 ≡ none) ↔ (unsent ≡ []))
stream_logs_prefix_example = stream_logs_prefix refusing ("a" ∷ "b" ∷ []) payload

swapped : Permᴰ (compile ∷ lint ∷ []) (lint ∷ compile ∷ [])
swapped = Permᴰ.swap refl refl

abbrev digest : List Proj → String
digest [] = ""
digest (p ∷ ps) = p.name

apart : ¬ Mem {A = String} "compile" ("lint" ∷ [])
apart m =
    Or.elim ⊥_prop (mem-cons.0 m) (λ e. ground (arith, e, eq_iff "compile" "lint")) not-mem-nil

named_apart : IsKeyed task_name (compile ∷ lint ∷ [])
named_apart = Nodup-cons.1 (apart, Nodup-cons.1 (not-mem-nil, Nodup-nil))

snapshot_spec-perm_example :
    snapshot_spec digest (compile ∷ lint ∷ []) ≡ snapshot_spec digest (lint ∷ compile ∷ [])
snapshot_spec-perm_example = snapshot_spec-perm digest swapped named_apart

abbrev asked : ApplyPipelineRunPayload
asked = record {
  name = "run-2";
  namespace = "";
  spec = record (run.spec) { tasks = compile ∷ lint ∷ [] };
  publish_version = "1.2";
}

handle_apply-Only_example :
    Only
      (Applies "site-a" (snapshot_spec digest (compile ∷ lint ∷ [])) asked)
      (handle_apply (calm [] []) digest "site-a" asked)
handle_apply-Only_example = handle_apply-Only (calm [] []) digest "site-a" asked

-- Numbers of one digit stand for floats.
abbrev digits : Floats ℕ
digits = record {
  parse = λ s. if s == "1" then some 1 else if s == "2" then some 2 else none;
  at_most = leb;
}

abbrev serves : Get
serves url timeout = some (record { status = 200; body = "up 1\n" })

query_passes : prometheus_query_ok digits serves "http://prom" "up" "2" (pos 0) ≡ true
unfolding prometheus_query_ok trim_space
query_passes = refl

no_ceiling_fails : prometheus_query_ok digits serves "http://prom" "up" "" (pos 0) ≡ false
unfolding prometheus_query_ok trim_space
no_ceiling_fails = refl
