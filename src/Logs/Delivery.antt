-- ===== src/Logs/Delivery.antt =====
-- What of a log reaches the hub, and in which order.
use Prim.Native.String.{◌++◌}
use text.Mathlib.TextLemmas.{append_assoc, nil-append}
use mathlib.Core.List.{append_assoc as list_append_assoc, append-nil as list_append_nil}
use software_distribution_pl.Prelude.{
  ◌≡◌, refl, sym, ap, ◌∙◌, ◌↔◌, subst, String, Option, none, some, Option-cases, inl, inr, List, [],
  ◌∷◌, ◌++◌ as join, map, ℤ,
}
use software_distribution_pl.Api.Payloads.{LogChunkPayload}
use software_distribution_pl.Logs.{
  Sender, send_chunks, stream_logs, split_chunks, chunk_size, with_newline,
}
use software_distribution_pl.Logs.Groups.{unlines, flatten, split_chunks-IsGrouping}

abbrev pub concat : List String → String
concat [] = ""
concat (s ∷ rest) = s ++ concat rest

unlines-append : (xs ys : List String) → unlines (join xs ys) ≡ unlines xs ++ unlines ys
unlines-append [] ys = sym (nil-append (unlines ys))
unlines-append (x ∷ xs) ys =
    rw (unlines-append xs ys) (sym (append_assoc (with_newline x) (unlines xs) (unlines ys)))

unlines-flatten : (gs : List (List String)) → unlines (flatten gs) ≡ concat (map unlines gs)
unlines-flatten [] = refl
unlines-flatten (g ∷ gs) =
    unlines-append g (flatten gs) ∙ ap (λ s. unlines g ++ s) (unlines-flatten gs)

concat-split_chunks :
    (max : ℤ) (lines : List String) → concat (split_chunks max lines) ≡ unlines lines
concat-split_chunks max lines =
    let g = split_chunks-IsGrouping max lines in
    ap concat (sym g.texts) ∙ sym (unlines-flatten g.groups) ∙ ap unlines g.in_order

-- The frame of a chunk.
abbrev pub frame : LogChunkPayload → String → LogChunkPayload
frame p c = record p { chunk = c }

module _ {E : Type 0} (out : Sender E) where
  -- The frames that were sent, those that were not, and whether the loop came to its end.
  record IsCut (sent : List LogChunkPayload) (e : Option E) (frames : List LogChunkPayload)
      : Type 0 where
    unsent : List LogChunkPayload
    in_order : join sent unsent ≡ frames
    ends : (e ≡ none) ↔ (unsent ≡ [])

  stopped :
      (sent : List LogChunkPayload) (e : E) (f : LogChunkPayload) (fs : List LogChunkPayload)
      → IsCut sent (some e) (join sent (f ∷ fs))
  stopped sent e f fs = record {
    unsent = f ∷ fs;
    in_order = refl;
    ends = (λ h. absurd (cc), λ h. absurd (cc));
  }

  send_chunks-IsCut :
      (p : LogChunkPayload) (sent : List LogChunkPayload) (chunks : List String)
      → (let r = send_chunks out p sent chunks in IsCut r.0 r.1 (join sent (map (frame p) chunks)))
  unfolding send_chunks
  send_chunks-IsCut p sent [] = record {
    unsent = [];
    in_order = refl;
    ends = (λ _. refl, λ _. refl);
  }
  send_chunks-IsCut p sent (c ∷ rest) = elim (Option-cases (out.cancelled sent)) [
    | inr (e, h) ↦ rw (h, send_chunks) (stopped sent e (frame p c) (map (frame p) rest))
    | inl h ↦
        rw (h, send_chunks)
          (elim (Option-cases (out.send_log_chunk sent (frame p c))) [
            | inr (e, h') ↦ rw (h', send_chunks) (stopped sent e (frame p c) (map (frame p) rest))
            | inl h' ↦
                rw (h', send_chunks)
                  (subst (IsCut _ _) (list_append_assoc sent (frame p c ∷ []) (map (frame p) rest))
                    (send_chunks-IsCut p (join sent (frame p c ∷ [])) rest))
          ])
  ]

  chunks_of_frames :
      (p : LogChunkPayload) (cs : List String)
      → map (λ (f : LogChunkPayload). f.chunk) (map (frame p) cs) ≡ cs
  chunks_of_frames p [] = refl
  chunks_of_frames p (c ∷ cs) = ap (λ l. c ∷ l) (chunks_of_frames p cs)

  -- Where the scanner has no error, the frames that StreamLogs sends are the first of the frames
  -- of the chunks, in order, and it returns no error exactly when none is left.
  pub stream_logs_prefix :
      (lines : List String) (p : LogChunkPayload)
      → (unsent : List LogChunkPayload) × (join (stream_logs out (lines, none) p).0 unsent
          ≡ map (frame p) (split_chunks chunk_size lines))
        × (((stream_logs out (lines, none) p).1 ≡ none) ↔ (unsent ≡ []))
  unfolding stream_logs
  stream_logs_prefix lines p =
      let c = send_chunks-IsCut p [] (split_chunks chunk_size lines) in
      (c.unsent, c.in_order, c.ends)

  -- If StreamLogs returns no error, the scanner had none, and the chunks of the sent frames, put
  -- together, are the lines of the log, each with its line end.
  pub stream_logs_complete :
      (read : List String × Option E) (p : LogChunkPayload)
      → (stream_logs out read p).1 ≡ none
      → (read.1 ≡ none)
        × (concat (map (λ (f : LogChunkPayload). f.chunk) (stream_logs out read p).0)
            ≡ unlines read.0)
  unfolding stream_logs
  stream_logs_complete (lines, some e) p h = absurd (cc)
  stream_logs_complete (lines, none) p h =
      let c = send_chunks-IsCut p [] (split_chunks chunk_size lines) in
      let sent_all : (stream_logs out (lines, none) p).0
          ≡ map (frame p) (split_chunks chunk_size lines) =
        sym (list_append_nil _)
        ∙ ap (join (stream_logs out (lines, none) p).0) (sym (c.ends.0 h))
        ∙ c.in_order in
      (
        refl,
        ap (λ l. concat (map (λ (f : LogChunkPayload). f.chunk) l)) sent_all
            ∙ ap concat (chunks_of_frames p _)
            ∙ concat-split_chunks chunk_size lines,
      )
