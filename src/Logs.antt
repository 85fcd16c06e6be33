-- ===== src/Logs.antt =====
-- pkg/logstream/logstream.go: the log of a pod, cut at line ends into frames of a bounded size, and
-- the loop that sends them. What the scanner reads from the stream is a parameter: its lines and
-- the error that ended it. The size of a text is that of its UTF-8 bytes.
pub mod Groups
pub mod Delivery
use Prim.Native.String.{◌++◌, len}
use software_distribution_pl.Prelude.{
  ℕ, ◌+◌, ℤ, pos_part, leb_ℤ, pos, String, ltb, leb, Bool, ◌&&◌, Option, none, some, List, [], ◌∷◌,
  ◌++◌ as join, if◌then◌else◌,
}
use software_distribution_pl.Api.Payloads.{LogChunkPayload}

abbrev pub chunk_size : ℤ
chunk_size = pos 8192

-- The chunks that are finished and the text that is not.
pub record Splitter : Type 0 where
  pub chunks : List String
  pub buf : String

abbrev pub with_newline : String → String
with_newline line = line ++ "\n"

unfoldable pub flush : Splitter → Splitter
flush s = if ltb 0 (len s.buf) then record { chunks = join s.chunks (s.buf ∷ []); buf = "" } else s

-- Make room for a line that no longer fits.
unfoldable pub make_room : ℕ → Splitter → String → Splitter
make_room max s candidate =
    if ltb 0 (len s.buf) && ltb max (len s.buf + len candidate) then flush s else s

unfoldable pub flush_full : ℕ → Splitter → Splitter
flush_full max s = if leb max (len s.buf) then flush s else s

-- One round of the loop over the lines.
unfoldable pub write_line : ℕ → Splitter → String → Splitter
unfolding flush make_room flush_full
write_line max s line =
    let room = make_room max s (with_newline line) in
    flush_full max (record room { buf = room.buf ++ with_newline line })

unfoldable pub write_lines : ℕ → Splitter → List String → Splitter
unfolding write_line
write_lines max s [] = s
write_lines max s (line ∷ rest) = write_lines max (write_line max s line) rest

-- The cap that the argument asks for.
unfoldable pub chunk_cap : ℤ → ℕ
chunk_cap max = if leb_ℤ max (pos 0) then pos_part chunk_size else pos_part max

-- The lines are those that the scanner found.
unfoldable pub split_chunks : ℤ → List String → List String
unfolding write_lines chunk_cap
split_chunks max lines =
    (flush (write_lines (chunk_cap max) (record { chunks = []; buf = "" }) lines)).chunks

-- What the loop meets outside: whether the context is done and how a send ends, after what was sent.
pub record Sender (E : Type 0) : Type 0 where
  pub cancelled : List LogChunkPayload → Option E
  pub send_log_chunk : List LogChunkPayload → LogChunkPayload → Option E

module _ {E : Type 0} (out : Sender E) where
  -- The frames that were accepted, and the error that ended the loop.
  unfoldable pub send_chunks :
      LogChunkPayload → List LogChunkPayload → List String → List LogChunkPayload × Option E
  send_chunks p sent [] = (sent, none)
  send_chunks p sent (c ∷ rest) =
      let frame : LogChunkPayload = record p { chunk = c } in
      elim (out.cancelled sent) [
        | some e ↦ (sent, some e)
        | none ↦ elim (out.send_log_chunk sent frame) [
          | some e ↦ (sent, some e)
          | none ↦ send_chunks p (join sent (frame ∷ [])) rest
        ]
      ]

  -- The scanner's lines, and its error.
  unfoldable pub stream_logs :
      List String × Option E → LogChunkPayload → List LogChunkPayload × Option E
  unfolding split_chunks
  stream_logs (lines, some e) p = ([], some e)
  stream_logs (lines, none) p = send_chunks p [] (split_chunks chunk_size lines)
