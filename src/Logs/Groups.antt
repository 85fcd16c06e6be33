-- ===== src/Logs/Groups.antt =====
-- The chunks against the lines: they are the lines in order, grouped.
use Prim.Native.String.{◌++◌, len}
use text.Mathlib.TextPositions.{len-append}
use text.Mathlib.TextLemmas.{append_assoc, nil-append, append-nil}
use mathlib.Core.List.{map-append, append_assoc as list_append_assoc, append-nil as list_append_nil}
use software_distribution_pl.Prelude.{
  ℕ, ◌+◌, ◌≤◌, ◌<◌, ◌≡◌, refl, sym, ap, ◌∙◌, subst, ◌⊎◌, inl, inr, ℤ, String, ltb, leb, ◌&&◌,
  Bool-cases, List, [], ◌∷◌, ◌++◌ as join, map, len-zero, length, length-append, All, arith,
}
use software_distribution_pl.Logs.{
  Splitter, with_newline, flush, make_room, flush_full, write_line, write_lines, split_chunks,
  chunk_cap,
}

-- The lines as a text, each with its line end.
abbrev pub unlines : List String → String
unlines [] = ""
unlines (line ∷ rest) = with_newline line ++ unlines rest

abbrev pub flatten {ℓ} : {A : Type ℓ} → List (List A) → List A
flatten [] = []
flatten (xs ∷ rest) = join xs (flatten rest)

-- One line or more, and more than one only within the cap.
abbrev pub IsGroup : ℕ → List String → Type 0
IsGroup max g = (0 < length g) × ((len (unlines g) ≤ max) ⊎ (length g ≡ 1))

abbrev with_last {ℓ} : {A : Type ℓ} → List A → A → List A
with_last xs x = join xs (x ∷ [])

-- The chunks are the texts of groups that make up the lines.
pub record IsGrouping (max : ℕ) (lines : List String) (chunks : List String) : Type 0 where
  pub groups : List (List String)
  pub in_order : flatten groups ≡ lines
  pub texts : map unlines groups ≡ chunks
  pub sized : All (IsGroup max) groups

-- The loop's invariant: the lines so far are those of the finished chunks, then those of the buffer.
record Covers (max : ℕ) (lines : List String) (s : Splitter) : Type 0 where
  before : List String
  rest : List String
  split : join before rest ≡ lines
  grouping : IsGrouping max before s.chunks
  buffered : unlines rest ≡ s.buf
  open_group : (rest ≡ []) ⊎ IsGroup max rest

unlines-with_last :
    (xs : List String) (x : String) → unlines (with_last xs x) ≡ unlines xs ++ with_newline x
unlines-with_last [] x = rw (append-nil (with_newline x), nil-append (with_newline x)) refl
unlines-with_last (y ∷ xs) x = rw (unlines-with_last xs x) (sym (append_assoc _ _ _))

flatten-with_last {ℓ} :
    {A : Type ℓ} (xs : List (List A)) (x : List A) → flatten (with_last xs x) ≡ join (flatten xs) x
flatten-with_last [] x = list_append_nil x
flatten-with_last (y ∷ xs) x =
    rw (flatten-with_last xs x) (sym (list_append_assoc y (flatten xs) x))

All-with_last {ℓ κ} :
    {A : Type ℓ} (P : A → Type κ) (xs : List A) (x : A) → All P xs → P x → All P (with_last xs x)
All-with_last P [] x h p = (p, tt)
All-with_last P (y ∷ xs) x h p = (h.0, All-with_last P xs x h.1 p)

unlines_empty : (xs : List String) → len (unlines xs) ≡ 0 → xs ≡ []
unlines_empty [] h = refl
unlines_empty (x ∷ xs) h =
    absurd (grind (arith, len-append (with_newline x) (unlines xs), len-append x "\n"))

add_group :
    {max : ℕ} {before chunks : List String} (rest : List String)
    → IsGrouping max before chunks
    → IsGroup max rest
    → IsGrouping max (join before rest) (with_last chunks (unlines rest))
add_group {max} rest g h = record {
  groups = with_last g.groups rest;
  in_order = rw (flatten-with_last g.groups rest) (rw g.in_order refl);
  texts = rw (map-append unlines g.groups (rest ∷ [])) (rw g.texts refl);
  sized = All-with_last (IsGroup max) g.groups rest g.sized h;
}

is_open :
    {max : ℕ} {lines : List String} {s : Splitter} (c : Covers max lines s)
    → 0 < len s.buf
    → IsGroup max c.rest
is_open c h = elim c.open_group [
  | inl e ↦ absurd (let z : len (unlines c.rest) ≡ 0 = rw e refl in grind (arith, c.buffered))
  | inr g ↦ g
]

all_closed :
    {max : ℕ} {lines : List String} {s : Splitter}
    → Covers max lines s
    → len s.buf ≡ 0
    → IsGrouping max lines s.chunks
all_closed {max} {lines} {s} c h =
    let e : c.rest ≡ [] = unlines_empty c.rest (rw c.buffered h) in
    let same : c.before ≡ lines =
      sym (list_append_nil c.before) ∙ ap (join c.before) (sym e) ∙ c.split in
    subst (λ l. IsGrouping max l s.chunks) same c.grouping

-- What the buffer holds is closed as a group.
flush-IsGrouping :
    {max : ℕ} {lines : List String} {s : Splitter}
    → Covers max lines s
    → IsGrouping max lines (flush s).chunks
unfolding flush
flush-IsGrouping {max} {lines} {s} c = elim (Bool-cases (ltb 0 (len s.buf))) [
  | inl e ↦ rw e (
      subst (λ l. IsGrouping max l (with_last s.chunks s.buf)) c.split
        (subst (λ b. IsGrouping max (join c.before c.rest) (with_last s.chunks b)) c.buffered
          (add_group c.rest c.grouping (is_open c (ground arith)))))
  | inr e ↦ rw e (all_closed c (ground arith))
]

flush-buf : (s : Splitter) → (flush s).buf ≡ ""
unfolding flush
flush-buf s = elim (Bool-cases (ltb 0 (len s.buf))) [
  | inl e ↦ rw e refl
  | inr e ↦ rw e (len-zero s.buf (ground arith))
]

flush-Covers :
    {max : ℕ} {lines : List String} {s : Splitter} → Covers max lines s → Covers max lines (flush s)
flush-Covers {max} {lines} {s} c = record {
  before = lines;
  rest = [];
  split = list_append_nil lines;
  grouping = flush-IsGrouping c;
  buffered = sym (flush-buf s);
  open_group = inl refl;
}

-- A line that the buffer has room for.
grow-Covers :
    {max : ℕ} {lines : List String} {s : Splitter} (line : String)
    → Covers max lines s
    → (len s.buf ≡ 0) ⊎ (len s.buf + len (with_newline line) ≤ max)
    → Covers max (with_last lines line) (record s { buf = s.buf ++ with_newline line })
grow-Covers {max} {lines} {s} line c h = record {
  before = c.before;
  rest = with_last c.rest line;
  split = sym (list_append_assoc c.before c.rest (line ∷ [])) ∙ ap (λ l. with_last l line) c.split;
  grouping = c.grouping;
  buffered = unlines-with_last c.rest line ∙ ap (λ b. b ++ with_newline line) c.buffered;
  open_group = inr (
    rw (length-append c.rest (line ∷ [])) (omega arith),
    elim h [
      | inl e ↦ inr (rw (unlines_empty c.rest (rw c.buffered e)) refl)
      | inr e ↦ inl (
          rw (unlines-with_last c.rest line)
            (rw c.buffered (rw (len-append s.buf (with_newline line)) e)))
    ],
  );
}

make_room-Covers :
    {max : ℕ} {lines : List String} {s : Splitter} (line : String)
    → Covers max lines s
    → Covers max lines (make_room max s (with_newline line))
unfolding make_room
make_room-Covers {max} {lines} {s} line c =
    elim (Bool-cases (ltb 0 (len s.buf) && ltb max (len s.buf + len (with_newline line)))) [
      | inl e ↦ rw e (flush-Covers c)
      | inr e ↦ rw e c
    ]

make_room-buf :
    (max : ℕ) (s : Splitter) (line : String)
    → (let room = make_room max s (with_newline line) in
        (len room.buf ≡ 0) ⊎ (len room.buf + len (with_newline line) ≤ max))
unfolding make_room
make_room-buf max s line =
    elim (Bool-cases (ltb 0 (len s.buf) && ltb max (len s.buf + len (with_newline line)))) [
      | inl e ↦ rw e (inl (rw (flush-buf s) refl))
      | inr e ↦ rw e (ground (arith, e))
    ]

flush_full-Covers :
    {max : ℕ} {lines : List String} {s : Splitter}
    → Covers max lines s
    → Covers max lines (flush_full max s)
unfolding flush_full
flush_full-Covers {max} {lines} {s} c = elim (Bool-cases (leb max (len s.buf))) [
  | inl e ↦ rw e (flush-Covers c)
  | inr e ↦ rw e c
]

write_lines-Covers :
    {max : ℕ} (lines : List String) {before : List String} {s : Splitter}
    → Covers max before s
    → Covers max (join before lines) (write_lines max s lines)
unfolding write_lines
write_lines-Covers {max} [] {before = before} {s = s} c =
    subst (λ l. Covers max l s) (sym (list_append_nil before)) c
write_lines-Covers {max} (line ∷ rest) {before = before} {s = s} c =
    subst (λ l. Covers max l (write_lines max (write_line max s line) rest))
      (list_append_assoc before (line ∷ []) rest)
      (write_lines-Covers rest
        (flush_full-Covers (grow-Covers line (make_room-Covers line c) (make_room-buf max s line))))

-- The chunks of SplitChunks are the texts of groups that, one after another, are the lines that
-- were read; each group has at least one line, and more than one only if its text is within the
-- cap.
pub split_chunks-IsGrouping :
    (max : ℤ) (lines : List String) → IsGrouping (chunk_cap max) lines (split_chunks max lines)
unfolding split_chunks
split_chunks-IsGrouping max lines = flush-IsGrouping (write_lines-Covers lines start)
  where
    start : Covers (chunk_cap max) [] (record { chunks = []; buf = "" })
    start = record {
      before = [];
      rest = [];
      split = refl;
      grouping = record { groups = []; in_order = refl; texts = refl; sized = tt };
      buffered = refl;
      open_group = inl refl;
    }
