-- ===== src/AgentOps/Pods.antt =====
-- What one drain of the pods of a Job sends, against the logs that it read.
use Prim.Native.String.{◌++◌, len, slice}
use text.Mathlib.TextEquality.{eq_iff}
use text.Mathlib.TextLemmas.{append_assoc, append-nil, nil-append}
use text.Mathlib.TextPositions.{len-append, slice-append_right}
use software_distribution_pl.Prelude.{
  ℕ, ◌≤◌, String, string_eq, ◌==◌, ltb, ◌≡◌, refl, sym, ap, ◌∙◌, false, Bool-cases, inl, inr,
  Option, none, some, List, [], ◌∷◌, ◌++◌ as join, Map, insert, lookup-insert, len-zero,
  if◌then◌else◌, arith,
}
use software_distribution_pl.AgentOps.Drain.{offset_of, drain_pod, drain_pods}

-- The text that was sent for a pod.
unfoldable pub text_of : String → List (String × String) → String
text_of pod [] = ""
text_of pod ((name, chunk) ∷ rest) =
    let later = text_of pod rest in if name == pod then chunk ++ later else later

pub text_of-join :
    (pod : String) (xs ys : List (String × String))
    → text_of pod (join xs ys) ≡ text_of pod xs ++ text_of pod ys
unfolding text_of
text_of-join pod [] ys = sym (nil-append (text_of pod ys))
text_of-join pod ((name, chunk) ∷ xs) ys = elim (Bool-cases (name == pod)) [
  | inl e ↦
      rw (e, text_of)
        (rw (text_of-join pod xs ys) (sym (append_assoc chunk (text_of pod xs) (text_of pod ys))))
  | inr e ↦ rw (e, text_of) (text_of-join pod xs ys)
]

-- The log of each pod as it was read last.
abbrev pub Seen : Type 0
Seen = String → String

abbrev pub read_of : Option String → String → String
read_of none old = old
read_of (some buf) old = buf

unfoldable pub see_pod : String → Option String → Seen → Seen
see_pod name log seen pod = if name == pod then read_of log (seen pod) else seen pod

unfoldable pub see_pods : (String → Option String) → List String → Seen → Seen
unfolding see_pod
see_pods log_of [] seen = seen
see_pods log_of (name ∷ names) seen = see_pods log_of names (see_pod name (log_of name) seen)

-- A log only grows.
abbrev pub Extends : String → Option String → Type 0
Extends old none = Unit
Extends old (some buf) = (more : String) × (buf ≡ old ++ more)

abbrev pub Grows : Seen → (String → Option String) → Type 0
Grows seen log_of = (pod : String) → Extends (seen pod) (log_of pod)

-- The offsets are the sizes of what was sent.
abbrev pub IsKept : Seen → Map ℕ → Type 0
IsKept seen offsets = (pod : String) → offset_of pod offsets ≡ len (seen pod)

-- What a drain sends takes each pod from what was seen before to what is seen now.
pub record IsSent (seen next : Seen) (r : List (String × String) × Map ℕ) : Type 0 where
  pub sent : (pod : String) → seen pod ++ text_of pod r.0 ≡ next pod
  pub kept : IsKept next r.1

-- One drain after another.
then-IsSent :
    {seen next last : Seen} {r : List (String × String) × Map ℕ}
    {r' : List (String × String) × Map ℕ}
    → IsSent seen next r
    → IsSent next last r'
    → IsSent seen last (join r.0 r'.0, r'.1)
then-IsSent {seen} {next} {last} {r} {r'} a b = record {
  sent = λ pod.
      ap (λ s. seen pod ++ s) (text_of-join pod r.0 r'.0)
      ∙ sym (append_assoc (seen pod) (text_of pod r.0) (text_of pod r'.0))
      ∙ ap (λ s. s ++ text_of pod r'.0) (a.sent pod)
      ∙ b.sent pod;
  kept = b.kept;
}

offset_of-insert :
    (name pod : String) (n : ℕ) (m : Map ℕ)
    → offset_of pod (insert name n m) ≡ (if name == pod then n else offset_of pod m)
unfolding offset_of
offset_of-insert name pod n m = rw (lookup-insert name pod n m, offset_of) (ground arith)

pub drain_nothing :
    (seen : Seen) (offsets : Map ℕ) → IsKept seen offsets → IsSent seen seen ([], offsets)
unfolding text_of
drain_nothing seen offsets k = record { sent = λ pod. append-nil (seen pod); kept = k }

see_none : (name : String) (seen : Seen) (pod : String) → see_pod name none seen pod ≡ seen pod
unfolding see_pod
see_none name seen pod = ground arith

-- What is cut off at the offset is what the log grew by.
rest_of :
    (old buf more : String) (sent : ℕ)
    → sent ≡ len old
    → buf ≡ old ++ more
    → slice buf sent (len buf) ≡ more
rest_of old buf more sent h e = rw (h, e) (rw (len-append old more) (slice-append_right old more))

send_rest :
    (name pod buf more : String) (offsets : Map ℕ) (seen : Seen)
    → IsKept seen offsets
    → buf ≡ seen name ++ more
    → seen pod ++ text_of pod ((name, slice buf (offset_of name offsets) (len buf)) ∷ [])
      ≡ see_pod name (some buf) seen pod
unfolding text_of see_pod
send_rest name pod buf more offsets seen k e = elim (Bool-cases (name == pod)) [
  | inl t ↦
      rw (t, text_of)
        (rw (append-nil (slice buf (offset_of name offsets) (len buf))) (
          rw (rest_of (seen name) buf more (offset_of name offsets) (k name) e)
            (rw (← (eq_iff name pod).0 t) (sym e))))
  | inr t ↦ rw (t, text_of) (append-nil (seen pod))
]

-- A log that did not grow.
see_same :
    (name buf more : String) (seen : Seen) (n : ℕ)
    → n ≡ len (seen name)
    → ltb n (len buf) ≡ false
    → buf ≡ seen name ++ more
    → (pod : String) → see_pod name (some buf) seen pod ≡ seen pod
unfolding see_pod
see_same name buf more seen n k t e pod =
    let no_room : len buf ≤ n = ground arith in
    elim (Bool-cases (name == pod)) [
      | inl h ↦ rw h (
          e
          ∙ ap (λ m. seen name ++ m)
              (len-zero more (omega (arith, len-append (seen name) more, ap len e, no_room)))
          ∙ append-nil (seen name)
          ∙ ap seen ((eq_iff name pod).0 h))
      | inr h ↦ rw h refl
    ]

drain_pod-IsSent :
    (name : String) (log : Option String) (seen : Seen) (offsets : Map ℕ)
    → IsKept seen offsets
    → Extends (seen name) log
    → IsSent seen (see_pod name log seen) (drain_pod name log offsets)
unfolding drain_pod see_pod text_of
drain_pod-IsSent name none seen offsets k g = record {
  sent = λ pod. append-nil (seen pod) ∙ sym (see_none name seen pod);
  kept = λ pod. k pod ∙ ap len (sym (see_none name seen pod));
}
drain_pod-IsSent name (some buf) seen offsets k (more, e) =
    elim (Bool-cases (ltb (offset_of name offsets) (len buf))) [
      | inl t ↦
          rw (t, drain_pod)
            (record {
              sent = λ pod. send_rest name pod buf more offsets seen k e;
              kept = λ pod. offset_of-insert name pod (len buf) offsets ∙ ground (arith, k pod);
            })
      | inr t ↦
          rw (t, drain_pod)
            (record {
              sent = λ pod.
                  append-nil (seen pod)
                  ∙ sym (see_same name buf more seen (offset_of name offsets) (k name) t e pod);
              kept = λ pod.
                  k pod
                  ∙ ap len
                      (sym (see_same name buf more seen (offset_of name offsets) (k name) t e pod));
            })
    ]

Extends-read_of :
    (old : String) (log : Option String) → Extends old log → Extends (read_of log old) log
Extends-read_of old none h = tt
Extends-read_of old (some buf) h = ("", sym (append-nil buf))

-- A log that was read is at least as long when it is read again.
see_pod-Grows :
    (name : String) (seen : Seen) (log_of : String → Option String)
    → Grows seen log_of
    → Grows (see_pod name (log_of name) seen) log_of
unfolding see_pod
see_pod-Grows name seen log_of g pod = elim (Bool-cases (name == pod)) [
  | inl e ↦
      rw (e, see_pod) (rw ((eq_iff name pod).0 e) (Extends-read_of (seen pod) (log_of pod) (g pod)))
  | inr e ↦ rw (e, see_pod) (g pod)
]

pub drain_pods-IsSent :
    (names : List String) (log_of : String → Option String) (seen : Seen) (offsets : Map ℕ)
    → IsKept seen offsets
    → Grows seen log_of
    → IsSent seen (see_pods log_of names seen) (drain_pods log_of names offsets)
unfolding drain_pods see_pods
drain_pods-IsSent [] log_of seen offsets k g = drain_nothing seen offsets k
drain_pods-IsSent (name ∷ names) log_of seen offsets k g =
    let first = drain_pod-IsSent name (log_of name) seen offsets k (g name) in
    let rest =
      drain_pods-IsSent names log_of (see_pod name (log_of name) seen)
        (drain_pod name (log_of name) offsets).1 first.kept (see_pod-Grows name seen log_of g) in
    then-IsSent first rest
