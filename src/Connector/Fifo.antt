-- ===== src/Connector/Fifo.antt =====
-- The frames of a connection leave in the order in which they were sent.
use mathlib.Core.List.{append_assoc, append-nil}
use software_distribution_pl.Prelude.{
  suc, ◌≤◌, ltb, ◌≡◌, refl, sym, ap, ◌∙◌, ◌⊎◌, inl, inr, Bool, true, false, Bool-cases, List, [],
  ◌∷◌, ◌++◌ as join, length, if◌then◌else◌, arith,
}
use software_distribution_pl.Connector.{
  Message, Outbox, outbox_size, send, Event, enqueue, heartbeat, written, write_failed, read_failed,
  done, opens, up, is_up, Session, step, serve,
}

-- The frames that an event puts into the queue, where the pending frames are given: one that finds no room is not
-- among them.
unfoldable pub offered : Message → List Message → Event → List Message
offered beat pending (enqueue m) = m ∷ []
offered beat pending opens = elim pending [ [] ↦ [] | m ∷ ms ↦ m ∷ [] ]
offered beat pending heartbeat = elim pending [ [] ↦ beat ∷ [] | m ∷ ms ↦ [] ]
offered beat pending _ = []

-- Every frame of a session: on the wire, failed to be written, or waiting.
abbrev pub frames : Session → List Message
frames s = join s.sent (join s.dropped s.queue)

-- What an event adds to the queue of a session that is up.
unfoldable pub accepted : Message → Session → Event → List Message
unfolding offered
accepted beat s e = if ltb (length s.queue) outbox_size then offered beat s.pending e else []

unfoldable pub all_accepted : Message → List Event → Session → List Message
unfolding accepted step
all_accepted beat [] s = []
all_accepted beat (e ∷ es) s =
    let rest = join (accepted beat s e) (all_accepted beat es (step beat s e)) in
    if is_up s.outcome then rest else []

pub List-cases {ℓ} :
    {A : Type ℓ} (xs : List A) → (xs ≡ []) ⊎ ((x : A) × (ys : List A) × (xs ≡ x ∷ ys))
List-cases [] = inl refl
List-cases (x ∷ xs) = inr (x, xs, refl)

add_last :
    (a b c : List Message) (m : Message)
    → join a (join b (join c (m ∷ []))) ≡ join (join a (join b c)) (m ∷ [])
add_last a b c m =
    ap (join a) (sym (append_assoc b c (m ∷ []))) ∙ sym (append_assoc a (join b c) (m ∷ []))

no_more : (b : Bool) (xs : List Message) → join xs (if b then [] else []) ≡ xs
no_more true xs = append-nil xs
no_more false xs = append-nil xs

step-frames :
    (beat : Message) (s : Session) (e : Event)
    → s.dropped ≡ []
    → frames (step beat s e) ≡ join (frames s) (accepted beat s e)
unfolding step send accepted offered
step-frames beat s (enqueue m) d = elim (Bool-cases (ltb (length s.queue) outbox_size)) [
  | inl h ↦ rw (h, step, send, accepted) (add_last s.sent s.dropped s.queue m)
  | inr h ↦ rw (h, step, send, accepted) (sym (append-nil (frames s)))
]
step-frames beat s opens d = elim (List-cases s.pending) [
  | inl p ↦
      rw (p, step, accepted, offered) (sym (no_more (ltb (length s.queue) outbox_size) (frames s)))
  | inr (m, ms, p) ↦ elim (Bool-cases (ltb (length s.queue) outbox_size)) [
    | inl h ↦ rw (p, step, accepted, offered) (rw h (add_last s.sent s.dropped s.queue m))
    | inr h ↦ rw (p, step, accepted, offered) (rw h (sym (append-nil (frames s))))
  ]
]
step-frames beat s heartbeat d = elim (List-cases s.pending) [
  | inr (m, ms, p) ↦
      rw (p, step, accepted, offered) (sym (no_more (ltb (length s.queue) outbox_size) (frames s)))
  | inl p ↦ elim (Bool-cases (ltb (length s.queue) outbox_size)) [
    | inl h ↦ rw (p, step, accepted, offered) (rw h (add_last s.sent s.dropped s.queue beat))
    | inr h ↦ rw (p, step, accepted, offered) (rw h (sym (append-nil (frames s))))
  ]
]
step-frames beat s written d = elim (List-cases s.pending) [
  | inr (m, ms, p) ↦ rw (p, step) (sym (no_more (ltb (length s.queue) outbox_size) (frames s)))
  | inl p ↦
      rw (p, step)
        (elim (List-cases s.queue) [
          | inl h ↦ rw h (rw d (rw h (sym (append-nil (join s.sent [])))))
          | inr (m, q, h) ↦ rw h (
              rw d (
                append_assoc s.sent (m ∷ []) q
                ∙ sym (no_more (ltb (suc (length q)) outbox_size) (join s.sent (m ∷ q)))))
        ])
]
step-frames beat s (write_failed error) d = elim (List-cases s.pending) [
  | inr (m, ms, p) ↦ rw (p, step) (sym (no_more (ltb (length s.queue) outbox_size) (frames s)))
  | inl p ↦
      rw (p, step)
        (elim (List-cases s.queue) [
          | inl h ↦ rw h (rw d (rw h (sym (append-nil (join s.sent [])))))
          | inr (m, q, h) ↦
              rw h (rw d (sym (no_more (ltb (suc (length q)) outbox_size) (join s.sent (m ∷ q)))))
        ])
]
step-frames beat s (read_failed error) d = elim (List-cases s.pending) [
  | inr (m, ms, p) ↦ rw (p, step) (sym (no_more (ltb (length s.queue) outbox_size) (frames s)))
  | inl p ↦ rw (p, step) (sym (no_more (ltb (length s.queue) outbox_size) (frames s)))
]
step-frames beat s done d = elim (List-cases s.pending) [
  | inr (m, ms, p) ↦ rw (p, step) (sym (no_more (ltb (length s.queue) outbox_size) (frames s)))
  | inl p ↦ rw (p, step) (sym (no_more (ltb (length s.queue) outbox_size) (frames s)))
]

step-dropped :
    (beat : Message) (s : Session) (e : Event)
    → s.dropped ≡ []
    → is_up (step beat s e).outcome ≡ true
    → (step beat s e).dropped ≡ []
unfolding step send
step-dropped beat s e d u = ground arith

serve-frames :
    (beat : Message) (events : List Event) (s : Session)
    → (is_up s.outcome ≡ true → s.dropped ≡ [])
    → frames (serve beat events s) ≡ join (frames s) (all_accepted beat events s)
unfolding serve all_accepted
serve-frames beat [] s d = sym (append-nil (frames s))
serve-frames beat (e ∷ es) s d = elim (Bool-cases (is_up s.outcome)) [
  | inl u ↦
      rw (u, serve, all_accepted)
        (serve-frames beat es (step beat s e) (step-dropped beat s e (d u))
          ∙ ap (λ l. join l (all_accepted beat es (step beat s e))) (step-frames beat s e (d u))
          ∙ append_assoc (frames s) (accepted beat s e) (all_accepted beat es (step beat s e)))
  | inr u ↦ rw (u, serve, all_accepted) (sym (append-nil (frames s)))
]

step_lost :
    (beat : Message) (s : Session) (e : Event) → s.dropped ≡ [] → length (step beat s e).dropped ≤ 1
unfolding step send
step_lost beat s e d = ground arith

serve_lost :
    (beat : Message) (events : List Event) (s : Session)
    → (is_up s.outcome ≡ true → s.dropped ≡ [])
    → length s.dropped ≤ 1
    → length (serve beat events s).dropped ≤ 1
unfolding serve
serve_lost beat [] s d l = l
serve_lost beat (e ∷ es) s d l = elim (Bool-cases (is_up s.outcome)) [
  | inl u ↦
      rw (u, serve)
        (serve_lost beat es (step beat s e) (step-dropped beat s e (d u))
          (step_lost beat s e (d u)))
  | inr u ↦ rw (u, serve) l
]

-- A connection that is to open with some frames at a queue.
abbrev pub opened : (pending : List Message) → Outbox → Session
opened pending q = record { sent = []; dropped = []; queue = q; pending = pending; outcome = up }

pub serve-opened :
    (beat : Message) (events : List Event) (pending : List Message) (q : Outbox)
    → (let s = serve beat events (opened pending q) in
        (frames s ≡ join q (all_accepted beat events (opened pending q))) × (length s.dropped ≤ 1))
serve-opened beat events pending q = (
  serve-frames beat events (opened pending q) (λ _. refl),
  serve_lost beat events (opened pending q) (λ _. refl) (omega arith),
)
