-- ===== src/Connector/Opening.antt =====
-- What happens between the dial and the first round of the loop.
use mathlib.Core.List.{append_assoc}
use software_distribution_pl.Prelude.{
  suc, ◌+◌, ◌≤◌, ◌<◌, ltb, ◌≡◌, refl, sym, ap, ap₂, ◌∙◌, ◌⊎◌, inl, inr, Bool-cases, List, [], ◌∷◌,
  ◌++◌ as join, length, length-append, if◌then◌else◌, arith,
}
use software_distribution_pl.Connector.{
  Message, Outbox, outbox_size, send, Event, enqueue, opens, heartbeat, written, write_failed,
  read_failed, done, up, is_up, Session, step, serve, serve_connection,
}
use software_distribution_pl.Connector.Fifo.{frames, all_accepted, opened, serve-opened, List-cases}

-- The opening frame that an event puts into the queue.
unfoldable pub opening : Session → Event → List Message
opening s opens =
    if ltb (length s.queue) outbox_size then elim s.pending [ [] ↦ [] | m ∷ ms ↦ m ∷ [] ] else []
opening s e = []

-- The opening frames that are put into the queue, in order.
unfoldable pub all_opening : Message → List Event → Session → List Message
unfolding opening step
all_opening beat [] s = []
all_opening beat (e ∷ es) s =
    let rest = join (opening s e) (all_opening beat es (step beat s e)) in
    if is_up s.outcome then rest else []

-- Nothing leaves the queue before the last opening frame is in it.
abbrev pub HoldsBack : Session → Type 0
HoldsBack s = (s.pending ≡ []) ⊎ ((s.sent ≡ []) × (s.dropped ≡ []))

module _ (beat : Message) where
  step-pending : (s : Session) (e : Event) → join (opening s e) (step beat s e).pending ≡ s.pending
  unfolding step send opening
  step-pending s e = ground arith

  step-HoldsBack : (s : Session) (e : Event) → HoldsBack s → HoldsBack (step beat s e)
  unfolding step send
  step-HoldsBack s e h = ground arith

  -- The queue is within its size and, with the pending frames, over it; nothing has left it.
  record IsStuck (s : Session) : Type 0 where
    within : length s.queue ≤ outbox_size
    over : outbox_size < length s.queue + length s.pending
    unsent : s.sent ≡ []
    undropped : s.dropped ≡ []
    connected : s.outcome ≡ up

  added : (q : Outbox) (m : Message) → length (join q (m ∷ [])) ≡ suc (length q)
  added q m = rw (length-append q (m ∷ [])) (omega arith)

  step-sizes :
      (s : Session) (e : Event)
      → IsStuck s
      → (length (step beat s e).queue ≤ outbox_size)
        × (outbox_size < length (step beat s e).queue + length (step beat s e).pending)
  unfolding step send
  step-sizes s (enqueue m) h = ground (arith, added s.queue m)
  step-sizes s opens h = elim (List-cases s.pending) [
    | inl p ↦ ground arith
    | inr (m, ms, p) ↦ ground (arith, added s.queue m)
  ]
  step-sizes s heartbeat h = ground arith
  step-sizes s written h = ground arith
  step-sizes s (write_failed error) h = ground arith
  step-sizes s (read_failed error) h = ground arith
  step-sizes s done h = ground arith

  step-IsStuck : (s : Session) (e : Event) → IsStuck s → IsStuck (step beat s e)
  unfolding step send
  step-IsStuck s e h = record {
    within = (step-sizes s e h).0;
    over = (step-sizes s e h).1;
    unsent = ground arith;
    undropped = ground arith;
    connected = ground arith;
  }

  serve-IsStuck : (events : List Event) (s : Session) → IsStuck s → IsStuck (serve beat events s)
  unfolding serve
  serve-IsStuck [] s h = h
  serve-IsStuck (e ∷ es) s h = elim (Bool-cases (is_up s.outcome)) [
    | inl u ↦ rw (u, serve) (serve-IsStuck es (step beat s e) (step-IsStuck s e h))
    | inr u ↦ rw (u, serve) h
  ]

  serve-HoldsBack :
      (events : List Event) (s : Session) → HoldsBack s → HoldsBack (serve beat events s)
  unfolding serve
  serve-HoldsBack [] s h = h
  serve-HoldsBack (e ∷ es) s h = elim (Bool-cases (is_up s.outcome)) [
    | inl u ↦ rw (u, serve) (serve-HoldsBack es (step beat s e) (step-HoldsBack s e h))
    | inr u ↦ rw (u, serve) h
  ]

  serve-pending :
      (events : List Event) (s : Session)
      → join (all_opening beat events s) (serve beat events s).pending ≡ s.pending
  unfolding serve all_opening
  serve-pending [] s = refl
  serve-pending (e ∷ es) s = elim (Bool-cases (is_up s.outcome)) [
    | inl u ↦
        rw (u, serve, all_opening)
          (append_assoc (opening s e) (all_opening beat es (step beat s e))
              (serve beat es (step beat s e)).pending
            ∙ ap (join (opening s e)) (serve-pending es (step beat s e))
            ∙ step-pending s e)
    | inr u ↦ rw (u, serve, all_opening) refl
  ]

module _ (beat : Message) (info resync : List Message) (events : List Event) (q : Outbox) where
  -- At every point of a connection, whatever happens and whichever goroutines send, the frames on
  -- the wire, then the one whose write failed if there is one, then the waiting frames are those
  -- that waited at the dial, followed by those that were accepted since in the order of their
  -- acceptance. The opening frames among the accepted, followed by those still to be sent, are the
  -- identity frame and the frames of the resync hook in order, and no frame leaves the queue
  -- before the last of them is in it.
  pub serve_connection-frames :
      let s = serve_connection beat info resync events q in
      let start = opened (join info resync) q in
      (frames s ≡ join q (all_accepted beat events start))
      × (length s.dropped ≤ 1)
      × (join (all_opening beat events start) s.pending ≡ join info resync)
      × HoldsBack s
  unfolding serve_connection
  serve_connection-frames =
      let start = opened (join info resync) q in
      let x = serve-opened beat events (join info resync) q in
      (
        x.0,
        x.1,
        serve-pending beat events start,
        serve-HoldsBack beat events start (inr (refl, refl)),
      )

  -- If the waiting frames fit into the outbox but not together with the identity frame and those
  -- of the resync hook, the loop of the connection never starts, whatever happens: nothing is
  -- sent, the outbox holds the frames that waited and those that it still accepts, and some
  -- opening frame is left to be sent.
  pub serve_connection-blocked :
      length q ≤ outbox_size
      → outbox_size < length q + length (join info resync)
      → (let s = serve_connection beat info resync events q in
          (s.sent ≡ [])
          × (s.dropped ≡ [])
          × (s.queue ≡ join q (all_accepted beat events (opened (join info resync) q)))
          × (0 < length s.pending)
          × (length s.queue ≤ outbox_size)
          × (s.outcome ≡ up))
  unfolding serve_connection
  serve_connection-blocked h over_full =
      let start = opened (join info resync) q in
      let stuck : IsStuck beat (serve beat events start) = serve-IsStuck beat events start (record {
        within = h;
        over = over_full;
        unsent = refl;
        undropped = refl;
        connected = refl;
      }) in
      let kept =
        sym (
          ap₂ (λ a b. join a (join b (serve beat events start).queue)) stuck.unsent stuck.undropped)
        ∙ (serve-opened beat events (join info resync) q).0 in
      (
        stuck.unsent,
        stuck.undropped,
        kept,
        omega (arith, stuck.within, stuck.over),
        stuck.within,
        stuck.connected,
      )
