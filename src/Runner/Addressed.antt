-- ===== src/Runner/Addressed.antt =====
-- The messages of the hub reach the handlers they are meant for while managers come and go.
use software_distribution_pl.Prelude.{
  ℕ, zero, suc, ◌+◌, ◌<◌, ◌≡◌, refl, sym, ap, ◌∙◌, subst, false, Bool-cases, inl, inr, ltb, nat_eq,
  String, string_eq, ◌==◌, Option, none, some, List, [], ◌∷◌, Map, lookup, insert, lookup-insert,
  if◌then◌else◌, arith,
}
use software_distribution_pl.Connector.{
  message_apply_pipeline_run, message_approve_task, message_rerun_task, message_cancel_pipeline_run,
  message_rollout_control,
}
use software_distribution_pl.Runner.Wiring.{
  Bound, apply_handler, approve_handler, rollout_control_handler, rerun_handler, cancel_handler,
  on_message, first_wiring, Registration, register, registrations, Process, first_process,
  ManagerStart, start_manager, Occasion, arrives, connects, attempts, registers, Delivery, handed,
  hooked, unless_busy, delivered,
}
use software_distribution_pl.Runner.Stages.{
  Stage, idle, wires, meant_for, place, meant_at, begin, go_on, receiver, hooked_at, addressed,
}

abbrev skip : ℕ → List Registration → List Registration
skip zero xs = xs
skip (suc n) [] = []
skip (suc n) (x ∷ xs) = skip n xs

-- The calls that are left.
abbrev left : Stage → List Registration
left (idle last) = []
left (wires before n made) = skip made (registrations n)

abbrev IsUnderWay : Stage → Type 0
IsUnderWay (idle last) = Unit
IsUnderWay (wires before n made) = made < 6

-- The process is at the stage.
record IsAt (g : Stage) (p : Process) : Type 0 where
  under_way : IsUnderWay g
  pending : p.pending ≡ left g
  handlers : (type : String) → lookup type p.wiring.handlers ≡ receiver g type
  hook : p.wiring.on_connect ≡ hooked_at g

unmoved :
    (x i : ℕ)
    → (x == i) ≡ false
    → (a b : Option Bound) → (if ltb x i then a else b) ≡ (if ltb x (i + 1) then a else b)
unmoved x i h a b = ground arith

-- The registration of a handler moves the type at its place, and no other, to the new manager.
handler-moves :
    (before : Option ℕ) (n i : ℕ) (t : String) (b : Bound) (m : Map Bound)
    → place t ≡ i
    → meant_for (some n) t ≡ some b
    → ((type : String) → (t == type) ≡ false → (place type == i) ≡ false)
    → ((type : String) → lookup type m ≡ meant_at before n i type)
    → (type : String) → lookup type (insert t b m) ≡ meant_at before n (i + 1) type
handler-moves before n i t b m at_i meant other h type = elim (Bool-cases (t == type)) [
  | inl e ↦
      lookup-insert t type b m
      ∙ rw e (
          sym (
            subst (λ u. meant_at before n (i + 1) u ≡ some b) ((string_eq.is_same_iff t type).0 e)
              (rw at_i (ground (arith, meant)))))
  | inr e ↦ lookup-insert t type b m ∙ rw e (h type ∙ unmoved (place type) i (other type e) _ _)
]

none_moved : (x : ℕ) (a b : Option Bound) → (if ltb x 0 then a else b) ≡ b
none_moved x a b = ground arith

-- An attempt that has not made its calls is in progress.
busy :
    (n made : ℕ)
    → made < 6
    → (later same : List Delivery) → unless_busy (skip made (registrations n)) later same ≡ same
unfolding registrations
busy n zero l a b = refl
busy n (suc zero) l a b = refl
busy n (suc (suc zero)) l a b = refl
busy n (suc (suc (suc zero))) l a b = refl
busy n (suc (suc (suc (suc zero)))) l a b = refl
busy n (suc (suc (suc (suc (suc zero))))) l a b = refl
busy n (suc (suc (suc (suc (suc (suc made)))))) l a b = absurd (omega (arith, l))

all_moved :
    (before : Option ℕ) (n : ℕ) (type : String) → meant_at before n 5 type ≡ meant_for (some n) type
all_moved none n type = ground arith
all_moved (some m) n type = ground arith

first_process-IsAt : IsAt (idle none) first_process
unfolding first_process first_wiring lookup on_message
first_process-IsAt = record {
  under_way = tt;
  pending = refl;
  handlers = λ type. simp lookup-insert;
  hook = refl;
}

-- The process after its next call.
abbrev next : Process → Process
next p = elim p.pending [ [] ↦ p | x ∷ xs ↦ record { wiring = register x p.wiring; pending = xs } ]

next-IsAt : (g : Stage) (p : Process) → IsAt g p → IsAt (go_on g) (next p)
unfolding go_on register on_message registrations
next-IsAt (idle last) p h =
    rw h.pending (record { under_way = tt; pending = refl; handlers = h.handlers; hook = h.hook })
next-IsAt (wires before n zero) p h = rw h.pending (record {
  under_way = omega arith;
  pending = refl;
  handlers =
      handler-moves before n 0 message_apply_pipeline_run (apply_handler n) p.wiring.handlers refl
        refl (λ type e. ground arith) h.handlers;
  hook = h.hook;
})
next-IsAt (wires before n (suc zero)) p h = rw h.pending (record {
  under_way = omega arith;
  pending = refl;
  handlers =
      handler-moves before n 1 message_approve_task (approve_handler n) p.wiring.handlers refl refl
        (λ type e. ground arith) h.handlers;
  hook = h.hook;
})
next-IsAt (wires before n (suc (suc zero))) p h = rw h.pending (record {
  under_way = omega arith;
  pending = refl;
  handlers =
      handler-moves before n 2 message_rollout_control (rollout_control_handler n) p.wiring.handlers
        refl refl (λ type e. ground arith) h.handlers;
  hook = h.hook;
})
next-IsAt (wires before n (suc (suc (suc zero)))) p h = rw h.pending (record {
  under_way = omega arith;
  pending = refl;
  handlers =
      handler-moves before n 3 message_rerun_task (rerun_handler n) p.wiring.handlers refl refl
        (λ type e. ground arith) h.handlers;
  hook = h.hook;
})
next-IsAt (wires before n (suc (suc (suc (suc zero))))) p h = rw h.pending (record {
  under_way = omega arith;
  pending = refl;
  handlers =
      handler-moves before n 4 message_cancel_pipeline_run (cancel_handler n) p.wiring.handlers refl
        refl (λ type e. ground arith) h.handlers;
  hook = h.hook;
})
next-IsAt (wires before n (suc (suc (suc (suc (suc zero)))))) p h = rw h.pending (record {
  under_way = tt;
  pending = refl;
  handlers = λ type. h.handlers type ∙ all_moved before n type;
  hook = refl;
})
next-IsAt (wires before n (suc (suc (suc (suc (suc (suc made))))))) p h =
    absurd (omega (arith, h.under_way))

begin-IsAt :
    (n : ℕ) (s : ManagerStart) (last : Option ℕ) (p : Process)
    → IsAt (idle last) p
    → IsAt (begin n s (idle last)).1 (start_manager n s p).0
unfolding begin start_manager
begin-IsAt n s last p h = elim (Bool-cases s.is_built) [
  | inl e ↦
      rw (e, begin, start_manager)
        (record {
          under_way = omega arith;
          pending = refl;
          handlers = λ type. h.handlers type ∙ sym (none_moved (place type) _ _);
          hook = h.hook;
        })
  | inr e ↦ rw (e, begin, start_manager) h
]

addressed_lem :
    (rest : List Occasion) (n : ℕ) (g : Stage) (p : Process)
    → IsAt g p
    → delivered n p rest ≡ addressed n g rest
unfolding delivered addressed
addressed_lem [] n g p h = refl
addressed_lem (attempts s ∷ rest) n (idle last) p h =
    let q = (start_manager n s p).0 in
    ap (λ xs. unless_busy xs (delivered (n + 1) q rest) (delivered n p rest)) h.pending
    ∙ addressed_lem rest (n + 1) (begin n s (idle last)).1 q (begin-IsAt n s last p h)
addressed_lem (attempts s ∷ rest) n (wires before m made) p h =
    let q = (start_manager n s p).0 in
    ap (λ xs. unless_busy xs (delivered (n + 1) q rest) (delivered n p rest)) h.pending
    ∙ busy m made h.under_way _ _
    ∙ addressed_lem rest n (wires before m made) p h
addressed_lem (registers ∷ rest) n g p h = addressed_lem rest n (go_on g) (next p) (next-IsAt g p h)
addressed_lem (connects ∷ rest) n g p h =
    ap (λ o. hooked o (delivered n p rest)) h.hook
    ∙ ap (hooked (hooked_at g)) (addressed_lem rest n g p h)
addressed_lem (arrives m ∷ rest) n g p h =
    ap (λ o. handed m o (delivered n p rest)) (h.handlers m.type)
    ∙ ap (handed m (receiver g m.type)) (addressed_lem rest n g p h)

-- In every interleaving of messages, connections, attempts to start a manager and the single calls
-- by which an attempt registers its handlers and its hook, a message reaches the handler of its
-- type that holds the manager of the attempt in progress if the call for the type is made, and
-- else that of the last manager with all its calls made, if there is one; a connection sends the
-- runs again by the last manager with all its calls made, if there is one; agent operations always
-- reach their handler, and other types never reach one.
pub delivered-addressed :
    (occasions : List Occasion)
    → delivered 0 first_process occasions ≡ addressed 0 (idle none) occasions
delivered-addressed occasions =
    addressed_lem occasions 0 (idle none) first_process first_process-IsAt
