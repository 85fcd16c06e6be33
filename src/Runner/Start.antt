-- ===== src/Runner/Start.antt =====
-- How the loop that starts the manager ends.
use native.Mathlib.Nat.{eq-or-lt_of_le}
use software_distribution_pl.Prelude.{
  ℕ, zero, suc, ◌+◌, ◌*◌, ◌≤◌, ◌<◌, ltb, leb, ◌≡◌, ◌↔◌, refl, ap, ◌∙◌, sym, Bool, true, false, inl,
  inr, Option, none, some, List, [], ◌∷◌, length, if◌then◌else◌, arith,
}
use software_distribution_pl.Runner.{
  Attempt, stops, fails, fails_at_shutdown, fails_then_done, shutdown, gave_up, Run, waited,
  after_attempt, start_from, start_loop, max_manager_start_attempts,
}

abbrev pub is_failure : Attempt → Bool
is_failure fails = true
is_failure fails_then_done = true
is_failure _ = false

-- The attempts from one on fail, and the context is not done before the last.
abbrev pub AllFail : (ℕ → Attempt) → ℕ → Type 0
AllFail outcome from =
    ((n : ℕ) → from ≤ n → n < max_manager_start_attempts → outcome n ≡ fails)
    × (is_failure (outcome max_manager_start_attempts) ≡ true)

-- A run that ended after at most so many waits, and that gave up exactly if all attempts fail.
pub record Ends (outcome : ℕ → Attempt) (from most : ℕ) (result : Option Run) : Type 0 where
  pub run : Run
  pub returned : result ≡ some run
  pub bounded : length run.waits ≤ most
  pub gives_up : (run.end ≡ gave_up) ↔ AllFail outcome from

module _ (outcome : ℕ → Attempt) where
  shuts_down :
      (a most : ℕ) (ws : List ℕ)
      → length ws ≤ most
      → (AllFail outcome a → shutdown ≡ gave_up)
      → Ends outcome a most (some (record { end = shutdown; waits = ws }))
  shuts_down a most ws b n = record {
    run = record { end = shutdown; waits = ws };
    returned = refl;
    bounded = b;
    gives_up = ((λ c. grind arith), n);
  }

  gives_in : AllFail outcome 10 → Ends outcome 10 0 (some (record { end = gave_up; waits = [] }))
  gives_in f = record {
    run = record { end = gave_up; waits = [] };
    returned = refl;
    bounded = grind arith;
    gives_up = ((λ c. f), (λ f. refl));
  }

  last_attempt :
      (o : Attempt) (backoff : ℕ) (later : Option Run)
      → outcome 10 ≡ o
      → Ends outcome 10 0 (after_attempt o true backoff later)
  unfolding after_attempt
  last_attempt stops backoff later e = shuts_down 10 0 [] (grind arith) (λ f. grind arith)
  last_attempt fails_at_shutdown backoff later e =
      shuts_down 10 0 [] (grind arith) (λ f. grind arith)
  last_attempt fails backoff later e = gives_in ((λ n l u. grind arith), grind arith)
  last_attempt fails_then_done backoff later e = gives_in ((λ n l u. grind arith), grind arith)

  -- The attempts from one on, if it is known of the first.
  first_fails :
      (a : ℕ)
      → outcome a ≡ fails
      → AllFail outcome (suc a)
      → (n : ℕ) → a ≤ n
      → n < 10
      → outcome n ≡ fails
  first_fails a e f n l u = elim (eq-or-lt_of_le l) [
    | inl eq ↦ ap outcome (sym eq) ∙ e
    | inr lt ↦ f.0 n lt u
  ]

  earlier_attempt :
      (o : Attempt) (a k backoff : ℕ) (later : Option Run)
      → outcome a ≡ o
      → a < 10
      → Ends outcome (suc a) k later
      → Ends outcome a (suc k) (after_attempt o false backoff later)
  unfolding after_attempt
  earlier_attempt stops a k backoff later e u ends =
      shuts_down a (suc k) [] (grind arith)
        (λ f. let h : outcome a ≡ fails = f.0 a (omega arith) u in grind arith)
  earlier_attempt fails_at_shutdown a k backoff later e u ends =
      shuts_down a (suc k) [] (grind arith)
        (λ f. let h : outcome a ≡ fails = f.0 a (omega arith) u in grind arith)
  earlier_attempt fails_then_done a k backoff later e u ends =
      shuts_down a (suc k) (backoff ∷ []) (grind arith)
        (λ f. let h : outcome a ≡ fails = f.0 a (omega arith) u in grind arith)
  earlier_attempt fails a k backoff later e u ends = record {
    run = record ends.run { waits = backoff ∷ ends.run.waits };
    returned = ap (waited backoff) ends.returned;
    bounded = grind arith;
    gives_up = (
      (λ c. (first_fails a e (ends.gives_up.0 c), (ends.gives_up.0 c).1)),
      (λ f. ends.gives_up.1 ((λ n l. f.0 n (omega arith)), f.1)),
    );
  }

  last_test : (k a : ℕ) → suc k + a ≡ 10 → leb 10 a ≡ false
  last_test k a e = ground arith

  start_from-Ends :
      (k a backoff : ℕ) → k + a ≡ 10 → Ends outcome a k (start_from outcome (suc k) a backoff)
  unfolding start_from
  start_from-Ends zero a backoff e =
      let h : a ≡ 10 = omega arith in rw h (last_attempt (outcome 10) backoff none refl)
  start_from-Ends (suc k) a backoff e =
      let wait : ℕ = if ltb backoff 30 then backoff * 2 else backoff in
      rw (last_test k a e) (
        earlier_attempt (outcome a) a k backoff (start_from outcome (suc k) (suc a) wait) refl
          (omega arith) (start_from-Ends k (suc a) wait (omega arith)))

-- However the attempts to start the manager end, the loop ends after at most nine waits, and it
-- gives up exactly if every attempt fails and the context is not done before the last.
pub start_loop-Ends : (outcome : ℕ → Attempt) → Ends outcome 1 9 (start_loop outcome)
unfolding start_loop
start_loop-Ends outcome = start_from-Ends outcome 9 1 1 refl
