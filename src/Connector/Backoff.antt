-- ===== src/Connector/Backoff.antt =====
-- The waits between the attempts to connect.
use software_distribution_pl.Prelude.{
  ℕ, zero, suc, ◌*◌, ◌^◌, ltb, ◌≡◌, refl, ap, ◌∙◌, List, [], ◌∷◌, if◌then◌else◌, arith,
}
use software_distribution_pl.Connector.{Round, failed_after, finished, waits, run_waits}

-- The wait of the connection that is lost after n others, however long those were up.
abbrev pub expected_wait : ℕ → ℕ
expected_wait n = if ltb n 5 then 2 ^ n else 32

abbrev pub expected_waits : ℕ → ℕ → List ℕ
expected_waits n zero = []
expected_waits n (suc k) = expected_wait n ∷ expected_waits (suc n) k

-- The connections that are lost before the context is done.
abbrev pub losses : List Round → ℕ
losses [] = 0
losses (failed_after seconds ∷ rounds) = suc (losses rounds)
losses (finished ∷ rounds) = 0

longest : (n : ℕ) → expected_wait (suc (suc (suc (suc (suc n))))) ≡ 32
longest n = ground arith

next_wait :
    (n : ℕ)
    → (if ltb (expected_wait n) 30 then expected_wait n * 2 else expected_wait n)
      ≡ expected_wait (suc n)
next_wait zero = refl
next_wait (suc zero) = refl
next_wait (suc (suc zero)) = refl
next_wait (suc (suc (suc zero))) = refl
next_wait (suc (suc (suc (suc zero)))) = refl
next_wait (suc (suc (suc (suc (suc n))))) = rw (longest n, longest (suc n)) refl

waits_lem :
    (n : ℕ) (rounds : List Round)
    → waits (expected_wait n) rounds ≡ expected_waits n (losses rounds)
unfolding waits
waits_lem n [] = refl
waits_lem n (failed_after seconds ∷ rounds) =
    ap (λ l. expected_wait n ∷ l)
      (ap (λ b. waits b rounds) (next_wait n) ∙ waits_lem (suc n) rounds)
waits_lem n (finished ∷ rounds) = refl

-- The waits of Run are 1, 2, 4, 8 and 16 seconds and then always 32, one for each connection that
-- is lost before the context is done, however long the connections were up.
pub run_waits-losses : (rounds : List Round) → run_waits rounds ≡ expected_waits 0 (losses rounds)
unfolding run_waits
run_waits-losses rounds = waits_lem 0 rounds
