-- ===== src/Jobs/Protected.antt =====
-- Which names of variables a run may not set, apart from the test of pkg/executor/job_builder.go.
use Prim.Native.Char.{code}
use Prim.Native.String.{◌∷◌}
use software_distribution_pl.Prelude.{
  ℕ, ◌≤◌, ◌≡◌, ◌⊎◌, inl, inr, Bool-cases, true, false, String, string_eq, eq_iff, List, [], ◌∷◌,
  Elem, contains, arith,
}
use software_distribution_pl.Jobs.Names.{is_letter, is_word, is_env_name, is_admissible}

-- The names that a run may not set.
abbrev pub protected : List String
protected =
    "PATH" ∷ "HOME" ∷ "SHELL" ∷ "PWD" ∷ "IFS" ∷ "LD_PRELOAD" ∷ "LD_LIBRARY_PATH" ∷ "PYTHONPATH"
    ∷ "KUBERNETES_SERVICE_HOST" ∷ "KUBERNETES_SERVICE_PORT" ∷ []

-- ASCII letters and the underscore, and digits.
abbrev IsLetter : ℕ → Type 0
IsLetter n = ((65 ≤ n) × (n ≤ 90)) ⊎ (((97 ≤ n) × (n ≤ 122)) ⊎ (n ≡ 95))

abbrev IsLetterOrDigit : ℕ → Type 0
IsLetterOrDigit n = IsLetter n ⊎ ((48 ≤ n) × (n ≤ 57))

unfoldable AllLettersOrDigits : String → Type 0
AllLettersOrDigits String.[] = Unit
AllLettersOrDigits (c ∷ s) = IsLetterOrDigit (code c) × AllLettersOrDigits s

unfoldable pub IsEnvName : String → Type 0
unfolding AllLettersOrDigits
IsEnvName String.[] = ⊥
IsEnvName (c ∷ s) = IsLetter (code c) × AllLettersOrDigits s

is_letter-IsLetter : (n : ℕ) → is_letter n ≡ true → IsLetter n
is_letter-IsLetter n h = ground arith

is_word-AllLettersOrDigits : (s : String) → is_word s ≡ true → AllLettersOrDigits s
unfolding is_word AllLettersOrDigits
is_word-AllLettersOrDigits String.[] h = tt
is_word-AllLettersOrDigits (c ∷ s) h = (ground arith, is_word-AllLettersOrDigits s (ground arith))

is_env_name-IsEnvName : (s : String) → is_env_name s ≡ true → IsEnvName s
unfolding is_env_name IsEnvName
is_env_name-IsEnvName String.[] h = cc
is_env_name-IsEnvName (c ∷ s) h = (ground arith, is_word-AllLettersOrDigits s (ground arith))

-- A protected name, or no name of a variable.
abbrev pub IsProtected : String → Type 0
IsProtected s = Elem s protected ⊎ (IsEnvName s → ⊥)

contains_lem : (xs : List String) (s : String) → Elem s xs → contains xs s ≡ true
contains_lem [] s m = absurd m
contains_lem (x ∷ xs) s (inl e) = ground (arith, eq_iff x s, e)
contains_lem (x ∷ xs) s (inr m) = ground (arith, contains_lem xs s m)

pub is_admissible-protected : (s : String) → IsProtected s → is_admissible s ≡ false
unfolding is_admissible
is_admissible-protected s (inl m) = ground (arith, contains_lem protected s m)
is_admissible-protected s (inr h) = elim (Bool-cases (is_env_name s)) [
  | inl e ↦ absurd (h (is_env_name-IsEnvName s e))
  | inr e ↦ ground arith
]
