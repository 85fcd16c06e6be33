-- ===== src/Prelude/Text.antt =====
-- What the source uses of Go's `strings`, `strconv` and `fmt`: Cut, Atoi and the verb %d.
use Prim.Native.Nat.{ℕ, zero, suc, ◌+◌, ◌-◌, ◌*◌, ◌/◌, ◌%◌, ◌<◌, ◌≤◌}
use Prim.Native.Char.{Char, code}
use Prim.Native.String.{String, ◌∷◌, ◌++◌}
use Prim.Native.String.append
use mathlib.Core.Path.{◌≡◌, refl}
use mathlib.Core.Bool.{◌||◌}
use mathlib.Core.Logic.{inl, inr}
use mathlib.Core.Option.{Option, none, some}
use native.Mathlib.Omega.{arith}
use software_distribution_pl.Prelude.Tests.{ltb, leb, nat_beq, if◌then◌else◌, Bool-cases, string_eq}
use software_distribution_pl.Prelude.Int.{ℤ, pos, negsuc, sub_ℕ}

-- `strings.Cut(s, sep)` at a separator of one character: the text before it and behind it.
unfoldable pub cut : ℕ → String → Option (String × String)
cut sep String.[] = none
cut sep (c ∷ s) =
    let rest : Option (String × String) = elim (cut sep s) [
      | none ↦ none
      | some (a, b) ↦ some (c ∷ a, b)
    ] in
    if nat_beq (code c) sep then some (String.[], s) else rest

abbrev pub digit : ℕ → Char
digit zero = "0"
digit (suc zero) = "1"
digit (suc (suc zero)) = "2"
digit (suc (suc (suc zero))) = "3"
digit (suc (suc (suc (suc zero)))) = "4"
digit (suc (suc (suc (suc (suc zero))))) = "5"
digit (suc (suc (suc (suc (suc (suc zero)))))) = "6"
digit (suc (suc (suc (suc (suc (suc (suc zero))))))) = "7"
digit (suc (suc (suc (suc (suc (suc (suc (suc zero)))))))) = "8"
digit (suc (suc (suc (suc (suc (suc (suc (suc (suc n))))))))) = "9"

-- The digits of n in front of a text. Fuel above n is enough: each round divides n by ten.
unfoldable pub digits_before : ℕ → ℕ → String → String
digits_before zero n s = s
digits_before (suc f) n s =
    let rest = digits_before f (n / 10) (digit (n % 10) ∷ s) in
    if ltb n 10 then digit n ∷ s else rest

-- The verb %d at a number that is not negative.
unfoldable pub decimal : ℕ → String
unfolding digits_before
decimal n = digits_before (suc n) n String.[]

-- The digits of a text, read on from n.
unfoldable pub read_digits : String → ℕ → Option ℕ
read_digits String.[] n = some n
read_digits (c ∷ s) n =
    if ltb (code c) b'0' || ltb b'9' (code c)
    then none
    else read_digits s (n * 10 + (code c - b'0'))

-- At least one digit.
unfoldable pub read_number : String → Option ℕ
unfolding read_digits
read_number String.[] = none
read_number (c ∷ s) = read_digits (c ∷ s) 0

-- The range check of a 64-bit int.
unfoldable pub read_pos : String → Option ℤ
unfolding read_number
read_pos s = elim (read_number s) [
  | none ↦ none
  | some n ↦ if ltb n 9223372036854775808 then some (pos n) else none
]

unfoldable pub read_neg : String → Option ℤ
unfolding read_number
read_neg s = elim (read_number s) [
  | none ↦ none
  | some n ↦ if leb n 9223372036854775808 then some (sub_ℕ 0 n) else none
]

-- `strconv.Atoi`: an optional sign, then digits.
unfoldable pub atoi : String → Option ℤ
unfolding read_pos read_neg
atoi String.[] = none
atoi (c ∷ s) =
    if nat_beq (code c) b'-'
    then read_neg s
    else if nat_beq (code c) b'+'
    then read_pos s
    else read_pos (c ∷ s)

atoi_runs : (atoi "-12" ≡ some (negsuc 11)) × (atoi "7x" ≡ none) × (atoi "" ≡ none)
unfolding atoi
atoi_runs = (refl, refl, refl)

decimal_runs : (decimal 0 ≡ "0") × (decimal 1209 ≡ "1209")
unfolding decimal
decimal_runs = (refl, refl)

digit_range : (d : ℕ) → d < 10 → code (digit d) ≡ b'0' + d
digit_range zero h = refl
digit_range (suc zero) h = refl
digit_range (suc (suc zero)) h = refl
digit_range (suc (suc (suc zero))) h = refl
digit_range (suc (suc (suc (suc zero)))) h = refl
digit_range (suc (suc (suc (suc (suc zero))))) h = refl
digit_range (suc (suc (suc (suc (suc (suc zero)))))) h = refl
digit_range (suc (suc (suc (suc (suc (suc (suc zero))))))) h = refl
digit_range (suc (suc (suc (suc (suc (suc (suc (suc zero)))))))) h = refl
digit_range (suc (suc (suc (suc (suc (suc (suc (suc (suc zero))))))))) h = refl
digit_range (suc (suc (suc (suc (suc (suc (suc (suc (suc (suc n)))))))))) h = absurd (omega arith)

-- The digits, read back in front of any text.
pub read_digits-digits_before :
    (f n : ℕ) (s : String) → n < f → read_digits (digits_before f n s) 0 ≡ read_digits s n
unfolding digits_before read_digits
read_digits-digits_before zero n s h = elim h [ ]
read_digits-digits_before (suc f) n s h = ground (
  arith,
  digit_range n,
  digit_range (n % 10),
  read_digits-digits_before f (n / 10) (digit (n % 10) ∷ s),
)

abbrev IsDigits : String → Type 0
IsDigits String.[] = ⊥
IsDigits (c ∷ s) = (b'0' ≤ code c) × (code c ≤ b'9')

digits_before-IsDigits : (f n : ℕ) (s : String) → n < f → IsDigits (digits_before f n s)
unfolding digits_before
digits_before-IsDigits zero n s h = elim h [ ]
digits_before-IsDigits (suc f) n s h = elim (Bool-cases (ltb n 10)) [
  | inl e ↦ rw e (ground (arith, digit_range n))
  | inr e ↦ rw e (digits_before-IsDigits f (n / 10) (digit (n % 10) ∷ s) (ground arith))
]

atoi-IsDigits : (s : String) → IsDigits s → atoi s ≡ read_pos s
unfolding atoi
atoi-IsDigits String.[] h = elim h [ ]
atoi-IsDigits (c ∷ s) h = ground arith

read_number-IsDigits : (s : String) → IsDigits s → read_number s ≡ read_digits s 0
unfolding read_number
read_number-IsDigits String.[] h = elim h [ ]
read_number-IsDigits (c ∷ s) h = refl

-- Atoi reads what %d writes.
pub atoi-decimal : (n : ℕ) → n < 9223372036854775808 → atoi (decimal n) ≡ some (pos n)
unfolding decimal read_pos
atoi-decimal n h =
    let d = digits_before-IsDigits (suc n) n String.[] (omega arith) in
    rw (atoi-IsDigits _ d, read_pos)
      (rw (read_number-IsDigits _ d, read_pos)
        (rw (read_digits-digits_before (suc n) n String.[] (omega arith), read_pos) (ground arith)))

-- Digits hold no separator, so a text behind them is cut where it would be without them.
cut-digits_before :
    (f n : ℕ) (s a b : String)
    → n < f
    → cut b'|' s ≡ some (a, b)
    → cut b'|' (digits_before f n s) ≡ some (digits_before f n a, b)
unfolding cut digits_before
cut-digits_before zero n s a b h e = elim h [ ]
cut-digits_before (suc f) n s a b h e = elim (Bool-cases (ltb n 10)) [
  | inl t ↦ rw t (ground (arith, digit_range n))
  | inr t ↦
      rw t
        (cut-digits_before f (n / 10) _ _ b (ground arith) (ground (arith, digit_range (n % 10))))
]

digits_before-append :
    (f n : ℕ) (s t : String) → digits_before f n s ++ t ≡ digits_before f n (s ++ t)
unfolding digits_before
digits_before-append zero n s t = refl
digits_before-append (suc f) n s t = ground (
  arith,
  append.cons (digit n) s t,
  append.cons (digit (n % 10)) s t,
  digits_before-append f (n / 10) (digit (n % 10) ∷ s) t,
)

pub cut-decimal : (n : ℕ) (s : String) → cut b'|' (decimal n ++ "|" ++ s) ≡ some (decimal n, s)
unfolding decimal cut
cut-decimal n s = rw (digits_before-append (suc n) n String.[] ("|" ++ s)) (
    cut-digits_before (suc n) n (String.[] ++ "|" ++ s) String.[] s (omega arith)
      (rw (append.nil ("|" ++ s), append.cons "|" String.[] s, append.nil s)))
