-- ===== src/Jobs/Releases.antt =====
-- The release name that is made of a task's name.
use Prim.Native.Char.{Char, code}
use Prim.Native.String.{◌∷◌}
use text.Mathlib.TextEquality.{Char-path}
use software_distribution_pl.Prelude.{
  ℕ, zero, suc, ◌≤◌, String, all_chars, string_eq, ◌==◌, eq_iff, nat_beq, ◌≡◌, refl, ap, ap₂, Bool,
  true, false, ◌&&◌, ◌||◌, Bool-cases, inl, inr, if◌then◌else◌, arith,
}
use software_distribution_pl.Jobs.Names.{
  is_between, release_rune, release_runes, shorten, strip_trailing, sanitize_release_name,
}

-- A character of a release name: a letter in lower case, a digit or a dash.
abbrev pub is_release_char : Char → Bool
is_release_char c =
    is_between b'a' b'z' (code c) || is_between b'0' b'9' (code c) || nat_beq (code c) b'-'

-- Whether the last character is a dash; an empty text ends in none.
unfoldable pub ends_in_dash : String → Bool
ends_in_dash String.[] = false
ends_in_dash (c ∷ s) = if s == "" then nat_beq (code c) b'-' else ends_in_dash s

unfoldable pub size : String → ℕ
size String.[] = 0
size (c ∷ s) = suc (size s)

release_rune-is_release_char : (c : Char) → is_release_char (release_rune c) ≡ true
unfolding release_rune
release_rune-is_release_char c =
    elim (Bool-cases (is_between b'a' b'z' (code c) || is_between b'0' b'9' (code c))) [
      | inl e ↦ rw e (rw e refl)
      | inr e ↦ rw e (elim (Bool-cases (is_between b'A' b'Z' (code c))) [
        | inl f ↦ rw f (ground (arith, f))
        | inr f ↦ rw f refl
      ])
    ]

runes_valid : (s : String) → all_chars is_release_char (release_runes s) ≡ true
unfolding all_chars release_runes
runes_valid String.[] = refl
runes_valid (c ∷ s) = rw (release_rune-is_release_char c) (runes_valid s)

shorten_valid :
    (p : Char → Bool) (n : ℕ) (s : String) → all_chars p s ≡ true → all_chars p (shorten n s) ≡ true
unfolding all_chars shorten
shorten_valid p zero s h = refl
shorten_valid p (suc n) String.[] h = refl
shorten_valid p (suc n) (c ∷ s) h = ground (arith, shorten_valid p n s)

size-shorten : (n : ℕ) (s : String) → size (shorten n s) ≤ n
unfolding size shorten
size-shorten zero s = omega arith
size-shorten (suc n) String.[] = omega arith
size-shorten (suc n) (c ∷ s) = omega (arith, size-shorten n s)

strip_valid :
    (p : Char → Bool) (s : String) → all_chars p s ≡ true → all_chars p (strip_trailing s) ≡ true
unfolding all_chars strip_trailing
strip_valid p String.[] h = refl
strip_valid p (c ∷ s) h =
    elim (Bool-cases (strip_trailing s == "" && (nat_beq (code c) b'-' || nat_beq (code c) b'.'))) [
      | inl e ↦ rw e refl
      | inr e ↦ rw e (ground (arith, strip_valid p s))
    ]

size-strip : (s : String) → size (strip_trailing s) ≤ size s
unfolding size strip_trailing
size-strip String.[] = omega arith
size-strip (c ∷ s) =
    elim (Bool-cases (strip_trailing s == "" && (nat_beq (code c) b'-' || nat_beq (code c) b'.'))) [
      | inl e ↦ rw e (omega arith)
      | inr e ↦ rw e (omega (arith, size-strip s))
    ]

strip_ends : (s : String) → ends_in_dash (strip_trailing s) ≡ false
unfolding ends_in_dash strip_trailing
strip_ends String.[] = refl
strip_ends (c ∷ s) =
    elim (Bool-cases (strip_trailing s == "" && (nat_beq (code c) b'-' || nat_beq (code c) b'.'))) [
      | inl e ↦ rw e refl
      | inr e ↦ rw e (ground (arith, strip_ends s))
    ]

-- The default name.
release_word :
    (all_chars is_release_char "release" ≡ true)
    × (size "release" ≤ 53)
    × (ends_in_dash "release" ≡ false)
unfolding all_chars size ends_in_dash
release_word = (refl, omega arith, refl)

-- A name that needs no change.
abbrev pub IsReleaseName : String → Type 0
IsReleaseName s =
    ((s == "") ≡ false)
    × (all_chars is_release_char s ≡ true)
    × (size s ≤ 53)
    × (ends_in_dash s ≡ false)

release_rune_same : (c : Char) → is_release_char c ≡ true → release_rune c ≡ c
unfolding release_rune
release_rune_same c h =
    elim (Bool-cases (is_between b'a' b'z' (code c) || is_between b'0' b'9' (code c))) [
      | inl e ↦ rw e refl
      | inr e ↦ rw e (elim (Bool-cases (is_between b'A' b'Z' (code c))) [
        | inl f ↦ absurd (ground (arith, e, f, h))
        | inr f ↦ rw f (Char-path "-" c (ground (arith, e, h)))
      ])
    ]

runes_same : (s : String) → all_chars is_release_char s ≡ true → release_runes s ≡ s
unfolding all_chars release_runes
runes_same String.[] h = refl
runes_same (c ∷ s) h = ap₂ ◌∷◌ (release_rune_same c (ground arith)) (runes_same s (ground arith))

shorten_same : (n : ℕ) (s : String) → size s ≤ n → shorten n s ≡ s
unfolding size shorten
shorten_same zero String.[] h = refl
shorten_same zero (c ∷ s) h = absurd (omega arith)
shorten_same (suc n) String.[] h = refl
shorten_same (suc n) (c ∷ s) h = ap (λ t. c ∷ t) (shorten_same n s (omega arith))

ends_tail : (c : Char) (s : String) → ends_in_dash (c ∷ s) ≡ false → ends_in_dash s ≡ false
unfolding ends_in_dash
ends_tail c s e = elim (Bool-cases (s == "")) [
  | inl t ↦ rw ((eq_iff s "").0 t) refl
  | inr t ↦ ground (arith, e, t)
]

last_kept :
    (c : Char) (s : String)
    → is_release_char c ≡ true
    → ends_in_dash (c ∷ s) ≡ false
    → (s == "" && (nat_beq (code c) b'-' || nat_beq (code c) b'.')) ≡ false
unfolding ends_in_dash
last_kept c s h e = elim (Bool-cases (s == "")) [
  | inl t ↦ rw t (ground (arith, t, e, h))
  | inr t ↦ rw t refl
]

strip_same :
    (s : String)
    → all_chars is_release_char s ≡ true
    → ends_in_dash s ≡ false
    → strip_trailing s ≡ s
unfolding all_chars ends_in_dash strip_trailing
strip_same String.[] h e = refl
strip_same (c ∷ s) h e =
    rw (strip_same s (ground arith) (ends_tail c s e)) (rw (last_kept c s (ground arith) e) refl)

-- A sanitized release name holds only lower case letters, digits and dashes, has at most 53
-- characters and does not end in a dash.
pub sanitize_release_name-valid :
    (name : String)
    → (all_chars is_release_char (sanitize_release_name name) ≡ true)
      × (size (sanitize_release_name name) ≤ 53)
      × (ends_in_dash (sanitize_release_name name) ≡ false)
unfolding sanitize_release_name
sanitize_release_name-valid name = elim (Bool-cases (release_runes name == "")) [
  | inl e ↦ rw e release_word
  | inr e ↦ rw e (
    strip_valid is_release_char _ (shorten_valid is_release_char 53 _ (runes_valid name)),
    omega
        (arith, size-strip (shorten 53 (release_runes name)), size-shorten 53 (release_runes name)),
    strip_ends (shorten 53 (release_runes name)),
  )
]

sanitize_release_name_same :
    (name : String) → IsReleaseName name → sanitize_release_name name ≡ name
unfolding sanitize_release_name
sanitize_release_name_same name h =
    rw (runes_same name h.1) (rw h.0 (rw (shorten_same 53 name h.2) (strip_same name h.1 h.3)))
