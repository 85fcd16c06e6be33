-- ===== src/Prelude/Trim.antt =====
-- White space at the ends of a text, and the order of texts.
use Prim.Native.Char.{Char, code}
use Prim.Native.String.{String, ◌∷◌, ◌++◌, len}
use Prim.Native.String.len
use text.Mathlib.TextPositions.{len_utf8-pos}
use text.Mathlib.TextEquality.{Char-path}
use Prim.Native.String.append
use mathlib.Core.Path.{◌≡◌, refl, sym, ap, ap₂, ◌∙◌}
use mathlib.Core.Bool.{Bool, true, false, not, ◌&&◌, ◌||◌}
use native.Mathlib.Omega.{arith}
use software_distribution_pl.Prelude.Tests.{ltb, leb, nat_beq, if◌then◌else◌, ◌==◌, string_eq}

-- Only the empty text has no bytes.
pub len-zero : (s : String) → len s ≡ 0 → s ≡ ""
len-zero String.[] h = refl
len-zero (String.◌∷◌ c s) h = absurd (omega (arith, (len_utf8-pos c).1, len.cons c s))

unfoldable pub all_chars : (Char → Bool) → String → Bool
all_chars p String.[] = true
all_chars p (String.◌∷◌ c s) = p c && all_chars p s

-- The white space of `unicode.IsSpace`.
abbrev pub is_space : Char → Bool
is_space c =
    leb 9 (code c) && leb (code c) 13
    || nat_beq (code c) 32
    || nat_beq (code c) 133
    || nat_beq (code c) 160
    || nat_beq (code c) 5760
    || leb 8192 (code c) && leb (code c) 8202
    || nat_beq (code c) 8232
    || nat_beq (code c) 8233
    || nat_beq (code c) 8239
    || nat_beq (code c) 8287
    || nat_beq (code c) 12288

unfoldable pub trim_left : String → String
trim_left String.[] = ""
trim_left (String.◌∷◌ c s) = let rest = trim_left s in if is_space c then rest else String.◌∷◌ c s

unfoldable pub trim_right : String → String
trim_right String.[] = ""
trim_right (String.◌∷◌ c s) =
    let rest = trim_right s in if rest == "" && is_space c then "" else String.◌∷◌ c rest

-- `strings.TrimSpace`
unfoldable pub trim_space : String → String
unfolding trim_left trim_right
trim_space s = trim_right (trim_left s)

trim_runs : (trim_space " a b\n" ≡ "a b") × (trim_space "\n" ≡ "")
unfolding trim_space
trim_runs = (refl, refl)

-- A text without white space is not trimmed.
abbrev pub is_solid : Char → Bool
is_solid c = not (is_space c)

kept : (b : Bool) (s : String) → (if b && false then "" else s) ≡ s
kept true s = refl
kept false s = refl

trim_right_solid : (s : String) → all_chars is_solid s ≡ true → trim_right (s ++ "\n") ≡ s
unfolding all_chars trim_right
trim_right_solid String.[] h = refl
trim_right_solid (String.◌∷◌ c s) h =
    let e : is_space c ≡ false = ground arith in
    rw (append.cons c s "\n", trim_right)
      (rw (trim_right_solid s (ground arith), trim_right) (rw (e, trim_right) (kept (s == "") _)))

-- A line end behind it is trimmed.
pub trim_space-solid : (s : String) → all_chars is_solid s ≡ true → trim_space (s ++ "\n") ≡ s
unfolding trim_space all_chars
trim_space-solid String.[] h = refl
trim_space-solid (String.◌∷◌ c s) h =
    let e : is_space c ≡ false = ground arith in
    rw (append.cons c s "\n", trim_space, trim_left)
      (rw (e, trim_space, trim_left)
        (ap trim_right (sym (append.cons c s "\n")) ∙ trim_right_solid (c ∷ s) h))

-- `s < t`: the order of the bytes, which in UTF-8 is that of the characters' numbers.
unfoldable pub text_lt : String → String → Bool
text_lt String.[] String.[] = false
text_lt String.[] (String.◌∷◌ d t) = true
text_lt (String.◌∷◌ c s) String.[] = false
text_lt (String.◌∷◌ c s) (String.◌∷◌ d t) =
    let rest = text_lt s t in
    if ltb (code c) (code d) then true else if ltb (code d) (code c) then false else rest

pub text_lt_asym : (s t : String) → text_lt s t ≡ true → text_lt t s ≡ false
unfolding text_lt
text_lt_asym String.[] String.[] h = refl
text_lt_asym String.[] (String.◌∷◌ d t) h = refl
text_lt_asym (String.◌∷◌ c s) String.[] h = absurd (cc)
text_lt_asym (String.◌∷◌ c s) (String.◌∷◌ d t) h = ground (arith, text_lt_asym s t)

pub text_lt_trans : (s t u : String) → text_lt s t ≡ true → text_lt t u ≡ true → text_lt s u ≡ true
unfolding text_lt
text_lt_trans String.[] t String.[] h k = absurd (let n = text_lt_asym String.[] t h in cc)
text_lt_trans String.[] t (String.◌∷◌ e u) h k = refl
text_lt_trans (String.◌∷◌ c s) String.[] u h k = absurd (cc)
text_lt_trans (String.◌∷◌ c s) (String.◌∷◌ d t) String.[] h k = absurd (cc)
text_lt_trans (String.◌∷◌ c s) (String.◌∷◌ d t) (String.◌∷◌ e u) h k =
    ground (arith, text_lt_trans s t u)

pub text_lt_total : (s t : String) → text_lt s t ≡ false → text_lt t s ≡ false → s ≡ t
unfolding text_lt
text_lt_total String.[] String.[] h k = refl
text_lt_total String.[] (String.◌∷◌ d t) h k = absurd (cc)
text_lt_total (String.◌∷◌ c s) String.[] h k = absurd (cc)
text_lt_total (String.◌∷◌ c s) (String.◌∷◌ d t) h k =
    ap₂ String.◌∷◌ (Char-path c d (ground arith)) (text_lt_total s t (ground arith) (ground arith))
