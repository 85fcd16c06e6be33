-- ===== src/Jobs/Names.antt =====
-- pkg/executor/job_builder.go: the names that the builder lets through or rewrites.
use Prim.Native.Char.{Char, char, code, IsScalar}
use Prim.Native.String.{◌∷◌}
use software_distribution_pl.Prelude.{
  ℕ, zero, suc, ◌+◌, ◌-◌, ◌%◌, ◌<◌, ◌≡◌, refl, false, String, string_eq, ◌==◌, leb, nat_beq, Bool,
  true, not, ◌&&◌, ◌||◌, List, [], ◌∷◌, contains, if◌then◌else◌, arith,
}

-- The keys of the map, each with the value true.
abbrev pub reserved_env : List String
reserved_env =
    "PATH" ∷ "HOME" ∷ "SHELL" ∷ "PWD" ∷ "IFS" ∷ "LD_PRELOAD" ∷ "LD_LIBRARY_PATH" ∷ "PYTHONPATH"
    ∷ "KUBERNETES_SERVICE_HOST" ∷ "KUBERNETES_SERVICE_PORT" ∷ []

abbrev pub is_between : ℕ → ℕ → ℕ → Bool
is_between low high n = leb low n && leb n high

abbrev pub is_letter : ℕ → Bool
is_letter n = is_between b'A' b'Z' n || is_between b'a' b'z' n || nat_beq n b'_'

-- `[A-Za-z0-9_]*` to the end of the text.
unfoldable pub is_word : String → Bool
is_word String.[] = true
is_word (c ∷ s) = (is_letter (code c) || is_between b'0' b'9' (code c)) && is_word s

-- `^[A-Za-z_][A-Za-z0-9_]*$`
unfoldable pub is_env_name : String → Bool
unfolding is_word
is_env_name String.[] = false
is_env_name (c ∷ s) = is_letter (code c) && is_word s

-- The negation of the test under which a param is skipped.
unfoldable pub is_admissible : String → Bool
unfolding is_env_name
is_admissible name = not (name == "" || not (is_env_name name) || contains reserved_env name)

pub IsScalar-lt : (n : ℕ) → n < 128 → IsScalar n
IsScalar-lt n h = ground arith

-- The ASCII character with the number, which is below 128 wherever this is used.
abbrev ascii : ℕ → Char
ascii n = char (n % 128) (IsScalar-lt (n % 128) (omega arith))

-- One round of the loop over the runes.
unfoldable pub release_rune : Char → Char
release_rune r =
    if is_between b'a' b'z' (code r) || is_between b'0' b'9' (code r)
    then r
    else if is_between b'A' b'Z' (code r)
    then ascii (code r + (b'a' - b'A'))
    else "-"

unfoldable pub release_runes : String → String
unfolding release_rune
release_runes String.[] = ""
release_runes (r ∷ s) = release_rune r ∷ release_runes s

-- `s[:n]` of a text of at least n bytes that holds ASCII characters only, and a shorter text as it is.
unfoldable pub shorten : ℕ → String → String
shorten zero s = ""
shorten (suc n) String.[] = ""
shorten (suc n) (c ∷ s) = c ∷ shorten n s

-- The loop that drops the last character for as long as it is a dash or a dot.
unfoldable pub strip_trailing : String → String
strip_trailing String.[] = ""
strip_trailing (c ∷ s) =
    let rest = strip_trailing s in
    if rest == "" && (nat_beq (code c) b'-' || nat_beq (code c) b'.') then "" else c ∷ rest

unfoldable pub sanitize_release_name : String → String
unfolding release_runes shorten strip_trailing
sanitize_release_name name =
    if release_runes name == "" then "release" else strip_trailing (shorten 53 (release_runes name))

sanitize_runs :
    (sanitize_release_name "Deploy_API.v2" ≡ "deploy-api-v2")
    × (sanitize_release_name "" ≡ "release")
    × (sanitize_release_name "--" ≡ "")
    × (sanitize_release_name "-a-" ≡ "-a")
unfolding sanitize_release_name
sanitize_runs = (refl, refl, refl, refl)

admissible_runs :
    (is_admissible "VERSION_2" ≡ true)
    × (is_admissible "2X" ≡ false)
    × (is_admissible "PATH" ≡ false)
    × (is_admissible "LD_AUDIT" ≡ true)
unfolding is_admissible
admissible_runs = (refl, refl, refl, refl)
