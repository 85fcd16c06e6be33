-- ===== src/Health.antt =====
-- pkg/health/health.go: the active checks of a canary. The HTTP client and `strconv.ParseFloat` are parameters.
pub mod Failsafe
use Prim.Native.Char.{Char, code}
use Prim.Native.String.{◌++◌, ◌∷◌}
use software_distribution_pl.Prelude.{
  ℕ, String, string_eq, ◌==◌, nat_eq, ltb, leb, nat_beq, Bool, true, false, not, ◌||◌, Option, none,
  some, pos, ltb_ℤ, List, [], ◌∷◌, trim_space, is_space, if◌then◌else◌,
}
use software_distribution_pl.Api.Meta.{Duration}

-- The floats of the check: how a text is read, and their order.
pub record Floats (F : Type 0) : Type 0 where
  pub parse : String → Option F
  pub at_most : F → F → Bool

-- The status of a response and what the first read of its body returns.
pub record Response : Type 0 where
  pub status : ℕ
  pub body : String

-- A GET, or none at a transport error.
abbrev pub Get : Type 0
Get = (url : String) → (timeout : Duration) → Option Response

abbrev pub probe_timeout : Duration → Duration
probe_timeout timeout = if ltb_ℤ (pos 0) timeout then timeout else pos 5000000000

-- Whether the probe ends without an error.
unfoldable pub http_probe : Get → (url : String) → Duration → Bool
http_probe get url timeout = elim (get url (probe_timeout timeout)) [
  | none ↦ false
  | some r ↦ not (ltb r.status 200 || leb 300 r.status)
]

-- The text behind the last white space, of a text that does not end in one (`strings.Fields`).
unfoldable pub last_field : String → String
last_field String.[] = ""
last_field (c ∷ s) =
    let later = last_field s in if has_space s then later else if is_space c then s else c ∷ s
  where
    has_space : String → Bool
    has_space String.[] = false
    has_space (d ∷ t) = is_space d || has_space t

abbrev pub has_query : String → Bool
has_query String.[] = false
has_query (c ∷ s) = nat_beq (code c) b'?' || has_query s

abbrev pub query_url : (endpoint expr : String) → String
query_url endpoint expr =
    if has_query endpoint then endpoint ++ "&query=" ++ expr else endpoint ++ "?query=" ++ expr

module _ {F : Type 0} (floats : Floats F) where
  -- The comparison, or none at a text that is no number.
  unfoldable pub threshold_met : (value threshold : String) → Option Bool
  threshold_met value threshold = elim (floats.parse (trim_space value)) [
    | none ↦ none
    | some v ↦ elim (floats.parse (trim_space threshold)) [
      | none ↦ none
      | some t ↦ some (floats.at_most v t)
    ]
  ]

  -- An error of the comparison does not pass.
  abbrev pub passes : Option Bool → Bool
  passes none = false
  passes (some b) = b

  unfoldable pub body_ok : (body threshold : String) → Bool
  unfolding threshold_met last_field
  body_ok body threshold =
      if trim_space body == ""
      then false
      else passes (threshold_met (last_field (trim_space body)) threshold)

  unfoldable pub answer_ok : Option Response → (threshold : String) → Bool
  unfolding body_ok
  answer_ok none threshold = false
  answer_ok (some r) threshold = if nat_beq r.status 200 then body_ok r.body threshold else false

  unfoldable pub prometheus_query_ok : Get → (endpoint expr threshold : String) → Duration → Bool
  unfolding answer_ok
  prometheus_query_ok get endpoint expr threshold timeout =
      answer_ok (get (query_url endpoint expr) (probe_timeout timeout)) threshold
