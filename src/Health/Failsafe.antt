-- ===== src/Health/Failsafe.antt =====
-- A query that cannot be judged does not pass.
use software_distribution_pl.Prelude.{
  String, string_eq, ◌==◌, nat_beq, true, false, Bool-cases, Option-cases, inl, inr, Option, none,
  some, ◌≡◌, refl, sym, ◌∙◌, ◌↔◌, nat_beq_iff, eq_iff, trim_space,
}
use software_distribution_pl.Api.Meta.{Duration}
use software_distribution_pl.Health.{
  Floats, Response, Get, probe_timeout, query_url, last_field, threshold_met, passes, body_ok,
  answer_ok, prometheus_query_ok,
}

module _ {F : Type 0} (floats : Floats F) where
  -- What a healthy answer is: a response with the status 200 whose last field is a number that is at most the threshold's.
  pub record IsWithin (answer : Option Response) (threshold : String) : Type 0 where
    pub response : Response
    pub value : F
    pub ceiling : F
    pub answered : answer ≡ some response
    pub accepted : response.status ≡ 200
    pub value_read : floats.parse (trim_space (last_field (trim_space response.body))) ≡ some value
    pub ceiling_read : floats.parse (trim_space threshold) ≡ some ceiling
    pub ordered : floats.at_most value ceiling ≡ true

  read_met :
      (value threshold : String)
      → passes floats (threshold_met floats value threshold) ≡ true
      → (v : F) × (t : F) × (floats.parse (trim_space value) ≡ some v)
        × (floats.parse (trim_space threshold) ≡ some t)
        × (floats.at_most v t ≡ true)
  unfolding threshold_met
  read_met value threshold h = elim (Option-cases (floats.parse (trim_space value))) [
    | inl e ↦
        let z : passes floats (threshold_met floats value threshold) ≡ false =
          rw (e, threshold_met) refl in
        absurd (cc)
    | inr (v, e) ↦ elim (Option-cases (floats.parse (trim_space threshold))) [
      | inl f ↦
          let z : passes floats (threshold_met floats value threshold) ≡ false =
            rw (e, f, threshold_met) refl in
          absurd (cc)
      | inr (t, f) ↦
          let z : passes floats (threshold_met floats value threshold) ≡ floats.at_most v t =
            rw (e, f, threshold_met) refl in
          (v, t, e, f, sym z ∙ h)
    ]
  ]

  body_read :
      (body threshold : String)
      → body_ok floats body threshold ≡ true
      → passes floats (threshold_met floats (last_field (trim_space body)) threshold) ≡ true
  unfolding body_ok
  body_read body threshold h = elim (Bool-cases (trim_space body == "")) [
    | inl e ↦ let z : body_ok floats body threshold ≡ false = rw (e, body_ok) refl in absurd (cc)
    | inr e ↦
        let z : body_ok floats body threshold
            ≡ passes floats (threshold_met floats (last_field (trim_space body)) threshold) =
          rw (e, body_ok) refl in
        sym z ∙ h
  ]

  answer-IsWithin :
      (answer : Option Response) (threshold : String)
      → answer_ok floats answer threshold ≡ true
      → IsWithin answer threshold
  unfolding answer_ok
  answer-IsWithin none threshold h = absurd (cc)
  answer-IsWithin (some r) threshold h = elim (Bool-cases (nat_beq r.status 200)) [
    | inl e ↦
        let z : answer_ok floats (some r) threshold ≡ body_ok floats r.body threshold =
          rw (e, answer_ok) refl in
        let (v, t, p, q, o) =
          read_met (last_field (trim_space r.body)) threshold
            (body_read r.body threshold (sym z ∙ h)) in
        record {
          response = r;
          value = v;
          ceiling = t;
          answered = refl;
          accepted = (nat_beq_iff r.status 200).0 e;
          value_read = p;
          ceiling_read = q;
          ordered = o;
        }
    | inr e ↦
        let z : answer_ok floats (some r) threshold ≡ false = rw (e, answer_ok) refl in absurd (cc)
  ]

  module _ (no_number : floats.parse "" ≡ none) where
    empty_field :
        (body : String) {v : F}
        → floats.parse (trim_space (last_field body)) ≡ some v
        → (body == "") ≡ false
    unfolding last_field trim_space
    empty_field body {v} h = elim (Bool-cases (body == "")) [
      | inl e ↦
          let z : floats.parse (trim_space (last_field body)) ≡ none =
            rw ((eq_iff body "").0 e) no_number in
          absurd (cc)
      | inr e ↦ e
    ]

    within_answer :
        (answer : Option Response) (threshold : String)
        → IsWithin answer threshold
        → answer_ok floats answer threshold ≡ true
    unfolding answer_ok body_ok threshold_met
    within_answer answer threshold w = rw w.answered (
        rw (w.accepted, answer_ok)
          (rw (empty_field (trim_space w.response.body) w.value_read, body_ok)
            (rw (w.value_read, threshold_met) (rw (w.ceiling_read, threshold_met) w.ordered))))

    -- If the empty text is no number, a query passes exactly when it is answered with the status
    -- 200 by a body whose last field is a number that is at most the one of the threshold.
    pub prometheus_query_ok_iff :
        (get : Get) (endpoint expr threshold : String) (timeout : Duration)
        → (prometheus_query_ok floats get endpoint expr threshold timeout ≡ true)
          ↔ IsWithin (get (query_url endpoint expr) (probe_timeout timeout)) threshold
    unfolding prometheus_query_ok
    prometheus_query_ok_iff get endpoint expr threshold timeout = (
      answer-IsWithin (get (query_url endpoint expr) (probe_timeout timeout)) threshold,
      within_answer (get (query_url endpoint expr) (probe_timeout timeout)) threshold,
    )
