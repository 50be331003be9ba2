-- ===== src/Assessment/Results/Acceptance.antt =====
-- Which assessment results have no violation.
use vocab_system.Base.{
  ◌==◌, ◌≡◌, refl, ◌∙◌, ◌↔◌, String, Bool, true, false, not, ◌&&◌, Option, none, some, List, [],
  any,
}
use vocab_system.Base.Reports.{in_code_order, in_code_order-nil_iff}
use vocab_system.Base.Text.{str_eq, str_in, codes}
use vocab_system.Contracts.Channels.{
  Channel, reading, listening, writing, speaking, channel_text, parse_channel,
}
use vocab_system.Contracts.Keys.{is_unit_key}
use vocab_system.Contracts.Assessments.{
  productive_presence_channels, failure_codes_by_channel, omitted_reason_codes,
  abstain_reason_codes,
}
use vocab_system.Assessment.Results.{
  Outcome, pass, fail, omitted, abstain, parse_outcome, Code, violation_codes, code_index, add_if,
  AssessmentResult, outcome_violations, discovered_of, validate_t11_assessment_result,
}

-- Only production can omit the target.
abbrev pub is_productive : Channel → Bool
is_productive reading = false
is_productive listening = false
is_productive writing = true
is_productive speaking = true

-- What each outcome says of the two codes.
abbrev pub well_formed : Outcome → Channel → String → String → Bool
well_formed pass c failure reason = str_eq failure "" && str_eq reason ""
well_formed fail c failure reason = str_in failure (failure_codes_by_channel c) && str_eq reason ""
well_formed omitted c failure reason =
    is_productive c && (str_eq failure "" && str_in reason omitted_reason_codes)
well_formed abstain c failure reason = str_eq failure "" && str_in reason abstain_reason_codes

-- A result of a known Unit key, channel and outcome, whose codes fit its outcome.
pub record IsAcceptable (r : AssessmentResult) : Type 0 where
  pub key : is_unit_key (codes r.unit_key) ≡ true
  pub channel : Channel
  pub channel_known : parse_channel r.channel ≡ some channel
  pub outcome : Outcome
  pub outcome_known : parse_outcome r.outcome ≡ some outcome
  pub fits : well_formed outcome channel r.failure_code r.reason_code ≡ true

ap₃ :
    {A B C D : Type 0} (f : A → B → C → D) {a a' : A} {b b' : B} {c c' : C}
    → a ≡ a'
    → b ≡ b'
    → c ≡ c'
    → f a b c ≡ f a' b' c'
ap₃ f p q r = λ i. f (p i) (q i) (r i)

any_code : (c : Code) → any (λ d. code_index c == code_index d) violation_codes ≡ true
any_code Code.unit_key_invalid = refl
any_code _ = refl

reported-nil : (l : List Code) → (in_code_order code_index violation_codes l ≡ []) ↔ (l ≡ [])
reported-nil = in_code_order-nil_iff code_index violation_codes any_code

two_tests :
    (a b : Bool) (c d : Code) → (add_if (not a) c (add_if (not b) d []) ≡ []) ↔ ((a && b) ≡ true)
two_tests true true c d = (λ _. refl, λ _. refl)
two_tests true false c d = (λ h. absurd (cc), λ h. absurd (cc))
two_tests false b c d = (λ h. absurd (cc), λ h. absurd (cc))

three_tests :
    (p a b : Bool) (k c d : Code)
    → (add_if (not p) k (add_if (not a) c (add_if (not b) d [])) ≡ []) ↔ ((p && (a && b)) ≡ true)
three_tests true a b k c d = two_tests a b c d
three_tests false a b k c d = (λ h. absurd (cc), λ h. absurd (cc))

productive-text :
    (c : Channel) → str_in (channel_text c) productive_presence_channels ≡ is_productive c
productive-text reading = refl
productive-text _ = refl

outcome_violations-nil :
    (o : Outcome) (c : Channel) (r : AssessmentResult)
    → (outcome_violations o (some c) r ≡ []) ↔ (well_formed o c r.failure_code r.reason_code ≡ true)
unfolding outcome_violations
outcome_violations-nil pass c r =
    two_tests (str_eq r.failure_code "") (str_eq r.reason_code "") Code.failure_code_forbidden
      Code.reason_code_forbidden
outcome_violations-nil fail c r =
    two_tests (str_in r.failure_code (failure_codes_by_channel c)) (str_eq r.reason_code "")
      Code.fail_failure_code_invalid Code.reason_code_forbidden
outcome_violations-nil omitted c r = rw (productive-text c) (
    three_tests (is_productive c) (str_eq r.failure_code "")
      (str_in r.reason_code omitted_reason_codes) Code.omitted_channel_invalid
      Code.failure_code_forbidden Code.omitted_reason_code_invalid)
outcome_violations-nil abstain c r =
    two_tests (str_eq r.failure_code "") (str_in r.reason_code abstain_reason_codes)
      Code.failure_code_forbidden Code.abstain_reason_code_invalid

discovered_of-nil :
    (key : Bool) (channel : Option Channel) (outcome : Option Outcome) (r : AssessmentResult)
    → discovered_of key channel outcome r ≡ []
    → (key ≡ true)
      × (c : Channel) × (channel ≡ some c)
      × (o : Outcome) × (outcome ≡ some o)
      × (well_formed o c r.failure_code r.reason_code ≡ true)
unfolding discovered_of
discovered_of-nil true (some c) (some o) r h =
    (refl, c, refl, o, refl, (outcome_violations-nil o c r).0 h)
discovered_of-nil true (some c) none r h = absurd (cc)
discovered_of-nil true none outcome r h = absurd (cc)
discovered_of-nil false channel outcome r h = absurd (cc)

discovered_of-valid :
    (c : Channel) (o : Outcome) (r : AssessmentResult)
    → well_formed o c r.failure_code r.reason_code ≡ true
    → discovered_of true (some c) (some o) r ≡ []
unfolding discovered_of
discovered_of-valid c o r h = (outcome_violations-nil o c r).1 h

-- The validator reports nothing exactly for the results of a known Unit key, channel and outcome
-- whose failure and reason codes fit the outcome.
pub validate_t11_assessment_result-IsAcceptable :
    (r : AssessmentResult) → (validate_t11_assessment_result r ≡ []) ↔ IsAcceptable r
unfolding validate_t11_assessment_result
validate_t11_assessment_result-IsAcceptable r = (
  λ h.
      let (key, c, channel_known, o, outcome_known, fits) =
        discovered_of-nil _ _ _ r ((reported-nil _).0 h) in
      record {
        key = key;
        channel = c;
        channel_known = channel_known;
        outcome = o;
        outcome_known = outcome_known;
        fits = fits;
      },
  λ a. (reported-nil _).1 (
      ap₃ (λ k c o. discovered_of k c o r) a.key a.channel_known a.outcome_known
      ∙ discovered_of-valid a.channel a.outcome r a.fits),
)
