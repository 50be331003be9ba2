-- ===== src/Assessment/Results.antt =====
-- `validate_t11_assessment_result`: the ordered violations of one assessment result.
pub mod Acceptance
use vocab_system.Base.{
  String, Bool, true, false, not, ◌&&◌, ◌||◌, Option, none, some, List, [], ◌∷◌, ◌++◌, ◌==◌, ℕ, any,
  if◌then◌else◌,
}
use vocab_system.Base.Reports.{in_code_order}
use vocab_system.Base.Text.{str_eq, str_in, codes}
use vocab_system.Contracts.Channels.{Channel, channel_text, parse_channel}
use vocab_system.Contracts.Keys.{is_unit_key}
use vocab_system.Contracts.Assessments.{
  productive_presence_channels, failure_codes_by_channel, omitted_reason_codes,
  abstain_reason_codes,
}

-- ASSESSMENT_OUTCOMES
pub data Outcome : Type 0 where
  pass fail omitted abstain : Outcome

-- `value in ASSESSMENT_OUTCOMES`, with the outcome that it names.
unfoldable pub parse_outcome : String → Option Outcome
parse_outcome s =
    if str_eq s "PASS"
    then some pass
    else if str_eq s "FAIL"
    then some fail
    else if str_eq s "OMITTED"
    then some omitted
    else if str_eq s "ABSTAIN"
    then some abstain
    else none

-- T11_ASSESSMENT_RESULT_VIOLATION_CODES, without the prefix `A_`.
pub data Code : Type 0 where
  unit_key_invalid channel_invalid outcome_invalid omitted_channel_invalid : Code
  failure_code_forbidden fail_failure_code_invalid reason_code_forbidden : Code
  omitted_reason_code_invalid abstain_reason_code_invalid : Code

abbrev pub violation_codes : List Code
violation_codes =
    unit_key_invalid ∷ channel_invalid ∷ outcome_invalid ∷ omitted_channel_invalid
    ∷ failure_code_forbidden ∷ fail_failure_code_invalid ∷ reason_code_forbidden
    ∷ omitted_reason_code_invalid ∷ abstain_reason_code_invalid ∷ []

abbrev pub code_index : Code → ℕ
code_index unit_key_invalid = 0
code_index channel_invalid = 1
code_index outcome_invalid = 2
code_index omitted_channel_invalid = 3
code_index failure_code_forbidden = 4
code_index fail_failure_code_invalid = 5
code_index reason_code_forbidden = 6
code_index omitted_reason_code_invalid = 7
code_index abstain_reason_code_invalid = 8

pub record AssessmentResult : Type 0 where
  pub unit_key : String
  pub channel : String
  pub outcome : String
  pub failure_code : String
  pub reason_code : String

-- `if test: discovered.add(code)`
abbrev pub add_if : Bool → Code → List Code → List Code
add_if true c l = c ∷ l
add_if false c l = l

-- The tests on the failure code and the reason code of a known outcome.
unfoldable pub outcome_violations : Outcome → Option Channel → AssessmentResult → List Code
outcome_violations pass channel r =
    add_if (not (str_eq r.failure_code "")) failure_code_forbidden
      (add_if (not (str_eq r.reason_code "")) reason_code_forbidden [])
outcome_violations fail none r = add_if (not (str_eq r.reason_code "")) reason_code_forbidden []
outcome_violations fail (some c) r =
    add_if (not (str_in r.failure_code (failure_codes_by_channel c))) fail_failure_code_invalid
      (add_if (not (str_eq r.reason_code "")) reason_code_forbidden [])
outcome_violations omitted none r =
    add_if (not (str_eq r.failure_code "")) failure_code_forbidden
      (add_if (not (str_in r.reason_code omitted_reason_codes)) omitted_reason_code_invalid [])
outcome_violations omitted (some c) r =
    add_if (not (str_in (channel_text c) productive_presence_channels)) omitted_channel_invalid (
      add_if (not (str_eq r.failure_code "")) failure_code_forbidden
        (add_if (not (str_in r.reason_code omitted_reason_codes)) omitted_reason_code_invalid []))
outcome_violations abstain channel r =
    add_if (not (str_eq r.failure_code "")) failure_code_forbidden
      (add_if (not (str_in r.reason_code abstain_reason_codes)) abstain_reason_code_invalid [])

abbrev channel_violation : Option Channel → List Code → List Code
channel_violation none l = channel_invalid ∷ l
channel_violation (some c) l = l

-- Without a known outcome no more is tested.
abbrev outcome_violation : Option Channel → Option Outcome → AssessmentResult → List Code
unfolding outcome_violations
outcome_violation channel none r = outcome_invalid ∷ []
outcome_violation channel (some o) r = outcome_violations o channel r

unfoldable pub discovered_of : Bool → Option Channel → Option Outcome → AssessmentResult → List Code
unfolding outcome_violations
discovered_of key_valid channel outcome r =
    add_if (not key_valid) unit_key_invalid
      (channel_violation channel (outcome_violation channel outcome r))

unfoldable pub validate_t11_assessment_result : AssessmentResult → List Code
unfolding is_unit_key parse_channel parse_outcome discovered_of in_code_order
validate_t11_assessment_result r = in_code_order code_index violation_codes (
    discovered_of (is_unit_key (codes r.unit_key)) (parse_channel r.channel)
      (parse_outcome r.outcome) r)
