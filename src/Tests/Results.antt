-- ===== src/Tests/Results.antt =====
-- Sample assessment results.
use vocab_system.Base.{◌∷◌, refl, ◌≡◌, ◌↔◌, []}
use vocab_system.Assessment.Results.{AssessmentResult, validate_t11_assessment_result}
use vocab_system.Assessment.Results.Acceptance.{
  IsAcceptable, validate_t11_assessment_result-IsAcceptable,
}
use vocab_system.Leech.{
  Config, sections, mapping, whole, verify_leech_config, action_suspend, threshold_violations,
  action_violations, TagsOnly, verify_leech_config-TagsOnly,
}
use vocab_system.Base.Int.{pos}

-- A spoken answer that leaves the target out.
abbrev omitted_answer : AssessmentResult
omitted_answer = record {
  unit_key = "bank::river";
  channel = "S";
  outcome = "OMITTED";
  failure_code = "";
  reason_code = "target_absent";
}

validate_t11_assessment_result-IsAcceptable_example :
    (validate_t11_assessment_result omitted_answer ≡ []) ↔ IsAcceptable omitted_answer
validate_t11_assessment_result-IsAcceptable_example =
    validate_t11_assessment_result-IsAcceptable omitted_answer

-- The options that suspend a leech.
abbrev suspending : Config
suspending =
    sections (
      ("lapse", mapping (("leechFails", whole (pos 4)) ∷ ("leechAction", whole (pos 0)) ∷ [])) ∷ [])

suspending_found : verify_leech_config suspending ≡ action_suspend ∷ []
unfolding verify_leech_config threshold_violations action_violations
suspending_found = refl

verify_leech_config-TagsOnly_example : (verify_leech_config suspending ≡ []) ↔ TagsOnly suspending
verify_leech_config-TagsOnly_example = verify_leech_config-TagsOnly suspending
