-- ===== src/Contracts/Assessments.antt =====
-- vocab/contracts.py, section 5B: the closed vocabularies of assessment results.
use vocab_system.Base.{String, List, [], ◌∷◌}
use vocab_system.Contracts.Channels.{Channel, reading, listening, writing, speaking}

-- ASSESSMENT_PRODUCTIVE_PRESENCE_CHANNELS
abbrev pub productive_presence_channels : List String
productive_presence_channels = "W" ∷ "S" ∷ []

-- ASSESSMENT_FAILURE_CODES_BY_CHANNEL
abbrev pub failure_codes_by_channel : Channel → List String
failure_codes_by_channel reading = "wrong_meaning" ∷ []
failure_codes_by_channel listening = "wrong_interpretation" ∷ []
failure_codes_by_channel writing = "semantic_misuse" ∷ "collocation_misuse" ∷ "form_misuse" ∷ []
failure_codes_by_channel speaking = "semantic_misuse" ∷ "collocation_misuse" ∷ "form_misuse" ∷ []

-- ASSESSMENT_OMITTED_REASON_CODES
abbrev pub omitted_reason_codes : List String
omitted_reason_codes = "target_absent" ∷ []

-- ASSESSMENT_ABSTAIN_REASON_CODES
abbrev pub abstain_reason_codes : List String
abstain_reason_codes =
    "off_topic" ∷ "refusal" ∷ "explicit_skip" ∷ "no_response" ∷ "insufficient_lexical_evidence"
    ∷ "response_unintelligible" ∷ "audio_unusable" ∷ "transcription_uncertain"
    ∷ "transcription_failed" ∷ "semantic_uncertainty" ∷ "reviewer_rejected" ∷ "invalid_artifact"
    ∷ "infrastructure_failure" ∷ []
