-- ===== src/Assessment.antt =====
-- vocab/validators.py: `validate_t11_assessment_result`.
pub mod Results
