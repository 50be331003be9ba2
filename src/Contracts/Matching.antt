-- ===== src/Contracts/Matching.antt =====
-- vocab/contracts.py, section 3: the bounds of Unit matching and of context banks.
use vocab_system.Base.{ℕ, String, List, [], ◌∷◌}

-- UNIT_TYPE_VALUES
abbrev pub unit_type_values : List String
unit_type_values = "word" ∷ "chunk" ∷ "frame" ∷ []

abbrev pub chunk_max_inserted_tokens : ℕ
chunk_max_inserted_tokens = 2

abbrev pub frame_min_fixed_tokens : ℕ
frame_min_fixed_tokens = 2

abbrev pub frame_slot_min_tokens : ℕ
frame_slot_min_tokens = 1

abbrev pub frame_slot_max_tokens : ℕ
frame_slot_max_tokens = 6

abbrev pub ctx_min_tokens : ℕ
ctx_min_tokens = 8

abbrev pub ctx_min_residual_tokens : ℕ
ctx_min_residual_tokens = 6

-- CTX_MAX_SOURCE_TOKEN_OVERLAP, 0.60, as a fraction.
abbrev pub ctx_max_overlap_numerator : ℕ
ctx_max_overlap_numerator = 3

abbrev pub ctx_max_overlap_denominator : ℕ
ctx_max_overlap_denominator = 5
