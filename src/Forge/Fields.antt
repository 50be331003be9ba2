-- ===== src/Forge/Fields.antt =====
-- The fields of a Unit by channel and by context, as `getattr` reads them, and the closed
-- vocabularies of a new Unit.
use vocab_system.Base.{String, List, [], ◌∷◌}
use vocab_system.Contracts.Channels.{Channel, reading, listening, writing, speaking}
use vocab_system.Models.Units.{VocabUnit}

-- TARGET_FIELD_BY_CHANNEL
abbrev pub target_of : VocabUnit → Channel → String
target_of u reading = u.target_r
target_of u listening = u.target_l
target_of u writing = u.target_w
target_of u speaking = u.target_s

-- STATE_FIELD_BY_CHANNEL
abbrev pub state_of : VocabUnit → Channel → String
state_of u reading = u.state_r
state_of u listening = u.state_l
state_of u writing = u.state_w
state_of u speaking = u.state_s

-- CONTEXT_FIELDS
abbrev pub contexts_of : VocabUnit → List String
contexts_of u = u.ctx_1 ∷ u.ctx_2 ∷ u.ctx_3 ∷ u.ctx_4 ∷ u.ctx_5 ∷ []

-- TARGET_FLAG_VALUES
abbrev pub target_flag_values : List String
target_flag_values = "" ∷ "1" ∷ []

-- REGISTER_VALUES
abbrev pub register_values : List String
register_values = "academic" ∷ "neutral" ∷ "conversational" ∷ "technical" ∷ []
