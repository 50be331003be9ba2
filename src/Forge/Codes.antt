-- ===== src/Forge/Codes.antt =====
-- vocab/contracts.py, section 3: the violation codes of a Unit, in their frozen order.
use vocab_system.Base.{ℕ, ◌+◌, ◌≡◌, refl, true, ◌==◌, List, [], ◌∷◌, ◌++◌, any}
use vocab_system.Contracts.Channels.{Channel, reading, listening, writing, speaking, channel_index}

-- The codes, without the prefix `F_`.
pub data ForgeCode : Type 0 where
  lemma_slug_invalid sense_slug_invalid unit_key_invalid unit_key_mismatch : ForgeCode
  lemma_empty unit_type_invalid unit_shape_invalid : ForgeCode
  target_invalid : Channel → ForgeCode
  no_target_enabled : ForgeCode
  state_invalid : Channel → ForgeCode
  target_state_mismatch : Channel → ForgeCode
  register_invalid definition_empty source_ref_invalid : ForgeCode
  source_sentence_empty source_unit_missing : ForgeCode

-- FORGE_VIOLATION_CODES
abbrev pub forge_violation_codes : List ForgeCode
forge_violation_codes =
    lemma_slug_invalid
    ∷ sense_slug_invalid
    ∷ unit_key_invalid
    ∷ unit_key_mismatch
    ∷ lemma_empty
    ∷ unit_type_invalid
    ∷ unit_shape_invalid
    ∷ target_invalid reading
    ∷ target_invalid listening
    ∷ target_invalid writing
    ∷ target_invalid speaking
    ∷ no_target_enabled
    ∷ state_invalid reading
    ∷ state_invalid listening
    ∷ state_invalid writing
    ∷ state_invalid speaking
    ∷ target_state_mismatch reading
    ∷ target_state_mismatch listening
    ∷ target_state_mismatch writing
    ∷ target_state_mismatch speaking
    ∷ register_invalid
    ∷ definition_empty
    ∷ source_ref_invalid
    ∷ source_sentence_empty
    ∷ source_unit_missing
    ∷ []

-- The place of a code in that order.
abbrev pub forge_code_index : ForgeCode → ℕ
forge_code_index lemma_slug_invalid = 0
forge_code_index sense_slug_invalid = 1
forge_code_index unit_key_invalid = 2
forge_code_index unit_key_mismatch = 3
forge_code_index lemma_empty = 4
forge_code_index unit_type_invalid = 5
forge_code_index unit_shape_invalid = 6
forge_code_index (target_invalid c) = 7 + channel_index c
forge_code_index no_target_enabled = 11
forge_code_index (state_invalid c) = 12 + channel_index c
forge_code_index (target_state_mismatch c) = 16 + channel_index c
forge_code_index register_invalid = 20
forge_code_index definition_empty = 21
forge_code_index source_ref_invalid = 22
forge_code_index source_sentence_empty = 23
forge_code_index source_unit_missing = 24

pub forge_code_listed :
    (d : ForgeCode)
    → any (λ c. forge_code_index d == forge_code_index c) forge_violation_codes ≡ true
forge_code_listed (target_invalid reading) = refl
forge_code_listed (target_invalid listening) = refl
forge_code_listed (target_invalid writing) = refl
forge_code_listed (target_invalid speaking) = refl
forge_code_listed (state_invalid reading) = refl
forge_code_listed (state_invalid listening) = refl
forge_code_listed (state_invalid writing) = refl
forge_code_listed (state_invalid speaking) = refl
forge_code_listed (target_state_mismatch reading) = refl
forge_code_listed (target_state_mismatch listening) = refl
forge_code_listed (target_state_mismatch writing) = refl
forge_code_listed (target_state_mismatch speaking) = refl
forge_code_listed _ = refl

-- The five contexts.
pub data ContextSlot : Type 0 where
  first second third fourth fifth : ContextSlot

abbrev pub slot_index : ContextSlot → ℕ
slot_index first = 0
slot_index second = 1
slot_index third = 2
slot_index fourth = 3
slot_index fifth = 4

-- The codes of a context bank, without the prefix `C_`.
pub data ContextCode : Type 0 where
  ctx_empty ctx_unit_missing ctx_too_short : ContextSlot → ContextCode
  contexts_not_distinct : ContextCode
  ctx_source_copy : ContextSlot → ContextCode

abbrev of_each : (ContextSlot → ContextCode) → List ContextCode
of_each code = code first ∷ code second ∷ code third ∷ code fourth ∷ code fifth ∷ []

-- CONTEXT_VIOLATION_CODES
abbrev pub context_violation_codes : List ContextCode
context_violation_codes =
    of_each ctx_empty
    ++ (of_each ctx_unit_missing
        ++ (of_each ctx_too_short ++ (contexts_not_distinct ∷ of_each ctx_source_copy)))

abbrev pub context_code_index : ContextCode → ℕ
context_code_index (ctx_empty s) = slot_index s
context_code_index (ctx_unit_missing s) = 5 + slot_index s
context_code_index (ctx_too_short s) = 10 + slot_index s
context_code_index contexts_not_distinct = 15
context_code_index (ctx_source_copy s) = 16 + slot_index s

pub context_code_listed :
    (d : ContextCode)
    → any (λ c. context_code_index d == context_code_index c) context_violation_codes ≡ true
context_code_listed contexts_not_distinct = refl
context_code_listed (ctx_empty first) = refl
context_code_listed (ctx_empty second) = refl
context_code_listed (ctx_empty third) = refl
context_code_listed (ctx_empty fourth) = refl
context_code_listed (ctx_empty fifth) = refl
context_code_listed (ctx_unit_missing first) = refl
context_code_listed (ctx_unit_missing second) = refl
context_code_listed (ctx_unit_missing third) = refl
context_code_listed (ctx_unit_missing fourth) = refl
context_code_listed (ctx_unit_missing fifth) = refl
context_code_listed (ctx_too_short first) = refl
context_code_listed (ctx_too_short second) = refl
context_code_listed (ctx_too_short third) = refl
context_code_listed (ctx_too_short fourth) = refl
context_code_listed (ctx_too_short fifth) = refl
context_code_listed (ctx_source_copy first) = refl
context_code_listed (ctx_source_copy second) = refl
context_code_listed (ctx_source_copy third) = refl
context_code_listed (ctx_source_copy fourth) = refl
context_code_listed (ctx_source_copy fifth) = refl
