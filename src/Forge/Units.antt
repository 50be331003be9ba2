-- ===== src/Forge/Units.antt =====
-- `validate_forge_unit`: the ordered violations of a new Unit.
pub mod WellFormed
pub mod Verdicts
use vocab_system.Base.{
  implies, agree, String, Bool, true, false, not, ◌&&◌, ◌||◌, Option, none, some, List, [], ◌∷◌,
  ◌++◌, map, any, all, if◌then◌else◌,
}
use vocab_system.Base.Reports.{failed, in_code_order}
use vocab_system.Base.Text.{str_eq, str_in, codes, is_blank}
use vocab_system.Contracts.Channels.{Channel, channels}
use vocab_system.Contracts.States.{parse_state}
use vocab_system.Contracts.Keys.{is_slug, is_unit_key, proposed_unit_key}
use vocab_system.Contracts.Matching.{unit_type_values}
use vocab_system.Matching.Tokens.{Unicode, token_eq}
use vocab_system.Matching.Units.{unit_match_spans, contains_unit}
use vocab_system.Models.Units.{VocabUnit, is_state}
use vocab_system.Forge.Codes.{
  ForgeCode, lemma_slug_invalid, sense_slug_invalid, unit_key_invalid, unit_key_mismatch,
  lemma_empty, unit_type_invalid, unit_shape_invalid, target_invalid, no_target_enabled,
  state_invalid, target_state_mismatch, register_invalid, definition_empty, source_ref_invalid,
  source_sentence_empty, source_unit_missing, forge_violation_codes, forge_code_index,
}
use vocab_system.Forge.References.{is_source_ref}
use vocab_system.Forge.Fields.{target_of, state_of, target_flag_values, register_values}

-- No ValueError was raised.
abbrev pub returned : {A : Type 0} → Option A → Bool
returned none = false
returned (some a) = true

-- `_is_nonempty_text`
abbrev pub is_nonempty_text : String → Bool
is_nonempty_text s = not (is_blank s)

abbrev pub target_valid : VocabUnit → Channel → Bool
target_valid unit c = str_in (target_of unit c) target_flag_values

abbrev pub state_valid : VocabUnit → Channel → Bool
state_valid unit c = str_eq (state_of unit c) "" || is_state (state_of unit c)

-- A target is enabled exactly where a state is present.
abbrev pub target_state_agree : VocabUnit → Channel → Bool
target_state_agree unit c =
    implies (target_valid unit c && state_valid unit c)
      (agree (str_eq (target_of unit c) "1") (not (str_eq (state_of unit c) "")))

module _ (u : Unicode) where
  -- `_has_valid_unit_shape`
  unfoldable pub has_valid_unit_shape : String → String → Bool
  unfolding unit_match_spans
  has_valid_unit_shape lemma unit_type = returned (unit_match_spans u [] (codes lemma) unit_type)

  module _ (unit : VocabUnit) where
    abbrev pub lemma_and_type : Bool
    lemma_and_type = is_nonempty_text unit.lemma && str_in unit.unit_type unit_type_values

    abbrev pub unit_shape_valid : Bool
    unit_shape_valid = lemma_and_type && has_valid_unit_shape unit.lemma unit.unit_type

    -- Each condition with the code that its failure adds; `contained` is what contains_unit says
    -- of the source sentence.
    unfoldable pub forge_tests : Bool → List (Bool × ForgeCode)
    unfolding is_slug is_unit_key proposed_unit_key token_eq is_source_ref has_valid_unit_shape
        is_blank parse_state
    forge_tests contained =
        (is_slug (codes unit.lemma_slug), lemma_slug_invalid)
        ∷ (is_slug (codes unit.sense_slug), sense_slug_invalid)
        ∷ (is_unit_key (codes unit.unit_key), unit_key_invalid)
        ∷ (
          token_eq (codes unit.unit_key)
              (proposed_unit_key (codes unit.lemma_slug) (codes unit.sense_slug)),
          unit_key_mismatch,
        )
        ∷ (is_nonempty_text unit.lemma, lemma_empty)
        ∷ (str_in unit.unit_type unit_type_values, unit_type_invalid)
        ∷ (implies lemma_and_type unit_shape_valid, unit_shape_invalid)
        ∷ (map (λ c. (target_valid unit c, target_invalid c)) channels
            ++ ((
              implies (all (target_valid unit) channels)
                  (any (λ c. str_eq (target_of unit c) "1") channels),
              no_target_enabled,
            )
                ∷ (map (λ c. (state_valid unit c, state_invalid c)) channels
                    ++ (map (λ c. (target_state_agree unit c, target_state_mismatch c)) channels
                        ++ ((str_in unit.register register_values, register_invalid)
                            ∷ (is_nonempty_text unit.definition_en, definition_empty)
                            ∷ (is_source_ref (codes unit.source_ref), source_ref_invalid)
                            ∷ (is_nonempty_text unit.source_sentence, source_sentence_empty)
                            ∷ (contained, source_unit_missing)
                            ∷ [])))))

    -- The source sentence is searched only for a Unit of a valid shape.
    unfoldable pub source_contains : Option Bool
    unfolding contains_unit has_valid_unit_shape is_blank
    source_contains =
        if is_nonempty_text unit.source_sentence && unit_shape_valid
        then contains_unit u (codes unit.source_sentence) (codes unit.lemma) unit.unit_type
        else some true

    unfoldable pub forge_violations : Option Bool → Option (List ForgeCode)
    unfolding forge_tests failed in_code_order
    forge_violations none = none
    forge_violations (some contained) =
        some (in_code_order forge_code_index forge_violation_codes (failed (forge_tests contained)))

    -- `none` is a ValueError of the matcher.
    unfoldable pub validate_forge_unit : Option (List ForgeCode)
    unfolding source_contains forge_violations
    validate_forge_unit = forge_violations source_contains
