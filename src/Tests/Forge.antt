-- ===== src/Tests/Forge.antt =====
-- A new Unit with its five contexts, before Forge's validators.
use vocab_system.Base.{ℕ, ◌<◌, ◌+◌, ◌-◌, ◌≤◌, ◌≡◌, refl, ◌↔◌, some, List, [], ◌∷◌}
use vocab_system.Base.Text.{codes, is_space}
use vocab_system.Contracts.Keys.{slug_rest, is_slug_char, key_rest, key_sense}
use vocab_system.Matching.Tokens.{Token, token_eq, tokens_eq}
use vocab_system.Models.Units.{VocabUnit}
use vocab_system.Forge.Codes.{
  ForgeCode, ContextCode, unit_key_mismatch, target_state_mismatch, ctx_too_short, first, second,
  contexts_not_distinct,
}
use vocab_system.Contracts.Channels.{writing}
use vocab_system.Forge.Units.{validate_forge_unit}
use vocab_system.Forge.Units.WellFormed.{IsForgeUnit}
use vocab_system.Forge.Units.Verdicts.{validate_forge_unit-IsForgeUnit, validate_forge_unit_total}
use vocab_system.Forge.Overlap.{
  Counter, source_copy_ratio, count_of, total, subtract_fixed_unit_tokens,
}
use vocab_system.Forge.Overlap.Counts.{occurrences, subtract_fixed_unit_tokens-occurrences}
use vocab_system.Forge.Overlap.Shared.{lacking, IsCopied, source_copy_ratio-bounds}
use vocab_system.Forge.Contexts.{validate_context_bank}
use vocab_system.Forge.Contexts.Accepted.{IsContextBank, validate_context_bank-IsContextBank}
use vocab_system.Forge.Contexts.Total.{validate_context_bank_total}
use vocab_system.Tests.Samples.{sample_unicode}

abbrev new_unit : VocabUnit
new_unit = record {
  unit_key = "bank::river";
  lemma = "bank";
  lemma_slug = "bank";
  sense_slug = "river";
  unit_type = "word";
  target_r = "1";
  target_l = "";
  target_w = "1";
  target_s = "";
  register = "neutral";
  definition_en = "the land beside a river";
  source_ref = "dictionary:cambridge:bank";
  source_sentence = "we sat on the bank of the river";
  ctx_1 = "a heron stood on the muddy bank all morning";
  ctx_2 = "their boat drifted slowly towards the far bank again";
  ctx_3 = "wild flowers cover this bank every year in spring";
  ctx_4 = "children climbed down one steep bank to swim";
  ctx_5 = "the flood washed away much of that bank";
  audio_1 = "";
  audio_2 = "";
  audio_3 = "";
  visual_cue = "";
  state_r = "NEW";
  state_l = "";
  state_w = "NEW";
  state_s = "";
  freq_band = "";
  created = "";
  graduated = "";
}

new_unit_valid : validate_forge_unit sample_unicode new_unit ≡ some []
unfolding validate_forge_unit is_slug_char is_space token_eq slug_rest key_rest key_sense
new_unit_valid = refl

-- A key of another sense, and a state without its target.
wrong_unit_reported :
    validate_forge_unit sample_unicode (record new_unit { unit_key = "bank::money"; target_w = "" })
    ≡ some (unit_key_mismatch ∷ target_state_mismatch writing ∷ [])
unfolding validate_forge_unit is_slug_char is_space token_eq slug_rest key_rest key_sense
wrong_unit_reported = refl

contexts_valid : validate_context_bank sample_unicode new_unit ≡ some []
unfolding validate_context_bank is_space token_eq tokens_eq
contexts_valid = refl

-- A context that is too short, twice.
short_contexts_reported :
    validate_context_bank sample_unicode
      (record new_unit { ctx_1 = "by the bank"; ctx_2 = "by the bank" })
    ≡ some (ctx_too_short first ∷ ctx_too_short second ∷ contexts_not_distinct ∷ [])
unfolding validate_context_bank is_space token_eq tokens_eq
short_contexts_reported = refl

validate_forge_unit-IsForgeUnit_example :
    (validate_forge_unit sample_unicode new_unit ≡ some []) ↔ IsForgeUnit sample_unicode new_unit
validate_forge_unit-IsForgeUnit_example = validate_forge_unit-IsForgeUnit sample_unicode new_unit

blank_lemma_total :
    (l : List ForgeCode) × (validate_forge_unit sample_unicode (record new_unit { lemma = "" })
      ≡ some l)
blank_lemma_total = validate_forge_unit_total sample_unicode (record new_unit { lemma = "" })

validate_context_bank-IsContextBank_example :
    (validate_context_bank sample_unicode new_unit ≡ some [])
    ↔ IsContextBank sample_unicode new_unit
validate_context_bank-IsContextBank_example =
    validate_context_bank-IsContextBank sample_unicode new_unit

validate_context_bank_total_example :
    (l : List ContextCode) × (validate_context_bank sample_unicode new_unit ≡ some l)
validate_context_bank_total_example =
    validate_context_bank_total sample_unicode new_unit new_unit_valid

abbrev sat : List Token
sat = codes "on" ∷ codes "the" ∷ codes "bank" ∷ codes "the" ∷ []

abbrev the_bank : List Token
the_bank = codes "the" ∷ codes "bank" ∷ []

subtract_fixed_unit_tokens-occurrences_example :
    count_of (subtract_fixed_unit_tokens sat the_bank) (codes "the")
    ≡ occurrences (codes "the") sat - occurrences (codes "the") the_bank
subtract_fixed_unit_tokens-occurrences_example =
    subtract_fixed_unit_tokens-occurrences sat the_bank (codes "the")

abbrev the_two : Counter
the_two = (codes "the", 2) ∷ []

source_copy_ratio-bounds_example :
    (0 < 2)
    × (◌≡◌ {A = ℕ} 2 (total the_two))
    × (1 ≤ 2)
    × (◌≡◌ {A = ℕ} (1 + lacking the_two ((codes "the", 1) ∷ [])) 2)
    × ((◌≡◌ {A = ℕ} 1 2) ↔ IsCopied the_two ((codes "the", 1) ∷ []))
unfolding source_copy_ratio
source_copy_ratio-bounds_example = source_copy_ratio-bounds the_two ((codes "the", 1) ∷ []) 1 2 refl
