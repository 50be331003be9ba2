-- ===== src/Forge/Contexts.antt =====
-- `validate_context_bank`: the ordered violations of the five contexts of a Unit.
pub mod Distinct
pub mod Single
pub mod Accepted
pub mod Total
use vocab_system.Base.{
  ℕ, ◌+◌, ◌*◌, String, Bool, true, false, not, ◌||◌, Option, none, some, List, [], ◌∷◌, ◌++◌, ◌==◌,
  ltb, length, map, any, if◌then◌else◌,
}
use vocab_system.Base.Reports.{failed, in_code_order}
use vocab_system.Base.Text.{codes, is_blank}
use vocab_system.Contracts.Matching.{
  ctx_min_tokens, ctx_min_residual_tokens, ctx_max_overlap_numerator, ctx_max_overlap_denominator,
}
use vocab_system.Matching.Tokens.{Token, Unicode, tokens_eq, normalize_tokens}
use vocab_system.Matching.Units.{contains_unit}
use vocab_system.Models.Units.{VocabUnit}
use vocab_system.Forge.Codes.{
  ContextSlot, first, second, third, fourth, fifth, ContextCode, context_violation_codes,
  context_code_index, ctx_empty, ctx_unit_missing, ctx_too_short, contexts_not_distinct,
  ctx_source_copy,
}
use vocab_system.Forge.Overlap.{
  Counter, subtract_fixed_unit_tokens, total, source_copy_ratio, fixed_unit_tokens,
}

-- `copy_ratio is not None and copy_ratio > CTX_MAX_SOURCE_TOKEN_OVERLAP`, compared exactly.
abbrev pub is_copied : Option (ℕ × ℕ) → Bool
is_copied none = false
is_copied (some (shared, size)) =
    ltb (ctx_max_overlap_numerator * size) (ctx_max_overlap_denominator * shared)

abbrev pub is_too_short : List Token → Counter → Bool
is_too_short tokens residual =
    ltb (length tokens) ctx_min_tokens || ltb (total residual) ctx_min_residual_tokens

-- The contexts as CONTEXT_FIELDS numbers them.
abbrev pub numbered_contexts : VocabUnit → List (ContextSlot × String)
numbered_contexts unit =
    (first, unit.ctx_1)
    ∷ (second, unit.ctx_2)
    ∷ (third, unit.ctx_3)
    ∷ (fourth, unit.ctx_4)
    ∷ (fifth, unit.ctx_5)
    ∷ []

-- The size of the set of the given values.
unfoldable pub set_size : List (List Token) → ℕ
unfolding tokens_eq
set_size [] = 0
set_size (x ∷ xs) = let rest = set_size xs in if any (tokens_eq x) xs then rest else 1 + rest

-- What a pass of the loop adds: each condition with the code of its failure, and the normalized
-- context.
abbrev pub Findings : Type 0
Findings = List (Bool × ContextCode) × List (List Token)

abbrev pub join : Findings → Option Findings → Option Findings
join a none = none
join (tests, texts) (some (tests', texts')) = some (tests ++ tests', texts ++ texts')

module _ (u : Unicode) (unit : VocabUnit) (fixed : List Token) (source_residual : Counter) where
  -- A context that contains the Unit.
  unfoldable pub measured : ContextSlot → List Token → Findings
  unfolding total subtract_fixed_unit_tokens source_copy_ratio
  measured slot tokens =
      let residual = subtract_fixed_unit_tokens tokens fixed in
      (
        (not (is_too_short tokens residual), ctx_too_short slot)
            ∷ (not (is_copied (source_copy_ratio residual source_residual)), ctx_source_copy slot)
            ∷ [],
        tokens ∷ [],
      )

  unfoldable pub context_found : ContextSlot → List Token → Option Bool → Option Findings
  unfolding measured
  context_found slot tokens none = none
  context_found slot tokens (some false) = some ((false, ctx_unit_missing slot) ∷ [], tokens ∷ [])
  context_found slot tokens (some true) = some (measured slot tokens)

  -- One pass of the loop; `none` is a ValueError of the matcher.
  unfoldable pub context_step : ContextSlot → String → Option Findings
  unfolding context_found contains_unit normalize_tokens is_blank
  context_step slot context =
      if is_blank context
      then some ((false, ctx_empty slot) ∷ [], [])
      else context_found slot (normalize_tokens u (codes context))
          (contains_unit u (codes context) (codes unit.lemma) unit.unit_type)

  abbrev then_join : Option Findings → Option Findings → Option Findings
  then_join none rest = none
  then_join (some a) rest = join a rest

  unfoldable pub context_loop : List (ContextSlot × String) → Option Findings
  unfolding context_step
  context_loop [] = some ([], [])
  context_loop ((slot, context) ∷ rest) = then_join (context_step slot context) (context_loop rest)

abbrev pub is_distinct : List (List Token) → Bool
is_distinct texts = length texts == set_size texts

unfoldable pub bank_violations : Option Findings → Option (List ContextCode)
unfolding failed in_code_order set_size
bank_violations none = none
bank_violations (some (tests, texts)) = some (
    in_code_order context_code_index context_violation_codes
      (failed (tests ++ ((is_distinct texts, contexts_not_distinct) ∷ []))))

module _ (u : Unicode) (unit : VocabUnit) where
  unfoldable pub bank_of : Option (List Token) → Option (List ContextCode)
  unfolding context_loop bank_violations subtract_fixed_unit_tokens normalize_tokens
  bank_of none = none
  bank_of (some fixed) = bank_violations (
      context_loop u unit fixed
        (subtract_fixed_unit_tokens (normalize_tokens u (codes unit.source_sentence)) fixed)
        (numbered_contexts unit))

  -- `none` is a ValueError.
  unfoldable pub validate_context_bank : Option (List ContextCode)
  unfolding bank_of fixed_unit_tokens
  validate_context_bank = bank_of (fixed_unit_tokens u unit.lemma unit.unit_type)
