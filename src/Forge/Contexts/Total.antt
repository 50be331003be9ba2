-- ===== src/Forge/Contexts/Total.antt =====
-- After Forge the context validator always returns.
use vocab_system.Base.{
  ◌≡◌, refl, sym, ap, ◌∙◌, inl, inr, String, Bool, true, false, Option, none, some, List, [], ◌∷◌,
  ◌++◌, Bool-cases,
}
use vocab_system.Base.Text.{str_eq, str_eq_iff, codes, is_blank}
use vocab_system.Matching.Tokens.{Token, Unicode, normalize_tokens}
use vocab_system.Matching.Units.{unit_match_spans, match_frame, frame_parts, contains_unit}
use vocab_system.Models.Units.{VocabUnit}
use vocab_system.Forge.Codes.{ContextSlot, ContextCode}
use vocab_system.Forge.Overlap.{Counter, subtract_fixed_unit_tokens, fixed_unit_tokens, join_parts}
use vocab_system.Forge.Units.{returned, has_valid_unit_shape, validate_forge_unit}
use vocab_system.Forge.Units.WellFormed.{has_valid_unit_shape-contains_unit}
use vocab_system.Forge.Units.Verdicts.{validate_forge_unit-IsForgeUnit}
use vocab_system.Forge.Contexts.{
  numbered_contexts, Findings, context_found, context_step, context_loop, bank_violations, bank_of,
  validate_context_bank,
}

-- A frame of a valid shape has its two parts.
fixed_unit_tokens-some :
    (u : Unicode) (lemma unit_type : String)
    → has_valid_unit_shape u lemma unit_type ≡ true
    → (fixed : List Token) × (fixed_unit_tokens u lemma unit_type ≡ some fixed)
unfolding fixed_unit_tokens has_valid_unit_shape unit_match_spans match_frame
fixed_unit_tokens-some u lemma unit_type shape = elim (Bool-cases (str_eq unit_type "frame")) [
  | inl frame ↦
      rw frame
        (parts (frame_parts u (codes lemma)) (rw ((str_eq_iff unit_type "frame").0 frame) at shape))
  | inr other ↦ rw other (normalize_tokens u (codes lemma), refl)
]
  where
    parts :
        (o : Option (List Token × List Token))
        → returned (match_frame (normalize_tokens u []) o) ≡ true
        → (fixed : List Token) × (join_parts o ≡ some fixed)
    parts none h = absurd (cc)
    parts (some (before, after)) h = (before ++ after, refl)

module _ (u : Unicode) (unit : VocabUnit)
    (shape : has_valid_unit_shape u unit.lemma unit.unit_type ≡ true) (fixed : List Token)
    (source : Counter) where
  context_found-some :
      (slot : ContextSlot) (tokens : List Token) (o : Option Bool)
      → returned o ≡ true
      → (f : Findings) × (context_found u unit fixed source slot tokens o ≡ some f)
  unfolding context_found
  context_found-some slot tokens none h = absurd (cc)
  context_found-some slot tokens (some false) h = (_, refl)
  context_found-some slot tokens (some true) h = (_, refl)

  context_step-some :
      (slot : ContextSlot) (context : String)
      → (f : Findings) × (context_step u unit fixed source slot context ≡ some f)
  unfolding context_step
  context_step-some slot context = elim (Bool-cases (is_blank context)) [
    | inl blank ↦ rw blank (_, refl)
    | inr filled ↦ rw filled (
        context_found-some slot (normalize_tokens u (codes context))
          (contains_unit u (codes context) (codes unit.lemma) unit.unit_type)
          (has_valid_unit_shape-contains_unit u (codes context) unit.lemma unit.unit_type ∙ shape))
  ]

  context_loop-some :
      (l : List (ContextSlot × String))
      → (f : Findings) × (context_loop u unit fixed source l ≡ some f)
  unfolding context_loop
  context_loop-some [] = (_, refl)
  context_loop-some ((slot, context) ∷ l) =
      let (f, stepped) = context_step-some slot context in
      let (g, looped) = context_loop-some l in rw (stepped, looped) (_, refl)

-- For a Unit without Forge violations the context validator returns: no ValueError of the matcher
-- escapes it.
pub validate_context_bank_total :
    (u : Unicode) (unit : VocabUnit)
    → validate_forge_unit u unit ≡ some []
    → (l : List ContextCode) × (validate_context_bank u unit ≡ some l)
unfolding validate_context_bank bank_of bank_violations
validate_context_bank_total u unit valid =
    let w = (validate_forge_unit-IsForgeUnit u unit).0 valid in
    let shape =
      sym (
        has_valid_unit_shape-contains_unit u (codes unit.source_sentence) unit.lemma unit.unit_type)
      ∙ ap returned w.contains in
    let (fixed, known) = fixed_unit_tokens-some u unit.lemma unit.unit_type shape in
    let (f, looped) =
      context_loop-some u unit shape fixed
        (subtract_fixed_unit_tokens (normalize_tokens u (codes unit.source_sentence)) fixed)
        (numbered_contexts unit) in
    (_, ap (bank_of u unit) known ∙ ap bank_violations looped)
