-- ===== src/Forge/Contexts/Accepted.antt =====
-- Which context banks are accepted.
use vocab_system.Base.{
  ◌≡◌, ap, ◌∙◌, subst, ◌↔◌, inl, inr, Bool, some, List, [], ◌∷◌, ◌++◌, map, All, Option-cases,
  some_inj,
}
use vocab_system.Base.Reports.{AllHold, AllHold-append, reported_iff}
use vocab_system.Base.Text.{codes}
use vocab_system.Matching.Tokens.{Token, Unicode, normalize_tokens}
use vocab_system.Models.Units.{VocabUnit}
use vocab_system.Forge.Codes.{
  ContextCode, context_violation_codes, context_code_index, context_code_listed,
  contexts_not_distinct,
}
use vocab_system.Forge.Fields.{contexts_of}
use vocab_system.Forge.Overlap.{Counter, subtract_fixed_unit_tokens, fixed_unit_tokens}
use vocab_system.Forge.Contexts.{
  numbered_contexts, context_loop, is_distinct, bank_violations, bank_of, validate_context_bank,
}
use vocab_system.Forge.Contexts.Distinct.{ArePairwiseDistinct, is_distinct-ArePairwiseDistinct}
use vocab_system.Forge.Contexts.Single.{IsContext, AreContexts-loop, loop-AreContexts}

-- A bank of five contexts of the Unit, whose token sequences are pairwise distinct.
pub record IsContextBank (u : Unicode) (unit : VocabUnit) : Type 0 where
  pub fixed : List Token
  pub fixed_known : fixed_unit_tokens u unit.lemma unit.unit_type ≡ some fixed
  pub contexts :
      All
        (IsContext u unit fixed
          (subtract_fixed_unit_tokens (normalize_tokens u (codes unit.source_sentence)) fixed))
        (contexts_of unit)
  pub distinct : ArePairwiseDistinct (map (λ c. normalize_tokens u (codes c)) (contexts_of unit))

bank_reported :
    (tests : List (Bool × ContextCode)) (texts : List (List Token))
    → (bank_violations (some (tests, texts)) ≡ some [])
      ↔ AllHold (tests ++ ((is_distinct texts, contexts_not_distinct) ∷ []))
unfolding bank_violations
bank_reported tests texts =
    let reported =
      reported_iff context_code_index context_violation_codes context_code_listed
        (tests ++ ((is_distinct texts, contexts_not_distinct) ∷ [])) in
    (λ h. reported.0 (some_inj h), λ h. ap some (reported.1 h))

bank_violations-nil :
    (tests : List (Bool × ContextCode)) (texts : List (List Token))
    → (bank_violations (some (tests, texts)) ≡ some [])
      ↔ (AllHold tests × ArePairwiseDistinct texts)
bank_violations-nil tests texts = (
  λ h.
      let (found, (distinct, _)) = (AllHold-append tests _).0 ((bank_reported tests texts).0 h) in
      (found, (is_distinct-ArePairwiseDistinct texts).0 distinct),
  λ (found, distinct). (bank_reported tests texts).1 (
      (AllHold-append tests _).1 (found, ((is_distinct-ArePairwiseDistinct texts).1 distinct, tt))),
)

module _ (u : Unicode) (unit : VocabUnit) where
  abbrev source_residual : List Token → Counter
  source_residual fixed =
      subtract_fixed_unit_tokens (normalize_tokens u (codes unit.source_sentence)) fixed

  bank_of-IsContextBank :
      (fixed : List Token)
      → fixed_unit_tokens u unit.lemma unit.unit_type ≡ some fixed
      → bank_of u unit (some fixed) ≡ some []
      → IsContextBank u unit
  unfolding bank_of bank_violations
  bank_of-IsContextBank fixed known h =
      elim (Option-cases
        (context_loop u unit fixed (source_residual fixed) (numbered_contexts unit))) [
          | inl raised ↦ absurd (cc (rw raised at h))
          | inr ((tests, texts), looped) ↦
              let (hold, distinct) = (bank_violations-nil tests texts).0 (rw looped at h) in
              let (contexts, same) =
                AreContexts-loop u unit fixed (source_residual fixed) (numbered_contexts unit) tests
                  texts looped hold in
              record {
                fixed = fixed;
                fixed_known = known;
                contexts = contexts;
                distinct = subst ArePairwiseDistinct same distinct;
              }
        ]

  -- A context bank has no violation exactly where it has five contexts of the Unit that are
  -- pairwise distinct.
  pub validate_context_bank-IsContextBank :
      (validate_context_bank u unit ≡ some []) ↔ IsContextBank u unit
  unfolding validate_context_bank bank_of
  validate_context_bank-IsContextBank = (
    λ h. elim (Option-cases (fixed_unit_tokens u unit.lemma unit.unit_type)) [
      | inl raised ↦ absurd (cc (rw raised at h))
      | inr (fixed, known) ↦ bank_of-IsContextBank fixed known (rw known at h)
    ],
    λ b.
        let (tests, looped, hold) =
          loop-AreContexts u unit b.fixed (source_residual b.fixed) (numbered_contexts unit)
            b.contexts in
        ap (bank_of u unit) b.fixed_known
        ∙ ap bank_violations looped
        ∙ (bank_violations-nil tests (map (λ c. normalize_tokens u (codes c)) (contexts_of unit))).1
            (hold, b.distinct),
  )
