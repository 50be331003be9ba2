-- ===== src/Forge/Contexts/Distinct.antt =====
-- Pairwise distinct token sequences.
use vocab_system.Base.{
  ◌≤◌, ◌≡◌, refl, sym, ◌∙◌, ◌↔◌, inl, inr, true, ◌||◌, List, [], ◌∷◌, arith, length, any, In,
  Bool-cases,
}
use vocab_system.Matching.Tokens.{Token, tokens_eq, tokens_eq_iff}
use vocab_system.Forge.Contexts.{set_size, is_distinct}

-- No value comes twice.
abbrev pub ArePairwiseDistinct : List (List Token) → Type 0
ArePairwiseDistinct [] = Unit
ArePairwiseDistinct (x ∷ xs) = (¬ In x xs) × ArePairwiseDistinct xs

any_equal : (x : List Token) (l : List (List Token)) → (any (tokens_eq x) l ≡ true) ↔ In x l
any_equal x [] = (λ h. absurd (cc), λ m. absurd m)
any_equal x (y ∷ l) = (
  λ h. elim (Bool-cases (tokens_eq x y)) [
    | inl same ↦ inl ((tokens_eq_iff x y).0 same)
    | inr other ↦ inr ((any_equal x l).0 (rw (other, ◌||◌) at h))
  ],
  λ m. elim m [
    | inl same ↦ ground (arith, (tokens_eq_iff x y).1 same)
    | inr later ↦ ground (arith, (any_equal x l).1 later)
  ],
)

set_size-length : (l : List (List Token)) → set_size l ≤ length l
unfolding set_size
set_size-length [] = omega arith
set_size-length (x ∷ l) = ground (arith, set_size-length l)

-- The set is as large as the list exactly where no value comes twice.
pub is_distinct-ArePairwiseDistinct :
    (l : List (List Token)) → (is_distinct l ≡ true) ↔ ArePairwiseDistinct l
unfolding set_size
is_distinct-ArePairwiseDistinct [] = (λ _. tt, λ _. refl)
is_distinct-ArePairwiseDistinct (x ∷ l) = elim (Bool-cases (any (tokens_eq x) l)) [
  | inl again ↦ (
    λ h. absurd (ground (arith, again, set_size-length l)),
    λ (fresh, _). absurd (fresh ((any_equal x l).0 again)),
  )
  | inr fresh ↦ (
    λ h. (
      λ m. absurd (cc (sym fresh ∙ (any_equal x l).1 m)),
      (is_distinct-ArePairwiseDistinct l).0 (ground (arith, fresh)),
    ),
    λ (_, rest). ground (arith, fresh, (is_distinct-ArePairwiseDistinct l).1 rest),
  )
]
