-- ===== src/Forge/Contexts/Single.antt =====
-- What the loop says of each context.
use vocab_system.Base.{
  ℕ, ◌*◌, ◌≤◌, ◌≡◌, refl, sym, ap, ◌∙◌, subst, ◌↔◌, inl, inr, String, Bool, true, false, not,
  Option, none, some, List, [], ◌∷◌, ◌++◌, arith, length, map, All, Bool-cases, Option-cases,
  some_inj,
}
use vocab_system.Base.Reports.{AllHold, AllHold-append}
use vocab_system.Base.Text.{codes, is_blank}
use vocab_system.Matching.Tokens.{Token, Unicode, normalize_tokens}
use vocab_system.Matching.Units.{contains_unit}
use vocab_system.Models.Units.{VocabUnit}
use vocab_system.Forge.Codes.{ContextSlot, ContextCode}
use vocab_system.Forge.Overlap.{Counter, subtract_fixed_unit_tokens, total, source_copy_ratio}
use vocab_system.Forge.Contexts.{
  is_copied, is_too_short, measured, context_found, context_step, context_loop,
}

copied_iff :
    (o : Option (ℕ × ℕ))
    → (not (is_copied o) ≡ true)
      ↔ ((shared size : ℕ) → o ≡ some (shared, size) → 5 * shared ≤ 3 * size)
copied_iff none = (λ _ shared size e. absurd (cc), λ _. refl)
copied_iff (some (n, m)) = (
  λ h shared size e. ground (arith, ap (λ p. p.0) (some_inj e), ap (λ p. p.1) (some_inj e)),
  λ h. ground (arith, h n m refl),
)

short_iff :
    (tokens : List Token) (residual : Counter)
    → (not (is_too_short tokens residual) ≡ true) ↔ ((8 ≤ length tokens) × (6 ≤ total residual))
short_iff tokens residual = (λ h. (ground arith, ground arith), λ (a, b). ground arith)

module _ (u : Unicode) (unit : VocabUnit) (fixed : List Token) (source : Counter) where
  -- A context contains the Unit, is long enough with and without it, and shares at most three
  -- fifths of its other tokens with the source sentence.
  pub record IsContext (context : String) : Type 0 where
    pub filled : is_blank context ≡ false
    pub contains : contains_unit u (codes context) (codes unit.lemma) unit.unit_type ≡ some true
    pub long : 8 ≤ length (normalize_tokens u (codes context))
    pub own : 6 ≤ total (subtract_fixed_unit_tokens (normalize_tokens u (codes context)) fixed)
    pub fresh :
        (shared size : ℕ)
        → source_copy_ratio
            (subtract_fixed_unit_tokens (normalize_tokens u (codes context)) fixed)
            source
          ≡ some (shared, size)
        → 5 * shared ≤ 3 * size

  -- What a pass says of the context, from what contains_unit said.
  IsContext-found :
      (slot : ContextSlot) (context : String) (o : Option Bool) (tests : List (Bool × ContextCode))
      (texts : List (List Token))
      → is_blank context ≡ false
      → contains_unit u (codes context) (codes unit.lemma) unit.unit_type ≡ o
      → context_found u unit fixed source slot (normalize_tokens u (codes context)) o
        ≡ some (tests, texts)
      → AllHold tests
      → IsContext context × (texts ≡ normalize_tokens u (codes context) ∷ [])
  unfolding context_found measured
  IsContext-found slot context none tests texts filled contains e h = absurd (cc)
  IsContext-found slot context (some false) tests texts filled contains e h =
      absurd (cc (subst AllHold (sym (ap (λ p. p.0) (some_inj e))) h).0)
  IsContext-found slot context (some true) tests texts filled contains e h =
      let (short, (copied, _)) = subst AllHold (sym (ap (λ p. p.0) (some_inj e))) h in
      (
        record {
          filled = filled;
          contains = contains;
          long = ((short_iff _ _).0 short).0;
          own = ((short_iff _ _).0 short).1;
          fresh = (copied_iff _).0 copied;
        },
        sym (ap (λ p. p.1) (some_inj e)),
      )

  IsContext-step :
      (slot : ContextSlot) (context : String) (tests : List (Bool × ContextCode))
      (texts : List (List Token))
      → context_step u unit fixed source slot context ≡ some (tests, texts)
      → AllHold tests
      → IsContext context × (texts ≡ normalize_tokens u (codes context) ∷ [])
  unfolding context_step
  IsContext-step slot context tests texts e h = elim (Bool-cases (is_blank context)) [
    | inl blank ↦ absurd (cc (subst AllHold (sym (ap (λ p. p.0) (some_inj (rw blank at e)))) h).0)
    | inr filled ↦ IsContext-found slot context _ tests texts filled refl (rw filled at e) h
  ]

  step-IsContext :
      (slot : ContextSlot) (context : String)
      → IsContext context
      → (tests : List (Bool × ContextCode)) × (context_step u unit fixed source slot context
          ≡ some (tests, normalize_tokens u (codes context) ∷ []))
        × AllHold tests
  unfolding context_step context_found measured
  step-IsContext slot context c =
      rw (c.filled, c.contains)
        (_, refl, ((short_iff _ _).1 (c.long, c.own), ((copied_iff _).1 c.fresh, tt)))

  -- The contexts of the loop, in their order.
  abbrev pub AreContexts : List (ContextSlot × String) → Type 0
  AreContexts l = All (λ p. IsContext (p.1)) l

  abbrev pub texts_of : List (ContextSlot × String) → List (List Token)
  texts_of l = map (λ p. normalize_tokens u (codes (p.1))) l

  pub AreContexts-loop :
      (l : List (ContextSlot × String)) (tests : List (Bool × ContextCode))
      (texts : List (List Token))
      → context_loop u unit fixed source l ≡ some (tests, texts)
      → AllHold tests
      → AreContexts l × (texts ≡ texts_of l)
  unfolding context_loop
  AreContexts-loop [] tests texts e h = (tt, sym (ap (λ p. p.1) (some_inj e)))
  AreContexts-loop ((slot, context) ∷ l) tests texts e h =
      elim (Option-cases (context_step u unit fixed source slot context)) [
        | inl raised ↦ absurd (cc (rw raised at e))
        | inr ((tests₁, texts₁), stepped) ↦
            elim (Option-cases (context_loop u unit fixed source l)) [
              | inl raised ↦ absurd (cc (rw (stepped, raised) at e))
              | inr ((tests₂, texts₂), looped) ↦
                  let same = some_inj (rw (stepped, looped) at e) in
                  let (h₁, h₂) =
                    (AllHold-append tests₁ tests₂).0 (subst AllHold (sym (ap (λ p. p.0) same)) h) in
                  let (here, text) = IsContext-step slot context tests₁ texts₁ stepped h₁ in
                  let (there, rest) = AreContexts-loop l tests₂ texts₂ looped h₂ in
                  (
                    (here, there),
                    sym (ap (λ p. p.1) same)
                        ∙ ap (λ x. x ++ texts₂) text
                        ∙ ap (λ x. normalize_tokens u (codes context) ∷ x) rest,
                  )
            ]
      ]

  pub loop-AreContexts :
      (l : List (ContextSlot × String))
      → AreContexts l
      → (tests : List (Bool × ContextCode)) × (context_loop u unit fixed source l
          ≡ some (tests, texts_of l))
        × AllHold tests
  unfolding context_loop
  loop-AreContexts [] h = ([], refl, tt)
  loop-AreContexts ((slot, context) ∷ l) (here, there) =
      let (tests₁, stepped, h₁) = step-IsContext slot context here in
      let (tests₂, looped, h₂) = loop-AreContexts l there in
      rw (stepped, looped) (tests₁ ++ tests₂, refl, (AllHold-append tests₁ tests₂).1 (h₁, h₂))
