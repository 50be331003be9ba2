-- ===== src/Reconcile/Materialize/Validate/Accepted.antt =====
-- What a decision that passes validation is, with its suspensions.
use vocab_system.Base.{
  not-false, ok_inj, ◌≡◌, ◌≢◌, ◌⊎◌, refl, sym, ap, ◌∙◌, subst, true, not, ◌||◌, none, List, [], ◌∷◌,
  All, any, all, arith, Bool-cases, inl, inr, ok, raise_if, >>=-eq-ok, raise_if-eq-ok,
}
use mathlib.Core.Path.{ap₂}
use vocab_system.Base.Int.{ℤ, int_eq, int_eq_iff}
use vocab_system.Base.Text.{str_eq, str_eq_iff}
use vocab_system.Contracts.States.{mastered, dormant, state_eq_iff}
use vocab_system.Models.{UnitProgress, PlannedTransition, ReconcileDecision}
use vocab_system.Models.Values.{Json}
use vocab_system.Reconcile.Runtime.{Runtime}
use vocab_system.Reconcile.Materialize.Effects.{
  foreign_decision, group_mixed, group_differs, group_evidence, group_edge,
}
use vocab_system.Reconcile.Materialize.Validate.{
  check_evidence, check_plans, is_dormancy, check_members, validate_dormancy_group, is_grouped,
  card_ids_of, same_ids, no_ids, check_groups, validate_materialization_decision,
}
use vocab_system.Reconcile.Materialize.Validate.Fresh.{IsFresh, Ascends, check_plans-IsFresh}

-- Every member of a group goes from MASTERED to DORMANT.
abbrev pub SleepsMastered : PlannedTransition → Type 0
SleepsMastered p = (p.from_state ≡ mastered) × (p.to_state ≡ dormant)

-- The plans of an accepted decision. Only a dormancy group suspends cards, and it suspends the
-- observed cards of its members.
pub record IsAccepted (rt : Runtime) (progress : UnitProgress) (decision : ReconcileDecision)
    (plans : List PlannedTransition) : Type 0 where
  pub unit : decision.unit_key ≡ progress.unit_key
  pub same : plans ≡ decision.transitions
  pub fresh : All (IsFresh rt progress) plans
  pub ascends : Ascends none plans
  pub dormancy :
      (decision.suspend_card_ids ≡ [])
      ⊎ (All SleepsMastered plans
          × (decision.suspend_card_ids ≡ card_ids_of progress.channels plans))

module _ (rt : Runtime) (progress : UnitProgress) where
  same_ids-eq : (a b : List ℤ) → same_ids a b ≡ true → a ≡ b
  same_ids-eq [] [] h = refl
  same_ids-eq [] (b ∷ m) h = absurd (cc)
  same_ids-eq (a ∷ l) [] h = absurd (cc)
  same_ids-eq (a ∷ l) (b ∷ m) h = elim (Bool-cases (int_eq a b)) [
    | inl here ↦ ap₂ (λ x y. x ∷ y) ((int_eq_iff a b).0 here) (same_ids-eq l m (rw here at h))
    | inr other ↦ absurd (cc (rw other at h))
  ]

  -- The group checks, for a decision that suspends cards.
  check_groups-cards :
      (decision : ReconcileDecision) (plans : List PlannedTransition) (a : Unit {0})
      → check_groups rt progress decision plans ≡ ok a
      → decision.suspend_card_ids ≢ []
      → (all is_grouped plans ≡ true)
        × (validate_dormancy_group rt progress.unit_key plans ≡ ok tt)
        × (decision.suspend_card_ids ≡ card_ids_of progress.channels plans)
  unfolding check_groups
  check_groups-cards decision plans a h some_card = elim (Bool-cases (any is_grouped plans)) [
    | inl grouped ↦
        let (_, every, h₁) =
          >>=-eq-ok (raise_if (not (all is_grouped plans)) group_mixed) _ (rw grouped at h) in
        let (_, valid, h₂) = >>=-eq-ok (validate_dormancy_group rt progress.unit_key plans) _ h₁ in
        (
          not-false (all is_grouped plans) (raise_if-eq-ok _ _ every),
          valid,
          same_ids-eq decision.suspend_card_ids (card_ids_of progress.channels plans) (
              not-false (same_ids decision.suspend_card_ids (card_ids_of progress.channels plans))
                (raise_if-eq-ok _ _ h₂)),
        )
    | inr none_grouped ↦ absurd (
        some_card (
          empty decision.suspend_card_ids (
            not-false (no_ids decision.suspend_card_ids)
              (raise_if-eq-ok _ _ (rw none_grouped at h)))))
  ]
    where
      empty : (l : List ℤ) → no_ids l ≡ true → l ≡ []
      empty [] e = refl
      empty (c ∷ l) e = absurd (cc)

  check_members-SleepsMastered :
      (evidence : Json) (plans : List PlannedTransition) (a : Unit {0})
      → check_members rt progress.unit_key evidence plans ≡ ok a
      → All SleepsMastered plans
  unfolding check_members
  check_members-SleepsMastered evidence [] a h = tt
  check_members-SleepsMastered evidence (p ∷ l) a h =
      let (_, edge, h₁) = >>=-eq-ok (raise_if (not (is_dormancy p)) group_edge) _ h in
      let (_, _, h₂) =
        >>=-eq-ok
          (raise_if (not (str_eq (rt.canonical_json p.evidence) (rt.canonical_json evidence)))
            group_evidence)
          _ h₁ in
      (
        sleeps p (not-false (is_dormancy p) (raise_if-eq-ok _ _ edge)),
        check_members-SleepsMastered evidence l a h₂,
      )
    where
      sleeps : (q : PlannedTransition) → is_dormancy q ≡ true → SleepsMastered q
      sleeps q e =
          ground (arith, state_eq_iff q.from_state mastered, state_eq_iff q.to_state dormant)

  validate_dormancy_group-SleepsMastered :
      (plans : List PlannedTransition)
      → validate_dormancy_group rt progress.unit_key plans ≡ ok tt
      → All SleepsMastered plans
  unfolding validate_dormancy_group
  validate_dormancy_group-SleepsMastered [] h = tt
  validate_dormancy_group-SleepsMastered (p ∷ l) h =
      let (_, _, h₁) =
        >>=-eq-ok
          (raise_if
            (str_eq p.transition_group_id ""
              || not (
                  all
                    (λ (q : PlannedTransition). str_eq q.transition_group_id p.transition_group_id)
                    l))
            group_differs)
          _ h in
      let (_, _, h₂) = >>=-eq-ok (check_evidence p.evidence (p ∷ l)) _ h₁ in
      let (_, members, _) =
        >>=-eq-ok (check_members rt progress.unit_key p.evidence (p ∷ l)) _ h₂ in
      check_members-SleepsMastered p.evidence (p ∷ l) _ members

no_cards : (l : List ℤ) → (l ≡ []) ⊎ (l ≢ [])
no_cards [] = inl refl
no_cards (c ∷ l) = inr λ e. absurd (cc)

-- A decision that passes validation is of the observed Unit; its plans are edges of the table
-- with the ids of their own identities, from the states and episodes observed, on ascending
-- channels; if it suspends cards, then all of them go from MASTERED to DORMANT and the cards are
-- theirs.
pub validate_materialization_decision-IsAccepted :
    (rt : Runtime) (progress : UnitProgress) (decision : ReconcileDecision)
    (plans : List PlannedTransition)
    → validate_materialization_decision rt progress decision ≡ ok plans
    → IsAccepted rt progress decision plans
unfolding validate_materialization_decision
validate_materialization_decision-IsAccepted rt progress decision plans h =
    let (_, unit, h₁) =
      >>=-eq-ok (raise_if (not (str_eq decision.unit_key progress.unit_key)) foreign_decision) _
        h in
    let (found, checked, h₂) =
      >>=-eq-ok (check_plans rt progress [] none decision.transitions) _ h₁ in
    let (_, groups, h₃) = >>=-eq-ok (check_groups rt progress decision found) _ h₂ in
    let same = ok_inj h₃ in
    let (whole, fresh, ascends) =
      check_plans-IsFresh rt progress [] none decision.transitions found checked in
    let from = sym whole ∙ same in
    record {
      unit =
          (str_eq_iff decision.unit_key progress.unit_key).0
            (not-false (str_eq decision.unit_key progress.unit_key) (raise_if-eq-ok _ _ unit));
      same = sym from;
      fresh = subst (All (IsFresh rt progress)) from fresh;
      ascends = subst (Ascends none) from ascends;
      dormancy = elim (no_cards decision.suspend_card_ids) [
        | inl none_asked ↦ inl none_asked
        | inr some_card ↦
            let (_, valid, cards) =
              check_groups-cards rt progress decision found _ groups some_card in
            inr (
              subst (All SleepsMastered) same
                  (validate_dormancy_group-SleepsMastered rt progress found valid),
              cards ∙ ap (card_ids_of progress.channels) same,
            )
      ];
    }
