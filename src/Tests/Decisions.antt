-- ===== src/Tests/Decisions.antt =====
-- Decisions on sample Units.
use vocab_system.Base.{ℕ, ◌≡◌, refl, String, Option, List, [], ◌∷◌, ok, err, ◌≢◌}
use vocab_system.Base.Int.{pos}
use vocab_system.Contracts.{days}
use vocab_system.Contracts.Channels.{channel_text}
use vocab_system.Contracts.States.{state_text, trigger_text}
use vocab_system.Models.{PlannedTransition, ReconcileDecision}
use vocab_system.Reconcile.Input.{Checked, Timed, Decided, validate_decision_input}
use vocab_system.Contracts.Keys.{key_rest, is_slug_char, key_sense, is_slug, slug_rest}
use vocab_system.Reconcile.Plans.{plan_transition, dormancy_transitions}
use vocab_system.Reconcile.Gates.{mastery_evidence, earliest_post_entry_failure}
use vocab_system.Reconcile.Gates.Rounds.{Certifies}
use vocab_system.Reconcile.Gates.Mastery.{mastery_evidence-Certifies}
use vocab_system.Reconcile.Decide.{decide_transitions, may_go_dormant}
use vocab_system.Reconcile.Decide.Legal.{AllSound, decide_transitions-AllSound}
use vocab_system.Reconcile.Decide.Dormancy.{GoesDormant, decide_transitions-GoesDormant}
use vocab_system.Tests.Samples.{sample_runtime, mastered_unit, stable_unit, pass_on}

abbrev no_decision : ReconcileDecision
no_decision = record {
  unit_key = "";
  transitions = [];
  suspend_card_ids = [];
  reactivation_required_card_ids = [];
  leech_rescue_channels = [];
}

abbrev decision : Decided ReconcileDecision → ReconcileDecision
decision (ok d) = d
decision (err e) = no_decision

abbrev dormant_decision : ReconcileDecision
unfolding decide_transitions
dormant_decision = decision (decide_transitions sample_runtime mastered_unit (days 40))

abbrev mastery_decision : ReconcileDecision
unfolding decide_transitions
mastery_decision = decision (decide_transitions sample_runtime stable_unit (days 12))

both_cards : dormant_decision.suspend_card_ids ≡ pos 11 ∷ pos 12 ∷ []
unfolding dormant_decision key_rest is_slug_char key_sense is_slug slug_rest may_go_dormant
    earliest_post_entry_failure mastery_evidence plan_transition dormancy_transitions
both_cards = refl

abbrev steps : List PlannedTransition → List (String × String × String × String)
steps [] = []
steps (p ∷ l) =
    (channel_text p.channel, state_text p.from_state, state_text p.to_state, trigger_text p.trigger)
    ∷ steps l

both_sleep :
    steps dormant_decision.transitions
    ≡ ("R", "MASTERED", "DORMANT", "DORMANCY_ELAPSED")
      ∷ ("L", "MASTERED", "DORMANT", "DORMANCY_ELAPSED")
      ∷ []
unfolding dormant_decision key_rest is_slug_char key_sense is_slug slug_rest may_go_dormant
    earliest_post_entry_failure mastery_evidence plan_transition dormancy_transitions
both_sleep = refl

one_mastered :
    steps mastery_decision.transitions ≡ ("R", "STABLE", "MASTERED", "MASTERY_ASSESSMENT_PASS") ∷ []
unfolding mastery_decision key_rest is_slug_char key_sense is_slug slug_rest may_go_dormant
    earliest_post_entry_failure mastery_evidence plan_transition dormancy_transitions
one_mastered = refl

not_yet :
    (decision (decide_transitions sample_runtime mastered_unit (days 31))).suspend_card_ids ≡ []
unfolding decide_transitions key_rest is_slug_char key_sense is_slug slug_rest may_go_dormant
    earliest_post_entry_failure mastery_evidence plan_transition dormancy_transitions
not_yet = refl

-- The reading channel of `stable_unit` as it is checked.
abbrev timed_pass : String → String → String → ℕ → Timed
timed_pass id stimulus ts instant = record {
  instant = instant;
  assessment = pass_on id stimulus ts;
}

abbrev first_pass : Timed
first_pass = timed_pass "a" "s" "day 3" (days 3)

abbrev second_pass : Timed
second_pass = timed_pass "b" "t" "day 12" (days 12)

mastery_evidence-Certifies_example :
    Certifies (days 1) (first_pass ∷ second_pass ∷ []) (second_pass ∷ first_pass ∷ [])
unfolding mastery_evidence
mastery_evidence-Certifies_example =
    mastery_evidence-Certifies (first_pass ∷ second_pass ∷ []) (second_pass ∷ first_pass ∷ [])
      (days 1) refl

decide_transitions-AllSound_example :
    (checked : List Checked) × (at : Option ℕ) × (validate_decision_input sample_runtime
        (days 40)
        mastered_unit
      ≡ ok (checked, at))
    × AllSound checked dormant_decision.transitions
unfolding dormant_decision key_rest is_slug_char key_sense is_slug slug_rest may_go_dormant
    earliest_post_entry_failure mastery_evidence plan_transition dormancy_transitions
decide_transitions-AllSound_example =
    decide_transitions-AllSound sample_runtime mastered_unit (days 40) dormant_decision refl

some_card : dormant_decision.suspend_card_ids ≢ []
some_card e = absurd (cc (both_cards, e))

decide_transitions-GoesDormant_example :
    GoesDormant sample_runtime mastered_unit (days 40) dormant_decision
unfolding dormant_decision key_rest is_slug_char key_sense is_slug slug_rest may_go_dormant
    earliest_post_entry_failure mastery_evidence plan_transition dormancy_transitions
decide_transitions-GoesDormant_example =
    decide_transitions-GoesDormant sample_runtime mastered_unit (days 40) dormant_decision refl
      some_card
