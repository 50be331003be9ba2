-- ===== src/Reconcile/Decide.antt =====
pub mod Sound
pub mod Legal
pub mod Dormancy
-- `decide_transitions`: one pure lifecycle step from an observed snapshot.
use vocab_system.Base.{
  ℕ, ◌+◌, String, Bool, true, false, not, ◌&&◌, Option, none, some, List, [], ◌∷◌, ◌++◌, ltb, leb,
  all, map, if◌then◌else◌, ok, err, ◌>>=◌,
}
use vocab_system.Base.Int.{ℤ}
use vocab_system.Contracts.{mastered_to_dormant_days, leech_lapse_threshold, days}
use vocab_system.Contracts.Channels.{Channel, channels, channel_eq}
use vocab_system.Contracts.States.{
  State, new, learning, stable, mastered, dormant, relapse, state_eq, first_review, stability_gate,
  review_lapse, mastery_assessment_pass, assessment_fail, relapse_review,
}
use vocab_system.Models.{UnitProgress, PlannedTransition, ReconcileDecision}
use vocab_system.Reconcile.Runtime.{Runtime}
use vocab_system.Reconcile.Input.{
  Checked, Timed, Stamp, Decided, found, unentered, validate_decision_input,
}
use vocab_system.Reconcile.Gates.{
  stability_gate_evidence, mastery_evidence, earliest_post_entry_failure, timed_id,
}
use vocab_system.Reconcile.Plans.{
  review_evidence, failure_evidence, mastery_json, stability_json, plan_transition,
  dormancy_transitions,
}

-- What one channel contributes: its plan, and its card if that must be reactivated by hand.
pub record Outcome : Type 0 where
  pub plan : Option PlannedTransition
  pub reactivate : Option ℤ

abbrev pub no_outcome : Outcome
no_outcome = record { plan = none; reactivate = none }

abbrev pub planned : PlannedTransition → Outcome
planned p = record { plan = some p; reactivate = none }

-- The evidence of `_mastery_evidence` from the selection, which comes newest first.
abbrev pub oldest_first : List Timed → List Timed
oldest_first [] = []
oldest_first (t ∷ l) = oldest_first l ++ (t ∷ [])

module _ (rt : Runtime) (unit_key : String) (now : ℕ) where
  unfoldable pub plan_new : Checked → Outcome
  plan_new c = elim c.first_review [
    | none ↦ no_outcome
    | some s ↦ planned (
        plan_transition rt unit_key c learning first_review
          (review_evidence "first_lifecycle_review_id" s))
  ]

  unfoldable pub plan_learning : Checked → Outcome
  plan_learning c = elim (stability_gate_evidence c now) [
    | none ↦ no_outcome
    | some e ↦ planned (plan_transition rt unit_key c stable stability_gate (stability_json rt e))
  ]

  unfoldable pub plan_mastery : Checked → Option (List Timed) → Outcome
  plan_mastery c none = no_outcome
  plan_mastery c (some []) = no_outcome
  plan_mastery c (some (t ∷ l)) = planned (
      plan_transition rt unit_key c mastered mastery_assessment_pass
        (mastery_json (oldest_first (t ∷ l)) (timed_id t)))

  -- A lapse comes before mastery.
  unfoldable pub plan_after_lapse : Checked → Option Stamp → Decided Outcome
  unfolding plan_mastery
  plan_after_lapse c (some s) = ok (
      planned
        (plan_transition rt unit_key c learning review_lapse (review_evidence "lapse_revlog_id" s)))
  plan_after_lapse c none = do
    entry ← found unentered c.entry
    selected ← mastery_evidence c.assessments entry
    ok (plan_mastery c selected)

  unfoldable pub plan_stable : Checked → Decided Outcome
  unfolding plan_after_lapse
  plan_stable c = plan_after_lapse c c.lapse_after_entry

  -- A failure relapses a MASTERED or DORMANT channel; a suspended DORMANT card stays suspended
  -- and is reported.
  unfoldable pub plan_failure : Checked → Option Timed → Outcome
  plan_failure c none = no_outcome
  plan_failure c (some t) = record {
    plan = some (plan_transition rt unit_key c relapse assessment_fail (failure_evidence t));
    reactivate =
        if state_eq c.state dormant && c.progress.is_suspended
        then some c.progress.card_id
        else none;
  }

  unfoldable pub plan_mastered : Checked → Decided Outcome
  unfolding plan_failure
  plan_mastered c = do
    entry ← found unentered c.entry
    ok (plan_failure c (earliest_post_entry_failure c.assessments entry))

  unfoldable pub plan_relapse : Checked → Outcome
  plan_relapse c = elim c.review_after_entry [
    | none ↦ no_outcome
    | some s ↦ planned (
        plan_transition rt unit_key c learning relapse_review
          (review_evidence "review_revlog_id" s))
  ]

  -- The body of the loop over CHANNELS.
  unfoldable pub plan_in : State → Checked → Decided Outcome
  unfolding plan_new plan_learning plan_stable plan_mastered plan_relapse
  plan_in new c = ok (plan_new c)
  plan_in learning c = ok (plan_learning c)
  plan_in stable c = plan_stable c
  plan_in mastered c = plan_mastered c
  plan_in dormant c = plan_mastered c
  plan_in relapse c = ok (plan_relapse c)

  unfoldable pub plan_channel : Checked → Decided Outcome
  unfolding plan_in
  plan_channel c = plan_in c.state c

  unfoldable pub plan_channels : List Checked → Decided (List Outcome)
  unfolding plan_channel
  plan_channels [] = ok []
  plan_channels (c ∷ l) = do o ← plan_channel c; os ← plan_channels l; ok (o ∷ os)

-- `channels_by_name.get(channel)`
unfoldable pub channel_by_name : Channel → List Checked → Option Checked
channel_by_name k [] = none
channel_by_name k (c ∷ l) = if channel_eq c.channel k then some c else channel_by_name k l

abbrev pub cons_option {ℓ} : {A : Type ℓ} → Option A → List A → List A
cons_option none l = l
cons_option (some a) l = a ∷ l

-- The observed channels in the frozen channel order.
unfoldable pub in_order : List Channel → List Checked → List Checked
unfolding channel_by_name
in_order [] l = []
in_order (k ∷ ks) l = cons_option (channel_by_name k l) (in_order ks l)

unfoldable pub plans_of : List Outcome → List PlannedTransition
plans_of [] = []
plans_of (o ∷ l) = cons_option o.plan (plans_of l)

unfoldable pub reactivations_of : List Outcome → List ℤ
reactivations_of [] = []
reactivations_of (o ∷ l) = cons_option o.reactivate (reactivations_of l)

abbrev pub is_nil {ℓ} : {A : Type ℓ} → List A → Bool
is_nil [] = true
is_nil (x ∷ l) = false

-- `now >= all_mastered_at + timedelta(...)`, where that instant is known.
unfoldable pub dormancy_boundary : Option ℕ → ℕ → Option ℕ
dormancy_boundary none now = none
dormancy_boundary (some since) now =
    if ltb now (since + days mastered_to_dormant_days)
    then none
    else some (since + days mastered_to_dormant_days)

-- All channels are MASTERED and nothing else is planned.
unfoldable pub may_go_dormant : List Checked → List PlannedTransition → Bool
may_go_dormant ordered plans =
    (not (is_nil ordered) && all (λ c. state_eq c.state mastered) ordered) && is_nil plans

unfoldable pub leech_channels : Bool → List Checked → List Channel
leech_channels tagged [] = []
leech_channels tagged (c ∷ l) =
    let rest = leech_channels tagged l in
    if tagged && leb leech_lapse_threshold c.lapses_total then c.channel ∷ rest else rest

module _ (rt : Runtime) (progress : UnitProgress) (ordered : List Checked) where
  -- The group of dormancy plans with the cards to suspend, or the channels' own plans.
  unfoldable pub with_dormancy : List PlannedTransition → Option ℕ → List PlannedTransition × List ℤ
  with_dormancy plans none = (plans, [])
  with_dormancy plans (some boundary) =
      if may_go_dormant ordered plans
      then (
        dormancy_transitions rt progress.unit_key ordered progress.all_active_channels_mastered_at
            boundary,
        map (λ c. c.progress.card_id) ordered,
      )
      else (plans, [])

  unfoldable pub decision_of : List Outcome → Option ℕ → ReconcileDecision
  unfolding with_dormancy plans_of reactivations_of leech_channels
  decision_of outcomes boundary =
      let (transitions, suspend) = with_dormancy (plans_of outcomes) boundary in
      record {
        unit_key = progress.unit_key;
        transitions = transitions;
        suspend_card_ids = suspend;
        reactivation_required_card_ids = reactivations_of outcomes;
        leech_rescue_channels = leech_channels progress.has_leech_tag ordered;
      }

unfoldable pub decide_transitions : Runtime → UnitProgress → ℕ → Decided ReconcileDecision
unfolding validate_decision_input in_order plan_channels dormancy_boundary decision_of
decide_transitions rt progress now = do
  (checked, all_mastered_at) ← validate_decision_input rt now progress
  let ordered = in_order channels checked
  outcomes ← plan_channels rt progress.unit_key now ordered
  ok (decision_of rt progress ordered outcomes (dormancy_boundary all_mastered_at now))
