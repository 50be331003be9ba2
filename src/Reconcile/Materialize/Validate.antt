-- ===== src/Reconcile/Materialize/Validate.antt =====
-- The checks on a decision before it is written: `_freeze_validated_plan`,
-- `_validate_materialization_decision` and `_validate_dormancy_group`.
pub mod Fresh
pub mod Frozen
pub mod Accepted
use vocab_system.Base.{
  ℕ, ◌+◌, String, Bool, true, false, not, ◌&&◌, ◌||◌, Option, none, some, List, [], ◌∷◌, any, all,
  map, leb, length, ◌==◌, if◌then◌else◌, Result, ok, err, raise_if, ◌>>=◌, ◌>>◌,
}
use vocab_system.Base.Int.{ℤ, int_eq}
use vocab_system.Base.Text.{codes, str_eq, str_in}
use vocab_system.Contracts.Channels.{Channel, channel_text, channel_eq, channel_index}
use vocab_system.Contracts.States.{
  mastered, dormant, dormancy_elapsed, state_eq, state_text, is_transition,
}
use vocab_system.Models.{ChannelProgress, UnitProgress, PlannedTransition, ReconcileDecision}
use vocab_system.Models.Values.{
  is_object, json_field, field_names, same_texts, Json, null, num, text, arr, obj, Fields, end,
  field,
}
use vocab_system.Journal.Records.{trigger_index}
use vocab_system.Reconcile.Runtime.{Runtime}
use vocab_system.Reconcile.Plans.{transition_id, group_id, is_digest}
use vocab_system.Reconcile.Materialize.Effects.{
  Failure, foreign_decision, channel_inactive, edge_invalid, episode_empty, evidence_invalid,
  id_mismatch, group_id_invalid, channel_repeated, channel_order, source_stale, group_mixed,
  group_differs, group_evidence, group_edge, group_mismatch, cards_mismatch, suspension_ungrouped,
}

module _ (rt : Runtime) (unit_key : String) where
  -- The frozen plan has the same fields as the plan.
  unfoldable pub freeze_validated_plan : PlannedTransition → Result Failure PlannedTransition
  unfolding is_transition transition_id is_digest
  freeze_validated_plan p = do
    raise_if (not (is_transition p.from_state p.to_state)) edge_invalid
    raise_if (str_eq p.from_episode_id "") episode_empty
    raise_if (not (is_object p.evidence)) evidence_invalid
    raise_if
        (not (is_digest p.transition_id)
          || not (
              str_eq p.transition_id (
                transition_id rt unit_key (channel_text p.channel) p.from_state p.to_state p.trigger
                  p.from_episode_id p.evidence)))
        id_mismatch
    raise_if (not (str_eq p.transition_group_id "") && not (is_digest p.transition_group_id))
        group_id_invalid
    ok p

-- `progress_by_channel.get(channel)`: of equal channels the last one.
unfoldable pub observed : Channel → List ChannelProgress → Option ChannelProgress
observed k [] = none
observed k (c ∷ l) =
    let here = if str_eq c.channel (channel_text k) then some c else none in
    elim (observed k l) [ none ↦ here | some d ↦ some d ]

-- `channel_index <= last_channel_index`, where that starts at -1.
abbrev pub not_after : Channel → Option Channel → Bool
not_after k none = false
not_after k (some last) = leb (channel_index k) (channel_index last)

abbrev pub is_current : PlannedTransition → ChannelProgress → Bool
is_current p c =
    str_eq (state_text p.from_state) c.state && str_eq p.from_episode_id c.state_episode_id

abbrev pub check_source : PlannedTransition → Option ChannelProgress → Result Failure (Unit {0})
check_source p none = err channel_inactive
check_source p (some c) = raise_if (not (is_current p c)) source_stale

module _ (rt : Runtime) (progress : UnitProgress) where
  -- The loop over the transitions.
  unfoldable pub check_plans :
      List Channel
      → Option Channel
      → List PlannedTransition
      → Result Failure (List PlannedTransition)
  unfolding freeze_validated_plan observed
  check_plans seen last [] = ok []
  check_plans seen last (p ∷ l) = do
    frozen ← freeze_validated_plan rt progress.unit_key p
    raise_if (any (channel_eq frozen.channel) seen) channel_repeated
    raise_if (not_after frozen.channel last) channel_order
    check_source frozen (observed frozen.channel progress.channels)
    rest ← check_plans (frozen.channel ∷ seen) (some frozen.channel) l
    ok (frozen ∷ rest)

abbrev pub evidence_names : List String
evidence_names =
    "mastered_entry_transition_ids" ∷ "all_channels_mastered_at" ∷ "eligibility_boundary" ∷ []

abbrev is_filled : Option Json → Bool
is_filled (some (text s)) = not (str_eq s "")
is_filled _ = false

abbrev is_text : Option Json → String → Bool
is_text (some (text s)) t = str_eq s t
is_text _ t = false

-- The episodes of the members, by channel.
abbrev names_members : Option Json → List PlannedTransition → Bool
names_members (some (obj ids)) plans =
    same_texts (field_names ids) (map (λ (p : PlannedTransition). channel_text p.channel) plans)
    && all
        (λ (p : PlannedTransition).
          is_text (json_field (channel_text p.channel) ids) p.from_episode_id)
        plans
names_members _ plans = false

abbrev pub check_evidence : Json → List PlannedTransition → Result Failure (Unit {0})
check_evidence (obj fields) plans = do
  raise_if (not (same_texts (field_names fields) evidence_names)) group_evidence
  raise_if (not (names_members (json_field "mastered_entry_transition_ids" fields) plans))
      group_evidence
  raise_if
      (not (
        is_filled (json_field "all_channels_mastered_at" fields)
        && is_filled (json_field "eligibility_boundary" fields)))
      group_evidence
check_evidence _ plans = err group_evidence

abbrev pub is_dormancy : PlannedTransition → Bool
is_dormancy p =
    state_eq p.from_state mastered
    && state_eq p.to_state dormant
    && trigger_index p.trigger == trigger_index dormancy_elapsed

module _ (rt : Runtime) (unit_key : String) where
  unfoldable pub check_members : Json → List PlannedTransition → Result Failure (Unit {0})
  check_members evidence [] = ok tt
  check_members evidence (p ∷ l) = do
    raise_if (not (is_dormancy p)) group_edge
    raise_if (not (str_eq (rt.canonical_json p.evidence) (rt.canonical_json evidence)))
        group_evidence
    check_members evidence l

  unfoldable pub validate_dormancy_group : List PlannedTransition → Result Failure (Unit {0})
  unfolding check_members group_id
  validate_dormancy_group [] = err group_differs
  validate_dormancy_group (p ∷ l) = do
    raise_if
        (str_eq p.transition_group_id ""
          || not (
              all (λ (q : PlannedTransition). str_eq q.transition_group_id p.transition_group_id)
                l))
        group_differs
    check_evidence p.evidence (p ∷ l)
    check_members p.evidence (p ∷ l)
    raise_if (not (str_eq p.transition_group_id (group_id rt unit_key (p ∷ l)))) group_mismatch

abbrev pub is_grouped : PlannedTransition → Bool
is_grouped p = not (str_eq p.transition_group_id "")

-- `decision.suspend_card_ids != expected_suspend_ids`; every plan has an observed channel.
unfoldable pub card_ids_of : List ChannelProgress → List PlannedTransition → List ℤ
unfolding observed
card_ids_of channels [] = []
card_ids_of channels (p ∷ l) =
    let rest = card_ids_of channels l in
    elim (observed p.channel channels) [ none ↦ rest | some c ↦ c.card_id ∷ rest ]

abbrev pub same_ids : List ℤ → List ℤ → Bool
same_ids [] [] = true
same_ids (a ∷ l) (b ∷ m) = int_eq a b && same_ids l m
same_ids _ _ = false

abbrev pub no_ids : List ℤ → Bool
no_ids [] = true
no_ids (c ∷ l) = false

module _ (rt : Runtime) (progress : UnitProgress) (decision : ReconcileDecision) where
  unfoldable pub check_groups : List PlannedTransition → Result Failure (Unit {0})
  unfolding validate_dormancy_group card_ids_of
  check_groups plans =
      if any is_grouped plans
      then (do
        raise_if (not (all is_grouped plans)) group_mixed
        validate_dormancy_group rt progress.unit_key plans
        raise_if (not (same_ids decision.suspend_card_ids (card_ids_of progress.channels plans)))
            cards_mismatch)
      else raise_if (not (no_ids decision.suspend_card_ids)) suspension_ungrouped

  unfoldable pub validate_materialization_decision : Result Failure (List PlannedTransition)
  unfolding check_plans check_groups
  validate_materialization_decision = do
    raise_if (not (str_eq decision.unit_key progress.unit_key)) foreign_decision
    plans ← check_plans rt progress [] none decision.transitions
    check_groups plans
    ok plans
