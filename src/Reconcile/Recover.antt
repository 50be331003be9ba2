-- ===== src/Reconcile/Recover.antt =====
-- `_recover_pending_operation`: what is done with the transitions that the journal left open.
pub mod Groups
pub mod Pending
pub mod Unit
pub mod Resolved
pub mod Reactivation
pub mod Aborts
pub mod Crash
use vocab_system.Base.{
  ℕ, String, Bool, true, false, not, ◌&&◌, ◌||◌, Option, none, some, List, [], ◌∷◌, map, any, all,
  if◌then◌else◌, Result, ok, err,
}
use vocab_system.Base.Int.{ℤ}
use vocab_system.Base.Text.{str_eq, str_in}
use vocab_system.Contracts.Channels.{Channel, channel_eq}
use vocab_system.Contracts.States.{State, dormant, relapse, mastered, state_eq, state_text}
use vocab_system.Models.{UnitProgress, PlannedTransition, ReconcileDecision, ReconcileRunResult}
use vocab_system.Matching.Tokens.{Unicode}
use vocab_system.Journal.Records.{JournalRecord, Phase, commit, abort}
use vocab_system.Journal.Reading.{group_text}
use vocab_system.Reconcile.Runtime.{Runtime}
use vocab_system.Reconcile.Revlog.{Card}
use vocab_system.Reconcile.Decide.{decide_transitions}
use vocab_system.Reconcile.Materialize.Effects.{
  Template, Port, Step, Failure, decision_failed, conflict, recovery_card_missing, after, ◌>>=◌,
  ◌>>◌, stop_if, lift, lift_as,
}
use vocab_system.Reconcile.Materialize.{
  state_field, append_state_event, verify_note_states, materialize_ungrouped,
}
use vocab_system.Reconcile.Materialize.Validate.{
  freeze_validated_plan, validate_materialization_decision,
}
use vocab_system.Reconcile.Observe.{observe_unit}
use vocab_system.Reconcile.Observe.Attribution.{Cards, card_of}

module _ (rt : Runtime) (unit_key : String) where
  abbrev pub prepared_plan : JournalRecord → PlannedTransition
  prepared_plan r = record {
    channel = r.identity.channel;
    from_state = r.identity.from_state;
    to_state = r.identity.to_state;
    trigger = r.identity.trigger;
    from_episode_id = r.identity.from_episode_id;
    evidence = r.evidence;
    transition_id = r.transition_id;
    transition_group_id = group_text r.identity.group;
  }

  -- `_plan_from_prepare`
  unfoldable pub plan_from_prepare : JournalRecord → Result Failure PlannedTransition
  unfolding freeze_validated_plan
  plan_from_prepare r = freeze_validated_plan rt unit_key (prepared_plan r)

module _ {W : Type 0} (port : Port W) where
  -- `_abort_prepared_plans`
  unfoldable pub abort_prepared_plans : String → List PlannedTransition → Step W (List String)
  unfolding append_state_event
  abort_prepared_plans unit_key [] = lift (ok [])
  abort_prepared_plans unit_key (p ∷ l) = do
    append_state_event port unit_key p abort
    aborted ← abort_prepared_plans unit_key l
    lift (ok (p.transition_id ∷ aborted))

  -- The open plans are aborted, and the conflict is raised.
  unfoldable pub abort_in_conflict : String → List PlannedTransition → Step W ReconcileRunResult
  unfolding abort_prepared_plans
  abort_in_conflict unit_key plans = do
    aborted ← abort_prepared_plans unit_key plans
    lift (err (conflict aborted))

-- `unit.active_channel_states().get(channel)`
unfoldable pub state_in : Channel → List (Channel × State) → Option State
state_in c [] = none
state_in c ((k, s) ∷ l) = let rest = state_in c l in if channel_eq k c then some s else rest

abbrev pub has_state : Option State → State → Bool
has_state none s = false
has_state (some t) s = state_eq t s

-- `next((plan for plan in plans if plan.transition_id == id), None)`
unfoldable pub plan_with_id : String → List PlannedTransition → Option PlannedTransition
plan_with_id id [] = none
plan_with_id id (p ∷ l) =
    let rest = plan_with_id id l in if str_eq p.transition_id id then some p else rest

abbrev pub recovered_result : String → List String → List ℤ → List Channel → ReconcileRunResult
recovered_result unit_key ids reactivation rescue = record {
  unit_key = unit_key;
  committed_transition_ids = ids;
  recovered_transition_ids = ids;
  aborted_transition_ids = [];
  reactivation_required_card_ids = reactivation;
  leech_rescue_channels = rescue;
}

abbrev pub suspended_card : {W : Type 0} → Option Card → Step W (List ℤ)
suspended_card none = lift (err recovery_card_missing)
suspended_card (some c) = lift (ok (if c.is_suspended then c.card_id ∷ [] else []))

-- The suspended card of a channel that leaves DORMANT for RELAPSE must be reactivated by hand.
unfoldable pub reactivation_of : {W : Type 0} → PlannedTransition → Option Card → Step W (List ℤ)
reactivation_of p card =
    if state_eq p.from_state dormant && state_eq p.to_state relapse
    then suspended_card card
    else lift (ok [])

-- What `decide_transitions` returns and the plans that pass validation.
abbrev pub Fresh : Type 0
Fresh = ReconcileDecision × List PlannedTransition

module _ {W : Type 0} (u : Unicode) (rt : Runtime) (verified : List Template → Bool) (port : Port W)
    (note : ℤ) (now : ℕ) where
  -- Observation and decision, as a new run makes them.
  unfoldable pub fresh_decision : Step W Fresh
  unfolding observe_unit decide_transitions validate_materialization_decision
  fresh_decision = do
    progress ← observe_unit u rt verified port note now
    decision ← lift_as decision_failed (decide_transitions rt progress now)
    plans ← lift (validate_materialization_decision rt progress decision)
    lift (ok (decision, plans))

  module _ (unit_key : String) where
    -- The source state is still there: the plan is carried out, if it would be made again.
    unfoldable pub resume_matching :
        PlannedTransition → Fresh → Option PlannedTransition → Step W ReconcileRunResult
    unfolding materialize_ungrouped abort_in_conflict
    resume_matching p fresh none = abort_in_conflict port unit_key (p ∷ [])
    resume_matching p fresh (some q) =
        if not (str_eq q.transition_group_id "")
        then abort_in_conflict port unit_key (p ∷ [])
        else (do
          materialize_ungrouped port note unit_key q false
          lift (
              ok (
                recovered_result unit_key (q.transition_id ∷ [])
                  (fresh.0).reactivation_required_card_ids (fresh.0).leech_rescue_channels)))

    unfoldable pub resume_ungrouped : PlannedTransition → Step W ReconcileRunResult
    unfolding fresh_decision resume_matching plan_with_id
    resume_ungrouped p = do
      fresh ← fresh_decision
      resume_matching p fresh (plan_with_id p.transition_id (fresh.1))

    -- The target state is there already: only its COMMIT is missing.
    unfoldable pub complete_ungrouped : PlannedTransition → Cards → Step W ReconcileRunResult
    unfolding verify_note_states append_state_event card_of reactivation_of
    complete_ungrouped p cards = do
      verify_note_states port note ((state_field p.channel, state_text p.to_state) ∷ [])
      append_state_event port unit_key p commit
      reactivation ← reactivation_of p (card_of p.channel cards)
      lift (ok (recovered_result unit_key (p.transition_id ∷ []) reactivation []))

    -- `_recover_ungrouped`
    unfoldable pub recover_ungrouped :
        List (Channel × State) → PlannedTransition → Cards → Step W ReconcileRunResult
    unfolding resume_ungrouped complete_ungrouped abort_in_conflict state_in
    recover_ungrouped active p cards =
        if has_state (state_in p.channel active) p.from_state
        then resume_ungrouped p
        else if has_state (state_in p.channel active) p.to_state
        then complete_ungrouped p cards
        else abort_in_conflict port unit_key (p ∷ [])
