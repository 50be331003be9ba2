-- ===== src/Tests/Protocols.antt =====
-- Writing sample decisions into the world in memory.
use vocab_system.Base.{◌≡◌, refl, String, true, false, none, inl, err, List, [], ◌∷◌, length}
use vocab_system.Base.Int.{ℤ, pos}
use vocab_system.Contracts.Channels.{reading, listening}
use vocab_system.Contracts.States.{mastered, dormant, new, learning, dormancy_elapsed, first_review}
use vocab_system.Models.{PlannedTransition, UnitProgress, ReconcileDecision}
use vocab_system.Journal.Records.{JournalRecord, prepare}
use vocab_system.Journal.Transactions.{Transactions, journal_transactions}
use vocab_system.Reconcile.Runtime.{Runtime}
use vocab_system.Reconcile.Materialize.Effects.{Failure}
use vocab_system.Reconcile.Materialize.Validate.{validate_materialization_decision}
use vocab_system.Reconcile.Materialize.Validate.Accepted.{
  IsAccepted, validate_materialization_decision-IsAccepted,
}
use vocab_system.Reconcile.Materialize.Run.{materialize_decision, materialize_each}
use vocab_system.Reconcile.Materialize.Run.Guard.{materialize_decision-fresh}
use vocab_system.Reconcile.Materialize.Run.Serial.{WritesSerially, materialize_each-WritesSerially}
use vocab_system.Tests.Samples.{sample_runtime, channel_in}
use vocab_system.Models.Values.{obj, end}
use vocab_system.Reconcile.Materialize.Cards.{suspend_cards, read_card_queues, all_suspended}
use vocab_system.Reconcile.Materialize.{materialize_ungrouped, materialize_dormancy}
use vocab_system.Reconcile.Materialize.WriteAhead.{WritesAhead}
use vocab_system.Reconcile.Materialize.Protocol.{
  IsApplied, IsDormant, materialize_ungrouped-WritesAhead, materialize_dormancy-WritesAhead,
}
use vocab_system.Tests.Worlds.{World, sample_note, sample_port, sample_view, sample-IsTruthful}

abbrev start_world : World
start_world = record {
  written_events = [];
  note_fields = ("state_R", "NEW") ∷ [];
  card_queue = pos 0;
  note_cards = [];
  logged_events = [];
}

abbrev first_plan : PlannedTransition
first_plan = record {
  channel = reading;
  from_state = new;
  to_state = learning;
  trigger = first_review;
  from_episode_id = "initial-new:digest";
  evidence = obj end;
  transition_id = "first";
  transition_group_id = "";
}

abbrev sleeping : PlannedTransition
sleeping = record {
  channel = reading;
  from_state = mastered;
  to_state = dormant;
  trigger = dormancy_elapsed;
  from_episode_id = "episode";
  evidence = obj end;
  transition_id = "a";
  transition_group_id = "group";
}

abbrev group : List PlannedTransition
group = sleeping ∷ record sleeping { channel = listening; transition_id = "b" } ∷ []

abbrev cards : List ℤ
cards = pos 11 ∷ pos 12 ∷ []

abbrev group_ids : List String
group_ids = "a" ∷ "b" ∷ []

four_events :
    length (
      (materialize_dormancy sample_port sample_note "bank::river" group cards group_ids group_ids
        start_world).1.written_events)
    ≡ 4
unfolding materialize_dormancy suspend_cards read_card_queues all_suspended
four_events = refl

materialize_ungrouped-WritesAhead_example :
    WritesAhead sample_view start_world
      (first_plan ∷ [])
      (IsApplied sample_view first_plan)
      (materialize_ungrouped sample_port sample_note "bank::river" first_plan true start_world)
materialize_ungrouped-WritesAhead_example =
    materialize_ungrouped-WritesAhead sample_port sample_view sample_note sample-IsTruthful
      "bank::river" first_plan start_world

materialize_dormancy-WritesAhead_example :
    WritesAhead sample_view start_world group (IsDormant sample_view group cards) (
      materialize_dormancy sample_port sample_note "bank::river" group cards group_ids group_ids
        start_world)
materialize_dormancy-WritesAhead_example =
    materialize_dormancy-WritesAhead sample_port sample_view sample_note sample-IsTruthful
      "bank::river" group cards group_ids group_ids start_world (refl, (refl, tt))
      (refl, (refl, tt))

-- A digest of the right form, and a decision whose plan has it.
abbrev hex : String
hex = "0123456789abcdef0123456789abcdef0123456789abcdef0123456789abcdef"

abbrev hex_runtime : Runtime
hex_runtime = record sample_runtime { canonical_sha256 = λ _. hex }

abbrev hex_plan : PlannedTransition
hex_plan = record first_plan { transition_id = hex; from_episode_id = "episode" }

abbrev new_unit : UnitProgress
new_unit = record {
  unit_key = "bank::river";
  channels = channel_in "R" "NEW" 11 "" [] ∷ [];
  all_active_channels_mastered_at = "";
  has_leech_tag = false;
}

abbrev review_decision : ReconcileDecision
review_decision = record {
  unit_key = "bank::river";
  transitions = hex_plan ∷ [];
  suspend_card_ids = [];
  reactivation_required_card_ids = [];
  leech_rescue_channels = [];
}

validate_materialization_decision-IsAccepted_example :
    IsAccepted hex_runtime new_unit review_decision (hex_plan ∷ [])
unfolding validate_materialization_decision
validate_materialization_decision-IsAccepted_example =
    validate_materialization_decision-IsAccepted hex_runtime new_unit review_decision
      (hex_plan ∷ []) refl

-- A journal that has prepared the transition already.
abbrev prepared_record : JournalRecord
prepared_record = record {
  transition_id = hex;
  phase = prepare;
  identity = record {
    version = 1;
    unit_key = "bank::river";
    channel = reading;
    from_state = new;
    to_state = learning;
    trigger = first_review;
    from_episode_id = "episode";
    evidence = "{}";
    group = none;
  };
  evidence = hex_plan.evidence;
  instant = 0;
  index = 0;
}

abbrev known : Transactions
known = (hex, record { prepared = prepared_record; terminal = none }) ∷ []

materialize_decision-fresh_example :
    (e : Failure) × (materialize_decision hex_runtime sample_port sample_note new_unit
        review_decision known start_world
      ≡ (err e, start_world))
unfolding journal_transactions
materialize_decision-fresh_example =
    materialize_decision-fresh hex_runtime sample_port sample_note new_unit review_decision
      (prepared_record ∷ []) known prepared_record hex_plan start_world refl (inl refl) (inl refl)
      refl

materialize_each-WritesSerially_example : WritesSerially sample_view start_world (hex_plan ∷ []) (
    materialize_each hex_runtime sample_port sample_note new_unit review_decision
      (hex_plan ∷ [])
      start_world)
materialize_each-WritesSerially_example =
    materialize_each-WritesSerially hex_runtime sample_port sample_note new_unit review_decision
      sample_view sample-IsTruthful (hex_plan ∷ []) start_world
