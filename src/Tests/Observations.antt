-- ===== src/Tests/Observations.antt =====
-- A Unit in RELAPSE, with the log that explains it, observed and reactivated.
use vocab_system.Base.{ℕ, refl, String, true, some, [], ◌∷◌, Result, ok, err, if◌then◌else◌}
use vocab_system.Base.Int.{pos}
use vocab_system.Base.Text.{str_eq}
use vocab_system.Contracts.{days}
use vocab_system.Contracts.Keys.{slug_rest, key_rest, key_sense}
use vocab_system.Contracts.Channels.{reading}
use vocab_system.Contracts.States.{
  State, Trigger, new, learning, stable, mastered, relapse, first_review, stability_gate,
  mastery_assessment_pass, assessment_fail,
}
use vocab_system.Models.{Event, PlannedTransition, UnitProgress}
use vocab_system.Models.Units.{to_note_fields}
use vocab_system.Models.Values.{Json, text, obj, end, json_field}
use vocab_system.Journal.Records.{Phase, prepare, commit, identity_eq}
use vocab_system.Journal.Transactions.{journal_transactions}
use vocab_system.Reconcile.Revlog.{channel_progress}
use vocab_system.Journal.Reading.Written.{written_event}
use vocab_system.Reconcile.Runtime.{Runtime}
use vocab_system.Reconcile.Materialize.{payload_fields}
use vocab_system.Reconcile.Materialize.Cards.{queue_suspended}
use vocab_system.Reconcile.Materialize.Effects.{Failure}
use vocab_system.Reconcile.Observe.{observe_unit}
use vocab_system.Reconcile.Observe.Notes.{active_states_in}
use vocab_system.Reconcile.Recover.Unit.{reactivate_relapse_channel}
use vocab_system.Reconcile.Recover.Reactivation.{
  IsReactivation, reactivate_relapse_channel-IsReactivation,
}
use vocab_system.Tests.Recoveries.{hex, unit}
use vocab_system.Tests.Samples.{sample_runtime, sample_unicode}
use vocab_system.Tests.Worlds.{World, sample_note, sample_port, sample_view, sample-IsTruthful}

-- A digest for each of the four transitions, by their source states.
abbrev first_id : String
first_id = "1123456789abcdef0123456789abcdef0123456789abcdef0123456789abcdef"

abbrev second_id : String
second_id = "2123456789abcdef0123456789abcdef0123456789abcdef0123456789abcdef"

abbrev third_id : String
third_id = "3123456789abcdef0123456789abcdef0123456789abcdef0123456789abcdef"

abbrev fourth_id : String
fourth_id = "4123456789abcdef0123456789abcdef0123456789abcdef0123456789abcdef"

abbrev digest : Json → String
digest (obj fields) = elim (json_field "from" fields) [
  | some (text s) ↦
      if str_eq s "NEW"
      then first_id
      else if str_eq s "LEARNING"
      then second_id
      else if str_eq s "STABLE"
      then third_id
      else fourth_id
  | _ ↦ hex
]
digest _ = hex

abbrev runtime : Runtime
runtime = record sample_runtime { canonical_sha256 = digest }

abbrev step : State → State → Trigger → String → String → PlannedTransition
step from to trigger episode id = record {
  channel = reading;
  from_state = from;
  to_state = to;
  trigger = trigger;
  from_episode_id = episode;
  evidence = obj end;
  transition_id = id;
  transition_group_id = "";
}

abbrev first_step : PlannedTransition
first_step =
    step new learning first_review
      "initial-new:0123456789abcdef0123456789abcdef0123456789abcdef0123456789abcdef" first_id

abbrev second_step : PlannedTransition
second_step = step learning stable stability_gate first_id second_id

abbrev third_step : PlannedTransition
third_step = step stable mastered mastery_assessment_pass second_id third_id

abbrev fourth_step : PlannedTransition
fourth_step = step mastered relapse assessment_fail third_id fourth_id

abbrev on : String → PlannedTransition → Phase → Event
unfolding payload_fields
on day p phase = written_event "bank::river" day "day" p phase

abbrev relapsed : World
unfolding to_note_fields
relapsed = record {
  written_events = [];
  note_fields = to_note_fields (record unit { state_r = "RELAPSE" });
  card_queue = queue_suspended;
  note_cards = pos 11 ∷ [];
  logged_events =
      on "day 1" first_step prepare
      ∷ on "day 1" first_step commit
      ∷ on "day 2" second_step prepare
      ∷ on "day 2" second_step commit
      ∷ on "day 3" third_step prepare
      ∷ on "day 3" third_step commit
      ∷ on "day 11" fourth_step prepare
      ∷ on "day 11" fourth_step commit
      ∷ [];
}

abbrev late : ℕ
late = days 12

abbrev any_progress : UnitProgress
any_progress = record {
  unit_key = "";
  channels = [];
  all_active_channels_mastered_at = "";
  has_leech_tag = true;
}

abbrev value_of : Result Failure UnitProgress → UnitProgress
value_of (ok p) = p
value_of (err e) = any_progress

abbrev seen : UnitProgress
unfolding observe_unit slug_rest key_rest key_sense active_states_in
seen =
    value_of
      ((observe_unit sample_unicode runtime (λ _. true) sample_port sample_note late relapsed).0)

reactivate_relapse_channel-IsReactivation_example :
    IsReactivation sample_port sample_view sample_note sample-IsTruthful sample_unicode runtime
      (λ _. true)
      late
      "R"
      true
      relapsed
      (record relapsed { card_queue = pos 0 })
      true
unfolding reactivate_relapse_channel slug_rest key_rest key_sense active_states_in relapsed on
    journal_transactions identity_eq channel_progress
reactivate_relapse_channel-IsReactivation_example =
    reactivate_relapse_channel-IsReactivation sample_port sample_view sample_note sample-IsTruthful
      sample_unicode runtime (λ _. true) late "R" true relapsed
      (record relapsed { card_queue = pos 0 }) true refl
