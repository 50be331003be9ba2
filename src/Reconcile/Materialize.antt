-- ===== src/Reconcile/Materialize.antt =====
-- Writing a decision to the event log and to Anki: PREPARE, update, readback, COMMIT.
pub mod Effects
pub mod Cards
pub mod Validate
pub mod Readback
pub mod Suspension
pub mod WriteAhead
pub mod Protocol
pub mod Run
use vocab_system.Base.{
  String, Bool, true, false, not, ◌&&◌, Option, none, some, List, [], ◌∷◌, any, map, if◌then◌else◌,
  Result, ok, err,
}
use vocab_system.Base.Int.{ℤ, int_eq}
use vocab_system.Base.Text.{str_eq, str_in}
use vocab_system.Contracts.Channels.{Channel, reading, listening, writing, speaking, channel_text}
use vocab_system.Contracts.States.{state_text, trigger_text}
use vocab_system.Models.{PlannedTransition}
use vocab_system.Models.Values.{Json, text, obj, Fields, end, field}
use vocab_system.Journal.Records.{Phase, prepare, commit, abort, phase_text}
use Effects.{
  Note, Port, Step, Failure, append_failed, update_refused, update_failed, notes_unread, note_count,
  foreign_note, foreign_model, state_mismatch, not_suspended, ◌>>=◌, ◌>>◌, stop_if, call, reply,
}
use Cards.{suspend_cards, read_card_queues, all_suspended}

abbrev pub group_field : String → Fields
group_field group = if str_eq group "" then end else field "transition_group_id" (text group) end

-- `_state_payload`
unfoldable pub payload_fields : PlannedTransition → Phase → Fields
payload_fields p phase = field "channel" (text (channel_text p.channel)) (
    field "from" (text (state_text p.from_state)) (
      field "to" (text (state_text p.to_state)) (
        field "trigger" (text (trigger_text p.trigger)) (
          field "transition_id" (text p.transition_id) (
            field "from_episode_id" (text p.from_episode_id) (
              field "phase" (text (phase_text phase))
                (field "evidence" p.evidence (group_field p.transition_group_id))))))))

abbrev pub state_payload : PlannedTransition → Phase → Json
state_payload p phase = obj (payload_fields p phase)

-- STATE_FIELD_BY_CHANNEL
abbrev pub state_field : Channel → String
state_field reading = "state_R"
state_field listening = "state_L"
state_field writing = "state_W"
state_field speaking = "state_S"

abbrev pub state_fields : List String
state_fields = "state_R" ∷ "state_L" ∷ "state_W" ∷ "state_S" ∷ []

-- A dict of texts, in insertion order.
abbrev pub Updates : Type 0
Updates = List (String × String)

unfoldable pub put : String → String → Updates → Updates
put k v [] = (k, v) ∷ []
put k v ((j, u) ∷ l) = if str_eq j k then (j, v) ∷ l else (j, u) ∷ put k v l

unfoldable pub find : String → Updates → Option String
find k [] = none
find k ((j, v) ∷ l) = if str_eq j k then some v else find k l

-- `{STATE_FIELD_BY_CHANNEL[plan.channel]: plan.to_state for plan in plans}`
unfoldable pub add_updates : Updates → List PlannedTransition → Updates
unfolding put
add_updates d [] = d
add_updates d (p ∷ l) = add_updates (put (state_field p.channel) (state_text p.to_state) d) l

unfoldable pub state_updates : List PlannedTransition → Updates
unfolding add_updates
state_updates plans = add_updates [] plans

abbrev pub refuses : Updates → Bool
refuses [] = true
refuses ((k, v) ∷ l) = any (λ (j, u). not (str_in j state_fields)) ((k, v) ∷ l)

-- `field.get("value") == expected_value`
abbrev pub has_value : Option String → String → Bool
has_value none v = false
has_value (some u) v = str_eq u v

-- The loop over the expected fields.
unfoldable pub shows : Updates → Updates → Bool
unfolding find
shows fields [] = true
shows fields ((k, v) ∷ l) = has_value (find k fields) v && shows fields l

module _ {W : Type 0} where
  -- The checks on the note that was read back.
  unfoldable pub check_note : ℤ → Updates → List Note → Step W (Unit {0})
  unfolding shows
  check_note note expected (n ∷ []) = do
    stop_if (not (int_eq n.note_id note)) foreign_note
    stop_if (not (str_eq n.model_name "VocabularyUnit")) foreign_model
    stop_if (not (shows n.fields expected)) state_mismatch
  check_note note expected _ = stop_if true note_count

module _ {W : Type 0} (port : Port W) where
  unfoldable pub append_state_event : String → PlannedTransition → Phase → Step W (Unit {0})
  unfolding payload_fields
  append_state_event unit_key p phase =
      call append_failed (port.log unit_key (state_payload p phase))

  unfoldable pub update_note_states : ℤ → Updates → Step W (Unit {0})
  update_note_states note updates = do
    stop_if (refuses updates) update_refused
    call update_failed (port.update_note_fields note updates)

  unfoldable pub verify_note_states : ℤ → Updates → Step W (Unit {0})
  unfolding check_note
  verify_note_states note expected = do
    notes ← reply notes_unread (port.notes_info note)
    check_note note expected notes

  -- `for plan in plans: if plan.transition_id in ids: append(plan, phase)`
  unfoldable pub append_all :
      String → Phase → List String → List PlannedTransition → Step W (Unit {0})
  unfolding append_state_event
  append_all unit_key phase ids [] = stop_if false append_failed
  append_all unit_key phase ids (p ∷ l) =
      let rest = append_all unit_key phase ids l in
      if str_in p.transition_id ids then append_state_event unit_key p phase >> rest else rest

  unfoldable pub materialize_ungrouped : ℤ → String → PlannedTransition → Bool → Step W (Unit {0})
  unfolding append_state_event update_note_states verify_note_states
  materialize_ungrouped note unit_key p append_prepare = do
    if append_prepare then append_state_event unit_key p prepare else stop_if false append_failed
    update_note_states note ((state_field p.channel, state_text p.to_state) ∷ [])
    verify_note_states note ((state_field p.channel, state_text p.to_state) ∷ [])
    append_state_event unit_key p commit

  unfoldable pub materialize_dormancy :
      ℤ → String → List PlannedTransition → List ℤ → List String → List String → Step W (Unit {0})
  unfolding append_all update_note_states verify_note_states state_updates
  materialize_dormancy note unit_key plans cards prepare_ids commit_ids = do
    append_all unit_key prepare prepare_ids plans
    update_note_states note (state_updates plans)
    verify_note_states note (state_updates plans)
    suspend_cards port cards
    queues ← read_card_queues port note cards
    stop_if (not (all_suspended queues cards)) not_suspended
    append_all unit_key commit commit_ids plans
