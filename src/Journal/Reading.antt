-- ===== src/Journal/Reading.antt =====
-- `_journal_record` and `_event_instant`: the records of the STATE events of a Unit.
pub mod Legal
pub mod Written
use vocab_system.Base.{
  ℕ, String, Bool, true, false, not, ◌&&◌, ◌||◌, Option, none, some, List, [], ◌∷◌, any, all, ltb,
  if◌then◌else◌, Result, ok, err, raise_if, ◌>>=◌, ◌>>◌, ◌+◌,
}
use vocab_system.Base.Text.{str_eq, str_in}
use vocab_system.Contracts.Channels.{Channel, channel_text, parse_channel}
use vocab_system.Contracts.States.{State, parse_state, Trigger, parse_trigger, is_transition}
use vocab_system.Models.{Event}
use vocab_system.Models.Values.{Json, text, obj, Fields, json_field, field_names}
use vocab_system.Reconcile.Runtime.{Runtime, IsoText, malformed, naive, aware}
use vocab_system.Reconcile.Plans.{is_digest, transition_id_at}
use vocab_system.Journal.Records.{JournalRecord, Phase, parse_phase}
use vocab_system.Journal.Transactions.{
  History, field_missing, channel_invalid, state_invalid, transition_invalid, trigger_invalid,
  id_invalid, episode_invalid, phase_invalid, evidence_invalid, group_invalid, id_mismatch,
  timestamp_empty, timestamp_malformed, timestamp_naive, timestamp_not_normalized, record_in_future,
  HistoryError, Transactions, journal_transactions,
}

-- `_JOURNAL_MARKER_FIELDS`
abbrev pub journal_marker_fields : List String
journal_marker_fields = "transition_id" ∷ "phase" ∷ "transition_group_id" ∷ []

-- T9_STATE_REQUIRED_PAYLOAD_FIELDS
abbrev pub t9_state_required_payload_fields : List String
t9_state_required_payload_fields =
    "channel" ∷ "from" ∷ "to" ∷ "trigger" ∷ "transition_id" ∷ "from_episode_id" ∷ "phase"
    ∷ "evidence" ∷ []

abbrev pub has_any : List String → Fields → Bool
has_any names payload = any (λ k. str_in k (field_names payload)) names

abbrev pub has_all : List String → Fields → Bool
has_all names payload = all (λ k. str_in k (field_names payload)) names

abbrev pub found : {A : Type 0} → HistoryError → Option A → History A
found e none = err e
found e (some a) = ok a

-- A text that a closed vocabulary admits.
abbrev pub named : {A : Type 0} → (String → Option A) → Option Json → Option A
named parse (some (text s)) = parse s
named parse _ = none

abbrev pub digest_text : String → Option String
digest_text s = if is_digest s then some s else none

abbrev pub filled_text : String → Option String
filled_text s = if str_eq s "" then none else some s

abbrev pub object_of : Option Json → Option Json
object_of (some (obj fields)) = some (obj fields)
object_of _ = none

abbrev grouped : Option String → History (Option String)
grouped none = err group_invalid
grouped (some s) = ok (some s)

-- An absent group is no error.
abbrev pub group_of : Option Json → History (Option String)
group_of none = ok none
group_of (some v) = grouped (named digest_text (some v))

-- The group of a plan, as the text that an absent group leaves empty.
abbrev pub group_text : Option String → String
group_text none = ""
group_text (some s) = s

abbrev pub normalized : Runtime → String → IsoText → History ℕ
normalized rt value malformed = err timestamp_malformed
normalized rt value naive = err timestamp_naive
normalized rt value (aware instant) = do
  raise_if (not (str_eq value (rt.isoformat instant))) timestamp_not_normalized
  ok instant

abbrev pub cons_record : Option JournalRecord → List JournalRecord → List JournalRecord
cons_record none l = l
cons_record (some r) l = r ∷ l

module _ (rt : Runtime) (now : ℕ) where
  -- `_event_instant`, and the test against the future.
  unfoldable pub event_instant : HistoryError → String → History ℕ
  event_instant future value = do
    raise_if (str_eq value "") timestamp_empty
    instant ← normalized rt value (rt.fromisoformat value)
    raise_if (ltb now instant) future
    ok instant

  module _ (event : Event) (index : ℕ) where
    -- The payload has every field of the producer.
    unfoldable pub state_record : History JournalRecord
    unfolding event_instant parse_channel parse_state parse_trigger parse_phase is_transition
        is_digest
    state_record = do
      raise_if (not (has_all t9_state_required_payload_fields event.payload)) field_missing
      channel ← found channel_invalid (named parse_channel (json_field "channel" event.payload))
      from ← found state_invalid (named parse_state (json_field "from" event.payload))
      to ← found state_invalid (named parse_state (json_field "to" event.payload))
      raise_if (not (is_transition from to)) transition_invalid
      trigger ← found trigger_invalid (named parse_trigger (json_field "trigger" event.payload))
      id ← found id_invalid (named digest_text (json_field "transition_id" event.payload))
      episode ←
          found episode_invalid (named filled_text (json_field "from_episode_id" event.payload))
      phase ← found phase_invalid (named parse_phase (json_field "phase" event.payload))
      evidence ← found evidence_invalid (object_of (json_field "evidence" event.payload))
      group ← group_of (json_field "transition_group_id" event.payload)
      raise_if
          (not (
            str_eq id (
              transition_id_at rt event.v event.unit_key (channel_text channel) from to trigger
                episode evidence)))
          id_mismatch
      instant ← event_instant record_in_future event.ts
      ok (record {
        transition_id = id;
        phase = phase;
        identity = record {
          version = event.v;
          unit_key = event.unit_key;
          channel = channel;
          from_state = from;
          to_state = to;
          trigger = trigger;
          from_episode_id = episode;
          evidence = rt.canonical_json evidence;
          group = group;
        };
        evidence = evidence;
        instant = instant;
        index = index;
      })

    abbrev some_record : History JournalRecord → History (Option JournalRecord)
    some_record r = do record_ ← r; ok (some record_)

    -- A STATE event without a marker belongs to no transition.
    unfoldable pub journal_record : History (Option JournalRecord)
    unfolding state_record
    journal_record =
        if has_any journal_marker_fields event.payload then some_record state_record else ok none

  -- The loop over the events of the log, from a place in it.
  unfoldable pub journal_records : String → ℕ → List Event → History (List JournalRecord)
  unfolding journal_record
  journal_records unit_key index [] = ok []
  journal_records unit_key index (e ∷ events) =
      let rest = journal_records unit_key (index + 1) events in
      if str_eq e.unit_key unit_key && str_eq e.event "STATE"
      then (do r ← journal_record e index; l ← rest; ok (cons_record r l))
      else rest
