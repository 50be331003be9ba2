-- ===== src/Journal/History.antt =====
-- `_lifecycle_assessment` and `_load_event_history`: what the events of a Unit say of its channels.
pub mod Explained
use vocab_system.Base.{
  ℕ, ◌+◌, String, Bool, true, false, not, ◌||◌, Option, none, some, List, [], ◌∷◌, any, map, ◌==◌,
  agree, if◌then◌else◌, ok, err, raise_if, ◌>>=◌, ◌>>◌,
}
use vocab_system.Base.Text.{str_eq, str_in, is_blank}
use vocab_system.Contracts.Channels.{Channel, channel_eq, channel_text, parse_channel}
use vocab_system.Contracts.States.{State}
use vocab_system.Models.{Event, LifecycleAssessment}
use vocab_system.Models.Values.{Json, num, flag, text, Fields, json_field, field_names}
use vocab_system.Assessment.Results.{Outcome, pass, fail, omitted, abstain, parse_outcome}
use vocab_system.Reconcile.Runtime.{Runtime}
use vocab_system.Reconcile.Input.{Timed, sort_timed}
use vocab_system.Journal.Records.{JournalRecord}
use vocab_system.Journal.Transactions.{
  History, envelope_version, producer_version_unknown, outcome_unknown, passed_differs,
  fields_claimed, fields_incomplete, channel_disabled, producer_malformed, channel_invalid,
  judgement_not_boolean, judgement_blank, judgement_in_future,
}
use vocab_system.Journal.Provenance.{Episode, state_episode_provenance}
use vocab_system.Journal.Reading.{
  has_any, has_all, found, named, event_instant, journal_record, cons_record,
}

-- LIFECYCLE_JUDGE_REQUIRED_PAYLOAD_FIELDS
abbrev pub lifecycle_judge_fields : List String
lifecycle_judge_fields = "assessment_id" ∷ "stimulus_ref" ∷ "novel" ∷ []

-- T12_ONLY_JUDGE_MARKER_FIELDS
abbrev pub t12_only_judge_marker_fields : List String
t12_only_judge_marker_fields =
    "producer_version" ∷ "attempt_id" ∷ "presented_stimulus_ref" ∷ "outcome" ∷ "authority_kind"
    ∷ "provenance" ∷ []

-- An actual boolean.
abbrev pub flag_of : Option Json → Option Bool
flag_of (some (flag b)) = some b
flag_of _ = none

abbrev is_number : Option Json → ℕ → Bool
is_number (some (num n)) m = n == m
is_number _ m = false

abbrev is_producer : Option Json → Bool
is_producer (some (text s)) = str_eq s "t12-assessment"
is_producer _ = false

-- A text with a character that is no blank.
abbrev pub filled : String → Option String
filled s = if is_blank s then none else some s

abbrev is_pass : Outcome → Bool
is_pass pass = true
is_pass _ = false

-- Only PASS and FAIL enter the lifecycle; T12_LIFECYCLE_ENABLED_CHANNELS are the four channels.
unfoldable pub t12_outcome : Outcome → Fields → History Bool
unfolding parse_channel
t12_outcome omitted payload = do
  raise_if (has_any lifecycle_judge_fields payload) fields_claimed
  ok false
t12_outcome abstain payload = do
  raise_if (has_any lifecycle_judge_fields payload) fields_claimed
  ok false
t12_outcome outcome payload = do
  raise_if (not (has_all lifecycle_judge_fields payload)) fields_incomplete
  _ ← found channel_disabled (named parse_channel (json_field "channel" payload))
  ok true

-- The envelope of the T12 producer.
unfoldable pub check_t12 : Event → History Bool
unfolding t12_outcome parse_outcome
check_t12 event = do
  raise_if (not (event.v == 1)) envelope_version
  raise_if (not (is_number (json_field "producer_version" event.payload) 1))
      producer_version_unknown
  outcome ← found outcome_unknown (named parse_outcome (json_field "outcome" event.payload))
  passed ← found passed_differs (flag_of (json_field "passed" event.payload))
  raise_if (not (agree passed (is_pass outcome))) passed_differs
  t12_outcome outcome event.payload

-- Whether the event goes on to the lifecycle fields.
unfoldable pub check_producer : Event → History Bool
unfolding check_t12
check_producer event =
    if is_producer (json_field "producer" event.payload)
    then check_t12 event
    else if str_in "producer" (field_names event.payload)
        || has_any t12_only_judge_marker_fields event.payload
    then err producer_malformed
    else ok true

module _ (rt : Runtime) (now : ℕ) where
  -- The lifecycle fields of a JUDGE event.
  unfoldable pub judgement : Event → History Timed
  unfolding event_instant parse_channel is_blank
  judgement event = do
    raise_if (not (has_all lifecycle_judge_fields event.payload)) fields_incomplete
    channel ← found channel_invalid (named parse_channel (json_field "channel" event.payload))
    passed ← found judgement_not_boolean (flag_of (json_field "passed" event.payload))
    novel ← found judgement_not_boolean (flag_of (json_field "novel" event.payload))
    id ← found judgement_blank (named filled (json_field "assessment_id" event.payload))
    stimulus ← found judgement_blank (named filled (json_field "stimulus_ref" event.payload))
    model ← found judgement_blank (named filled (json_field "model_id" event.payload))
    version ← found judgement_blank (named filled (json_field "model_version" event.payload))
    instant ← event_instant rt now judgement_in_future event.ts
    ok (record {
      instant = instant;
      assessment = record {
        channel = channel_text channel;
        passed = passed;
        assessment_id = id;
        stimulus_ref = stimulus;
        novel = novel;
        ts = event.ts;
        model_id = model;
        model_version = version;
      };
    })

  abbrev some_judgement : History Timed → History (Option Timed)
  some_judgement m = do t ← m; ok (some t)

  -- An event without a lifecycle field is no assessment.
  unfoldable pub lifecycle_assessment : Event → History (Option Timed)
  unfolding check_producer judgement
  lifecycle_assessment event = do
    enters ← check_producer event
    if not enters
        then ok none
        else if not (has_any lifecycle_judge_fields event.payload)
        then ok none
        else some_judgement (judgement event)

  -- What the loop collects: assessments and records, in the order of the log.
  abbrev pub Collected : Type 0
  Collected = List Timed × List JournalRecord

  abbrev add_assessment : List String → Option Timed → List Timed → List Timed
  add_assessment active none l = l
  add_assessment active (some t) l = if str_in t.assessment.channel active then t ∷ l else l

  -- The loop over the events, from a place in the log.
  unfoldable pub collect : String → List String → ℕ → List Event → History Collected
  unfolding lifecycle_assessment journal_record
  collect unit_key active index [] = ok ([], [])
  collect unit_key active index (e ∷ events) =
      let rest = collect unit_key active (index + 1) events in
      if not (str_eq e.unit_key unit_key)
      then rest
      else if str_eq e.event "JUDGE"
      then (do t ← lifecycle_assessment e; (ts, rs) ← rest; ok (add_assessment active t ts, rs))
      else if str_eq e.event "STATE"
      then (do r ← journal_record rt now e index; (ts, rs) ← rest; ok (ts, cons_record r rs))
      else rest

  abbrev of_channel : Channel → List Timed → List Timed
  of_channel c [] = []
  of_channel c (t ∷ l) =
      let rest = of_channel c l in
      if str_eq t.assessment.channel (channel_text c) then t ∷ rest else rest

  -- The assessments of a channel by instant, then by place in the log.
  unfoldable pub ordered_assessments : Channel → List Timed → List LifecycleAssessment
  unfolding sort_timed
  ordered_assessments c l = map (λ (t : Timed). t.assessment) (sort_timed (of_channel c l))

  abbrev pub channel_names : List (Channel × State) → List String
  channel_names active = map (λ (c, s). channel_text c) active

  -- `_load_event_history`, from the events that read_strict returned.
  unfoldable pub load_event_history :
      String
      → List (Channel × State)
      → List Event
      → History (List (Channel × List LifecycleAssessment) × List (Channel × Episode))
  unfolding collect ordered_assessments state_episode_provenance
  load_event_history unit_key active events = do
    (timed, records) ← collect unit_key (channel_names active) 0 events
    episodes ← state_episode_provenance rt unit_key active records
    ok (map (λ (c, s). (c, ordered_assessments c timed)) active, episodes)
