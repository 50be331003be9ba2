-- ===== src/Events.antt =====
-- vocab/events.py, the envelope of an event: what log accepts and what a record of the log has to be.
pub mod File
pub mod Written
pub mod Trailing
pub mod Appended
use vocab_system.Base.{
  ℕ, String, Bool, true, false, not, ◌&&◌, Option, none, some, List, [], ◌∷◌, all, ◌==◌,
  if◌then◌else◌, Result, ok, err, raise_if, ◌>>=◌, ◌>>◌,
}
use vocab_system.Base.Text.{str_eq, str_in}
use vocab_system.Contracts.Channels.{parse_channel}
use vocab_system.Models.{Event}
use vocab_system.Models.Values.{Json, null, num, text, obj, Fields, end, field, json_field}
use vocab_system.Reconcile.Runtime.{Runtime, IsoText, malformed, naive, aware}

-- The exceptions of the module, by the check that raises. A version that is no integer and a version
-- without a decoder share one value.
pub data EventError : Type 0 where
  unknown_type unit_key_invalid payload_invalid metadata_missing channel_invalid : EventError
  payload_field_missing not_an_object envelope_field_missing version_refused : EventError
  timestamp_invalid timestamp_not_normalized day_mismatch : EventError
  unterminated malformed_line reserved_type not_serializable : EventError

abbrev pub Decoded : Type 0 → Type 0
Decoded A = Result EventError A

-- EVENT_TYPES
abbrev pub event_types : List String
event_types = "REVIEW" ∷ "JUDGE" ∷ "FORGE" ∷ "STATE" ∷ "SPEAK" ∷ "ENCOUNTER" ∷ []

-- RESERVED_EVENT_TYPES
abbrev pub reserved_event_types : List String
reserved_event_types = "REVIEW" ∷ []

-- EVENTS_REQUIRING_MODEL_METADATA
abbrev pub events_requiring_model_metadata : List String
events_requiring_model_metadata = "JUDGE" ∷ "SPEAK" ∷ []

-- MODEL_METADATA_FIELDS
abbrev pub model_metadata_fields : List String
model_metadata_fields = "model_id" ∷ "model_version" ∷ []

-- EVENT_PAYLOAD_REQUIRED_FIELDS
unfoldable pub event_payload_required_fields : String → List String
event_payload_required_fields event =
    if str_eq event "JUDGE"
    then "channel" ∷ "passed" ∷ "model_id" ∷ "model_version" ∷ []
    else if str_eq event "FORGE"
    then "source_ref" ∷ "accepted" ∷ []
    else if str_eq event "STATE"
    then "channel" ∷ "from" ∷ "to" ∷ "trigger" ∷ []
    else if str_eq event "SPEAK"
    then "audio_path" ∷ "transcript" ∷ "passed" ∷ "model_id" ∷ "model_version" ∷ []
    else if str_eq event "ENCOUNTER"
    then "count" ∷ "source" ∷ "month" ∷ []
    else []

-- EVENT_REQUIRED_FIELDS
abbrev pub event_required_fields : List String
event_required_fields = "v" ∷ "ts" ∷ "day" ∷ "event" ∷ "unit_key" ∷ "payload" ∷ []

abbrev pub expect : {A : Type 0} → EventError → Option A → Decoded A
expect error none = err error
expect error (some a) = ok a

abbrev pub known_type : Json → Option String
known_type (text s) = if str_in s event_types then some s else none
known_type _ = none

abbrev pub filled_text : Json → Option String
filled_text (text s) = if str_eq s "" then none else some s
filled_text _ = none

abbrev pub fields_of : Json → Option Fields
fields_of (obj fields) = some fields
fields_of _ = none

abbrev pub is_there : {A : Type 0} → Option A → Bool
is_there none = false
is_there (some a) = true

abbrev pub is_filled : Option Json → Bool
is_filled none = false
is_filled (some j) = is_there (filled_text j)

abbrev pub is_channel : Option Json → Bool
is_channel (some (text s)) = is_there (parse_channel s)
is_channel _ = false

-- Implication of two tests, `if a: require b`.
abbrev pub lacks : Bool → Bool → Bool
lacks a b = a && not b

-- `_validate_event_values`, with the values that have passed.
unfoldable pub validate_event_values : Json → Json → Json → Decoded (String × String × Fields)
unfolding event_payload_required_fields parse_channel
validate_event_values event unit_key payload = do
  e ← expect unknown_type (known_type event)
  k ← expect unit_key_invalid (filled_text unit_key)
  p ← expect payload_invalid (fields_of payload)
  raise_if
      (lacks (str_in e events_requiring_model_metadata)
        (all (λ f. is_filled (json_field f p)) model_metadata_fields))
      metadata_missing
  raise_if (lacks (str_eq e "STATE") (is_channel (json_field "channel" p))) channel_invalid
  raise_if (not (all (λ f. is_there (json_field f p)) (event_payload_required_fields e)))
      payload_field_missing
  ok (e, k, p)

abbrev pub value_or_null : Option Json → Json
value_or_null none = null
value_or_null (some j) = j

abbrev pub is_text : String → Json → Bool
is_text s (text t) = str_eq t s
is_text s _ = false

abbrev pub is_version_1 : Json → Bool
is_version_1 (num n) = n == 1
is_version_1 _ = false

abbrev pub instant_of : IsoText → Option ℕ
instant_of malformed = none
instant_of naive = none
instant_of (aware instant) = some instant

-- `_parse_timestamp`
unfoldable pub parse_timestamp : Runtime → Json → Decoded ℕ
parse_timestamp rt value = do
  s ← expect timestamp_invalid (filled_text value)
  expect timestamp_invalid (instant_of (rt.fromisoformat s))

-- `local_day` is `astimezone` to the local timezone with `strftime` of EVENT_DAY_FORMAT.
module _ (rt : Runtime) (local_day : ℕ → String) where
  -- The event of an instant, as it is stored.
  abbrev pub event_at : ℕ → String → String → Fields → Event
  event_at instant event unit_key payload = record {
    v = 1;
    ts = rt.isoformat instant;
    day = local_day instant;
    event = event;
    unit_key = unit_key;
    payload = payload;
  }

  -- `_decode_v1_event`; the time and the day are those of the record, which the tests compare.
  unfoldable pub decode_v1_event : Fields → Decoded Event
  unfolding validate_event_values parse_timestamp
  decode_v1_event fields = do
    (e, k, p) ←
        validate_event_values (value_or_null (json_field "event" fields))
          (value_or_null (json_field "unit_key" fields))
          (value_or_null (json_field "payload" fields))
    instant ← parse_timestamp rt (value_or_null (json_field "ts" fields))
    raise_if (not (is_text (rt.isoformat instant) (value_or_null (json_field "ts" fields))))
        timestamp_not_normalized
    raise_if (not (is_text (local_day instant) (value_or_null (json_field "day" fields))))
        day_mismatch
    ok (event_at instant e k p)

  -- `_event_from_record`
  unfoldable pub event_from_record : Json → Decoded Event
  unfolding decode_v1_event
  event_from_record value = do
    fields ← expect not_an_object (fields_of value)
    raise_if (not (all (λ f. is_there (json_field f fields)) event_required_fields))
        envelope_field_missing
    raise_if (not (is_version_1 (value_or_null (json_field "v" fields)))) version_refused
    decode_v1_event fields

-- `Event.to_dict`
unfoldable pub to_dict : Event → Json
to_dict e = obj (
    field "v" (num e.v) (
      field "ts" (text e.ts) (
        field "day" (text e.day) (
          field "event" (text e.event)
            (field "unit_key" (text e.unit_key) (field "payload" (obj e.payload) end))))))
