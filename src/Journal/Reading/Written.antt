-- ===== src/Journal/Reading/Written.antt =====
-- What a plan writes to the log is read back as its record.
use vocab_system.Base.{
  ℕ, ◌≤◌, ◌≡◌, refl, sym, String, true, false, Option, none, some, ltb, Bool-cases, inl, inr, arith,
  ok, if◌then◌else◌,
}
use vocab_system.Base.Text.{str_eq, str_eq_iff}
use vocab_system.Contracts.Channels.{parse_channel-channel_text}
use vocab_system.Contracts.States.{parse_state-state_text, parse_trigger-trigger_text}
use vocab_system.Models.{Event, PlannedTransition}
use vocab_system.Models.Values.{Json, obj, is_object}
use vocab_system.Reconcile.Runtime.{Runtime, aware}
use vocab_system.Reconcile.Plans.{event_schema_version, is_digest, transition_id}
use vocab_system.Reconcile.Materialize.{payload_fields}
use vocab_system.Reconcile.Materialize.Validate.Frozen.{IsFrozen}
use vocab_system.Journal.Records.{JournalRecord, Phase, parse_phase-phase_text}
use vocab_system.Journal.Transactions.{HistoryError}
use vocab_system.Journal.Reading.{event_instant, state_record, journal_record, object_of}

-- The event of a plan in a phase, as EventLog.log writes its payload.
abbrev pub written_event : String → String → String → PlannedTransition → Phase → Event
written_event unit_key ts day p phase = record {
  v = event_schema_version;
  ts = ts;
  day = day;
  event = "STATE";
  unit_key = unit_key;
  payload = payload_fields p phase;
}

abbrev pub group_option : String → Option String
group_option group = if str_eq group "" then none else some group

-- The record of a plan.
abbrev pub record_of : Runtime → String → PlannedTransition → Phase → ℕ → ℕ → JournalRecord
record_of rt unit_key p phase instant index = record {
  transition_id = p.transition_id;
  phase = phase;
  identity = record {
    version = event_schema_version;
    unit_key = unit_key;
    channel = p.channel;
    from_state = p.from_state;
    to_state = p.to_state;
    trigger = p.trigger;
    from_episode_id = p.from_episode_id;
    evidence = rt.canonical_json p.evidence;
    group = group_option p.transition_group_id;
  };
  evidence = p.evidence;
  instant = instant;
  index = index;
}

object_of-object : (j : Json) → is_object j ≡ true → object_of (some j) ≡ some j
object_of-object (obj fields) h = refl
object_of-object _ h = cc

-- A time of the log, with its instant.
pub record IsStamp (rt : Runtime) (now : ℕ) (ts : String) (instant : ℕ) : Type 0 where
  pub filled : str_eq ts "" ≡ false
  pub parsed : rt.fromisoformat ts ≡ aware instant
  pub normal : rt.isoformat instant ≡ ts
  pub past : instant ≤ now

IsStamp-event_instant :
    (rt : Runtime) (now : ℕ) (future : HistoryError) (ts : String) (instant : ℕ)
    → IsStamp rt now ts instant
    → event_instant rt now future ts ≡ ok instant
unfolding event_instant
IsStamp-event_instant rt now future ts instant s =
    rw (s.filled, s.parsed, (str_eq_iff ts (rt.isoformat instant)).1 (sym s.normal), not_late) refl
  where
    not_late : ltb now instant ≡ false
    not_late = ground (arith, s.past)

module _ (rt : Runtime) (now : ℕ) (unit_key ts day : String) (instant index : ℕ)
    (s : IsStamp rt now ts instant) (p : PlannedTransition) (f : IsFrozen rt unit_key p)
    (phase : Phase) where
  group_digest : str_eq p.transition_group_id "" ≡ false → is_digest p.transition_group_id ≡ true
  group_digest h = ground (arith, f.group)

  -- The record of every phase of a frozen plan is read back.
  pub journal_record-written_event :
      journal_record rt now (written_event unit_key ts day p phase) index
      ≡ ok (some (record_of rt unit_key p phase instant index))
  unfolding journal_record state_record payload_fields transition_id
  journal_record-written_event = elim (Bool-cases (str_eq p.transition_group_id "")) [
    | inl alone ↦
        rw
          (
            alone,
            parse_channel-channel_text p.channel,
            parse_state-state_text p.from_state,
            parse_state-state_text p.to_state,
            f.edge,
            parse_trigger-trigger_text p.trigger,
            f.digest,
            f.episode,
            parse_phase-phase_text phase,
            object_of-object p.evidence f.object,
            (str_eq_iff p.transition_id _).1 f.hashed,
            IsStamp-event_instant rt now HistoryError.record_in_future ts instant s,
          )
          refl
    | inr grouped ↦
        rw
          (
            grouped,
            parse_channel-channel_text p.channel,
            parse_state-state_text p.from_state,
            parse_state-state_text p.to_state,
            f.edge,
            parse_trigger-trigger_text p.trigger,
            f.digest,
            f.episode,
            parse_phase-phase_text phase,
            object_of-object p.evidence f.object,
            group_digest grouped,
            (str_eq_iff p.transition_id _).1 f.hashed,
            IsStamp-event_instant rt now HistoryError.record_in_future ts instant s,
          )
          refl
  ]
