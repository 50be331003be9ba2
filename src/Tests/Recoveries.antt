-- ===== src/Tests/Recoveries.antt =====
-- Crashes, recovery and observation in the sample world.
use vocab_system.Base.{
  ℕ, ◌≡◌, refl, String, true, none, some, List, [], ◌∷◌, ◌++◌, Result, ok, err, arith,
}
use vocab_system.Base.Int.{pos}
use vocab_system.Contracts.{days}
use vocab_system.Contracts.Keys.{slug_rest, key_rest, key_sense}
use vocab_system.Contracts.Channels.{Channel, reading, listening}
use vocab_system.Contracts.States.{State, new, learning, first_review, is_transition}
use vocab_system.Models.{Event, LifecycleAssessment, PlannedTransition, ReconcileRunResult}
use vocab_system.Models.Units.{VocabUnit, to_note_fields}
use vocab_system.Models.Values.{obj, end}
use vocab_system.Journal.Records.{JournalRecord, identity_eq, prepare, commit, abort}
use vocab_system.Journal.Transactions.{
  History, Transaction, Transactions, lookup, journal_transactions,
}
use vocab_system.Journal.Provenance.{Episode}
use vocab_system.Journal.Reading.{journal_record, journal_records}
use vocab_system.Journal.Reading.Written.{written_event, IsStamp}
use vocab_system.Journal.History.{load_event_history}
use vocab_system.Journal.History.Explained.{IsHistory, load_event_history-IsHistory}
use vocab_system.Reconcile.Runtime.{Runtime}
use vocab_system.Reconcile.Plans.{is_digest, transition_id}
use vocab_system.Reconcile.Materialize.{payload_fields}
use vocab_system.Reconcile.Materialize.Effects.{Failure, conflict}
use vocab_system.Reconcile.Materialize.Validate.Frozen.{IsFrozen}
use vocab_system.Reconcile.Materialize.WriteAhead.{written}
use vocab_system.Reconcile.Observe.Notes.{unit_of, active_states_in}
use vocab_system.Reconcile.Observe.Notes.RoundTrip.{unit_of-to_note_fields}
use vocab_system.Reconcile.Observe.Attribution.{Ordinals, Cards, load_cards}
use vocab_system.Reconcile.Observe.Attributed.{IsAttribution, load_cards-IsAttribution}
use vocab_system.Reconcile.Recover.{plan_from_prepare, abort_in_conflict, recover_ungrouped}
use vocab_system.Reconcile.Recover.Pending.{ids_of}
use vocab_system.Reconcile.Recover.Unit.{reconcile_unit}
use vocab_system.Reconcile.Recover.Resolved.{Resolved, recover_ungrouped-Resolved}
use vocab_system.Reconcile.Recover.Aborts.{abort_in_conflict_live}
use vocab_system.Reconcile.Recover.Crash.{
  plan_from_prepare-journal_record, journal_transactions-prepared,
}
use vocab_system.Tests.Samples.{sample_runtime, sample_unicode}
use vocab_system.Tests.Worlds.{World, sample_note, sample_port, sample_view, sample-IsTruthful}

abbrev pub hex : String
hex = "0123456789abcdef0123456789abcdef0123456789abcdef0123456789abcdef"

abbrev hex_runtime : Runtime
hex_runtime = record sample_runtime { canonical_sha256 = λ _. hex }

abbrev plan : PlannedTransition
plan = record {
  channel = reading;
  from_state = new;
  to_state = learning;
  trigger = first_review;
  from_episode_id = "initial-new:0123456789abcdef0123456789abcdef0123456789abcdef0123456789abcdef";
  evidence = obj end;
  transition_id = hex;
  transition_group_id = "";
}

abbrev prepared_event : Event
unfolding payload_fields
prepared_event = written_event "bank::river" "day 1" "day" plan prepare

abbrev committed_event : Event
unfolding payload_fields
committed_event = written_event "bank::river" "day 2" "day" plan commit

-- A new Unit whose only channel is that of the plan.
abbrev pub unit : VocabUnit
unit = record {
  unit_key = "bank::river";
  lemma = "bank";
  lemma_slug = "bank";
  sense_slug = "river";
  unit_type = "word";
  target_r = "1";
  target_l = "";
  target_w = "";
  target_s = "";
  register = "neutral";
  definition_en = "land beside a river";
  source_ref = "dictionary:cambridge:bank";
  source_sentence = "the bank of the river";
  ctx_1 = "";
  ctx_2 = "";
  ctx_3 = "";
  ctx_4 = "";
  ctx_5 = "";
  audio_1 = "";
  audio_2 = "";
  audio_3 = "";
  visual_cue = "";
  state_r = "LEARNING";
  state_l = "";
  state_w = "";
  state_s = "";
  freq_band = "";
  created = "";
  graduated = "";
}

abbrev world : World
world = record {
  written_events = [];
  note_fields = to_note_fields unit;
  card_queue = pos 0;
  note_cards = pos 11 ∷ [];
  logged_events = prepared_event ∷ [];
}

unit_read_back : unit_of (to_note_fields unit) ≡ unit
unit_read_back = unit_of-to_note_fields unit

abbrev active : List (Channel × State)
active = (reading, learning) ∷ []

recover_ungrouped-Resolved_example : Resolved sample_view plan world (
    recover_ungrouped sample_unicode hex_runtime
      (λ _. true)
      sample_port
      sample_note
      100
      "bank::river"
      active
      plan
      []
      world)
recover_ungrouped-Resolved_example =
    recover_ungrouped-Resolved sample_port sample_view sample_note sample-IsTruthful "bank::river"
      plan sample_unicode hex_runtime (λ _. true) 100 active [] world

abbrev open_plans : List PlannedTransition
open_plans = plan ∷ record plan { channel = listening } ∷ []

abort_in_conflict_live_example :
    ((abort_in_conflict sample_port "bank::river" open_plans world).0
      ≡ err (conflict (ids_of open_plans)))
    × (sample_view.events (abort_in_conflict sample_port "bank::river" open_plans world).1
        ≡ sample_view.events world ++ written abort open_plans)
abort_in_conflict_live_example =
    abort_in_conflict_live sample_port sample_view sample_note sample-IsTruthful (λ u j w. refl)
      "bank::river" open_plans world

abbrev late : ℕ
late = days 30

stamped : IsStamp hex_runtime late "day 1" (days 1)
stamped = record { filled = refl; parsed = refl; normal = refl; past = omega arith }

frozen : IsFrozen hex_runtime "bank::river" plan
unfolding is_digest transition_id is_transition
frozen = record {
  edge = refl;
  episode = refl;
  object = refl;
  digest = refl;
  hashed = refl;
  group = refl;
}

plan_from_prepare-journal_record_example :
    (r : JournalRecord) × (journal_record hex_runtime late
        (written_event "bank::river" "day 1" "day" plan commit)
        3
      ≡ ok (some r))
    × (r.phase ≡ commit)
    × (plan_from_prepare hex_runtime "bank::river" r ≡ ok plan)
plan_from_prepare-journal_record_example =
    plan_from_prepare-journal_record hex_runtime late "bank::river" "day 1" "day" (days 1) stamped
      plan frozen commit 3

journal_transactions-prepared_example :
    (rs' : List JournalRecord) × (m' : Transactions) × (journal_records hex_runtime late
        "bank::river" 0
        ([] ++ (written_event "bank::river" "day 1" "day" plan prepare ∷ []))
      ≡ ok rs')
    × (journal_transactions rs' ≡ ok m')
    × (t : Transaction) × (lookup hex m' ≡ some t)
    × (t.terminal ≡ none)
    × (plan_from_prepare hex_runtime "bank::river" t.prepared ≡ ok plan)
unfolding journal_records journal_transactions lookup
journal_transactions-prepared_example =
    journal_transactions-prepared hex_runtime late "bank::river" "day 1" "day" (days 1) stamped plan
      frozen [] [] [] refl refl refl

abbrev event_log : List Event
unfolding prepared_event committed_event
event_log = prepared_event ∷ committed_event ∷ []

abbrev history : History (List (Channel × List LifecycleAssessment) × List (Channel × Episode))
unfolding load_event_history event_log
history = load_event_history hex_runtime late "bank::river" active event_log

abbrev assessments_of :
    History (List (Channel × List LifecycleAssessment) × List (Channel × Episode))
    → List (Channel × List LifecycleAssessment)
assessments_of (ok (a, e)) = a
assessments_of (err x) = []

abbrev episodes_of :
    History (List (Channel × List LifecycleAssessment) × List (Channel × Episode))
    → List (Channel × Episode)
episodes_of (ok (a, e)) = e
episodes_of (err x) = []

load_event_history-IsHistory_example :
    IsHistory hex_runtime late "bank::river" event_log active (episodes_of history)
unfolding history journal_transactions identity_eq
load_event_history-IsHistory_example =
    load_event_history-IsHistory hex_runtime late "bank::river" active event_log
      (assessments_of history) (episodes_of history) refl

abbrev ordinals : Ordinals
ordinals = (0, reading) ∷ []

abbrev cards_of : Result Failure Cards × World → Cards
cards_of (ok c, w) = c
cards_of (err e, w) = []

abbrev cards : Cards
unfolding load_cards
cards = cards_of (load_cards sample_note (pos 11 ∷ []) ordinals active sample_port world)

load_cards-IsAttribution_example : IsAttribution (pos 11 ∷ []) active cards
unfolding cards
load_cards-IsAttribution_example =
    load_cards-IsAttribution sample_note (pos 11 ∷ []) ordinals active sample_port world cards world
      refl

abbrev ids_committed : Result Failure ReconcileRunResult × World → List String
ids_committed (ok r, w) = r.committed_transition_ids
ids_committed (err e, w) = []

-- A whole run: the transition that a crash left open behind its update is committed.
reconcile_unit_recovers :
    ids_committed
      (reconcile_unit sample_unicode hex_runtime (λ _. true) sample_port sample_note late world)
    ≡ hex ∷ []
unfolding reconcile_unit to_note_fields slug_rest key_rest key_sense active_states_in
reconcile_unit_recovers = refl
