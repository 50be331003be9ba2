-- ===== src/Lib.antt =====
-- vocab-system schedules vocabulary study in Anki. This library models the parts that decide:
-- which Units may enter the deck, what a Unit's observed progress lets it do, how a decision is
-- written to Anki and to the event log and recovered after a crash, when a text contains a Unit, and
-- which assessment results are valid.
--
-- Parts, with the paths of the repository:
--   Base           lists, results, texts and reports of codes over the native numbers
--   Contracts      vocab/contracts.py: closed vocabularies, Unit keys, engineering parameters
--   Models         vocab/models.py: VocabUnit, Event and the records of reconciliation
--   Events         vocab/events.py: the envelope of an event, EventLog.read, EventLog.read_strict and
--                  EventLog.log over the bytes of the file; Trailing is the backward scan of
--                  _read_trailing_record
--   Forge          vocab/validators.py: Units is validate_forge_unit, Contexts is
--                  validate_context_bank, Overlap its source-copy ratio
--   Reconcile      vocab/reconcile.py: Input is _validate_decision_input, Gates are the evidence
--                  gates, Plans the hashed transitions, Decide is decide_transitions, Materialize is
--                  _materialize_decision with its validation and its calls, Revlog is _load_revlog
--                  with _channel_progress, Observe is observe_unit with _load_note and _load_cards,
--                  Recover is _recover_pending_operation, and Recover/Unit is reconcile_unit with
--                  reactivate_relapse_channel
--   Journal        vocab/reconcile.py, the event log as it is read: Reading is _journal_record,
--                  History is _lifecycle_assessment and _load_event_history, Transactions is
--                  _journal_transactions, Provenance is _state_episode_provenance
--   Matching       vocab/validators.py: normalize_tokens, unit_match_spans, contains_unit
--   Assessment     vocab/validators.py: validate_t11_assessment_result
--   Leech          vocab/leech.py: verify_leech_config
--   Tests          runs on concrete data
--
-- reconcile_unit reads the note and the journal, recovers what a run before it left open, and else
-- observes, decides and materializes; the model composes these functions as the code does.
--
-- A raise is a value of Result or none; checks that raise the same complaint share one value. An
-- instant is a number of microseconds. What Python's datetime, json.dumps and the digest do is the
-- record Runtime, what Unicode does is the record Unicode. A field that the code checks by
-- isinstance has the type that passes. The overlap of a context is compared with its limit as an
-- exact fraction. Every loop is structural recursion, so no fuel is needed, but for the backward scan
-- of a log: its position falls in every round, so the length of the file is enough. The slot sizes of
-- a frame are the six of its range.
--
-- The calls of Anki and of the event log are the record Port over any world; IsTruthful says what its
-- reports and the log's appends are relied on for. In Events, what json and UTF-8 do with a line is
-- the record Codec. A failed append adds its record whole or not at all. verify_model_snapshot
-- of vocab/anki_template.py is the parameter `verified`.
--
-- Not modelled: opening and locking of the log's file, assessment production, capture and review
-- ledgers, speech, sessions, the forge pipeline, files and processes.
pub mod Base
pub mod Contracts
pub mod Models
pub mod Reconcile
pub mod Journal
pub mod Matching
pub mod Assessment
pub mod Leech
pub mod Forge
pub mod Events
mod Tests
