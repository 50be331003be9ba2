-- ===== src/Journal/Transactions.antt =====
-- `_journal_transactions`: the transaction of each transition id.
pub mod Independence
pub mod Prepared
pub mod Protocols
use vocab_system.Base.{
  String, Bool, true, false, not, Option, none, some, List, [], ◌∷◌, if◌then◌else◌, Result, ok, err,
  ◌>>=◌,
}
use vocab_system.Base.Text.{str_eq}
use vocab_system.Journal.Records.{
  JournalRecord, Phase, prepare, commit, abort, phase_eq, identity_eq,
}

-- The raises of ReconcileEventHistoryError over the journal.
pub data HistoryError : Type 0 where
  duplicate_prepare terminal_without_prepare identity_changed duplicate_terminal two_terminals :
      HistoryError
  broken_chain broken_provenance state_conflict : HistoryError
  field_missing channel_invalid state_invalid transition_invalid trigger_invalid : HistoryError
  id_invalid episode_invalid phase_invalid evidence_invalid group_invalid id_mismatch : HistoryError
  timestamp_empty timestamp_malformed timestamp_naive timestamp_not_normalized : HistoryError
  record_in_future : HistoryError
  envelope_version producer_version_unknown outcome_unknown passed_differs : HistoryError
  fields_claimed fields_incomplete channel_disabled producer_malformed : HistoryError
  judgement_not_boolean judgement_blank judgement_in_future : HistoryError
  log_unread entry_missing : HistoryError

abbrev pub History : Type 0 → Type 0
History = Result HistoryError

-- `terminal_phase` is the phase of the terminal record.
pub record Transaction : Type 0 where
  pub prepared : JournalRecord
  pub terminal : Option JournalRecord

-- A dict by transition id, in insertion order.
abbrev pub Transactions : Type 0
Transactions = List (String × Transaction)

unfoldable pub lookup : String → Transactions → Option Transaction
lookup k [] = none
lookup k ((j, t) ∷ m) = if str_eq j k then some t else lookup k m

-- `m[k] = t`
unfoldable pub insert : String → Transaction → Transactions → Transactions
insert k t [] = (k, t) ∷ []
insert k t ((j, u) ∷ m) = if str_eq j k then (j, t) ∷ m else (j, u) ∷ insert k t m

-- A terminal record is the first one, or is refused.
unfoldable pub set_terminal :
    Transaction → Option JournalRecord → JournalRecord → History Transaction
set_terminal t none r = ok (record t { terminal = some r })
set_terminal t (some before) r =
    if phase_eq before.phase r.phase then err duplicate_terminal else err two_terminals

-- A COMMIT or ABORT record closes the transaction that its PREPARE opened.
unfoldable pub close : Option Transaction → JournalRecord → History Transaction
unfolding set_terminal
close none r = err terminal_without_prepare
close (some t) r =
    if not (identity_eq t.prepared.identity r.identity)
    then err identity_changed
    else set_terminal t t.terminal r

-- A PREPARE record opens a transaction under a fresh id.
unfoldable pub open_with : Option Transaction → JournalRecord → History Transaction
open_with none r = ok (record { prepared = r; terminal = none })
open_with (some t) r = err duplicate_prepare

-- What one record does to the transaction of its id.
unfoldable pub advance : Phase → Option Transaction → JournalRecord → History Transaction
unfolding close open_with
advance prepare t r = open_with t r
advance commit t r = close t r
advance abort t r = close t r

-- One round of the loop.
unfoldable pub add_record : Transactions → JournalRecord → History Transactions
unfolding advance lookup insert
add_record m r = do
  t ← advance r.phase (lookup r.transition_id m) r
  ok (insert r.transition_id t m)

unfoldable pub add_records : Transactions → List JournalRecord → History Transactions
unfolding add_record
add_records m [] = ok m
add_records m (r ∷ rs) = do m' ← add_record m r; add_records m' rs

unfoldable pub journal_transactions : List JournalRecord → History Transactions
unfolding add_records
journal_transactions rs = add_records [] rs
