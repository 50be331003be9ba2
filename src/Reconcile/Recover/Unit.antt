-- ===== src/Reconcile/Recover/Unit.antt =====
-- `reconcile_unit` and `reactivate_relapse_channel`: a whole run for one Unit.
use vocab_system.Base.{
  ℕ, String, Bool, true, false, not, Option, none, some, List, [], ◌∷◌, if◌then◌else◌, ok, err,
}
use vocab_system.Base.Int.{ℤ}
use vocab_system.Base.Text.{str_eq}
use vocab_system.Contracts.Channels.{parse_channel}
use vocab_system.Models.{ChannelProgress, ReconcileRunResult}
use vocab_system.Matching.Tokens.{Unicode}
use vocab_system.Journal.Transactions.{Transactions, journal_transactions}
use vocab_system.Journal.Reading.{journal_records}
use vocab_system.Reconcile.Runtime.{Runtime}
use vocab_system.Reconcile.Decide.{decide_transitions}
use vocab_system.Reconcile.Materialize.Cards.{queue_of, is_suspended_queue, read_card_queues}
use vocab_system.Reconcile.Materialize.Effects.{
  Template, Port, Step, recovery_unread, recovery_journal, decision_failed, unconfirmed,
  channel_unknown, channel_inactive_now, not_relapsed, unsuspend_failed, still_suspended, ◌>>=◌,
  ◌>>◌, stop_if, call, reply, lift, lift_as,
}
use vocab_system.Reconcile.Materialize.Run.{materialize_decision}
use vocab_system.Reconcile.Observe.Notes.{load_note}
use vocab_system.Reconcile.Observe.{observe_unit}
use vocab_system.Reconcile.Recover.Pending.{recover_pending_operation}

module _ {W : Type 0} (rt : Runtime) (port : Port W) where
  -- `_read_recovery_transactions`
  unfoldable pub read_recovery_transactions : ℕ → String → Step W Transactions
  unfolding journal_records journal_transactions
  read_recovery_transactions now unit_key = do
    events ← reply recovery_unread port.read_strict
    records ← lift_as recovery_journal (journal_records rt now unit_key 0 events)
    lift_as recovery_journal (journal_transactions records)

module _ {W : Type 0} (u : Unicode) (rt : Runtime) (verified : List Template → Bool) (port : Port W)
    (note : ℤ) (now : ℕ) where
  -- The run where nothing was left open.
  unfoldable pub run_fresh : Transactions → Step W ReconcileRunResult
  unfolding observe_unit decide_transitions materialize_decision
  run_fresh transactions = do
    progress ← observe_unit u rt verified port note now
    decision ← lift_as decision_failed (decide_transitions rt progress now)
    materialize_decision rt port note progress decision transactions

  abbrev recovered_or :
      Option ReconcileRunResult → Step W ReconcileRunResult → Step W ReconcileRunResult
  recovered_or none m = m
  recovered_or (some r) m = lift (ok r)

  -- `reconcile_unit`
  unfoldable pub reconcile_unit : Step W ReconcileRunResult
  unfolding load_note read_recovery_transactions recover_pending_operation run_fresh
  reconcile_unit = do
    n ← load_note u port note
    transactions ← read_recovery_transactions rt port now n.unit.unit_key
    recovered ← recover_pending_operation u rt verified port note now n transactions
    recovered_or recovered (run_fresh transactions)

  -- `next((item for item in progress.channels if item.channel == channel), None)`
  unfoldable pub selected : String → List ChannelProgress → Option ChannelProgress
  selected channel [] = none
  selected channel (c ∷ l) =
      let rest = selected channel l in if str_eq c.channel channel then some c else rest

  abbrev pub is_known : String → Bool
  is_known channel = elim (parse_channel channel) [ none ↦ false | some c ↦ true ]

  unfoldable pub reactivate : Option ChannelProgress → Step W Bool
  unfolding read_card_queues queue_of
  reactivate none = lift (err channel_inactive_now)
  reactivate (some c) = do
    stop_if (not (str_eq c.state "RELAPSE")) not_relapsed
    if not c.is_suspended then lift (ok false) else (do
      call unsuspend_failed (port.unsuspend (c.card_id ∷ []))
      queues ← read_card_queues port note (c.card_id ∷ [])
      stop_if (is_suspended_queue (queue_of c.card_id queues)) still_suspended
      lift (ok true))

  -- `reactivate_relapse_channel`
  unfoldable pub reactivate_relapse_channel : String → Bool → Step W Bool
  unfolding observe_unit reactivate selected parse_channel
  reactivate_relapse_channel channel confirmed = do
    stop_if (not confirmed) unconfirmed
    stop_if (not (is_known channel)) channel_unknown
    progress ← observe_unit u rt verified port note now
    reactivate (selected channel progress.channels)
