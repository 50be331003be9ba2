-- ===== src/Reconcile/Recover/Pending.antt =====
-- `_recover_dormancy_group`, `_reject_mixed_terminal_dormancy_groups` and
-- `_recover_pending_operation`.
use vocab_system.Base.{
  ℕ, String, Bool, true, false, not, ◌&&◌, ◌||◌, Option, none, some, List, [], ◌∷◌, map, any, all,
  if◌then◌else◌, Result, ok, err,
}
use vocab_system.Base.Int.{ℤ}
use vocab_system.Base.Text.{str_eq, str_in}
use vocab_system.Contracts.Channels.{Channel}
use vocab_system.Contracts.States.{State, mastered, dormant}
use vocab_system.Models.{PlannedTransition, ReconcileRunResult}
use vocab_system.Matching.Tokens.{Unicode}
use vocab_system.Journal.Records.{commit, abort}
use vocab_system.Journal.Transactions.{Transaction, Transactions}
use vocab_system.Reconcile.Runtime.{Runtime}
use vocab_system.Reconcile.Revlog.{Card}
use vocab_system.Reconcile.Materialize.Cards.{
  Queues, queue_of, is_suspended_queue, all_suspended, read_card_queues, suspend_cards,
}
use vocab_system.Reconcile.Materialize.Effects.{
  Template, Port, Step, Failure, conflict, not_suspended, pending_ambiguous, pending_inconsistent,
  pending_groups, recovery_card_missing, recovery_unprepared, ◌>>=◌, ◌>>◌, stop_if, lift,
}
use vocab_system.Reconcile.Materialize.{
  state_updates, append_all, verify_note_states, materialize_dormancy,
}
use vocab_system.Reconcile.Observe.Notes.{Loaded, active_states}
use vocab_system.Reconcile.Observe.Attribution.{Cards, card_of}
use vocab_system.Reconcile.Observe.{load_attributed}
use vocab_system.Reconcile.Recover.{
  plan_from_prepare, abort_in_conflict, state_in, has_state, recovered_result, Fresh,
  fresh_decision, recover_ungrouped,
}
use vocab_system.Reconcile.Recover.Groups.{
  Members, member_of, has_terminal, is_open, reconstruct_dormancy_group,
  validate_recovered_group_channels,
}

abbrev is_pending : Option Transaction → Bool
is_pending none = false
is_pending (some t) = is_open t

-- The plans whose transaction is open.
unfoldable pub pending_of : Members → List PlannedTransition → List PlannedTransition
unfolding member_of
pending_of members [] = []
pending_of members (p ∷ l) =
    let rest = pending_of members l in
    if is_pending (member_of p.channel members) then p ∷ rest else rest

abbrev prepared_ids : Members → List String
prepared_ids members = map (λ (c, t). t.prepared.transition_id) members

abbrev pub ids_of : List PlannedTransition → List String
ids_of plans = map (λ (p : PlannedTransition). p.transition_id) plans

unfoldable pub keep_ids : (String → Bool) → List String → List String
keep_ids f [] = []
keep_ids f (s ∷ l) = let rest = keep_ids f l in if f s then s ∷ rest else rest

-- `cards_by_channel[plan.channel]["card_id"]`
unfoldable pub member_cards : Cards → List PlannedTransition → Result Failure (List ℤ)
unfolding card_of
member_cards cards [] = ok []
member_cards cards (p ∷ l) = add (card_of p.channel cards) (member_cards cards l)
  where
    add : Option Card → Result Failure (List ℤ) → Result Failure (List ℤ)
    add none rest = err recovery_card_missing
    add (some c) (err e) = err e
    add (some c) (ok ids) = ok (c.card_id ∷ ids)

-- The fresh plans are the members of the group, under the same ids.
abbrev same_texts_in_order : List String → List String → Bool
same_texts_in_order [] [] = true
same_texts_in_order (a ∷ l) (b ∷ m) = str_eq a b && same_texts_in_order l m
same_texts_in_order _ _ = false

unfoldable pub reproduces : List PlannedTransition → List PlannedTransition → Bool
reproduces (p ∷ l) (q ∷ m) =
    str_eq p.transition_group_id q.transition_group_id
    && same_texts_in_order (ids_of (p ∷ l)) (ids_of (q ∷ m))
reproduces _ _ = false

-- The cards of the queues that are not suspended.
unfoldable pub unsuspended : Queues → List ℤ → List ℤ
unfolding queue_of
unsuspended queues [] = []
unsuspended queues (c ∷ l) =
    let rest = unsuspended queues l in
    if is_suspended_queue (queue_of c queues) then rest else c ∷ rest

module _ {W : Type 0} (u : Unicode) (rt : Runtime) (verified : List Template → Bool) (port : Port W)
    (note : ℤ) (now : ℕ) (unit_key : String) where
  -- Every member is still MASTERED: the group is carried out, if it would be made again.
  unfoldable pub resume_group :
      List PlannedTransition → Members → Cards → Fresh → Step W ReconcileRunResult
  unfolding abort_in_conflict pending_of reproduces member_cards materialize_dormancy keep_ids
  resume_group plans members cards fresh =
      if not (reproduces (fresh.1) plans)
      then abort_in_conflict port unit_key (pending_of members plans)
      else (do
        suspend ← lift (member_cards cards (fresh.1))
        materialize_dormancy port note unit_key (fresh.1) suspend
            (keep_ids (λ id. not (str_in id (prepared_ids members))) (ids_of (fresh.1)))
            (ids_of (fresh.1))
        lift (
            ok (record {
              unit_key = unit_key;
              committed_transition_ids = ids_of (fresh.1);
              recovered_transition_ids =
                  keep_ids (λ id. str_in id (prepared_ids members)) (ids_of (fresh.1));
              aborted_transition_ids = [];
              reactivation_required_card_ids = [];
              leech_rescue_channels = (fresh.0).leech_rescue_channels;
            })))

  abbrev is_missing : Option Transaction → Bool
  is_missing none = true
  is_missing (some t) = false

  -- Every member is DORMANT already: the cards are suspended, and the open members committed.
  unfoldable pub complete_group :
      List PlannedTransition → Members → Cards → Step W ReconcileRunResult
  unfolding member_of verify_note_states state_updates member_cards read_card_queues suspend_cards
      unsuspended all_suspended append_all pending_of
  complete_group plans members cards = do
    stop_if (any (λ (p : PlannedTransition). is_missing (member_of p.channel members)) plans)
        recovery_unprepared
    verify_note_states port note (state_updates plans)
    ids ← lift (member_cards cards plans)
    queues ← read_card_queues port note ids
    suspend_cards port (unsuspended queues ids)
    after ← read_card_queues port note ids
    stop_if (not (all_suspended after ids)) not_suspended
    append_all port unit_key commit (ids_of (pending_of members plans)) (pending_of members plans)
    lift (ok (recovered_result unit_key (ids_of (pending_of members plans)) [] []))

  abbrev all_in : State → List (Channel × State) → List PlannedTransition → Bool
  all_in s active plans =
      all (λ (p : PlannedTransition). has_state (state_in p.channel active) s) plans

  -- `_recover_dormancy_group`
  unfoldable pub recover_dormancy_group :
      List (Channel × State) → List PlannedTransition → Members → Cards → Step W ReconcileRunResult
  unfolding resume_group complete_group fresh_decision abort_in_conflict pending_of state_in
  recover_dormancy_group active plans members cards =
      let has_committed = any (λ (c, t). has_terminal commit t) members in
      if all_in mastered active plans
      then (do
        stop_if has_committed (conflict [])
        fresh ← fresh_decision u rt verified port note now
        resume_group plans members cards fresh)
      else if all_in dormant active plans
      then complete_group plans members cards
      else (do
        stop_if has_committed (conflict [])
        abort_in_conflict port unit_key (pending_of members plans))

-- The transactions of a group, in the order of the journal.
abbrev in_group : String → Transaction → Bool
in_group group t = elim t.prepared.identity.group [ none ↦ false | some g ↦ str_eq g group ]

unfoldable pub group_transactions : String → Transactions → Transactions
group_transactions group [] = []
group_transactions group ((id, t) ∷ l) =
    let rest = group_transactions group l in if in_group group t then (id, t) ∷ rest else rest

unfoldable pub pending_in : Transactions → Transactions
pending_in [] = []
pending_in ((id, t) ∷ l) = let rest = pending_in l in if is_open t then (id, t) ∷ rest else rest

abbrev pub groups_in : Transactions → List (Option String)
groups_in l = map (λ (id, t). t.prepared.identity.group) l

-- The single group that all of the transactions are in.
unfoldable pub single_group : List (Option String) → Option String
single_group [] = none
single_group (none ∷ l) = none
single_group (some g ∷ []) = some g
single_group (some g ∷ l) = elim (single_group l) [
  | none ↦ none
  | some h ↦ if str_eq h g then some g else none
]

abbrev pub all_ungrouped : List (Option String) → Bool
all_ungrouped [] = true
all_ungrouped (none ∷ l) = all_ungrouped l
all_ungrouped (some g ∷ l) = false

module _ {W : Type 0} (rt : Runtime) (unit_key : String) (active : List (Channel × State)) where
  -- One group of `_reject_mixed_terminal_dormancy_groups`.
  unfoldable pub reject_mixed : String → Transactions → Step W (Unit {0})
  unfolding reconstruct_dormancy_group validate_recovered_group_channels
  reject_mixed group transactions =
      if any (λ (id, t). has_terminal commit t) transactions
        && any (λ (id, t). has_terminal abort t) transactions
      then (do
        (plans, members) ← lift (reconstruct_dormancy_group rt unit_key group transactions)
        lift (validate_recovered_group_channels active plans)
        lift (err (conflict [])))
      else lift (ok tt)

  -- The groups in the order of their first transaction.
  unfoldable pub reject_mixed_groups : List (Option String) → Transactions → Step W (Unit {0})
  unfolding reject_mixed group_transactions
  reject_mixed_groups [] transactions = lift (ok tt)
  reject_mixed_groups (none ∷ l) transactions = reject_mixed_groups l transactions
  reject_mixed_groups (some g ∷ l) transactions = do
    reject_mixed g (group_transactions g transactions)
    reject_mixed_groups l transactions

module _ {W : Type 0} (u : Unicode) (rt : Runtime) (verified : List Template → Bool) (port : Port W)
    (note : ℤ) (now : ℕ) (n : Loaded) where
  abbrev recovered : Step W ReconcileRunResult → Step W (Option ReconcileRunResult)
  recovered m = do r ← m; lift (ok (some r))

  -- A single open transition without a group.
  unfoldable pub recover_single : Transactions → Step W (Option ReconcileRunResult)
  unfolding plan_from_prepare load_attributed recover_ungrouped
  recover_single ((id, t) ∷ []) = do
    p ← lift (plan_from_prepare rt n.unit.unit_key t.prepared)
    stop_if (not (str_eq p.transition_id id) || not (str_eq p.transition_group_id ""))
        pending_inconsistent
    cards ← load_attributed u rt verified port note n
    recovered (
        recover_ungrouped u rt verified port note now n.unit.unit_key (active_states n.unit) p
          cards)
  recover_single _ = lift (err pending_ambiguous)

  -- An open dormancy group, with its closed members.
  unfoldable pub recover_group : Option String → Transactions → Step W (Option ReconcileRunResult)
  unfolding reconstruct_dormancy_group validate_recovered_group_channels abort_in_conflict
      pending_of group_transactions load_attributed recover_dormancy_group
  recover_group none transactions = lift (err pending_groups)
  recover_group (some group) transactions = do
    (plans, members) ← lift (
        reconstruct_dormancy_group rt n.unit.unit_key group (group_transactions group transactions))
    lift (validate_recovered_group_channels (active_states n.unit) plans)
    if any (λ (c, t). has_terminal abort t) members
        then recovered (abort_in_conflict port n.unit.unit_key (pending_of members plans))
        else (do
          cards ← load_attributed u rt verified port note n
          recovered (
              recover_dormancy_group u rt verified port note now n.unit.unit_key
                (active_states n.unit) plans members cards))

  unfoldable pub recover_open : Transactions → Transactions → Step W (Option ReconcileRunResult)
  unfolding recover_single recover_group single_group
  recover_open [] transactions = lift (ok none)
  recover_open (p ∷ pending) transactions =
      if all_ungrouped (groups_in (p ∷ pending))
      then recover_single (p ∷ pending)
      else recover_group (single_group (groups_in (p ∷ pending))) transactions

  -- `_recover_pending_operation`; `none` is that nothing is open.
  unfoldable pub recover_pending_operation : Transactions → Step W (Option ReconcileRunResult)
  unfolding reject_mixed_groups recover_open pending_in
  recover_pending_operation transactions = do
    reject_mixed_groups rt n.unit.unit_key (active_states n.unit) (groups_in transactions)
        transactions
    recover_open (pending_in transactions) transactions
