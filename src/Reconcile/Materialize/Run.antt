-- ===== src/Reconcile/Materialize/Run.antt =====
-- `_materialize_decision`: validation, the guard against a second PREPARE, and the plans in turn.
pub mod Guard
pub mod Serial
use vocab_system.Base.{
  String, Bool, true, false, Option, none, some, List, [], ◌∷◌, map, any, if◌then◌else◌, Result, ok,
  err,
}
use vocab_system.Base.Text.{str_eq}
use vocab_system.Base.Int.{ℤ}
use vocab_system.Models.{UnitProgress, PlannedTransition, ReconcileDecision, ReconcileRunResult}
use vocab_system.Journal.Transactions.{Transaction, Transactions, lookup}
use vocab_system.Reconcile.Runtime.{Runtime}
use vocab_system.Reconcile.Materialize.Effects.{
  lift, Port, Step, Failure, id_reused, after, ◌>>=◌, ◌>>◌, stop_if,
}
use vocab_system.Reconcile.Materialize.Validate.{is_grouped, validate_materialization_decision}
use vocab_system.Reconcile.Materialize.{materialize_ungrouped, materialize_dormancy}

abbrev pub is_known : Option Transaction → Bool
is_known none = false
is_known (some t) = true

-- `plan.transition_id in journal_transactions`
unfoldable pub is_reused : Transactions → PlannedTransition → Bool
unfolding lookup
is_reused transactions p = is_known (lookup p.transition_id transactions)

abbrev pub result_of :
    UnitProgress → ReconcileDecision → List PlannedTransition → ReconcileRunResult
result_of progress decision committed = record {
  unit_key = progress.unit_key;
  committed_transition_ids = map (λ (p : PlannedTransition). p.transition_id) committed;
  recovered_transition_ids = [];
  aborted_transition_ids = [];
  reactivation_required_card_ids = decision.reactivation_required_card_ids;
  leech_rescue_channels = decision.leech_rescue_channels;
}

abbrev ids_of : List PlannedTransition → List String
ids_of plans = map (λ (p : PlannedTransition). p.transition_id) plans

module _ {W : Type 0} (rt : Runtime) (port : Port W) (note : ℤ) (progress : UnitProgress)
    (decision : ReconcileDecision) where
  -- The loop over ungrouped plans.
  unfoldable pub materialize_each : List PlannedTransition → Step W (Unit {0})
  unfolding materialize_ungrouped
  materialize_each [] = lift (ok tt)
  materialize_each (p ∷ l) = do
    materialize_ungrouped port note progress.unit_key p true
    materialize_each l

  unfoldable pub materialize_plans : List PlannedTransition → Step W ReconcileRunResult
  unfolding materialize_each materialize_dormancy
  materialize_plans [] = lift (ok (result_of progress decision []))
  materialize_plans (p ∷ l) = do
    if is_grouped p
        then materialize_dormancy port note progress.unit_key (p ∷ l) decision.suspend_card_ids
            (ids_of (p ∷ l)) (ids_of (p ∷ l))
        else materialize_each (p ∷ l)
    lift (ok (result_of progress decision (p ∷ l)))

  unfoldable pub materialize_decision : Transactions → Step W ReconcileRunResult
  unfolding materialize_plans validate_materialization_decision is_reused
  materialize_decision transactions = do
    plans ← lift (validate_materialization_decision rt progress decision)
    stop_if (any (is_reused transactions) plans) id_reused
    materialize_plans plans
