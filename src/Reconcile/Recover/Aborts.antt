-- ===== src/Reconcile/Recover/Aborts.antt =====
-- A conflict closes every open transition, where the log accepts records.
use vocab_system.Base.{
  ◌≡◌, refl, sym, ap, ◌∙◌, String, Bool, true, false, List, [], ◌∷◌, ◌++◌, Result, ok, err,
}
use mathlib.Core.List.{append_assoc, append-nil}
use vocab_system.Base.Int.{ℤ}
use vocab_system.Models.{PlannedTransition, ReconcileRunResult}
use vocab_system.Models.Values.{Json}
use vocab_system.Journal.Records.{abort}
use vocab_system.Reconcile.Materialize.Effects.{
  Port, Failure, conflict, append_failed, after, call, lift,
}
use vocab_system.Reconcile.Materialize.{append_state_event, state_payload}
use vocab_system.Reconcile.Materialize.Readback.{View, IsTruthful}
use vocab_system.Reconcile.Materialize.WriteAhead.{One, append_state_event-One, written}
use vocab_system.Reconcile.Recover.{abort_prepared_plans, abort_in_conflict}
use vocab_system.Reconcile.Recover.Pending.{ids_of}

-- The log accepts every record.
abbrev pub Accepts : {W : Type 0} → Port W → Type 0
Accepts {W} port = (u : String) (j : Json) (w : W) → (port.log u j w).0 ≡ true

module _ {W : Type 0} (port : Port W) (v : View W) (note : ℤ) (t : IsTruthful port v note)
    (accepts : Accepts port) (unit_key : String) where
  accepted :
      (p : PlannedTransition) (w : W) → (append_state_event port unit_key p abort w).0 ≡ ok tt
  unfolding append_state_event
  accepted p w =
      on (port.log unit_key (state_payload p abort) w) (accepts unit_key (state_payload p abort) w)
    where
      on : (q : Bool × W) → q.0 ≡ true → (call append_failed (λ _. q) w).0 ≡ ok tt
      on (true, w') h = refl
      on (false, w') h = absurd (cc)

  -- What a list of aborts has done.
  abbrev AbortedAll : List PlannedTransition → W → Result Failure (List String) × W → Type 0
  AbortedAll plans w (r, w') =
      (r ≡ ok (ids_of plans)) × (v.events w' ≡ v.events w ++ written abort plans)

  ids_after :
      (p : PlannedTransition) (l : List PlannedTransition) (w w' : W)
      → v.events w' ≡ v.events w ++ (state_payload p abort ∷ [])
      → (q : Result Failure (List String) × W) → AbortedAll l w' q
      → AbortedAll (p ∷ l) w (after q (λ ids. lift (ok (p.transition_id ∷ ids))))
  ids_after p l w w' added (ok ids, w'') (same, events) = (
    ap (λ (x : Result Failure (List String)). ok (p.transition_id ∷ ids_or x)) same,
    events
        ∙ ap (λ x. x ++ written abort l) added
        ∙ append_assoc (v.events w) (state_payload p abort ∷ []) (written abort l),
  )
    where
      ids_or : Result Failure (List String) → List String
      ids_or (ok i) = i
      ids_or (err e) = []
  ids_after p l w w' added (err e, w'') (same, events) = absurd (cc)

  aborted_first :
      (p : PlannedTransition) (l : List PlannedTransition) (w : W)
      (q : Result Failure (Unit {0}) × W)
      → q.0 ≡ ok tt
      → One port v note t unit_key (state_payload p abort) w q
      → ((x : W) → AbortedAll l x (abort_prepared_plans port unit_key l x))
      → AbortedAll (p ∷ l) w (
          after q (λ _ x.
            after
              (abort_prepared_plans port unit_key l x)
              (λ ids. lift (ok (p.transition_id ∷ ids)))))
  aborted_first p l w (ok a, w') h (added, same) rest =
      ids_after p l w w' added (abort_prepared_plans port unit_key l w') (rest w')
  aborted_first p l w (err e, w') h one rest = absurd (cc)

  abort_prepared_plans-AbortedAll :
      (plans : List PlannedTransition) (w : W)
      → AbortedAll plans w (abort_prepared_plans port unit_key plans w)
  unfolding abort_prepared_plans
  abort_prepared_plans-AbortedAll [] w = (refl, sym (append-nil _))
  abort_prepared_plans-AbortedAll (p ∷ l) w =
      aborted_first p l w (append_state_event port unit_key p abort w) (accepted p w)
        (append_state_event-One port v note t unit_key p abort w)
        (abort_prepared_plans-AbortedAll l)

  -- Over a port that reports truly and whose log accepts every record, a conflict appends the
  -- ABORT record of every open plan, in their order, and is raised with all of their ids.
  pub abort_in_conflict_live :
      (plans : List PlannedTransition) (w : W)
      → ((abort_in_conflict port unit_key plans w).0 ≡ err (conflict (ids_of plans)))
        × (v.events (abort_in_conflict port unit_key plans w).1 ≡ v.events w ++ written abort plans)
  unfolding abort_in_conflict
  abort_in_conflict_live plans w =
      raised (abort_prepared_plans port unit_key plans w) (abort_prepared_plans-AbortedAll plans w)
    where
      raised :
          (q : Result Failure (List String) × W)
          → AbortedAll plans w q
          → ((after {B = ReconcileRunResult} q (λ ids. lift (err (conflict ids)))).0
              ≡ err (conflict (ids_of plans)))
            × (v.events (after {B = ReconcileRunResult} q (λ ids. lift (err (conflict ids)))).1
                ≡ v.events w ++ written abort plans)
      raised (ok ids, w') (same, events) = (ap (λ i. err (conflict i)) (inner same), events)
        where
          inner : {a b : List String} → ◌≡◌ {A = Result Failure (List String)} (ok a) (ok b) → a ≡ b
          inner e = cc
      raised (err e, w') (same, events) = absurd (cc)
