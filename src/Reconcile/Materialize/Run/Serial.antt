-- ===== src/Reconcile/Materialize/Run/Serial.antt =====
-- Ungrouped plans are written one after the other.
use vocab_system.Base.{◌≡◌, refl, sym, ap, ◌∙◌, true, List, [], ◌∷◌, ◌++◌, Result, ok, err}
use mathlib.Core.List.{append_assoc, append-nil}
use vocab_system.Base.Int.{ℤ}
use vocab_system.Models.{UnitProgress, PlannedTransition, ReconcileDecision}
use vocab_system.Models.Values.{Json}
use vocab_system.Journal.Records.{prepare, commit}
use vocab_system.Reconcile.Runtime.{Runtime}
use vocab_system.Reconcile.Materialize.{materialize_ungrouped}
use vocab_system.Reconcile.Materialize.Effects.{Port, Step, Failure, after}
use vocab_system.Reconcile.Materialize.Readback.{View, IsTruthful}
use vocab_system.Reconcile.Materialize.WriteAhead.{
  written, Written, finished, preparing, committing, WritesAhead,
}
use vocab_system.Reconcile.Materialize.Protocol.{IsApplied, materialize_ungrouped-WritesAhead}
use vocab_system.Reconcile.Materialize.Run.{materialize_each}

-- The events of the plans in turn: PREPARE and COMMIT of each, up to the one that fails.
pub data IsSerial : List PlannedTransition → Result Failure (Unit {0}) → List Json → Type 0 where
  complete : IsSerial [] (ok tt) []
  stopped :
      {p : PlannedTransition} {l : List PlannedTransition} {e : Failure} {s : List Json}
      → Written (p ∷ []) (Unit {0}) (err e) s
      → IsSerial (p ∷ l) (err e) s
  next :
      {p : PlannedTransition} {l : List PlannedTransition} {r : Result Failure (Unit {0})}
      {s : List Json}
      → IsSerial l r s
      → IsSerial (p ∷ l) r ((written prepare (p ∷ []) ++ written commit (p ∷ [])) ++ s)

-- The events that a run has added are serial.
abbrev pub WritesSerially :
    {W : Type 0} → View W → W → List PlannedTransition → Result Failure (Unit {0}) × W → Type 0
WritesSerially v w plans (r, w') =
    (s : List Json) × (v.events w' ≡ v.events w ++ s) × IsSerial plans r s

forget :
    {applied : Type 0} {plans : List PlannedTransition} {e : Failure} {s : List Json}
    → Written plans applied (err e) s
    → Written plans (Unit {0}) (err e) s
forget (preparing now later split) = preparing now later split
forget (committing now later done split) = committing now later tt split

both_events :
    {applied : Type 0} {p : PlannedTransition} {s : List Json}
    → Written (p ∷ []) applied (ok tt) s
    → s ≡ written prepare (p ∷ []) ++ written commit (p ∷ [])
both_events (finished done) = refl

module _ {W : Type 0} (rt : Runtime) (port : Port W) (note : ℤ) (progress : UnitProgress)
    (decision : ReconcileDecision) (v : View W) (t : IsTruthful port v note) where
  serial_next :
      (p : PlannedTransition) (l : List PlannedTransition) (w w' : W)
      (q : Result Failure (Unit {0}) × W)
      → v.events w' ≡ v.events w ++ (written prepare (p ∷ []) ++ written commit (p ∷ []))
      → WritesSerially v w' l q
      → WritesSerially v w (p ∷ l) q
  serial_next p l w w' (r, w'') first (s, events, serial) = (
    (written prepare (p ∷ []) ++ written commit (p ∷ [])) ++ s,
    events
        ∙ ap (λ x. x ++ s) first
        ∙ append_assoc (v.events w) (written prepare (p ∷ []) ++ written commit (p ∷ [])) s,
    next serial,
  )

  serial_after :
      (p : PlannedTransition) (l : List PlannedTransition) (w : W)
      (q : Result Failure (Unit {0}) × W) (m : Step W (Unit {0}))
      → WritesAhead v w (p ∷ []) (IsApplied v p) q
      → ((w' : W) → WritesSerially v w' l (m w'))
      → WritesSerially v w (p ∷ l) (after q (λ _. m))
  serial_after p l w (ok tt, w') m (s, events, done) rest =
      serial_next p l w w' (m w') (events ∙ ap (λ x. v.events w ++ x) (both_events done)) (rest w')
  serial_after p l w (err e, w') m (s, events, done) rest = (s, events, stopped (forget done))

  -- Over a port that reports truly, ungrouped plans are written one after the other: a PREPARE
  -- record is written only when the plan before it has its COMMIT record, and a failure ends the
  -- run.
  pub materialize_each-WritesSerially :
      (plans : List PlannedTransition) (w : W)
      → WritesSerially v w plans (materialize_each rt port note progress decision plans w)
  unfolding materialize_each
  materialize_each-WritesSerially [] w = ([], sym (append-nil _), complete)
  materialize_each-WritesSerially (p ∷ l) w =
      serial_after p l w (materialize_ungrouped port note progress.unit_key p true w)
        (materialize_each rt port note progress decision l)
        (materialize_ungrouped-WritesAhead port v note t progress.unit_key p w)
        (materialize_each-WritesSerially l)
