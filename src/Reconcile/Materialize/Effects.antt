-- ===== src/Reconcile/Materialize/Effects.antt =====
-- The calls to AnkiConnect and to the event log, and steps that use them. A call that raises has
-- no value; the world may have changed all the same.
pub mod Inversion
use vocab_system.Base.{
  ◌≡◌, refl, ap, String, Bool, true, false, Option, none, some, List, Result, ok, err,
}
use vocab_system.Base.Int.{ℤ}
use vocab_system.Models.{Event}
use vocab_system.Models.Values.{Json}
use vocab_system.Journal.Transactions.{HistoryError}
use vocab_system.Reconcile.Input.{DecisionError}
use vocab_system.Reconcile.Revlog.{Review, RevlogError}

-- What `notesInfo` and `cardsInfo` report, as far as the code reads it.
pub record Note : Type 0 where
  pub note_id : ℤ
  pub model_name : String
  pub fields : List (String × String)
  pub cards : List ℤ
  pub tags : List String

pub record CardRow : Type 0 where
  pub card_id : ℤ
  pub note : ℤ
  pub queue : ℤ
  pub ord : ℤ
  pub interval : ℤ
  pub lapses : ℤ

-- A template of the note type.
pub record Template : Type 0 where
  pub ord : ℤ
  pub name : String

-- The client of Anki and the event log over the world W; `false` and `none` are raises.
pub record Port (W : Type 0) : Type 0 where
  pub log : String → Json → W → Bool × W
  pub update_note_fields : ℤ → List (String × String) → W → Bool × W
  pub notes_info : ℤ → W → Option (List Note) × W
  pub cards_info : List ℤ → W → Option (List CardRow) × W
  pub suspend : List ℤ → W → Option Bool × W
  pub unsuspend : List ℤ → W → Bool × W
  pub verified_note_type_snapshot : W → Option (List Template) × W
  pub get_revlog : List ℤ → W → Option (List (ℤ × List Review)) × W
  pub read_strict : W → Option (List Event) × W

-- The raises of reconciliation: first those of ReconcileMaterializationError.
pub data Failure : Type 0 where
  append_failed update_refused update_failed notes_unread note_count : Failure
  foreign_note foreign_model state_mismatch : Failure
  cards_unread card_count unknown_card duplicate_card foreign_card omitted_card : Failure
  suspend_failed suspend_unconfirmed not_suspended : Failure
  foreign_decision channel_inactive edge_invalid episode_empty evidence_invalid : Failure
  id_mismatch group_id_invalid channel_repeated channel_order source_stale : Failure
  group_mixed group_differs group_evidence group_edge group_mismatch : Failure
  cards_mismatch suspension_ungrouped id_reused : Failure
  -- ReconcileObservationError
  fields_differ unit_invalid cards_repeated : Failure
  snapshot_unread snapshot_unverified template_malformed template_repeated templates_differ :
      Failure
  ordinal_negative interval_negative lapses_negative ordinal_unknown : Failure
  channel_disabled channel_twice channel_without_card channel_unseen : Failure
  revlog_unread history_unread mastered_unentered : Failure
  revlog_failed : RevlogError → Failure
  history_failed : HistoryError → Failure
  -- ReconcileDecisionError
  decision_failed : DecisionError → Failure
  -- ReconcileRecoveryError
  recovery_unread pending_ambiguous pending_inconsistent pending_groups : Failure
  group_empty group_shape group_members group_episodes group_terminal : Failure
  group_duplicate group_undeclared group_identity group_channels : Failure
  recovery_card_missing recovery_unprepared : Failure
  recovery_journal : HistoryError → Failure
  -- ReconcileRecoveryConflictError, with the transitions that were aborted.
  conflict : List String → Failure
  -- ReconcileReactivationError
  unconfirmed channel_unknown channel_inactive_now not_relapsed unsuspend_failed still_suspended :
      Failure

abbrev pub Step : Type 0 → Type 0 → Type 0
Step W A = W → Result Failure A × W

module _ {W A B : Type 0} where
  abbrev pub after : Result Failure A × W → (A → Step W B) → Result Failure B × W
  after (ok a, w) f = f a w
  after (err e, w) f = (err e, w)

infixl 5 ◌>>=◌
abbrev pub ◌>>=◌ : {W A B : Type 0} → Step W A → (A → Step W B) → Step W B
(m >>= f) w = after (m w) f

infixl 5 ◌>>◌
abbrev pub ◌>>◌ : {W B : Type 0} → Step W (Unit {0}) → Step W B → Step W B
m >> n = m >>= λ _. n

-- `if test: raise failure`
abbrev pub stop_if : {W : Type 0} → Bool → Failure → Step W (Unit {0})
stop_if true e w = (err e, w)
stop_if false e w = (ok tt, w)

module _ {W : Type 0} where
  abbrev called : Failure → Bool × W → Result Failure (Unit {0}) × W
  called e (true, w) = (ok tt, w)
  called e (false, w) = (err e, w)

  -- A call whose exceptions become the failure.
  abbrev pub call : Failure → (W → Bool × W) → Step W (Unit {0})
  call e f w = called e (f w)

module _ {W A : Type 0} where
  abbrev replied : Failure → Option A × W → Result Failure A × W
  replied e (some a, w) = (ok a, w)
  replied e (none, w) = (err e, w)

  abbrev pub reply : Failure → (W → Option A × W) → Step W A
  reply e f w = replied e (f w)

-- A value that was computed, or its failure.
abbrev pub lift : {W A : Type 0} → Result Failure A → Step W A
lift r w = (r, w)

abbrev renamed : {E A : Type 0} → (E → Failure) → Result E A → Result Failure A
renamed failure (ok a) = ok a
renamed failure (err e) = err (failure e)

-- A computation whose exceptions have a type of their own.
abbrev pub lift_as : {W E A : Type 0} → (E → Failure) → Result E A → Step W A
lift_as failure r w = (renamed failure r, w)

module _ {W A B : Type 0} where
  -- What every value of the rest has, the chain has.
  pub after-ensures :
      (P : B → Type 0) (m : Result Failure A × W) (f : A → Step W B)
      → ((a : A) (w : W) → m ≡ (ok a, w) → (b : B) (w' : W) → f a w ≡ (ok b, w') → P b)
      → (b : B) (w' : W) → after m f ≡ (ok b, w')
      → P b
  after-ensures P (ok a, w) f h b w' e = h a w refl b w' e
  after-ensures P (err x, w) f h b w' e = absurd (cc (ap (λ q. q.0) e))

pub stop_if-passed :
    {W : Type 0} (b : Bool) (e : Failure) (w w' : W) {a : Unit {0}}
    → stop_if b e w ≡ (ok a, w')
    → b ≡ false
stop_if-passed true e w w' h = absurd (cc (ap (λ q. q.0) h))
stop_if-passed false e w w' h = refl
