-- ===== src/Reconcile/Recover/Resolved.antt =====
-- What the recovery of a single open transition does to the log.
use vocab_system.Base.{
  ℕ, ◌≡◌, refl, sym, ap, ◌∙◌, subst, inl, inr, String, Bool, false, not, Option, none, some, ◌&&◌,
  some_inj, List, [], ◌∷◌, ◌++◌, Bool-cases, Result, ok, err,
}
use mathlib.Core.List.{append-nil}
use vocab_system.Base.Int.{ℤ}
use vocab_system.Base.Text.{str_eq, str_eq_iff}
use vocab_system.Contracts.Channels.{Channel}
use vocab_system.Contracts.States.{State, state_text, state_eq, dormant, relapse}
use vocab_system.Models.{PlannedTransition, ReconcileRunResult}
use vocab_system.Models.Values.{Json}
use vocab_system.Matching.Tokens.{Unicode}
use vocab_system.Journal.Records.{commit, abort}
use vocab_system.Reconcile.Runtime.{Runtime}
use vocab_system.Reconcile.Decide.{decide_transitions}
use vocab_system.Reconcile.Materialize.Effects.{
  Template, Port, Step, Failure, decision_failed, conflict, after, lift, lift_as,
}
use vocab_system.Reconcile.Materialize.{
  Updates, state_field, state_payload, append_state_event, update_note_states, verify_note_states,
  materialize_ungrouped,
}
use vocab_system.Reconcile.Materialize.Validate.{validate_materialization_decision}
use vocab_system.Reconcile.Materialize.Readback.{
  View, IsTruthful, HasValues, Quiet, after_Quiet, update_note_states-Quiet,
  verify_note_states-Quiet,
}
use vocab_system.Reconcile.Materialize.WriteAhead.{One, append_state_event-One, HasValues-kept}
use vocab_system.Reconcile.Observe.{observe_unit}
use vocab_system.Reconcile.Observe.Attribution.{Cards, card_of}
use vocab_system.Reconcile.Revlog.{Card}
use vocab_system.Reconcile.Observe.Quiet.{IsQuiet, lift-IsQuiet, >>=-IsQuiet, observe_unit-IsQuiet}
use vocab_system.Reconcile.Recover.{
  abort_prepared_plans, abort_in_conflict, state_in, has_state, plan_with_id, suspended_card,
  reactivation_of, Fresh, fresh_decision, resume_matching, resume_ungrouped, complete_ungrouped,
  recover_ungrouped,
}

-- The field of a plan's channel, with its new state.
abbrev pub target_of : PlannedTransition → Updates
target_of p = (state_field p.channel, state_text p.to_state) ∷ []

module _ {W : Type 0} (v : View W) where
  -- The events that recovery has appended for the open plan, by its result in the last world: none,
  -- or one ABORT, or one COMMIT under the id of the plan while Anki shows the new state.
  pub data Resolves (p : PlannedTransition) (w' : W)
      : Result Failure ReconcileRunResult → List Json → Type 0 where
    unresolved : {e : Failure} → Resolves p w' (err e) []
    aborted : {e : Failure} → Resolves p w' (err e) (state_payload p abort ∷ [])
    committed :
        {r : Result Failure ReconcileRunResult} (q : PlannedTransition)
        → q.transition_id ≡ p.transition_id
        → HasValues v w' (target_of q)
        → Resolves p w' r (state_payload q commit ∷ [])

  abbrev pub Resolved : PlannedTransition → W → Result Failure ReconcileRunResult × W → Type 0
  Resolved p w (r, w') = (s : List Json) × (v.events w' ≡ v.events w ++ s) × Resolves p w' r s

  stopped :
      (p : PlannedTransition) (w w' : W) (e : Failure)
      → v.events w' ≡ v.events w
      → Resolved p w (err e, w')
  stopped p w w' e same = ([], same ∙ sym (append-nil _), unresolved)

  Resolved-from :
      (p : PlannedTransition) (w w' : W)
      → v.events w' ≡ v.events w
      → (q : Result Failure ReconcileRunResult × W) → Resolved p w' q
      → Resolved p w q
  Resolved-from p w w' same (r, w'') (s, events, h) = (s, events ∙ ap (λ x. x ++ s) same, h)

  -- Behind a step that appends nothing.
  pub Quiet-then :
      {A : Type 0} (p : PlannedTransition) (Good : A → W → Type 0) (w : W)
      (m : Result Failure A × W) (f : A → Step W ReconcileRunResult)
      → Quiet v w Good m
      → ((a : A) (w' : W) → Good a w' → Resolved p w' (f a w'))
      → Resolved p w (after m f)
  Quiet-then p Good w m f h rest =
      after_Quiet v w Good (Resolved p w) m f h
        (λ a w' same good. Resolved-from p w w' same (f a w') (rest a w' good))
        (λ e w' same. stopped p w w' e same)

  -- The same at the start of a nested chain.
  Quiet-in :
      {A B : Type 0} (p : PlannedTransition) (Good : A → W → Type 0) (w : W)
      (m : Result Failure A × W) (f : A → Step W B) (g : B → Step W ReconcileRunResult)
      → Quiet v w Good m
      → ((a : A) (w' : W) → Good a w' → Resolved p w' (after (f a w') g))
      → Resolved p w (after (after m f) g)
  Quiet-in p Good w m f g h rest =
      after_Quiet v w Good (λ r. Resolved p w (after r g)) m f h
        (λ a w' same good. Resolved-from p w w' same (after (f a w') g) (rest a w' good))
        (λ e w' same. stopped p w w' e same)

plan_with_id-id :
    (id : String) (l : List PlannedTransition) (q : PlannedTransition)
    → plan_with_id id l ≡ some q
    → q.transition_id ≡ id
unfolding plan_with_id
plan_with_id-id id [] q h = absurd (cc)
plan_with_id-id id (p ∷ l) q h = elim (Bool-cases (str_eq p.transition_id id)) [
  | inl same ↦
      ap (λ x. x.transition_id) (sym (some_inj (rw same at h)))
      ∙ (str_eq_iff p.transition_id id).0 same
  | inr other ↦ plan_with_id-id id l q (rw other at h)
]

module _ {W : Type 0} (port : Port W) (v : View W) (note : ℤ) (t : IsTruthful port v note)
    (unit_key : String) (p : PlannedTransition) where
  aborted_then :
      (w : W) (q : Result Failure (Unit {0}) × W)
      → One port v note t unit_key (state_payload p abort) w q
      → Resolved v p w (
          after
            (after q (λ _. lift (ok (p.transition_id ∷ []))))
            (λ ids. lift (err (conflict ids))))
  aborted_then w (ok a, w') (added, same) = (_, added, aborted)
  aborted_then w (err x, w') (inl same, _) = stopped v p w w' x same
  aborted_then w (err x, w') (inr added, _) = (_, added, aborted)

  -- The open plan is aborted, or nothing is appended.
  pub abort_in_conflict-Resolved :
      (w : W) → Resolved v p w (abort_in_conflict port unit_key (p ∷ []) w)
  unfolding abort_in_conflict abort_prepared_plans
  abort_in_conflict-Resolved w =
      aborted_then w (append_state_event port unit_key p abort w)
        (append_state_event-One port v note t unit_key p abort w)

  committed_then :
      (q : PlannedTransition)
      → q.transition_id ≡ p.transition_id
      → (w : W) → HasValues v w (target_of q)
      → (m : Result Failure (Unit {0}) × W) (f : Unit {0} → Step W ReconcileRunResult)
      → ((x : W) → (f tt x).1 ≡ x)
      → One port v note t unit_key (state_payload q commit) w m
      → Resolved v p w (after m f)
  committed_then q id w shown (ok tt, w') f pure (added, same) = (
    _,
    ap v.events (pure w') ∙ added,
    committed q id (
        subst (λ x. HasValues v x (target_of q)) (sym (pure w'))
          (HasValues-kept v w w' (target_of q) same.values shown)),
  )
  committed_then q id w shown (err x, w') f pure (inl same, _) = stopped v p w w' x same
  committed_then q id w shown (err x, w') f pure (inr added, same) =
      (_, added, committed q id (HasValues-kept v w w' (target_of q) same.values shown))

  of_card :
      {B : Type 0} (c : Option Card) (x : W) (g : List ℤ → Result Failure B)
      → (after (suspended_card c x) (λ l. lift (g l))).1 ≡ x
  of_card none x g = refl
  of_card (some k) x g = refl

  reactivation_pure :
      {B : Type 0} (card : Option Card) (x : W) (g : List ℤ → Result Failure B)
      → (after (reactivation_of p card x) (λ l. lift (g l))).1 ≡ x
  unfolding reactivation_of
  reactivation_pure card x g =
      elim (Bool-cases (state_eq p.from_state dormant && state_eq p.to_state relapse)) [
        | inl relapses ↦ rw relapses (of_card card x g)
        | inr other ↦ rw other refl
      ]

  -- Only the COMMIT is missing: it is written once Anki has shown the target state.
  pub complete_ungrouped-Resolved :
      (u : Unicode) (rt : Runtime) (verified : List Template → Bool) (now : ℕ) (cards : Cards)
      (w : W)
      → Resolved v p w (complete_ungrouped u rt verified port note now unit_key p cards w)
  unfolding complete_ungrouped
  complete_ungrouped-Resolved u rt verified now cards w =
      Quiet-then v p (λ _ w'. HasValues v w' (target_of p)) w
        (verify_note_states port note (target_of p) w) _
        (verify_note_states-Quiet port v note t (target_of p) w)
        (λ _ w' shown.
          committed_then p refl w' shown (append_state_event port unit_key p commit w') _
            (λ x. reactivation_pure (card_of p.channel cards) x _)
            (append_state_event-One port v note t unit_key p commit w'))

  -- The transition is carried out without a second PREPARE.
  materialize_then :
      (q : PlannedTransition) (r : ReconcileRunResult)
      → q.transition_id ≡ p.transition_id
      → (w : W)
      → Resolved v p w
          (after (materialize_ungrouped port note unit_key q false w) (λ _. lift (ok r)))
  unfolding materialize_ungrouped
  materialize_then q r id w =
      Quiet-in v p (λ _ _. Unit) w (update_note_states port note (target_of q) w) _ _
        (update_note_states-Quiet port v note t (target_of q) w)
        (λ _ w' _.
          Quiet-in v p (λ _ x. HasValues v x (target_of q)) w'
            (verify_note_states port note (target_of q) w') _ _
            (verify_note_states-Quiet port v note t (target_of q) w')
            (λ _ w'' shown.
              committed_then q id w'' shown (append_state_event port unit_key q commit w'') _
                (λ x. refl) (append_state_event-One port v note t unit_key q commit w'')))

  module _ (u : Unicode) (rt : Runtime) (verified : List Template → Bool) (now : ℕ) where
    fresh_decision-IsQuiet : IsQuiet v (fresh_decision u rt verified port note now)
    unfolding fresh_decision
    fresh_decision-IsQuiet =
        >>=-IsQuiet v (observe_unit u rt verified port note now) _
          (observe_unit-IsQuiet port v note t u rt verified now)
          (λ progress.
            >>=-IsQuiet v (lift_as decision_failed (decide_transitions rt progress now)) _
              (lift-IsQuiet v _)
              (λ decision.
                >>=-IsQuiet v (lift (validate_materialization_decision rt progress decision)) _
                  (lift-IsQuiet v _) (λ plans. lift-IsQuiet v _)))

    resume_matching-Resolved :
        (fresh : Fresh) (o : Option PlannedTransition)
        → plan_with_id p.transition_id (fresh.1) ≡ o
        → (w : W)
        → Resolved v p w (resume_matching u rt verified port note now unit_key p fresh o w)
    unfolding resume_matching
    resume_matching-Resolved fresh none e w = abort_in_conflict-Resolved w
    resume_matching-Resolved fresh (some q) e w =
        elim (Bool-cases (not (str_eq q.transition_group_id ""))) [
          | inl grouped ↦ rw grouped (abort_in_conflict-Resolved w)
          | inr single ↦
              rw single (materialize_then q _ (plan_with_id-id p.transition_id (fresh.1) q e) w)
        ]

    resume_ungrouped-Resolved :
        (w : W) → Resolved v p w (resume_ungrouped u rt verified port note now unit_key p w)
    unfolding resume_ungrouped
    resume_ungrouped-Resolved w =
        Quiet-then v p (λ _ _. Unit) w (fresh_decision u rt verified port note now w) _
          (fresh_decision-IsQuiet.quiet w)
          (λ fresh w' _.
            resume_matching-Resolved fresh (plan_with_id p.transition_id (fresh.1)) refl w')

    -- Over a port that reports truly, the recovery of a single open transition appends at most
    -- one event, and never a PREPARE: an ABORT of it, and then it fails; or a COMMIT under its
    -- id, after Anki has shown the target state; or nothing, and then it fails.
    pub recover_ungrouped-Resolved :
        (active : List (Channel × State)) (cards : Cards) (w : W)
        → Resolved v p w (recover_ungrouped u rt verified port note now unit_key active p cards w)
    unfolding recover_ungrouped
    recover_ungrouped-Resolved active cards w =
        elim (Bool-cases (has_state (state_in p.channel active) p.from_state)) [
          | inl source ↦ rw source (resume_ungrouped-Resolved w)
          | inr left ↦ elim (Bool-cases (has_state (state_in p.channel active) p.to_state)) [
            | inl target ↦ rw (left, target) (complete_ungrouped-Resolved u rt verified now cards w)
            | inr neither ↦ rw (left, neither) (abort_in_conflict-Resolved w)
          ]
        ]
