-- ===== src/Reconcile/Materialize/Protocol.antt =====
-- The two ways to materialize plans write ahead.
use vocab_system.Base.{
  not-false, ◌≡◌, sym, ap, ◌∙◌, subst, String, true, false, not, List, [], ◌∷◌, ◌++◌, All,
}
use vocab_system.Base.Int.{ℤ}
use vocab_system.Base.Text.{str_in}
use vocab_system.Contracts.States.{state_text}
use vocab_system.Models.{PlannedTransition}
use vocab_system.Journal.Records.{prepare, commit}
use vocab_system.Reconcile.Materialize.Effects.{Port, Step, not_suspended, after, stop_if}
use vocab_system.Reconcile.Materialize.Cards.{all_suspended, read_card_queues, suspend_cards}
use vocab_system.Reconcile.Materialize.{
  state_field, state_updates, append_state_event, append_all, update_note_states,
  verify_note_states, materialize_ungrouped, materialize_dormancy, Updates,
}
use vocab_system.Reconcile.Materialize.Readback.{
  View, Untouched, IsTruthful, HasValues, AreSuspended, after_Quiet, Quiet-from, stop_if-Quiet,
  update_note_states-Quiet, verify_note_states-Quiet,
}
use vocab_system.Reconcile.Materialize.Suspension.{
  Reported, KeepsValues, all_suspended-AreSuspended, read_card_queues-Quiet, suspend_cards-Quiet,
}
use vocab_system.Reconcile.Materialize.WriteAhead.{
  written, append_all-Appended, append_state_event-One, One-Appended, HasValues-kept,
  AreSuspended-kept, WritesAhead, prepared-WritesAhead, stopped-WritesAhead, committed-WritesAhead,
}

-- What a single transition shows: its channel's field has the new state.
abbrev pub IsApplied : {W : Type 0} → View W → PlannedTransition → W → Type 0
IsApplied v p w = HasValues v w ((state_field p.channel, state_text p.to_state) ∷ [])

-- What a dormancy group shows: every field has its new state, and every card is suspended.
abbrev pub IsDormant : {W : Type 0} → View W → List PlannedTransition → List ℤ → W → Type 0
IsDormant v plans cards w = HasValues v w (state_updates plans) × AreSuspended v w cards

module _ {W : Type 0} (port : Port W) (v : View W) (note : ℤ) (t : IsTruthful port v note)
    (unit_key : String) where
  IsApplied-stable :
      (p : PlannedTransition) (w w' : W) → Untouched v w w' → IsApplied v p w → IsApplied v p w'
  IsApplied-stable p w w' u h =
      HasValues-kept v w w' ((state_field p.channel, state_text p.to_state) ∷ []) u.values h

  -- The update and its readback, before the COMMIT records.
  updated_then :
      (l : Updates) (w w₁ : W) (plans : List PlannedTransition) (applied : W → Type 0)
      (stable : (x y : W) → Untouched v x y → applied x → applied y) (m : Step W (Unit {0}))
      → v.events w₁ ≡ v.events w ++ written prepare plans
      → ((w₂ : W)
          → v.events w₂ ≡ v.events w₁
          → HasValues v w₂ l
          → WritesAhead v w plans applied (m w₂))
      → WritesAhead v w plans applied (
          after
            (update_note_states port note l w₁)
            (λ _ w'. after (verify_note_states port note l w') (λ _. m)))
  updated_then l w w₁ plans applied stable m prepared rest =
      after_Quiet v w₁ (λ _ _. Unit) (WritesAhead v w plans applied)
        (update_note_states port note l w₁) _ (update_note_states-Quiet port v note t l w₁)
        (λ _ w₂ same _.
          after_Quiet v w₁ (λ _ w'. HasValues v w' l) (WritesAhead v w plans applied)
            (verify_note_states port note l w₂) (λ _. m)
            (Quiet-from v (λ _ w'. HasValues v w' l) w₁ w₂ same (verify_note_states port note l w₂)
              (verify_note_states-Quiet port v note t l w₂))
            (λ _ w₃ same' shown. rest w₃ same' shown)
            (λ e w₃ same'.
              stopped-WritesAhead port v note t unit_key plans applied stable w w₁ w₃ e prepared
                same'))
        (λ e w₂ same.
          stopped-WritesAhead port v note t unit_key plans applied stable w w₁ w₂ e prepared same)

  -- Over a port that reports truly, a single transition writes PREPARE, shows the new state in
  -- Anki, and only then writes COMMIT, whatever fails; on success it has written both records.
  pub materialize_ungrouped-WritesAhead :
      (p : PlannedTransition) (w : W)
      → WritesAhead v w (p ∷ []) (IsApplied v p) (materialize_ungrouped port note unit_key p true w)
  unfolding materialize_ungrouped
  materialize_ungrouped-WritesAhead p w =
      prepared-WritesAhead port v note t unit_key (p ∷ []) (IsApplied v p) (IsApplied-stable p) w
        (append_state_event port unit_key p prepare w) _
        (One-Appended port v note t unit_key prepare p w
          (append_state_event port unit_key p prepare w)
          (append_state_event-One port v note t unit_key p prepare w))
        (λ w₁ prepared.
          updated_then ((state_field p.channel, state_text p.to_state) ∷ []) w w₁ (p ∷ [])
            (IsApplied v p) (IsApplied-stable p) (append_state_event port unit_key p commit)
            prepared
            (λ w₂ same shown.
              committed-WritesAhead port v note t unit_key (p ∷ []) (IsApplied v p)
                (IsApplied-stable p) w w₁ w₂ (append_state_event port unit_key p commit w₂) prepared
                same shown
                (One-Appended port v note t unit_key commit p w₂
                  (append_state_event port unit_key p commit w₂)
                  (append_state_event-One port v note t unit_key p commit w₂))))

  IsDormant-stable :
      (plans : List PlannedTransition) (cards : List ℤ) (w w' : W)
      → Untouched v w w'
      → IsDormant v plans cards w
      → IsDormant v plans cards w'
  IsDormant-stable plans cards w w' u (shown, asleep) = (
    HasValues-kept v w w' (state_updates plans) u.values shown,
    AreSuspended-kept v w w' cards u.queues asleep,
  )

  -- The suspension and its readback.
  suspended_then :
      (plans : List PlannedTransition) (cards : List ℤ) (w w₁ w₂ : W) (m : Step W (Unit {0}))
      → v.events w₁ ≡ v.events w ++ written prepare plans
      → v.events w₂ ≡ v.events w₁
      → HasValues v w₂ (state_updates plans)
      → ((w₃ : W)
          → v.events w₃ ≡ v.events w₁
          → IsDormant v plans cards w₃
          → WritesAhead v w plans (IsDormant v plans cards) (m w₃))
      → WritesAhead v w plans (IsDormant v plans cards) (
          after (suspend_cards port cards w₂) (λ _ w'.
            after (read_card_queues port note cards w') (λ queues w''.
              after (stop_if (not (all_suspended queues cards)) not_suspended w'') (λ _. m))))
  suspended_then plans cards w w₁ w₂ m prepared same shown rest =
      let Q = WritesAhead v w plans (IsDormant v plans cards) in
      let stop =
        stopped-WritesAhead port v note t unit_key plans (IsDormant v plans cards)
          (IsDormant-stable plans cards) w w₁ in
      after_Quiet v w₂ (λ _ w'. KeepsValues port v note t w₂ w') Q (suspend_cards port cards w₂) _
        (suspend_cards-Quiet port v note t cards w₂)
        (λ _ w₃ same₃ keeps₃.
          after_Quiet v w₃
            (λ found w'. Reported port v note t w' found × KeepsValues port v note t w₃ w') Q
            (read_card_queues port note cards w₃) _ (read_card_queues-Quiet port v note t cards w₃)
            (λ queues w₄ same₄ (known, keeps₄).
              after_Quiet v w₄ (λ _ w'. (not (all_suspended queues cards) ≡ false) × (w' ≡ w₄)) Q
                (stop_if (not (all_suspended queues cards)) not_suspended w₄) (λ _. m)
                (stop_if-Quiet v (not (all_suspended queues cards)) not_suspended w₄)
                (λ _ w₅ same₅ (asleep, here). rest w₅ (same₅ ∙ same₄ ∙ same₃ ∙ same) (
                  HasValues-kept v w₂ w₅ (state_updates plans)
                      (λ k. ap (λ x. v.value x k) here ∙ keeps₄ k ∙ keeps₃ k) shown,
                  all_suspended-AreSuspended port v note t w₅ queues cards
                      (subst (λ x. Reported port v note t x queues) (sym here) known)
                      (not-false (all_suspended queues cards) asleep),
                ))
                (λ e w₅ same₅. stop w₅ e prepared (same₅ ∙ same₄ ∙ same₃ ∙ same)))
            (λ e w₄ same₄. stop w₄ e prepared (same₄ ∙ same₃ ∙ same)))
        (λ e w₃ same₃. stop w₃ e prepared (same₃ ∙ same))

  -- Over a port that reports truly, a dormancy group whose ids are all to be prepared and
  -- committed writes every PREPARE, shows the new states and the suspended cards in Anki, and
  -- only then writes its COMMIT records, whatever fails; on success it has written both records
  -- of every plan.
  pub materialize_dormancy-WritesAhead :
      (plans : List PlannedTransition) (cards : List ℤ) (prepare_ids commit_ids : List String)
      (w : W)
      → All (λ p. str_in p.transition_id prepare_ids ≡ true) plans
      → All (λ p. str_in p.transition_id commit_ids ≡ true) plans
      → WritesAhead v w plans
          (IsDormant v plans cards)
          (materialize_dormancy port note unit_key plans cards prepare_ids commit_ids w)
  unfolding materialize_dormancy
  materialize_dormancy-WritesAhead plans cards prepare_ids commit_ids w all_prepare all_commit =
      prepared-WritesAhead port v note t unit_key plans (IsDormant v plans cards)
        (IsDormant-stable plans cards) w (append_all port unit_key prepare prepare_ids plans w) _
        (append_all-Appended port v note t unit_key prepare prepare_ids plans all_prepare w)
        (λ w₁ prepared.
          updated_then (state_updates plans) w w₁ plans (IsDormant v plans cards)
            (IsDormant-stable plans cards) _ prepared
            (λ w₂ same shown.
              suspended_then plans cards w w₁ w₂ (append_all port unit_key commit commit_ids plans)
                prepared same shown
                (λ w₃ same₃ done.
                  committed-WritesAhead port v note t unit_key plans (IsDormant v plans cards)
                    (IsDormant-stable plans cards) w w₁ w₃
                    (append_all port unit_key commit commit_ids plans w₃) prepared same₃ done
                    (append_all-Appended port v note t unit_key commit commit_ids plans all_commit
                      w₃))))
