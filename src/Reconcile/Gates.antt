-- ===== src/Reconcile/Gates.antt =====
-- The evidence gates: `_stability_gate_evidence`, `_mastery_evidence` and
-- `_earliest_post_entry_failure`.
pub mod Rounds
pub mod Mastery
use Prim.Native.Nat.{max}
use vocab_system.Base.{
  ℕ, ◌+◌, ◌-◌, String, Bool, true, false, not, ◌&&◌, ◌||◌, Option, none, some, List, [], ◌∷◌, ◌++◌,
  ltb, leb, ◌==◌, if◌then◌else◌, ok, err, map, length,
}
use vocab_system.Base.Text.{str_in}
use vocab_system.Contracts.{
  stable_min_interval_days, stable_min_age_days, stable_zero_lapse_window_days,
  mastered_min_session_passes, mastered_min_delay_between_passes_days, days,
}
use vocab_system.Models.{LifecycleAssessment}
use vocab_system.Reconcile.Input.{Checked, Timed, Stamp, Decided, duplicate_assessment}

-- What the stability gate records: the reviews and the instant from which the channel qualifies.
pub record StabilityEvidence : Type 0 where
  pub first_review_id : ℕ
  pub latest_review_id : ℕ
  pub latest_lapse_id : Option ℕ
  pub interval_days : ℕ
  pub eligibility_boundary : ℕ

-- The later of the age boundary and the end of the lapse window.
unfoldable pub eligibility : Stamp → Option Stamp → ℕ
eligibility first none = first.instant + days stable_min_age_days
eligibility first (some lapse) =
    max (first.instant + days stable_min_age_days)
      (lapse.instant + days stable_zero_lapse_window_days)

abbrev pub stamp_id : Option Stamp → Option ℕ
stamp_id none = none
stamp_id (some s) = some s.review_id

unfoldable pub stability_at : Checked → ℕ → Option Stamp → Option Stamp → Option StabilityEvidence
unfolding eligibility
stability_at c now (some first) (some latest) =
    if ltb now (eligibility first c.latest_lapse)
    then none
    else some (record {
      first_review_id = first.review_id;
      latest_review_id = latest.review_id;
      latest_lapse_id = stamp_id c.latest_lapse;
      interval_days = c.interval_days;
      eligibility_boundary = eligibility first c.latest_lapse;
    })
stability_at c now _ _ = none

unfoldable pub stability_gate_evidence : Checked → ℕ → Option StabilityEvidence
unfolding stability_at
stability_gate_evidence c now =
    if ltb c.interval_days stable_min_interval_days
      || ltb c.age_days stable_min_age_days
      || not (c.lapses_last_30_days == 0)
      || c.progress.is_suspended
    then none
    else stability_at c now c.first_review c.latest_review

-- The variables of the loop of `_mastery_evidence`. `selected_stimulus_refs` is always the set of
-- references of `selected`, and is read from it; the newest selection stands first.
pub record Streak : Type 0 where
  pub selected : List Timed
  pub streak_ids : List String

abbrev pub no_streak : Streak
no_streak = record { selected = []; streak_ids = [] }

abbrev pub timed_id : Timed → String
timed_id t = t.assessment.assessment_id

abbrev pub timed_ref : Timed → String
timed_ref t = t.assessment.stimulus_ref

-- `selected and instant - selected[-1][0] < minimum_delay`
unfoldable pub too_early : ℕ → List Timed → Bool
too_early instant [] = false
too_early instant (t ∷ l) = ltb (instant - t.instant) (days mastered_min_delay_between_passes_days)

-- `instant <= state_entry or not assessment.novel`
abbrev pub is_ignored : ℕ → Timed → Bool
is_ignored entry t = leb t.instant entry || not t.assessment.novel

-- The end of a round for a pass that is neither a repeated stimulus nor too early.
unfoldable pub is_selected : Timed → List Timed → Bool
unfolding too_early
is_selected t selected =
    not (str_in (timed_ref t) (map timed_ref selected)) && not (too_early t.instant selected)

-- The loop. On success it returns the selected assessments, newest first.
unfoldable pub mastery_loop : ℕ → List Timed → Streak → Decided (Option (List Timed))
unfolding is_selected
mastery_loop entry [] s = ok none
mastery_loop entry (t ∷ l) s =
    let skip = mastery_loop entry l s in
    let restart = mastery_loop entry l no_streak in
    let ignore = mastery_loop entry l (record s { streak_ids = timed_id t ∷ s.streak_ids }) in
    let continue =
      mastery_loop entry l
        (record { selected = t ∷ s.selected; streak_ids = timed_id t ∷ s.streak_ids }) in
    if is_ignored entry t
    then skip
    else if str_in (timed_id t) s.streak_ids
    then err duplicate_assessment
    else if not t.assessment.passed
    then restart
    else if not (is_selected t s.selected)
    then ignore
    else if length (t ∷ s.selected) == mastered_min_session_passes
    then ok (some (t ∷ s.selected))
    else continue

unfoldable pub mastery_evidence : List Timed → ℕ → Decided (Option (List Timed))
unfolding mastery_loop
mastery_evidence assessments entry = mastery_loop entry assessments no_streak

-- The first assessment that counts as a failure of the current episode.
unfoldable pub earliest_post_entry_failure : List Timed → ℕ → Option Timed
earliest_post_entry_failure [] entry = none
earliest_post_entry_failure (t ∷ l) entry =
    if (ltb entry t.instant && t.assessment.novel) && not t.assessment.passed
    then some t
    else earliest_post_entry_failure l entry
