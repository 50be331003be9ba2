-- ===== src/Reconcile/Gates/Rounds.antt =====
-- What two assessments certify, and what one round of the loop of `_mastery_evidence` does.
use vocab_system.Base.{
  ℕ, ◌+◌, ◌≤◌, ◌<◌, ◌≡◌, ◌≢◌, inl, inr, true, false, not, ◌||◌, Option, some, List, [], ◌∷◌, ◌++◌,
  arith, Bool-cases, All, ok, err, length, ◌==◌,
}
use vocab_system.Base.Text.{str_in}
use vocab_system.Contracts.{
  days, mastered_min_delay_between_passes_days, mastered_min_session_passes,
}
use vocab_system.Reconcile.Input.{Timed, Decided, duplicate_assessment}
use vocab_system.Reconcile.Gates.{
  Streak, no_streak, timed_id, timed_ref, is_ignored, is_selected, mastery_loop,
}

-- A novel pass after the entry.
pub record IsPass (entry : ℕ) (t : Timed) : Type 0 where
  pub after : entry < t.instant
  pub novel : t.assessment.novel ≡ true
  pub passed : t.assessment.passed ≡ true

-- An assessment that is no failure of this episode.
abbrev pub NoFailure : ℕ → Timed → Type 0
NoFailure entry t = (is_ignored entry t || t.assessment.passed) ≡ true

-- What makes the second pass count together with the first.
pub record Confirms (entry : ℕ) (first second : Timed) : Type 0 where
  pub first_pass : IsPass entry first
  pub second_pass : IsPass entry second
  pub other_id : timed_id first ≢ timed_id second
  pub other_stimulus : timed_ref first ≢ timed_ref second
  pub delay : first.instant + days mastered_min_delay_between_passes_days ≤ second.instant

-- The certificate of a selection: two passes of the history, in this order, with no failure of
-- the episode between them.
pub record Certifies (entry : ℕ) (history selected : List Timed) : Type 0 where
  pub first : Timed
  pub second : Timed
  pub selection : selected ≡ second ∷ first ∷ []
  pub before : List Timed
  pub between : List Timed
  pub after : List Timed
  pub split : history ≡ before ++ (first ∷ (between ++ (second ∷ after)))
  pub no_failure : All (NoFailure entry) between
  pub confirms : Confirms entry first second

-- The same, with the first pass already read.
pub record Continues (entry : ℕ) (first : Timed) (rest selected : List Timed) : Type 0 where
  pub second : Timed
  pub selection : selected ≡ second ∷ first ∷ []
  pub between : List Timed
  pub after : List Timed
  pub split : rest ≡ between ++ (second ∷ after)
  pub no_failure : All (NoFailure entry) between
  pub confirms : Confirms entry first second

-- How one round of the loop reaches its result.
pub data Round (entry : ℕ) (t : Timed) (l : List Timed) (s : Streak)
    (r : Decided (Option (List Timed))) : Type 0 where
  skipped : is_ignored entry t ≡ true → mastery_loop entry l s ≡ r → Round entry t l s r
  failed :
      is_ignored entry t ≡ false
      → t.assessment.passed ≡ false
      → mastery_loop entry l no_streak ≡ r
      → Round entry t l s r
  repeated :
      IsPass entry t
      → mastery_loop entry l (record s { streak_ids = timed_id t ∷ s.streak_ids }) ≡ r
      → Round entry t l s r
  completed :
      IsPass entry t
      → str_in (timed_id t) s.streak_ids ≡ false
      → is_selected t s.selected ≡ true
      → (length (t ∷ s.selected) == mastered_min_session_passes) ≡ true
      → ok (some (t ∷ s.selected)) ≡ r
      → Round entry t l s r
  continued :
      IsPass entry t
      → (length (t ∷ s.selected) == mastered_min_session_passes) ≡ false
      → mastery_loop entry l
          (record { selected = t ∷ s.selected; streak_ids = timed_id t ∷ s.streak_ids })
        ≡ r
      → Round entry t l s r
  duplicated : err duplicate_assessment ≡ r → Round entry t l s r

pass-IsPass :
    (entry : ℕ) (t : Timed)
    → is_ignored entry t ≡ false
    → t.assessment.passed ≡ true
    → IsPass entry t
pass-IsPass entry t h p = ground arith

pub mastery_loop-Round :
    (entry : ℕ) (t : Timed) (l : List Timed) (s : Streak) {r : Decided (Option (List Timed))}
    → mastery_loop entry (t ∷ l) s ≡ r
    → Round entry t l s r
unfolding mastery_loop
mastery_loop-Round entry t l s h = elim (Bool-cases (is_ignored entry t)) [
  | inl skip ↦ skipped skip (rw skip at h)
  | inr counted ↦ elim (Bool-cases (str_in (timed_id t) s.streak_ids)) [
    | inl seen ↦ duplicated (rw (counted, seen) at h)
    | inr fresh ↦ elim (Bool-cases t.assessment.passed) [
      | inr fail ↦ failed counted fail (simp (counted, fresh, fail, not) at h)
      | inl pass ↦ elim (Bool-cases (is_selected t s.selected)) [
        | inr other ↦
            repeated (pass-IsPass entry t counted pass)
              (simp (counted, fresh, pass, other, not) at h)
        | inl chosen ↦ elim (Bool-cases (length (t ∷ s.selected) == mastered_min_session_passes)) [
          | inl full ↦
              completed (pass-IsPass entry t counted pass) fresh chosen full
                (simp (counted, fresh, pass, chosen, full, not) at h)
          | inr short ↦
              continued (pass-IsPass entry t counted pass) short
                (simp (counted, fresh, pass, chosen, short, not) at h)
        ]
      ]
    ]
  ]
]
