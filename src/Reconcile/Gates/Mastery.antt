-- ===== src/Reconcile/Gates/Mastery.antt =====
-- `_mastery_evidence`: what a selection of assessments certifies.
use vocab_system.Base.{
  ℕ, ◌+◌, ◌≤◌, ◌≡◌, ◌≢◌, refl, sym, ap, ◌∙◌, ◌⊎◌, inl, inr, String, true, false, some, List, [],
  ◌∷◌, arith, ok, length, ◌==◌,
}
use vocab_system.Base.Text.{str_eq, str_eq_iff, str_in}
use vocab_system.Contracts.{
  days, mastered_min_delay_between_passes_days, mastered_min_session_passes,
}
use vocab_system.Reconcile.Input.{Timed}
use vocab_system.Reconcile.Gates.{
  Streak, no_streak, timed_id, timed_ref, too_early, is_selected, mastery_loop, mastery_evidence,
}
use vocab_system.Reconcile.Gates.Rounds.{
  IsPass, NoFailure, Confirms, Certifies, Continues, mastery_loop-Round, completed, continued,
  duplicated, failed, repeated, skipped,
}

-- The loop has selected nothing, or one pass whose id it has noted.
data Selected (entry : ℕ) (s : Streak) : Type 0 where
  nothing : s.selected ≡ [] → Selected entry s
  one :
      (t : Timed)
      → s.selected ≡ t ∷ []
      → IsPass entry t
      → str_in (timed_id t) s.streak_ids ≡ true
      → Selected entry s

-- What a loop from such a streak finds.
abbrev Found : ℕ → List Timed → List Timed → Streak → Type 0
Found entry l selected s =
    Certifies entry l selected
    ⊎ ((t : Timed) × (s.selected ≡ t ∷ []) × Continues entry t l selected)

Certifies-cons :
    (entry : ℕ) (t : Timed) (l sel : List Timed)
    → Certifies entry l sel
    → Certifies entry (t ∷ l) sel
Certifies-cons entry t l sel c = record {
  first = c.first;
  second = c.second;
  selection = c.selection;
  before = t ∷ c.before;
  between = c.between;
  after = c.after;
  split = ap (λ r. t ∷ r) c.split;
  no_failure = c.no_failure;
  confirms = c.confirms;
}

Continues-cons :
    (entry : ℕ) (first t : Timed) (l sel : List Timed)
    → NoFailure entry t
    → Continues entry first l sel
    → Continues entry first (t ∷ l) sel
Continues-cons entry first t l sel n c = record {
  second = c.second;
  selection = c.selection;
  between = t ∷ c.between;
  after = c.after;
  split = ap (λ r. t ∷ r) c.split;
  no_failure = (n, c.no_failure);
  confirms = c.confirms;
}

str_in_self : (a : String) (l : List String) → str_in a (a ∷ l) ≡ true
str_in_self a l = ground (arith, str_eq_iff a a)

str_in-ne : (a b : String) (l : List String) → str_in a l ≡ true → str_in b l ≡ false → a ≢ b
str_in-ne a b l h k e = cc (rw e at h)

module _ (first second : Timed) (chosen : is_selected second (first ∷ []) ≡ true) where
  is_selected-ref : str_eq (timed_ref second) (timed_ref first) ≡ false
  unfolding is_selected
  is_selected-ref = ground arith

  is_selected-delay : first.instant + days mastered_min_delay_between_passes_days ≤ second.instant
  unfolding is_selected too_early
  is_selected-delay = ground arith

str_eq-ne : (a b : String) → str_eq b a ≡ false → a ≢ b
str_eq-ne a b h e = ground (arith, str_eq_iff b a)

-- A chosen pass confirms the selected one.
confirm :
    (entry : ℕ) (first second : Timed) (ids : List String)
    → IsPass entry first
    → IsPass entry second
    → str_in (timed_id first) ids ≡ true
    → str_in (timed_id second) ids ≡ false
    → is_selected second (first ∷ []) ≡ true
    → Confirms entry first second
confirm entry first second ids p q seen fresh chosen = record {
  first_pass = p;
  second_pass = q;
  other_id = str_in-ne _ _ ids seen fresh;
  other_stimulus = str_eq-ne _ _ (is_selected-ref first second chosen);
  delay = is_selected-delay first second chosen;
}

-- One more assessment that is no failure in front.
Found-cons :
    (entry : ℕ) (t : Timed) (l sel : List Timed) (s s' : Streak)
    → NoFailure entry t
    → s'.selected ≡ s.selected
    → Found entry l sel s'
    → Found entry (t ∷ l) sel s
Found-cons entry t l sel s s' n same (inl c) = inl (Certifies-cons entry t l sel c)
Found-cons entry t l sel s s' n same (inr (f, e, c)) =
    inr (f, sym same ∙ e, Continues-cons entry f t l sel n c)

Found-restart :
    (entry : ℕ) (t : Timed) (l sel : List Timed) (s : Streak)
    → Found entry l sel no_streak
    → Found entry (t ∷ l) sel s
Found-restart entry t l sel s (inl c) = inl (Certifies-cons entry t l sel c)
Found-restart entry t l sel s (inr (f, e, c)) = absurd (ground arith)

-- The first pass of a streak is the assessment just read.
Found-first :
    (entry : ℕ) (t : Timed) (l sel : List Timed) (s : Streak) (ids : List String)
    → Found entry l sel (record { selected = t ∷ []; streak_ids = ids })
    → Found entry (t ∷ l) sel s
Found-first entry t l sel s ids (inl c) = inl (Certifies-cons entry t l sel c)
Found-first entry t l sel s ids (inr (f, e, c)) = inl (record {
  first = f;
  second = c.second;
  selection = c.selection;
  before = [];
  between = c.between;
  after = c.after;
  split = cc (e, c.split);
  no_failure = c.no_failure;
  confirms = c.confirms;
})

Selected-note :
    (entry : ℕ) (i : String) (s : Streak)
    → Selected entry s
    → Selected entry (record s { streak_ids = i ∷ s.streak_ids })
Selected-note entry i s (nothing e) = nothing e
Selected-note entry i s (one f e p seen) = one f e p (ground arith)

Found-completed :
    (entry : ℕ) (t : Timed) (l sel : List Timed) (s : Streak)
    → Selected entry s
    → IsPass entry t
    → str_in (timed_id t) s.streak_ids ≡ false
    → is_selected t s.selected ≡ true
    → (length (t ∷ s.selected) == mastered_min_session_passes) ≡ true
    → sel ≡ t ∷ s.selected
    → Found entry (t ∷ l) sel s
Found-completed entry t l sel s (nothing e) p fresh chosen full q =
    absurd (ground (arith, ap length e))
Found-completed entry t l sel s (one f e fp seen) p fresh chosen full q = inr (
  f,
  e,
  record {
    second = t;
    selection = cc;
    between = [];
    after = l;
    split = refl;
    no_failure = tt;
    confirms = confirm entry f t s.streak_ids fp p seen fresh (rw e at chosen);
  },
)

Found-continued :
    (entry : ℕ) (t : Timed) (l sel : List Timed) (s : Streak)
    → Selected entry s
    → IsPass entry t
    → (length (t ∷ s.selected) == mastered_min_session_passes) ≡ false
    → (Selected entry (record { selected = t ∷ s.selected; streak_ids = timed_id t ∷ s.streak_ids })
        → Found entry l sel
            (record { selected = t ∷ s.selected; streak_ids = timed_id t ∷ s.streak_ids }))
    → Found entry (t ∷ l) sel s
Found-continued entry t l sel s (nothing e) p short rec =
    Found-first entry t l sel s (timed_id t ∷ s.streak_ids)
      (rw e at (rec (one t (ap (λ r. t ∷ r) e) p (str_in_self (timed_id t) s.streak_ids))))
Found-continued entry t l sel s (one f e fp seen) p short rec = absurd (ground (arith, ap length e))

mastery_loop-Found :
    (entry : ℕ) (l sel : List Timed) (s : Streak)
    → Selected entry s
    → mastery_loop entry l s ≡ ok (some sel)
    → Found entry l sel s
unfolding mastery_loop
mastery_loop-Found entry [] sel s inv h = cc
mastery_loop-Found entry (t ∷ l) sel s inv h = elim (mastery_loop-Round entry t l s h) [
  | skipped skip e ↦
      Found-cons entry t l sel s s (rw skip) refl (mastery_loop-Found entry l sel s inv e)
  | failed _ _ e ↦
      Found-restart entry t l sel s (mastery_loop-Found entry l sel no_streak (nothing refl) e)
  | repeated p e ↦
      Found-cons entry t l sel s (record s { streak_ids = timed_id t ∷ s.streak_ids })
        (ground arith) refl
        (mastery_loop-Found entry l sel (record s { streak_ids = timed_id t ∷ s.streak_ids })
          (Selected-note entry (timed_id t) s inv) e)
  | completed p fresh chosen full e ↦ Found-completed entry t l sel s inv p fresh chosen full (cc)
  | continued p short e ↦ Found-continued entry t l sel s inv p short λ inv'.
      mastery_loop-Found entry l sel
        (record { selected = t ∷ s.selected; streak_ids = timed_id t ∷ s.streak_ids }) inv' e
  | duplicated e ↦ cc
]

-- Mastery is certified only by two novel passes of the current episode, of distinct assessments
-- on distinct stimuli, the second at least seven days after the first, with no failure of the
-- episode between them.
pub mastery_evidence-Certifies :
    (history sel : List Timed) (entry : ℕ)
    → mastery_evidence history entry ≡ ok (some sel)
    → Certifies entry history sel
unfolding mastery_evidence
mastery_evidence-Certifies history sel entry h =
    elim (mastery_loop-Found entry history sel no_streak (nothing refl) h) [
      | inl c ↦ c
      | inr (f, e, c) ↦ absurd (ground arith)
    ]
