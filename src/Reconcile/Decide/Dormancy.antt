-- ===== src/Reconcile/Decide/Dormancy.antt =====
-- When a decision suspends cards: only for a whole Unit that has been mastered long enough.
use vocab_system.Base.{
  ℕ, ◌+◌, ◌<◌, ltb, not, ◌&&◌, ◌≤◌, ◌≡◌, ◌≢◌, refl, sym, ◌∙◌, ap, subst, String, true, Option, none,
  some, List, [], ◌∷◌, map, arith, All, all, ok, >>=-eq-ok, Bool-cases, inl, inr,
}
use vocab_system.Contracts.{days, mastered_to_dormant_days}
use vocab_system.Contracts.Channels.{channels}
use vocab_system.Contracts.States.{mastered, dormant, state_eq, state_eq_iff, dormancy_elapsed}
use vocab_system.Models.{UnitProgress, PlannedTransition, ReconcileDecision}
use vocab_system.Models.Values.{Json}
use vocab_system.Reconcile.Runtime.{Runtime}
use vocab_system.Reconcile.Input.{Checked, Timed, found, unentered, validate_decision_input}
use vocab_system.Reconcile.Plans.{plan_transition, dormancy_transitions}
use vocab_system.Reconcile.Gates.{earliest_post_entry_failure}
use vocab_system.Reconcile.Decide.Sound.{OnOk}
use vocab_system.Reconcile.Decide.{
  Outcome, plan_in, plan_mastered, plan_failure, plan_channel, plan_channels, plans_of, cons_option,
  in_order, may_go_dormant, with_dormancy, dormancy_boundary, decision_of, decide_transitions,
}

-- An assessment after the entry that is novel has passed.
abbrev pub IsNoFailure : ℕ → Timed → Type 0
IsNoFailure entry t = entry < t.instant → t.assessment.novel ≡ true → t.assessment.passed ≡ true

-- A mastered channel without a failure in its current episode.
pub record IsUnfailed (c : Checked) : Type 0 where
  pub state : c.state ≡ mastered
  pub entry : ℕ
  pub entered : c.entry ≡ some entry
  pub unfailed : All (IsNoFailure entry) c.assessments

-- What a suspension requires, and what it does.
pub record GoesDormant (rt : Runtime) (progress : UnitProgress) (now : ℕ) (d : ReconcileDecision)
    : Type 0 where
  pub checked : List Checked
  pub since : ℕ
  pub valid : validate_decision_input rt now progress ≡ ok (checked, some since)
  pub elapsed : since + days mastered_to_dormant_days ≤ now
  pub unfailed : All IsUnfailed (in_order channels checked)
  pub cards : d.suspend_card_ids ≡ map (λ c. c.progress.card_id) (in_order channels checked)
  pub members :
      map (λ p. p.channel) d.transitions ≡ map (λ c. c.channel) (in_order channels checked)
  pub dormant_members : All (λ p. p.to_state ≡ dormant) d.transitions

earliest_post_entry_failure-none :
    (l : List Timed) (entry : ℕ)
    → earliest_post_entry_failure l entry ≡ none
    → All (IsNoFailure entry) l
unfolding earliest_post_entry_failure
earliest_post_entry_failure-none [] entry h = tt
earliest_post_entry_failure-none (t ∷ l) entry h =
    elim (Bool-cases ((ltb entry t.instant && t.assessment.novel) && not t.assessment.passed)) [
      | inl failed ↦ absurd (cc (rw failed at h))
      | inr fine ↦ (
        λ after novel. ground (arith, fine, after, novel),
        earliest_post_entry_failure-none l entry (rw fine at h),
      )
    ]

plan_failure-none :
    (rt : Runtime) (unit_key : String) (now : ℕ) (c : Checked) (f : Option Timed)
    → (plan_failure rt unit_key now c f).plan ≡ none
    → f ≡ none
unfolding plan_failure
plan_failure-none rt unit_key now c none h = refl
plan_failure-none rt unit_key now c (some t) h = absurd (cc)

found-ok : {A : Type 0} (o : Option A) {a : A} → found unentered o ≡ ok a → o ≡ some a
found-ok none h = absurd (cc)
found-ok (some b) h = cc

module _ (rt : Runtime) (unit_key : String) (now : ℕ) where
  plan_mastered-IsUnfailed :
      (c : Checked) (o : Outcome)
      → c.state ≡ mastered
      → plan_mastered rt unit_key now c ≡ ok o
      → o.plan ≡ none
      → IsUnfailed c
  unfolding plan_mastered
  plan_mastered-IsUnfailed c o m h quiet =
      let (entry, entered, last) = >>=-eq-ok (found unentered c.entry) _ h in
      record {
        state = m;
        entry = entry;
        entered = found-ok c.entry entered;
        unfailed = earliest_post_entry_failure-none c.assessments entry (
            plan_failure-none rt unit_key now c (earliest_post_entry_failure c.assessments entry)
              (subst (λ r. OnOk (λ q. q.plan ≡ o.plan) r) (sym last) refl ∙ quiet));
      }

  plan_channel-IsUnfailed :
      (c : Checked) (o : Outcome)
      → c.state ≡ mastered
      → plan_channel rt unit_key now c ≡ ok o
      → o.plan ≡ none
      → IsUnfailed c
  unfolding plan_channel plan_in
  plan_channel-IsUnfailed c o m h quiet =
      plan_mastered-IsUnfailed c o m (subst (λ s. plan_in rt unit_key now s c ≡ ok o) m h) quiet

  cons_option-nil :
      {A : Type 0} (o : Option A) (l : List A) → cons_option o l ≡ [] → (o ≡ none) × (l ≡ [])
  cons_option-nil none l h = (refl, h)
  cons_option-nil (some a) l h = absurd (cc)

  plan_channels-IsUnfailed :
      (cs : List Checked) (os : List Outcome)
      → plan_channels rt unit_key now cs ≡ ok os
      → all (λ c. state_eq c.state mastered) cs ≡ true
      → plans_of os ≡ []
      → All IsUnfailed cs
  unfolding plan_channels plans_of
  plan_channels-IsUnfailed [] os h m quiet = tt
  plan_channels-IsUnfailed (c ∷ cs) os h m quiet =
      let (o, ho, rest) = >>=-eq-ok (plan_channel rt unit_key now c) _ h in
      let (os', hos, last) = >>=-eq-ok (plan_channels rt unit_key now cs) _ rest in
      let quiets =
        cons_option-nil o.plan (plans_of os')
          (subst (λ r. OnOk (λ q. plans_of q ≡ []) r) (sym last) quiet) in
      (
        plan_channel-IsUnfailed c o (ground (arith, state_eq_iff c.state mastered)) ho quiets.0,
        plan_channels-IsUnfailed cs os' hos (ground arith) quiets.1,
      )

module _ (rt : Runtime) (unit_key : String) (evidence : Json) (group : String) where
  abbrev members_of : List Checked → List PlannedTransition
  members_of cs =
      map (λ (p : PlannedTransition). record p { transition_group_id = group })
        (map (λ c. plan_transition rt unit_key c dormant dormancy_elapsed evidence) cs)

  members_of-channels :
      (cs : List Checked) → map (λ p. p.channel) (members_of cs) ≡ map (λ c. c.channel) cs
  unfolding plan_transition
  members_of-channels [] = refl
  members_of-channels (c ∷ cs) = ap (λ l. c.channel ∷ l) (members_of-channels cs)

  members_of-dormant : (cs : List Checked) → All (λ p. p.to_state ≡ dormant) (members_of cs)
  unfolding plan_transition
  members_of-dormant [] = tt
  members_of-dormant (c ∷ cs) = (refl, members_of-dormant cs)

module _ (rt : Runtime) (progress : UnitProgress) (cs : List Checked) (boundary : ℕ) where
  abbrev group_plans : List PlannedTransition
  group_plans =
      dormancy_transitions rt progress.unit_key cs progress.all_active_channels_mastered_at boundary

  dormancy_transitions-channels : map (λ p. p.channel) group_plans ≡ map (λ c. c.channel) cs
  unfolding dormancy_transitions
  dormancy_transitions-channels = members_of-channels rt progress.unit_key _ _ cs

  dormancy_transitions-dormant : All (λ p. p.to_state ≡ dormant) group_plans
  unfolding dormancy_transitions
  dormancy_transitions-dormant = members_of-dormant rt progress.unit_key _ _ cs

-- The decision went to sleep only with a boundary and the test passed.
data Sleeps (rt : Runtime) (progress : UnitProgress) (cs : List Checked)
    (ps : List PlannedTransition) (b : Option ℕ) : Type 0 where
  awake : (with_dormancy rt progress cs ps b).1 ≡ [] → Sleeps rt progress cs ps b
  asleep :
      (boundary : ℕ)
      → b ≡ some boundary
      → may_go_dormant cs ps ≡ true
      → with_dormancy rt progress cs ps b ≡ (
        dormancy_transitions rt progress.unit_key cs progress.all_active_channels_mastered_at
            boundary,
        map (λ c. c.progress.card_id) cs,
      )
      → Sleeps rt progress cs ps b

sleeps :
    (rt : Runtime) (progress : UnitProgress) (cs : List Checked) (ps : List PlannedTransition)
    (b : Option ℕ)
    → Sleeps rt progress cs ps b
unfolding with_dormancy
sleeps rt progress cs ps none = awake refl
sleeps rt progress cs ps (some b) = elim (Bool-cases (may_go_dormant cs ps)) [
  | inl yes_dormant ↦ asleep b refl yes_dormant (rw yes_dormant)
  | inr not_dormant ↦ awake (rw not_dormant)
]

may_go_dormant-parts :
    (cs : List Checked) (ps : List PlannedTransition)
    → may_go_dormant cs ps ≡ true
    → (all (λ c. state_eq c.state mastered) cs ≡ true) × (ps ≡ [])
unfolding may_go_dormant
may_go_dormant-parts cs [] h = (ground arith, refl)
may_go_dormant-parts cs (p ∷ ps) h = absurd (ground arith)

dormancy_boundary-elapsed :
    (at : Option ℕ) (now boundary : ℕ)
    → dormancy_boundary at now ≡ some boundary
    → (since : ℕ) × (at ≡ some since) × (since + days mastered_to_dormant_days ≤ now)
unfolding dormancy_boundary
dormancy_boundary-elapsed none now b h = absurd (cc)
dormancy_boundary-elapsed (some since) now b h = (since, refl, ground arith)

-- The parts of a decision that the rest of the proof reads.
record Decision (rt : Runtime) (progress : UnitProgress) (now : ℕ) (d : ReconcileDecision)
    : Type 0 where
  checked : List Checked
  at : Option ℕ
  valid : validate_decision_input rt now progress ≡ ok (checked, at)
  outcomes : List Outcome
  planned : plan_channels rt progress.unit_key now (in_order channels checked) ≡ ok outcomes
  result :
      d ≡ decision_of rt progress (in_order channels checked) outcomes (dormancy_boundary at now)

decide_transitions-Decision :
    (rt : Runtime) (progress : UnitProgress) (now : ℕ) (d : ReconcileDecision)
    → decide_transitions rt progress now ≡ ok d
    → Decision rt progress now d
unfolding decide_transitions
decide_transitions-Decision rt progress now d h =
    let ((checked, at), valid, rest) = >>=-eq-ok (validate_decision_input rt now progress) _ h in
    let (os, planned, last) =
      >>=-eq-ok (plan_channels rt progress.unit_key now (in_order channels checked)) _ rest in
    record {
      checked = checked;
      at = at;
      valid = valid;
      outcomes = os;
      planned = planned;
      result =
          subst
            (λ r.
              OnOk
                (λ q.
                  q
                  ≡ decision_of rt progress (in_order channels checked) os
                      (dormancy_boundary at now))
                r)
            last refl;
    }

-- A decision suspends cards only when every active channel is MASTERED, the Unit has been fully
-- mastered for thirty days, and on every channel each novel assessment after the entry of its
-- current episode has passed; then it suspends exactly the cards of the active channels and moves
-- exactly these channels to DORMANT.
pub decide_transitions-GoesDormant :
    (rt : Runtime) (progress : UnitProgress) (now : ℕ) (d : ReconcileDecision)
    → decide_transitions rt progress now ≡ ok d
    → d.suspend_card_ids ≢ []
    → GoesDormant rt progress now d
unfolding decision_of
decide_transitions-GoesDormant rt progress now d h some_card =
    let parts = decide_transitions-Decision rt progress now d h in
    let cs = in_order channels parts.checked in
    elim (sleeps rt progress cs (plans_of parts.outcomes) (dormancy_boundary parts.at now)) [
      | awake e ↦ absurd (some_card (ap (λ q. q.suspend_card_ids) parts.result ∙ e))
      | asleep boundary hb may e ↦
          let (since, known, elapsed) = dormancy_boundary-elapsed parts.at now boundary hb in
          let (all_mastered, quiet) = may_go_dormant-parts cs (plans_of parts.outcomes) may in
          let transitions = ap (λ q. q.transitions) parts.result ∙ ap (λ q. q.0) e in
          record {
            checked = parts.checked;
            since = since;
            valid = parts.valid ∙ ap (λ a. ok (parts.checked, a)) known;
            elapsed = elapsed;
            unfailed =
                plan_channels-IsUnfailed rt progress.unit_key now cs parts.outcomes parts.planned
                  all_mastered quiet;
            cards = ap (λ q. q.suspend_card_ids) parts.result ∙ ap (λ q. q.1) e;
            members =
                ap (map (λ p. p.channel)) transitions
                ∙ dormancy_transitions-channels rt progress cs boundary;
            dormant_members =
                subst (All (λ p. p.to_state ≡ dormant)) (sym transitions)
                  (dormancy_transitions-dormant rt progress cs boundary);
          }
    ]
