-- ===== src/Reconcile/Decide/Sound.antt =====
-- Every planned transition is an edge of the transition table, under its own trigger, and starts
-- from the observed state and episode of its channel.
use vocab_system.Base.{
  ℕ, ◌≡◌, refl, subst, String, Bool, true, false, Option, none, some, List, [], ◌∷◌, arith, ok, err,
  >>=-eq-ok,
}
use vocab_system.Contracts.States.{
  State, new, learning, stable, mastered, dormant, relapse, is_transition, Trigger, first_review,
  stability_gate, review_lapse, mastery_assessment_pass, assessment_fail, dormancy_elapsed,
  relapse_review,
}
use vocab_system.Models.{PlannedTransition}
use vocab_system.Models.Values.{Json}
use vocab_system.Reconcile.Runtime.{Runtime}
use vocab_system.Reconcile.Input.{Checked, Decided, Timed, Stamp, found, unentered}
use vocab_system.Reconcile.Plans.{plan_transition}
use vocab_system.Reconcile.Gates.{mastery_evidence, earliest_post_entry_failure}
use vocab_system.Reconcile.Decide.{
  Outcome, no_outcome, planned, plan_new, plan_learning, plan_stable, plan_after_lapse,
  plan_mastered, plan_relapse, plan_in, plan_mastery, plan_failure,
}

-- The edges that each trigger stands for.
abbrev pub fits : Trigger → State → State → Bool
fits first_review new learning = true
fits stability_gate learning stable = true
fits review_lapse stable learning = true
fits mastery_assessment_pass stable mastered = true
fits assessment_fail mastered relapse = true
fits assessment_fail dormant relapse = true
fits dormancy_elapsed mastered dormant = true
fits relapse_review relapse learning = true
fits _ _ _ = false

-- A trigger only labels edges of the table.
fits-is_transition : (t : Trigger) (a b : State) → fits t a b ≡ true → is_transition a b ≡ true
unfolding is_transition
fits-is_transition first_review a b h = ground arith
fits-is_transition _ a b h = ground arith

-- A plan that its channel justifies.
pub record IsSound (c : Checked) (p : PlannedTransition) : Type 0 where
  pub channel : p.channel ≡ c.channel
  pub from_state : p.from_state ≡ c.state
  pub episode : p.from_episode_id ≡ c.progress.state_episode_id
  pub trigger : fits p.trigger p.from_state p.to_state ≡ true
  pub edge : is_transition p.from_state p.to_state ≡ true

abbrev pub SoundPlan : Checked → Option PlannedTransition → Type 0
SoundPlan c none = Unit
SoundPlan c (some p) = IsSound c p

abbrev pub OnOk : {A : Type 0} → (A → Type 0) → Decided A → Type 0
OnOk P (ok a) = P a
OnOk P (err e) = Unit

SoundPlan-elim :
    {A : Type 0} (c : Checked) (o : Option A) (f : A → PlannedTransition)
    → ((a : A) → IsSound c (f a))
    → SoundPlan c
        (let r : Outcome = elim o [ none ↦ no_outcome | some a ↦ planned (f a) ] in r.plan)
SoundPlan-elim c none f h = tt
SoundPlan-elim c (some a) f h = h a

module _ (rt : Runtime) (unit_key : String) where
  pub plan_transition-IsSound :
      (c : Checked) (to : State) (t : Trigger) (evidence : Json)
      → fits t c.state to ≡ true
      → IsSound c (plan_transition rt unit_key c to t evidence)
  unfolding plan_transition
  plan_transition-IsSound c to t evidence h = record {
    channel = refl;
    from_state = refl;
    episode = refl;
    trigger = h;
    edge = fits-is_transition t c.state to h;
  }

  module _ (now : ℕ) (c : Checked) where
    fits_from :
        (s : State)
        → c.state ≡ s
        → (t : Trigger) (to : State) → fits t s to ≡ true
        → fits t c.state to ≡ true
    fits_from s e t to h = rw e h

    plan_new-IsSound : c.state ≡ new → SoundPlan c (plan_new rt unit_key now c).plan
    unfolding plan_new
    plan_new-IsSound e =
        SoundPlan-elim c c.first_review _
          λ s. plan_transition-IsSound c learning first_review _ (rw e)

    plan_learning-IsSound : c.state ≡ learning → SoundPlan c (plan_learning rt unit_key now c).plan
    unfolding plan_learning
    plan_learning-IsSound e =
        SoundPlan-elim c _ _ λ s. plan_transition-IsSound c stable stability_gate _ (rw e)

    plan_relapse-IsSound : c.state ≡ relapse → SoundPlan c (plan_relapse rt unit_key now c).plan
    unfolding plan_relapse
    plan_relapse-IsSound e =
        SoundPlan-elim c c.review_after_entry _
          λ s. plan_transition-IsSound c learning relapse_review _ (rw e)

    plan_mastery-IsSound :
        c.state ≡ stable
        → (o : Option (List Timed)) → SoundPlan c (plan_mastery rt unit_key now c o).plan
    unfolding plan_mastery
    plan_mastery-IsSound e none = tt
    plan_mastery-IsSound e (some []) = tt
    plan_mastery-IsSound e (some (t ∷ l)) =
        plan_transition-IsSound c mastered mastery_assessment_pass _ (rw e)

    plan_after_lapse-IsSound :
        c.state ≡ stable
        → (l : Option Stamp) (o : Outcome) → plan_after_lapse rt unit_key now c l ≡ ok o
        → SoundPlan c o.plan
    unfolding plan_after_lapse
    plan_after_lapse-IsSound e (some s) o h =
        subst (λ r. OnOk (λ q. SoundPlan c q.plan) r) h
          (plan_transition-IsSound c learning review_lapse _ (rw e))
    plan_after_lapse-IsSound e none o h =
        let (entry, _, rest) = >>=-eq-ok (found unentered c.entry) _ h in
        let (selected, _, last) = >>=-eq-ok (mastery_evidence c.assessments entry) _ rest in
        subst (λ r. OnOk (λ q. SoundPlan c q.plan) r) last (plan_mastery-IsSound e selected)

    plan_failure-IsSound :
        fits assessment_fail c.state relapse ≡ true
        → (o : Option Timed) → SoundPlan c (plan_failure rt unit_key now c o).plan
    unfolding plan_failure
    plan_failure-IsSound e none = tt
    plan_failure-IsSound e (some t) = plan_transition-IsSound c relapse assessment_fail _ e

    plan_mastered-IsSound :
        fits assessment_fail c.state relapse ≡ true
        → (o : Outcome) → plan_mastered rt unit_key now c ≡ ok o
        → SoundPlan c o.plan
    unfolding plan_mastered
    plan_mastered-IsSound e o h =
        let (entry, _, last) = >>=-eq-ok (found unentered c.entry) _ h in
        subst (λ r. OnOk (λ q. SoundPlan c q.plan) r) last
          (plan_failure-IsSound e (earliest_post_entry_failure c.assessments entry))

    pub plan_in-IsSound :
        (s : State) (o : Outcome)
        → c.state ≡ s
        → plan_in rt unit_key now s c ≡ ok o
        → SoundPlan c o.plan
    unfolding plan_in plan_stable
    plan_in-IsSound new o e h = subst (λ r. OnOk (λ q. SoundPlan c q.plan) r) h (plan_new-IsSound e)
    plan_in-IsSound learning o e h =
        subst (λ r. OnOk (λ q. SoundPlan c q.plan) r) h (plan_learning-IsSound e)
    plan_in-IsSound stable o e h = plan_after_lapse-IsSound e c.lapse_after_entry o h
    plan_in-IsSound mastered o e h = plan_mastered-IsSound (rw e) o h
    plan_in-IsSound dormant o e h = plan_mastered-IsSound (rw e) o h
    plan_in-IsSound relapse o e h =
        subst (λ r. OnOk (λ q. SoundPlan c q.plan) r) h (plan_relapse-IsSound e)
