-- ===== src/Reconcile/Decide/Legal.antt =====
-- Of a whole decision: every transition is sound.
use vocab_system.Base.{
  ℕ, ◌≡◌, refl, sym, ◌∙◌, ap, subst, String, true, Option, none, some, List, [], ◌∷◌, map, arith,
  All, all, In, ok, >>=-eq-ok, inl, inr, ◌⊎◌, Bool-cases, Option-cases,
}
use vocab_system.Contracts.Channels.{Channel, channels, channel_eq}
use vocab_system.Contracts.States.{mastered, dormant, state_eq, state_eq_iff, dormancy_elapsed}
use vocab_system.Models.{UnitProgress, PlannedTransition, ReconcileDecision}
use vocab_system.Models.Values.{Json}
use vocab_system.Reconcile.Runtime.{Runtime}
use vocab_system.Reconcile.Input.{Checked, validate_decision_input}
use vocab_system.Reconcile.Plans.{plan_transition, dormancy_transitions}
use vocab_system.Reconcile.Decide.Sound.{
  IsSound, OnOk, SoundPlan, plan_transition-IsSound, plan_in-IsSound,
}
use vocab_system.Reconcile.Decide.{
  Outcome, plan_channel, plan_channels, plans_of, cons_option, channel_by_name, in_order,
  may_go_dormant, with_dormancy, dormancy_boundary, decision_of, decide_transitions,
}

-- Each plan is justified by one of the channels.
abbrev pub AllSound : List Checked → List PlannedTransition → Type 0
AllSound cs ps = All (λ p. (c : Checked) × In c cs × IsSound c p) ps

AllSound-subset :
    (cs ds : List Checked) (ps : List PlannedTransition)
    → ((c : Checked) → In c cs → In c ds)
    → AllSound cs ps
    → AllSound ds ps
AllSound-subset cs ds [] f h = tt
AllSound-subset cs ds (p ∷ ps) f ((c, m, s), rest) =
    ((c, f c m, s), AllSound-subset cs ds ps f rest)

plans_of-cons_IsSound :
    (c : Checked) (cs : List Checked) (o : Option PlannedTransition) (ps : List PlannedTransition)
    → SoundPlan c o
    → AllSound cs ps
    → AllSound (c ∷ cs) (cons_option o ps)
plans_of-cons_IsSound c cs none ps s h = AllSound-subset cs (c ∷ cs) ps (λ d m. inr m) h
plans_of-cons_IsSound c cs (some p) ps s h =
    ((c, inl refl, s), AllSound-subset cs (c ∷ cs) ps (λ d m. inr m) h)

module _ (rt : Runtime) (unit_key : String) (now : ℕ) where
  plan_channels-AllSound :
      (cs : List Checked) (os : List Outcome)
      → plan_channels rt unit_key now cs ≡ ok os
      → AllSound cs (plans_of os)
  unfolding plan_channels plan_channel plans_of
  plan_channels-AllSound [] os h = subst (λ r. OnOk (λ q. AllSound [] (plans_of q)) r) h tt
  plan_channels-AllSound (c ∷ cs) os h =
      let (o, ho, rest) = >>=-eq-ok (plan_channel rt unit_key now c) _ h in
      let (os', hos, last) = >>=-eq-ok (plan_channels rt unit_key now cs) _ rest in
      subst (λ r. OnOk (λ q. AllSound (c ∷ cs) (plans_of q)) r) last
        (plans_of-cons_IsSound c cs o.plan (plans_of os')
          (plan_in-IsSound rt unit_key now c c.state o refl ho) (plan_channels-AllSound cs os' hos))

module _ (rt : Runtime) (unit_key : String) where
  group_member-IsSound :
      (evidence : Json) (group : String) (c : Checked)
      → c.state ≡ mastered
      → IsSound c (record (plan_transition rt unit_key c dormant dormancy_elapsed evidence) {
        transition_group_id = group;
      })
  group_member-IsSound evidence group c e =
      let s = plan_transition-IsSound rt unit_key c dormant dormancy_elapsed evidence (rw e) in
      record {
        channel = s.channel;
        from_state = s.from_state;
        episode = s.episode;
        trigger = s.trigger;
        edge = s.edge;
      }

  group-AllSound :
      (evidence : Json) (group : String) (cs : List Checked)
      → all (λ c. state_eq c.state mastered) cs ≡ true
      → AllSound cs (
          map
            (λ (p : PlannedTransition). record p { transition_group_id = group })
            (map (λ c. plan_transition rt unit_key c dormant dormancy_elapsed evidence) cs))
  group-AllSound evidence group [] h = tt
  group-AllSound evidence group (c ∷ cs) h = (
    (
      c,
      inl refl,
      group_member-IsSound evidence group c (ground (arith, state_eq_iff c.state mastered)),
    ),
    AllSound-subset cs (c ∷ cs) _ (λ d m. inr m) (group-AllSound evidence group cs (ground arith)),
  )

may_go_dormant-mastered :
    (cs : List Checked) (ps : List PlannedTransition)
    → may_go_dormant cs ps ≡ true
    → all (λ c. state_eq c.state mastered) cs ≡ true
unfolding may_go_dormant
may_go_dormant-mastered cs ps h = ground arith

module _ (rt : Runtime) (progress : UnitProgress) (cs : List Checked) where
  with_dormancy-AllSound :
      (ps : List PlannedTransition) (b : Option ℕ)
      → AllSound cs ps
      → AllSound cs (with_dormancy rt progress cs ps b).0
  unfolding with_dormancy dormancy_transitions
  with_dormancy-AllSound ps none h = h
  with_dormancy-AllSound ps (some b) h = elim (Bool-cases (may_go_dormant cs ps)) [
    | inl sleeps ↦
        rw sleeps
          (group-AllSound rt progress.unit_key _ _ cs (may_go_dormant-mastered cs ps sleeps))
    | inr awake ↦ rw awake h
  ]

channel_by_name-In :
    (k : Channel) (l : List Checked) {c : Checked} → channel_by_name k l ≡ some c → In c l
unfolding channel_by_name
channel_by_name-In k [] h = absurd (cc)
channel_by_name-In k (d ∷ l) {c} h = elim (Bool-cases (channel_eq d.channel k)) [
  | inl here ↦ inl (some_inj (sym (rw here at h)))
  | inr there ↦ inr (channel_by_name-In k l (rw there at h))
]
  where
    some_inj : some c ≡ some d → c ≡ d
    some_inj e = cc

in_order-In : (ks : List Channel) (l : List Checked) (c : Checked) → In c (in_order ks l) → In c l
unfolding in_order
in_order-In [] l c m = absurd m
in_order-In (k ∷ ks) l c m = elim (Option-cases (channel_by_name k l)) [
  | inl missing ↦ in_order-In ks l c (rw missing at m)
  | inr (d, here) ↦ elim (split (rw here at m)) [
    | inl e ↦ channel_by_name-In k l (here ∙ ap some (sym e))
    | inr rest ↦ in_order-In ks l c rest
  ]
]
  where
    split : {d : Checked} → In c (d ∷ in_order ks l) → (c ≡ d) ⊎ In c (in_order ks l)
    split m' = m'

-- A decision plans only transitions of the table, each under the trigger that stands for it, and
-- each from the state and episode that were observed on a channel whose checks passed.
pub decide_transitions-AllSound :
    (rt : Runtime) (progress : UnitProgress) (now : ℕ) (d : ReconcileDecision)
    → decide_transitions rt progress now ≡ ok d
    → (checked : List Checked) × (at : Option ℕ) × (validate_decision_input rt now progress
        ≡ ok (checked, at))
      × AllSound checked d.transitions
unfolding decide_transitions decision_of
decide_transitions-AllSound rt progress now d h =
    let ((checked, at), valid, rest) = >>=-eq-ok (validate_decision_input rt now progress) _ h in
    let cs = in_order channels checked in
    let (os, planned_all, last) = >>=-eq-ok (plan_channels rt progress.unit_key now cs) _ rest in
    (
      checked,
      at,
      valid,
      subst (λ r. OnOk (λ q. AllSound checked q.transitions) r) last
          (AllSound-subset cs checked _ (in_order-In channels checked) (
            with_dormancy-AllSound rt progress cs (plans_of os) (dormancy_boundary at now)
              (plan_channels-AllSound rt progress.unit_key now cs os planned_all))),
    )
