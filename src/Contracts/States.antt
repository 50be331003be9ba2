-- ===== src/Contracts/States.antt =====
-- vocab/contracts.py, section 6: lifecycle states, their triggers and the transition table.
use vocab_system.Base.{
  ◌≡◌, refl, ap, ◌∙◌, Bool-cases, some_inj, inl, inr, ◌↔◌, Bool, true, false, ◌&&◌, ◌||◌, String,
  Option, none, some, List, [], ◌∷◌, arith, if◌then◌else◌,
}
use vocab_system.Base.Text.{str_eq, str_eq_iff}

pub data State : Type 0 where
  new learning stable mastered dormant relapse : State

-- STATES
abbrev pub states : List State
states = new ∷ learning ∷ stable ∷ mastered ∷ dormant ∷ relapse ∷ []

abbrev pub state_text : State → String
state_text new = "NEW"
state_text learning = "LEARNING"
state_text stable = "STABLE"
state_text mastered = "MASTERED"
state_text dormant = "DORMANT"
state_text relapse = "RELAPSE"

-- `value in STATES`, with the state that it names.
unfoldable pub parse_state : String → Option State
parse_state s =
    if str_eq s "NEW"
    then some new
    else if str_eq s "LEARNING"
    then some learning
    else if str_eq s "STABLE"
    then some stable
    else if str_eq s "MASTERED"
    then some mastered
    else if str_eq s "DORMANT"
    then some dormant
    else if str_eq s "RELAPSE"
    then some relapse
    else none

abbrev pub state_eq : State → State → Bool
state_eq new new = true
state_eq learning learning = true
state_eq stable stable = true
state_eq mastered mastered = true
state_eq dormant dormant = true
state_eq relapse relapse = true
state_eq _ _ = false

pub state_eq_iff : (a b : State) → (state_eq a b ≡ true) ↔ (a ≡ b)
state_eq_iff a b = ground arith

-- DERIVED_STATE_PRIORITY
abbrev pub derived_state_priority : List State
derived_state_priority = relapse ∷ new ∷ learning ∷ stable ∷ mastered ∷ dormant ∷ []

-- STATE_TRIGGERS
pub data Trigger : Type 0 where
  first_review stability_gate review_lapse mastery_assessment_pass : Trigger
  assessment_fail dormancy_elapsed relapse_review : Trigger

abbrev pub trigger_text : Trigger → String
trigger_text first_review = "FIRST_REVIEW"
trigger_text stability_gate = "STABILITY_GATE"
trigger_text review_lapse = "REVIEW_LAPSE"
trigger_text mastery_assessment_pass = "MASTERY_ASSESSMENT_PASS"
trigger_text assessment_fail = "ASSESSMENT_FAIL"
trigger_text dormancy_elapsed = "DORMANCY_ELAPSED"
trigger_text relapse_review = "RELAPSE_REVIEW"

-- STATE_TRANSITIONS
abbrev pub state_transitions : List (State × State)
state_transitions =
    (new, learning)
    ∷ (learning, stable)
    ∷ (stable, mastered)
    ∷ (mastered, dormant)
    ∷ (dormant, relapse)
    ∷ (relapse, learning)
    ∷ (stable, learning)
    ∷ (mastered, relapse)
    ∷ []

-- `(from_state, to_state) in STATE_TRANSITIONS`
unfoldable pub is_transition : State → State → Bool
is_transition from to = go state_transitions
  where
    go : List (State × State) → Bool
    go [] = false
    go ((a, b) ∷ rest) = (state_eq from a && state_eq to b) || go rest

pub parse_state-state_text : (s : State) → parse_state (state_text s) ≡ some s
unfolding parse_state
parse_state-state_text new = refl
parse_state-state_text learning = refl
parse_state-state_text stable = refl
parse_state-state_text mastered = refl
parse_state-state_text dormant = refl
parse_state-state_text relapse = refl

-- One test of a chain of names.
named_by :
    (t x : String) (a : State) (rest : Option State) (s : State)
    → (rest ≡ some s → t ≡ state_text s)
    → x ≡ state_text a
    → (if str_eq t x then some a else rest) ≡ some s
    → t ≡ state_text s
named_by t x a rest s later name h = elim (Bool-cases (str_eq t x)) [
  | inl same ↦ (str_eq_iff t x).0 same ∙ name ∙ ap state_text (some_inj (rw same at h))
  | inr other ↦ later (rw other at h)
]

-- A text that is read as a state is the text of that state.
pub parse_state_sound : (t : String) (s : State) → parse_state t ≡ some s → t ≡ state_text s
unfolding parse_state
parse_state_sound t s =
    named_by t "NEW" new _ s
      (named_by t "LEARNING" learning _ s
        (named_by t "STABLE" stable _ s
          (named_by t "MASTERED" mastered _ s
            (named_by t "DORMANT" dormant _ s
              (named_by t "RELAPSE" relapse none s (λ h. absurd (cc)) refl) refl)
            refl)
          refl)
        refl)
      refl

-- `value in STATE_TRIGGERS`, with the trigger that it names.
unfoldable pub parse_trigger : String → Option Trigger
parse_trigger s =
    if str_eq s "FIRST_REVIEW"
    then some first_review
    else if str_eq s "STABILITY_GATE"
    then some stability_gate
    else if str_eq s "REVIEW_LAPSE"
    then some review_lapse
    else if str_eq s "MASTERY_ASSESSMENT_PASS"
    then some mastery_assessment_pass
    else if str_eq s "ASSESSMENT_FAIL"
    then some assessment_fail
    else if str_eq s "DORMANCY_ELAPSED"
    then some dormancy_elapsed
    else if str_eq s "RELAPSE_REVIEW"
    then some relapse_review
    else none

pub parse_trigger-trigger_text : (t : Trigger) → parse_trigger (trigger_text t) ≡ some t
unfolding parse_trigger
parse_trigger-trigger_text first_review = refl
parse_trigger-trigger_text stability_gate = refl
parse_trigger-trigger_text review_lapse = refl
parse_trigger-trigger_text mastery_assessment_pass = refl
parse_trigger-trigger_text assessment_fail = refl
parse_trigger-trigger_text dormancy_elapsed = refl
parse_trigger-trigger_text relapse_review = refl
