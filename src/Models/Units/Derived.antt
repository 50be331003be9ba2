-- ===== src/Models/Units/Derived.antt =====
-- The state derived for display is the most urgent active state.
use vocab_system.Base.{
  ℕ, ◌≡◌, refl, ◌∙◌, ap, String, Bool, false, not, ◌||◌, List, [], ◌∷◌, map, any, arith,
  if◌then◌else◌,
}
use vocab_system.Base.Text.{str_eq, str_in}
use vocab_system.Contracts.States.{
  State, new, learning, stable, mastered, dormant, relapse, state_text, state_eq,
  derived_state_priority, parse_state-state_text,
}
use vocab_system.Models.Units.{
  VocabUnit, active_channel_states, values, is_state, first_candidate, derived_state_of,
  derived_state,
}

-- The place of a state in the order of urgency, 0 being the most urgent.
abbrev pub urgency : State → ℕ
urgency relapse = 0
urgency new = 1
urgency learning = 2
urgency stable = 3
urgency mastered = 4
urgency dormant = 5

-- The most urgent of two states.
abbrev pub more_urgent : State → State → State
more_urgent relapse t = relapse
more_urgent t relapse = relapse
more_urgent new t = new
more_urgent t new = new
more_urgent learning t = learning
more_urgent t learning = learning
more_urgent stable t = stable
more_urgent t stable = stable
more_urgent mastered t = mastered
more_urgent t mastered = mastered
more_urgent dormant dormant = dormant

abbrev pub most_urgent : State → List State → State
most_urgent s [] = s
most_urgent s (t ∷ l) = more_urgent s (most_urgent t l)

state_in : State → List State → Bool
state_in c [] = false
state_in c (s ∷ l) = state_eq c s || state_in c l

-- The first state of the order of urgency that is in the list.
pick : List State → State
unfolding state_in
pick l =
    if state_in relapse l
    then relapse
    else if state_in new l
    then new
    else if state_in learning l
    then learning
    else if state_in stable l
    then stable
    else if state_in mastered l
    then mastered
    else dormant

str_eq-state_text : (a b : State) → str_eq (state_text a) (state_text b) ≡ state_eq a b
str_eq-state_text new new = refl
str_eq-state_text learning learning = refl
str_eq-state_text stable stable = refl
str_eq-state_text mastered mastered = refl
str_eq-state_text dormant dormant = refl
str_eq-state_text relapse relapse = refl
str_eq-state_text _ _ = refl

str_in-state_text :
    (c : State) (l : List State) → str_in (state_text c) (map state_text l) ≡ state_in c l
unfolding state_in
str_in-state_text c [] = refl
str_in-state_text c (s ∷ l) = rw (str_eq-state_text c s, str_in-state_text c l)

any_unknown-state_texts : (l : List State) → any (λ t. not (is_state t)) (map state_text l) ≡ false
any_unknown-state_texts [] = refl
any_unknown-state_texts (s ∷ l) = rw (parse_state-state_text s, not) (any_unknown-state_texts l)

pick-cons : (s : State) (l : List State) → pick (s ∷ l) ≡ more_urgent s (pick l)
unfolding pick state_in
pick-cons new l = ground arith
pick-cons _ l = ground arith

pick-eq-most_urgent : (s : State) (l : List State) → pick (s ∷ l) ≡ most_urgent s l
unfolding pick state_in
pick-eq-most_urgent new [] = refl
pick-eq-most_urgent _ [] = refl
pick-eq-most_urgent s (t ∷ l) = pick-cons s (t ∷ l) ∙ ap (more_urgent s) (pick-eq-most_urgent t l)

-- The search of the source over states, with its fallback.
candidate_in : List State → List State → String
candidate_in [] l = "UNKNOWN"
candidate_in (c ∷ rest) l = if state_in c l then state_text c else candidate_in rest l

first_candidate-state_texts :
    (cs l : List State) → first_candidate cs (map state_text l) ≡ candidate_in cs l
unfolding first_candidate candidate_in
first_candidate-state_texts [] l = refl
first_candidate-state_texts (c ∷ cs) l =
    rw (str_in-state_text c l, first_candidate-state_texts cs l)

-- The fallback is not reached: the order of urgency has every state.
candidate_in-pick :
    (s : State) (l : List State)
    → candidate_in derived_state_priority (s ∷ l) ≡ state_text (pick (s ∷ l))
unfolding candidate_in pick state_in
candidate_in-pick new l = ground arith
candidate_in-pick _ l = ground arith

-- Of active channels in lifecycle states, the derived state is the most urgent one: RELAPSE
-- before NEW, LEARNING, STABLE, MASTERED and DORMANT. It is never UNKNOWN there.
pub derived_state_of-most_urgent :
    (s : State) (l : List State)
    → derived_state_of (map state_text (s ∷ l)) ≡ state_text (most_urgent s l)
unfolding derived_state_of
derived_state_of-most_urgent s l = rw (any_unknown-state_texts (s ∷ l)) (
    first_candidate-state_texts derived_state_priority (s ∷ l)
    ∙ candidate_in-pick s l
    ∙ ap state_text (pick-eq-most_urgent s l))

-- A Unit whose active channels hold lifecycle states derives the most urgent of these.
pub derived_state-most_urgent :
    (u : VocabUnit) (s : State) (l : List State)
    → values (active_channel_states u) ≡ map state_text (s ∷ l)
    → derived_state u ≡ state_text (most_urgent s l)
unfolding derived_state
derived_state-most_urgent u s l h = ap derived_state_of h ∙ derived_state_of-most_urgent s l
