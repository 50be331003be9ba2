-- ===== src/Journal/Records.antt =====
-- What `_journal_record` extracts from a STATE event. The fields have passed its checks.
use vocab_system.Models.Values.{Json}
use vocab_system.Base.{
  subst, arith, &&-true, ap, ◌∙◌, Bool-cases, inl, inr, some_inj, ◌≡◌, refl, if◌then◌else◌, ℕ,
  String, Bool, true, false, ◌&&◌, Option, none, some, ◌==◌,
}
use vocab_system.Base.Text.{str_eq, str_eq_iff}
use vocab_system.Contracts.Channels.{Channel, channel_eq, channel_eq_iff}
use vocab_system.Contracts.States.{State, state_eq, state_eq_iff, Trigger}

-- T9_STATE_PHASES
pub data Phase : Type 0 where
  prepare commit abort : Phase

abbrev pub phase_text : Phase → String
phase_text prepare = "PREPARE"
phase_text commit = "COMMIT"
phase_text abort = "ABORT"

-- `value in T9_STATE_PHASES`, with the phase that it names.
unfoldable pub parse_phase : String → Option Phase
parse_phase s =
    if str_eq s "PREPARE"
    then some prepare
    else if str_eq s "COMMIT"
    then some commit
    else if str_eq s "ABORT"
    then some abort
    else none

pub parse_phase-phase_text : (p : Phase) → parse_phase (phase_text p) ≡ some p
unfolding parse_phase
parse_phase-phase_text prepare = refl
parse_phase-phase_text commit = refl
parse_phase-phase_text abort = refl

-- A text that is read as a phase is the text of that phase.
pub parse_phase_sound : (s : String) (p : Phase) → parse_phase s ≡ some p → s ≡ phase_text p
unfolding parse_phase
parse_phase_sound s p h = elim (Bool-cases (str_eq s "PREPARE")) [
  | inl a ↦ (str_eq_iff s "PREPARE").0 a ∙ ap phase_text (some_inj (rw a at h))
  | inr a ↦ elim (Bool-cases (str_eq s "COMMIT")) [
    | inl b ↦ (str_eq_iff s "COMMIT").0 b ∙ ap phase_text (some_inj (rw (a, b) at h))
    | inr b ↦ elim (Bool-cases (str_eq s "ABORT")) [
      | inl c ↦ (str_eq_iff s "ABORT").0 c ∙ ap phase_text (some_inj (rw (a, b, c) at h))
      | inr c ↦ absurd (cc (rw (a, b, c) at h))
    ]
  ]
]

abbrev pub phase_eq : Phase → Phase → Bool
phase_eq prepare prepare = true
phase_eq commit commit = true
phase_eq abort abort = true
phase_eq _ _ = false

abbrev pub trigger_index : Trigger → ℕ
trigger_index Trigger.first_review = 0
trigger_index Trigger.stability_gate = 1
trigger_index Trigger.review_lapse = 2
trigger_index Trigger.mastery_assessment_pass = 3
trigger_index Trigger.assessment_fail = 4
trigger_index Trigger.dormancy_elapsed = 5
trigger_index Trigger.relapse_review = 6

-- `transition_identity` with `transition_group_id`; evidence is its canonical JSON text.
pub record Identity : Type 0 where
  pub version : ℕ
  pub unit_key : String
  pub channel : Channel
  pub from_state : State
  pub to_state : State
  pub trigger : Trigger
  pub from_episode_id : String
  pub evidence : String
  pub group : Option String

abbrev group_eq : Option String → Option String → Bool
group_eq none none = true
group_eq (some a) (some b) = str_eq a b
group_eq _ _ = false

unfoldable pub identity_eq : Identity → Identity → Bool
identity_eq a b =
    a.version == b.version
    && str_eq a.unit_key b.unit_key
    && channel_eq a.channel b.channel
    && state_eq a.from_state b.from_state
    && state_eq a.to_state b.to_state
    && trigger_index a.trigger == trigger_index b.trigger
    && str_eq a.from_episode_id b.from_episode_id
    && str_eq a.evidence b.evidence
    && group_eq a.group b.group

pub record JournalRecord : Type 0 where
  pub transition_id : String
  pub phase : Phase
  pub identity : Identity
  pub evidence : Json
  pub instant : ℕ
  pub index : ℕ

trigger_index-injective : (a b : Trigger) → trigger_index a ≡ trigger_index b → a ≡ b
trigger_index-injective a b h = ground arith

group_eq-same : (a b : Option String) → group_eq a b ≡ true → a ≡ b
group_eq-same none none h = refl
group_eq-same none (some b) h = absurd (cc)
group_eq-same (some a) none h = absurd (cc)
group_eq-same (some a) (some b) h = ap some ((str_eq_iff a b).0 h)

-- Equal identities are the same.
pub identity_eq-same : (a b : Identity) → identity_eq a b ≡ true → a ≡ b
unfolding identity_eq
identity_eq-same a b h =
    let (h₁, group) =
      &&-true
        ((a.version == b.version)
          && (str_eq a.unit_key b.unit_key)
          && (channel_eq a.channel b.channel)
          && (state_eq a.from_state b.from_state)
          && (state_eq a.to_state b.to_state)
          && (trigger_index a.trigger == trigger_index b.trigger)
          && (str_eq a.from_episode_id b.from_episode_id)
          && (str_eq a.evidence b.evidence))
        (group_eq a.group b.group) h in
    let (h₂, evidence) =
      &&-true
        ((a.version == b.version)
          && (str_eq a.unit_key b.unit_key)
          && (channel_eq a.channel b.channel)
          && (state_eq a.from_state b.from_state)
          && (state_eq a.to_state b.to_state)
          && (trigger_index a.trigger == trigger_index b.trigger)
          && (str_eq a.from_episode_id b.from_episode_id))
        (str_eq a.evidence b.evidence) h₁ in
    let (h₃, episode) =
      &&-true
        ((a.version == b.version)
          && (str_eq a.unit_key b.unit_key)
          && (channel_eq a.channel b.channel)
          && (state_eq a.from_state b.from_state)
          && (state_eq a.to_state b.to_state)
          && (trigger_index a.trigger == trigger_index b.trigger))
        (str_eq a.from_episode_id b.from_episode_id) h₂ in
    let (h₄, trigger_eq) =
      &&-true
        ((a.version == b.version)
          && (str_eq a.unit_key b.unit_key)
          && (channel_eq a.channel b.channel)
          && (state_eq a.from_state b.from_state)
          && (state_eq a.to_state b.to_state))
        (trigger_index a.trigger == trigger_index b.trigger) h₃ in
    let (h₅, to_state) =
      &&-true
        ((a.version == b.version)
          && (str_eq a.unit_key b.unit_key)
          && (channel_eq a.channel b.channel)
          && (state_eq a.from_state b.from_state))
        (state_eq a.to_state b.to_state) h₄ in
    let (h₆, from_state) =
      &&-true
        ((a.version == b.version)
          && (str_eq a.unit_key b.unit_key)
          && (channel_eq a.channel b.channel))
        (state_eq a.from_state b.from_state) h₅ in
    let (h₇, channel) =
      &&-true ((a.version == b.version) && (str_eq a.unit_key b.unit_key))
        (channel_eq a.channel b.channel) h₆ in
    let (version_eq, unit_key) =
      &&-true ((a.version == b.version)) (str_eq a.unit_key b.unit_key) h₇ in
    let version : a.version ≡ b.version = ground (arith, version_eq) in
    let trigger : trigger_index a.trigger ≡ trigger_index b.trigger = ground (arith, trigger_eq) in
    λ i. record {
      version = version i;
      unit_key = (str_eq_iff a.unit_key b.unit_key).0 unit_key i;
      channel = (channel_eq_iff a.channel b.channel).0 channel i;
      from_state = (state_eq_iff a.from_state b.from_state).0 from_state i;
      to_state = (state_eq_iff a.to_state b.to_state).0 to_state i;
      trigger = trigger_index-injective a.trigger b.trigger trigger i;
      from_episode_id = (str_eq_iff a.from_episode_id b.from_episode_id).0 episode i;
      evidence = (str_eq_iff a.evidence b.evidence).0 evidence i;
      group = group_eq-same a.group b.group group i;
    }

group_eq_refl : (g : Option String) → group_eq g g ≡ true
group_eq_refl none = refl
group_eq_refl (some s) = (str_eq_iff s s).1 refl

number_eq_refl : (n : ℕ) → (n == n) ≡ true
number_eq_refl n = ground arith

pub identity_eq_refl : (a b : Identity) → a ≡ b → identity_eq a b ≡ true
unfolding identity_eq
identity_eq_refl a b h =
    subst (λ c. identity_eq a c ≡ true) h
      (rw
        (
          number_eq_refl a.version,
          (str_eq_iff a.unit_key a.unit_key).1 refl,
          (channel_eq_iff a.channel a.channel).1 refl,
          (state_eq_iff a.from_state a.from_state).1 refl,
          (state_eq_iff a.to_state a.to_state).1 refl,
          number_eq_refl (trigger_index a.trigger),
          (str_eq_iff a.from_episode_id a.from_episode_id).1 refl,
          (str_eq_iff a.evidence a.evidence).1 refl,
          group_eq_refl a.group,
        )
        refl)
