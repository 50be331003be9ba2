-- ===== src/Models.antt =====
-- vocab/models.py: the data that reconciliation reads and writes. A value that Python checks at
-- run time keeps its wide type here: a channel or a state is a text, a count may be negative.
pub mod Units
pub mod Values
use vocab_system.Base.{ℕ, String, Bool, Option, List}
use vocab_system.Base.Int.{ℤ}
use vocab_system.Contracts.Channels.{Channel}
use vocab_system.Contracts.States.{State, Trigger}
use Values.{Json, Fields}

pub record LifecycleAssessment : Type 0 where
  pub channel : String
  pub passed : Bool
  pub assessment_id : String
  pub stimulus_ref : String
  pub novel : Bool
  pub ts : String
  pub model_id : String
  pub model_version : String

pub record ChannelProgress : Type 0 where
  pub channel : String
  pub state : String
  pub card_id : ℤ
  pub template_name : String
  pub template_ordinal : ℤ
  pub interval_days : ℤ
  pub lapses_total : ℤ
  pub lapses_last_30_days : ℤ
  pub age_days : ℤ
  pub is_suspended : Bool
  pub first_lifecycle_review_id : Option ℤ
  pub latest_lifecycle_review_id : Option ℤ
  pub latest_lapse_review_id : Option ℤ
  pub state_episode_id : String
  pub state_entered_at : String
  pub first_lifecycle_review_after_state_entry_id : Option ℤ
  pub first_lapse_after_state_entry_id : Option ℤ
  pub assessments : List LifecycleAssessment

pub record UnitProgress : Type 0 where
  pub unit_key : String
  pub channels : List ChannelProgress
  pub all_active_channels_mastered_at : String
  pub has_leech_tag : Bool

-- The states and the trigger are the decided ones, so they are no texts any more.
pub record PlannedTransition : Type 0 where
  pub channel : Channel
  pub from_state : State
  pub to_state : State
  pub trigger : Trigger
  pub from_episode_id : String
  pub evidence : Json
  pub transition_id : String
  pub transition_group_id : String

pub record ReconcileDecision : Type 0 where
  pub unit_key : String
  pub transitions : List PlannedTransition
  pub suspend_card_ids : List ℤ
  pub reactivation_required_card_ids : List ℤ
  pub leech_rescue_channels : List Channel

pub record ReconcileRunResult : Type 0 where
  pub unit_key : String
  pub committed_transition_ids : List String
  pub recovered_transition_ids : List String
  pub aborted_transition_ids : List String
  pub reactivation_required_card_ids : List ℤ
  pub leech_rescue_channels : List Channel

-- A version is a natural number: the decoder of the log admits one version only.
pub record Event : Type 0 where
  pub v : ℕ
  pub ts : String
  pub day : String
  pub event : String
  pub unit_key : String
  pub payload : Fields
