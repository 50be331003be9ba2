-- ===== src/Reconcile/Input.antt =====
-- `_validate_decision_input`: the checks on an observed snapshot before a decision, in their
-- order, and what they extract. A test by `isinstance` or `type(…) is` is the type of the field.

use vocab_system.Base.{
  ℕ, String, not, ◌||◌, Option, none, some, List, [], ◌∷◌, ltb, leb, any, if◌then◌else◌, Result, ok,
  err, ◌>>=◌, ◌>>◌, raise_if,
}
use vocab_system.Base.Int.{ℤ, nonnegative}
use vocab_system.Base.Text.{codes, str_eq, is_blank}
use vocab_system.Contracts.Channels.{Channel, parse_channel, channel_eq}
use vocab_system.Contracts.States.{State, new, parse_state}
use vocab_system.Contracts.Keys.{is_unit_key}
use vocab_system.Models.{LifecycleAssessment, ChannelProgress, UnitProgress}
use vocab_system.Reconcile.Runtime.{Runtime, IsoText, malformed, naive, aware}

-- The raises of ReconcileDecisionError. `unentered` is the TypeError of a comparison with a
-- missing entry instant.
pub data DecisionError : Type 0 where
  unit_key_invalid channel_invalid duplicate_channel state_invalid : DecisionError
  episode_required count_negative entered_new : DecisionError
  timestamp_empty timestamp_malformed timestamp_naive : DecisionError
  timestamp_not_normalized timestamp_future : DecisionError
  revlog_negative revlog_range revlog_future reviews_reversed : DecisionError
  new_has_evidence not_after_entry : DecisionError
  foreign_assessment assessment_field_blank duplicate_assessment unentered : DecisionError

abbrev pub Decided : Type 0 → Type 0
Decided = Result DecisionError

-- A review with the instant of its identifier.
pub record Stamp : Type 0 where
  pub review_id : ℕ
  pub instant : ℕ

-- An assessment with its parsed instant.
pub record Timed : Type 0 where
  pub instant : ℕ
  pub assessment : LifecycleAssessment

-- A channel whose checks have passed.
pub record Checked : Type 0 where
  pub progress : ChannelProgress
  pub channel : Channel
  pub state : State
  pub interval_days : ℕ
  pub lapses_total : ℕ
  pub lapses_last_30_days : ℕ
  pub age_days : ℕ
  pub entry : Option ℕ
  pub first_review : Option Stamp
  pub latest_review : Option Stamp
  pub latest_lapse : Option Stamp
  pub review_after_entry : Option Stamp
  pub lapse_after_entry : Option Stamp
  pub assessments : List Timed

abbrev pub found {ℓ} : {A : Type ℓ} → DecisionError → Option A → Result DecisionError A
found e none = err e
found e (some a) = ok a

-- `list.sort(key=lambda item: (item[0], item[1]))`: by instant, and stable, since the second
-- component is the position in the list.
unfoldable pub insert_timed : Timed → List Timed → List Timed
insert_timed t [] = t ∷ []
insert_timed t (u ∷ l) = if leb t.instant u.instant then t ∷ u ∷ l else u ∷ insert_timed t l

unfoldable pub sort_timed : List Timed → List Timed
unfolding insert_timed
sort_timed [] = []
sort_timed (t ∷ l) = insert_timed t (sort_timed l)

module _ (rt : Runtime) (now : ℕ) where
  normalized : String → IsoText → Decided ℕ
  normalized value malformed = err timestamp_malformed
  normalized value naive = err timestamp_naive
  normalized value (aware instant) = do
    raise_if (not (str_eq value (rt.isoformat instant))) timestamp_not_normalized
    raise_if (ltb now instant) timestamp_future
    ok instant

  unfoldable pub decision_timestamp : String → Decided ℕ
  unfolding normalized
  decision_timestamp value = do
    raise_if (str_eq value "") timestamp_empty
    normalized value (rt.fromisoformat value)

  unfoldable pub decision_revlog_instant : ℤ → Decided Stamp
  decision_revlog_instant value = do
    n ← found revlog_negative (nonnegative value)
    instant ← found revlog_range (rt.fromtimestamp n)
    raise_if (ltb now instant) revlog_future
    ok (record { review_id = n; instant = instant })

  unfoldable pub optional_revlog : Option ℤ → Decided (Option Stamp)
  unfolding decision_revlog_instant
  optional_revlog none = ok none
  optional_revlog (some value) = do s ← decision_revlog_instant value; ok (some s)

  -- The entry instant; a NEW channel has none.
  unfoldable pub state_entry : State → String → Decided (Option ℕ)
  unfolding decision_timestamp
  state_entry new text = do raise_if (not (str_eq text "")) entered_new; ok none
  state_entry _ text = do instant ← decision_timestamp text; ok (some instant)

  unfoldable pub check_order : Option Stamp → Option Stamp → Decided (Unit {0})
  check_order (some first) (some latest) =
      raise_if (ltb latest.review_id first.review_id) reviews_reversed
  check_order _ _ = ok tt

  -- Evidence after the entry lies after it, and a NEW channel has none.
  unfoldable pub check_after_entry : Option ℕ → Option Stamp → Decided (Unit {0})
  check_after_entry entry none = ok tt
  check_after_entry none (some s) = err new_has_evidence
  check_after_entry (some entry) (some s) = raise_if (leb s.instant entry) not_after_entry

  unfoldable pub check_assessment : String → LifecycleAssessment → Decided Timed
  unfolding decision_timestamp is_blank
  check_assessment channel a = do
    raise_if (not (str_eq a.channel channel)) foreign_assessment
    raise_if
        (is_blank a.assessment_id
          || is_blank a.stimulus_ref
          || is_blank a.model_id
          || is_blank a.model_version)
        assessment_field_blank
    instant ← decision_timestamp a.ts
    ok (record { instant = instant; assessment = a })

  unfoldable pub check_assessments : String → List LifecycleAssessment → Decided (List Timed)
  unfolding check_assessment
  check_assessments channel [] = ok []
  check_assessments channel (a ∷ l) = do
    t ← check_assessment channel a
    ts ← check_assessments channel l
    ok (t ∷ ts)

  -- One round of the loop over `progress.channels`; `seen` holds the channels before it.
  unfoldable pub check_channel : List Channel → ChannelProgress → Decided Checked
  unfolding parse_channel parse_state is_blank state_entry optional_revlog check_order
      check_after_entry check_assessments sort_timed
  check_channel seen c = do
    channel ← found channel_invalid (parse_channel c.channel)
    raise_if (any (channel_eq channel) seen) duplicate_channel
    state ← found state_invalid (parse_state c.state)
    raise_if (is_blank c.state_episode_id) episode_required
    interval ← found count_negative (nonnegative c.interval_days)
    lapses ← found count_negative (nonnegative c.lapses_total)
    recent ← found count_negative (nonnegative c.lapses_last_30_days)
    age ← found count_negative (nonnegative c.age_days)
    entry ← state_entry state c.state_entered_at
    first ← optional_revlog c.first_lifecycle_review_id
    latest ← optional_revlog c.latest_lifecycle_review_id
    lapse ← optional_revlog c.latest_lapse_review_id
    review_after ← optional_revlog c.first_lifecycle_review_after_state_entry_id
    lapse_after ← optional_revlog c.first_lapse_after_state_entry_id
    check_order first latest
    check_after_entry entry review_after
    check_after_entry entry lapse_after
    timed ← check_assessments c.channel c.assessments
    ok (record {
      progress = c;
      channel = channel;
      state = state;
      interval_days = interval;
      lapses_total = lapses;
      lapses_last_30_days = recent;
      age_days = age;
      entry = entry;
      first_review = first;
      latest_review = latest;
      latest_lapse = lapse;
      review_after_entry = review_after;
      lapse_after_entry = lapse_after;
      assessments = sort_timed timed;
    })

  unfoldable pub check_channels : List Channel → List ChannelProgress → Decided (List Checked)
  unfolding check_channel
  check_channels seen [] = ok []
  check_channels seen (c ∷ l) = do
    checked ← check_channel seen c
    rest ← check_channels (checked.channel ∷ seen) l
    ok (checked ∷ rest)

  unfoldable pub mastered_since : String → Decided (Option ℕ)
  unfolding decision_timestamp
  mastered_since text =
      if str_eq text "" then ok none else do instant ← decision_timestamp text; ok (some instant)

  -- The checked channels, and the instant at which all active channels were mastered.
  unfoldable pub validate_decision_input : UnitProgress → Decided (List Checked × Option ℕ)
  unfolding is_unit_key mastered_since check_channels
  validate_decision_input p = do
    raise_if (not (is_unit_key (codes p.unit_key))) unit_key_invalid
    all_mastered_at ← mastered_since p.all_active_channels_mastered_at
    checked ← check_channels [] p.channels
    ok (checked, all_mastered_at)
