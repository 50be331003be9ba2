-- ===== src/Reconcile/Plans.antt =====
-- `_transition_id`, `_plan_transition` and `_dormancy_transitions`: transitions with their hashed
-- identities and their recorded evidence.
use Prim.Native.String.{compare}
use package.text.Mathlib.Text.{is_le}
use vocab_system.Base.{
  Bool, ◌&&◌, ◌||◌, length, ◌==◌, all, leb, ℕ, String, List, [], ◌∷◌, map, if◌then◌else◌,
}
use vocab_system.Base.Text.{codes}
use vocab_system.Contracts.Channels.{channel_text}
use vocab_system.Contracts.States.{
  State, dormant, state_text, Trigger, dormancy_elapsed, trigger_text,
}
use vocab_system.Models.{PlannedTransition}
use vocab_system.Models.Values.{Json, num, text, arr, obj, Fields, end, field, texts, optional_num}
use vocab_system.Reconcile.Runtime.{Runtime}
use vocab_system.Reconcile.Input.{Checked, Timed, Stamp}
use vocab_system.Reconcile.Gates.{StabilityEvidence, timed_id, timed_ref}

-- EVENT_SCHEMA_VERSION
abbrev pub event_schema_version : ℕ
event_schema_version = 1

-- `_TRANSITION_ID_RE`: 64 hexadecimal digits.
unfoldable pub is_digest : String → Bool
is_digest s =
    length (codes s) == 64 && all (λ c. (leb 48 c && leb c 57) || (leb 97 c && leb c 102)) (codes s)

-- Python's `sorted` of texts.
insert_text : String → List String → List String
insert_text s [] = s ∷ []
insert_text s (t ∷ l) = if is_le (compare s t) then s ∷ t ∷ l else t ∷ insert_text s l

unfoldable pub sorted : List String → List String
unfolding insert_text
sorted [] = []
sorted (s ∷ l) = insert_text s (sorted l)

-- The evidence of a single review.
abbrev pub review_evidence : String → Stamp → Json
review_evidence name s = obj (field name (num s.review_id) end)

abbrev pub failure_evidence : Timed → Json
failure_evidence t = obj (field "assessment_id" (text (timed_id t)) end)

-- The selected passes in the order of the list, and the id of the last one.
abbrev pub mastery_json : List Timed → String → Json
mastery_json oldest_first decisive = obj (
    field "assessment_ids" (arr (texts (map timed_id oldest_first))) (
      field "stimulus_refs" (arr (texts (map timed_ref oldest_first)))
        (field "decisive_assessment_id" (text decisive) end)))

module _ (rt : Runtime) where
  unfoldable pub stability_json : StabilityEvidence → Json
  stability_json e = obj (
      field "first_lifecycle_review_id" (num e.first_review_id) (
        field "latest_lifecycle_review_id" (num e.latest_review_id) (
          field "latest_lapse_review_id" (optional_num e.latest_lapse_id) (
            field "interval_days" (num e.interval_days)
              (field "eligibility_boundary" (text (rt.isoformat e.eligibility_boundary)) end)))))

  -- `_transition_id`
  abbrev pub transition_id_at :
      ℕ → String → String → State → State → Trigger → String → Json → String
  transition_id_at version unit_key channel from to trigger episode evidence = rt.canonical_sha256 (
      obj (
        field "v" (num version) (
          field "unit_key" (text unit_key) (
            field "channel" (text channel) (
              field "from" (text (state_text from)) (
                field "to" (text (state_text to)) (
                  field "trigger" (text (trigger_text trigger))
                    (field "from_episode_id" (text episode) (field "evidence" evidence end)))))))))

  unfoldable pub transition_id : String → String → State → State → Trigger → String → Json → String
  transition_id = transition_id_at event_schema_version

  -- `_plan_transition`
  unfoldable pub plan_transition : String → Checked → State → Trigger → Json → PlannedTransition
  unfolding transition_id
  plan_transition unit_key c to trigger evidence = record {
    channel = c.channel;
    from_state = c.state;
    to_state = to;
    trigger = trigger;
    from_episode_id = c.progress.state_episode_id;
    evidence = evidence;
    transition_id =
        transition_id unit_key (channel_text c.channel) c.state to trigger
          c.progress.state_episode_id evidence;
    transition_group_id = "";
  }

  abbrev episode_fields : List Checked → Fields
  episode_fields [] = end
  episode_fields (c ∷ l) =
      field (channel_text c.channel) (text c.progress.state_episode_id) (episode_fields l)

  -- The evidence that all members of a dormancy group share.
  unfoldable pub dormancy_json : List Checked → String → ℕ → Json
  dormancy_json channels all_mastered_at boundary = obj (
      field "mastered_entry_transition_ids" (obj (episode_fields channels)) (
        field "all_channels_mastered_at" (text all_mastered_at)
          (field "eligibility_boundary" (text (rt.isoformat boundary)) end)))

  unfoldable pub group_id : String → List PlannedTransition → String
  unfolding sorted
  group_id unit_key plans = rt.canonical_sha256 (
      obj (
        field "kind" (text "DORMANCY") (
          field "unit_key" (text unit_key) (
            field "member_transition_ids" (arr (texts (sorted (map (λ p. p.transition_id) plans))))
              end))))

  -- `_dormancy_transitions`
  unfoldable pub dormancy_transitions : String → List Checked → String → ℕ → List PlannedTransition
  unfolding plan_transition group_id dormancy_json
  dormancy_transitions unit_key channels all_mastered_at boundary =
      let evidence = dormancy_json channels all_mastered_at boundary in
      let plans =
        map (λ c. plan_transition unit_key c dormant dormancy_elapsed evidence) channels in
      let group = group_id unit_key plans in
      map (λ (p : PlannedTransition). record p { transition_group_id = group }) plans
