-- ===== src/Reconcile/Recover/Groups.antt =====
-- `_reconstruct_dormancy_group`: the members of a dormancy group, from its open transactions.
use vocab_system.Base.{
  String, Bool, true, false, not, ◌&&◌, Option, none, some, List, [], ◌∷◌, any, ◌==◌, if◌then◌else◌,
  Result, ok, err, raise_if, ◌>>=◌, ◌>>◌,
}
use vocab_system.Base.Text.{str_eq, str_in}
use vocab_system.Contracts.Channels.{Channel, channels, channel_eq, channel_text, parse_channel}
use vocab_system.Contracts.States.{State, mastered, dormant, dormancy_elapsed, state_eq}
use vocab_system.Models.{PlannedTransition}
use vocab_system.Models.Values.{
  Json, text, obj, Fields, end, field, json_field, field_names, same_texts,
}
use vocab_system.Journal.Records.{Phase, prepare, phase_eq, trigger_index}
use vocab_system.Journal.Transactions.{Transaction, Transactions}
use vocab_system.Reconcile.Runtime.{Runtime}
use vocab_system.Reconcile.Plans.{transition_id}
use vocab_system.Reconcile.Materialize.Effects.{
  Failure, group_empty, group_shape, group_members, group_episodes, group_duplicate,
  group_undeclared, group_identity, group_terminal, group_channels,
}
use vocab_system.Reconcile.Materialize.Validate.{
  evidence_names, freeze_validated_plan, validate_dormancy_group,
}
use vocab_system.Reconcile.Recover.{plan_from_prepare}

-- The open and closed transactions of a group, by channel.
abbrev pub Members : Type 0
Members = List (Channel × Transaction)

unfoldable pub member_of : Channel → Members → Option Transaction
member_of c [] = none
member_of c ((k, t) ∷ l) = let rest = member_of c l in if channel_eq k c then some t else rest

abbrev pub ids_of_evidence : Json → Result Failure Fields
ids_of_evidence (obj fields) = do
  raise_if (not (same_texts (field_names fields) evidence_names)) group_shape
  elim (json_field "mastered_entry_transition_ids" fields) [
    | some (obj (field k v l)) ↦ ok (field k v l)
    | _ ↦ err group_members
  ]
ids_of_evidence _ = err group_shape

abbrev is_channel : String → Bool
is_channel s = elim (parse_channel s) [ none ↦ false | some c ↦ true ]

abbrev is_episode : Json → Bool
is_episode (text s) = not (str_eq s "")
is_episode _ = false

-- Every channel is known, and every episode is a text that is not empty.
unfoldable pub are_episodes : Fields → Bool
unfolding parse_channel
are_episodes end = true
are_episodes (field k v l) = is_channel k && is_episode v && are_episodes l

abbrev episode_text : Option Json → String
episode_text (some (text s)) = s
episode_text _ = ""

module _ (rt : Runtime) (unit_key group : String) where
  -- The plan of one member.
  unfoldable pub member_plan : Json → Fields → Channel → PlannedTransition
  unfolding transition_id
  member_plan evidence ids c = record {
    channel = c;
    from_state = mastered;
    to_state = dormant;
    trigger = dormancy_elapsed;
    from_episode_id = episode_text (json_field (channel_text c) ids);
    evidence = evidence;
    transition_id =
        transition_id rt unit_key (channel_text c) mastered dormant dormancy_elapsed
          (episode_text (json_field (channel_text c) ids)) evidence;
    transition_group_id = group;
  }

  -- The members in the frozen order of the channels.
  unfoldable pub member_plans :
      Json → Fields → List Channel → Result Failure (List PlannedTransition)
  unfolding member_plan freeze_validated_plan
  member_plans evidence ids [] = ok []
  member_plans evidence ids (c ∷ l) =
      let rest = member_plans evidence ids l in
      if str_in (channel_text c) (field_names ids)
      then (do
        p ← freeze_validated_plan rt unit_key (member_plan evidence ids c)
        plans ← rest
        ok (p ∷ plans))
      else rest

unfoldable pub plan_of : Channel → List PlannedTransition → Option PlannedTransition
plan_of c [] = none
plan_of c (p ∷ l) = let rest = plan_of c l in if channel_eq p.channel c then some p else rest

-- Equality of plans; equal evidence has equal canonical JSON.
unfoldable pub plan_eq : Runtime → PlannedTransition → PlannedTransition → Bool
plan_eq rt p q =
    channel_eq p.channel q.channel
    && state_eq p.from_state q.from_state
    && state_eq p.to_state q.to_state
    && trigger_index p.trigger == trigger_index q.trigger
    && str_eq p.from_episode_id q.from_episode_id
    && str_eq (rt.canonical_json p.evidence) (rt.canonical_json q.evidence)
    && str_eq p.transition_id q.transition_id
    && str_eq p.transition_group_id q.transition_group_id

abbrev pub has_terminal : Phase → Transaction → Bool
has_terminal phase t = elim t.terminal [ none ↦ false | some r ↦ phase_eq r.phase phase ]

abbrev pub is_open : Transaction → Bool
is_open t = elim t.terminal [ none ↦ true | some r ↦ false ]

module _ (rt : Runtime) (unit_key : String) where
  abbrev declared : Option PlannedTransition → Result Failure PlannedTransition
  declared none = err group_undeclared
  declared (some p) = ok p

  -- The loop over the transactions: each is a declared member, once.
  unfoldable pub add_members :
      List PlannedTransition → Members → Transactions → Result Failure Members
  unfolding plan_from_prepare plan_of plan_eq
  add_members plans seen [] = ok seen
  add_members plans seen ((id, t) ∷ l) = do
    raise_if (any (λ (k, u). channel_eq k t.prepared.identity.channel) seen) group_duplicate
    plan ← declared (plan_of t.prepared.identity.channel plans)
    prepared ← plan_from_prepare rt unit_key t.prepared
    raise_if (not (plan_eq rt prepared plan)) group_identity
    raise_if (has_terminal prepare t) group_terminal
    add_members plans ((t.prepared.identity.channel, t) ∷ seen) l

  -- `_reconstruct_dormancy_group`
  unfoldable pub reconstruct_dormancy_group :
      String → Transactions → Result Failure (List PlannedTransition × Members)
  unfolding are_episodes member_plans validate_dormancy_group add_members
  reconstruct_dormancy_group group [] = err group_empty
  reconstruct_dormancy_group group ((id, t) ∷ l) = do
    ids ← ids_of_evidence t.prepared.evidence
    raise_if (not (are_episodes ids)) group_episodes
    plans ← member_plans rt unit_key group t.prepared.evidence ids channels
    validate_dormancy_group rt unit_key plans
    members ← add_members plans [] ((id, t) ∷ l)
    ok (plans, members)

abbrev same_channels : List PlannedTransition → List (Channel × State) → Bool
same_channels [] [] = true
same_channels (p ∷ l) ((c, s) ∷ m) = channel_eq p.channel c && same_channels l m
same_channels _ _ = false

-- `_validate_recovered_group_channels`
unfoldable pub validate_recovered_group_channels :
    List (Channel × State) → List PlannedTransition → Result Failure (Unit {0})
validate_recovered_group_channels active plans =
    raise_if (not (same_channels plans active)) group_channels
