-- ===== src/Reconcile/Observe.antt =====
-- `observe_unit`: one snapshot of a Unit from Anki and from the event log.
pub mod Notes
pub mod Attribution
pub mod Quiet
pub mod Attributed
pub mod Observed
pub mod Progress
use Prim.Native.Nat.{max}
use vocab_system.Base.{
  ℕ, String, Bool, true, false, not, Option, none, some, List, [], ◌∷◌, map, all, if◌then◌else◌,
  Result, ok, err,
}
use vocab_system.Base.Int.{ℤ}
use vocab_system.Contracts.Channels.{Channel, channel_eq, channel_text}
use vocab_system.Contracts.States.{State, mastered, state_eq, state_text}
use vocab_system.Models.{LifecycleAssessment, ChannelProgress, UnitProgress}
use vocab_system.Matching.Tokens.{Unicode}
use vocab_system.Reconcile.Runtime.{Runtime}
use vocab_system.Reconcile.Revlog.{Card, Summary, load_revlog, channel_progress}
use vocab_system.Journal.Provenance.{Episode}
use vocab_system.Journal.History.{load_event_history}
use vocab_system.Reconcile.Materialize.Effects.{
  Template, Port, Step, Failure, snapshot_unread, revlog_unread, revlog_failed, history_unread,
  history_failed, channel_unseen, mastered_unentered, ◌>>=◌, ◌>>◌, stop_if, reply, lift, lift_as,
}
use Notes.{Loaded, load_note, active_states}
use Attribution.{Cards, card_of, found, verified_ordinal_map, load_cards}

-- `by_channel[channel]`
unfoldable pub by_channel : {A : Type 0} → Channel → List (Channel × A) → Option A
by_channel c [] = none
by_channel c ((k, a) ∷ l) = let rest = by_channel c l in if channel_eq k c then some a else rest

-- What was read of the active channels, before they are put together.
pub record Sources : Type 0 where
  pub cards : Cards
  pub revlog : List (Channel × Summary)
  pub assessments : List (Channel × List LifecycleAssessment)
  pub episodes : List (Channel × Episode)

abbrev pub card_ids_by_channel : Cards → List (Channel × ℤ)
card_ids_by_channel cards = map (λ (c, card). (c, card.card_id)) cards

module _ (rt : Runtime) (s : Sources) where
  abbrev progress_of :
      Channel
      → State
      → Option Card
      → Option Summary
      → Option Episode
      → Option (List LifecycleAssessment)
      → Result Failure ChannelProgress
  progress_of c state (some card) (some revlog) (some e) (some l) =
      ok
        (channel_progress rt (channel_text c) (state_text state) card revlog e.episode_id e.entry l)
  progress_of c state _ _ _ _ = err channel_unseen

  -- The channels in their frozen order.
  unfoldable pub channels_of : List (Channel × State) → Result Failure (List ChannelProgress)
  unfolding card_of by_channel
  channels_of [] = ok []
  channels_of ((c, state) ∷ l) =
      let here =
        progress_of c state (card_of c s.cards) (by_channel c s.revlog) (by_channel c s.episodes)
          (by_channel c s.assessments) in
      let rest = channels_of l in joined here rest
    where
      joined :
          Result Failure ChannelProgress
          → Result Failure (List ChannelProgress)
          → Result Failure (List ChannelProgress)
      joined (err e) rest = err e
      joined (ok p) (err e) = err e
      joined (ok p) (ok l) = ok (p ∷ l)

  abbrev later : Option ℕ → Option ℕ → Option ℕ
  later (some a) (some b) = some (max a b)
  later _ _ = none

  abbrev entry_of : Option Episode → Option ℕ
  entry_of none = none
  entry_of (some e) = e.entry

  -- `max(entries)`; none where a channel has no entry.
  unfoldable pub last_entry : Channel → List (Channel × State) → Option ℕ
  unfolding by_channel
  last_entry c [] = entry_of (by_channel c s.episodes)
  last_entry c ((d, state) ∷ l) = later (entry_of (by_channel c s.episodes)) (last_entry d l)

  abbrev mastered_text : Option ℕ → Result Failure String
  mastered_text none = err mastered_unentered
  mastered_text (some n) = ok (rt.isoformat n)

  -- The time since when all active channels are mastered, or no text.
  unfoldable pub all_mastered_at : List (Channel × State) → Result Failure String
  unfolding last_entry
  all_mastered_at [] = ok ""
  all_mastered_at ((c, state) ∷ l) =
      if all (λ (d, t). state_eq t mastered) ((c, state) ∷ l)
      then mastered_text (last_entry c l)
      else ok ""

module _ {W : Type 0} (u : Unicode) (rt : Runtime) (verified : List Template → Bool)
    (port : Port W) where
  -- `_load_revlog` and `_load_event_history`, with their calls.
  unfoldable pub load_sources : ℕ → Loaded → Cards → Step W Sources
  unfolding load_revlog load_event_history
  load_sources now n cards = do
    reviews ← reply revlog_unread (port.get_revlog n.card_ids)
    revlog ←
        lift_as revlog_failed (load_revlog rt now reviews (card_ids_by_channel cards) n.card_ids)
    events ← reply history_unread port.read_strict
    (assessments, episodes) ←
        lift_as history_failed
          (load_event_history rt now n.unit.unit_key (active_states n.unit) events)
    lift (
        ok (record {
          cards = cards;
          revlog = revlog;
          assessments = assessments;
          episodes = episodes;
        }))

  -- The cards of the note, behind the verified templates.
  unfoldable pub load_attributed : ℤ → Loaded → Step W Cards
  unfolding verified_ordinal_map load_cards
  load_attributed note n = do
    templates ← reply snapshot_unread port.verified_note_type_snapshot
    ordinals ← verified_ordinal_map verified templates
    load_cards note n.card_ids ordinals (active_states n.unit) port

  unfoldable pub observe_unit : ℤ → ℕ → Step W UnitProgress
  unfolding load_note load_attributed load_sources channels_of all_mastered_at
  observe_unit note now = do
    n ← load_note u port note
    cards ← load_attributed note n
    s ← load_sources now n cards
    channels ← lift (channels_of rt s (active_states n.unit))
    mastered_at ← lift (all_mastered_at rt s (active_states n.unit))
    lift (
        ok (record {
          unit_key = n.unit.unit_key;
          channels = channels;
          all_active_channels_mastered_at = mastered_at;
          has_leech_tag = n.has_leech_tag;
        }))
