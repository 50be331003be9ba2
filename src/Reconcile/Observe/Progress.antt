-- ===== src/Reconcile/Observe/Progress.antt =====
-- The progress of the active channels, from what an observation has read.
use vocab_system.Base.{
  Result-cases, ◌≡◌, refl, subst, some, List, [], ◌∷◌, ok, ok_inj, Option-cases, inl, inr,
}
use vocab_system.Contracts.Channels.{Channel, channel_text}
use vocab_system.Contracts.States.{State, state_text}
use vocab_system.Models.{ChannelProgress}
use vocab_system.Journal.Provenance.{Episode}
use vocab_system.Reconcile.Runtime.{Runtime}
use vocab_system.Reconcile.Revlog.{Card, entry_text, channel_progress}
use vocab_system.Reconcile.Observe.Attribution.{Cards, card_of}
use vocab_system.Reconcile.Observe.{Sources, by_channel, channels_of}

-- The progress of an active channel: its stored state, its card with what Anki says of it, and its
-- episode with the entry of it.
abbrev pub IsProgress :
    Runtime → Cards → List (Channel × Episode) → Channel → State → ChannelProgress → Type 0
IsProgress rt cards episodes c state p =
    (p.channel ≡ channel_text c)
    × (p.state ≡ state_text state)
    × (card : Card) × (card_of c cards ≡ some card)
    × (p.card_id ≡ card.card_id)
    × (p.is_suspended ≡ card.is_suspended)
    × (p.interval_days ≡ card.interval_days)
    × (p.lapses_total ≡ card.lapses_total)
    × (e : Episode) × (by_channel c episodes ≡ some e)
    × (p.state_episode_id ≡ e.episode_id)
    × (p.state_entered_at ≡ entry_text rt e.entry)

-- One progress for every active channel, in their order.
abbrev pub AreProgress :
    Runtime
    → Cards
    → List (Channel × Episode)
    → List (Channel × State)
    → List ChannelProgress
    → Type 0
AreProgress rt cards episodes [] [] = Unit
AreProgress rt cards episodes ((c, state) ∷ l) (p ∷ ps) =
    IsProgress rt cards episodes c state p × AreProgress rt cards episodes l ps
AreProgress rt cards episodes _ _ = ⊥

pub channels_of-AreProgress :
    (rt : Runtime) (s : Sources) (active : List (Channel × State)) (ps : List ChannelProgress)
    → channels_of rt s active ≡ ok ps
    → AreProgress rt s.cards s.episodes active ps
unfolding channels_of channel_progress
channels_of-AreProgress rt s [] ps h = subst (AreProgress rt s.cards s.episodes []) (ok_inj h) tt
channels_of-AreProgress rt s ((c, state) ∷ l) ps h = elim (Option-cases (card_of c s.cards)) [
  | inl none₁ ↦ absurd (cc (rw none₁ at h))
  | inr (card, found₁) ↦ elim (Option-cases (by_channel c s.revlog)) [
    | inl none₂ ↦ absurd (cc (rw (found₁, none₂) at h))
    | inr (summary, found₂) ↦ elim (Option-cases (by_channel c s.episodes)) [
      | inl none₃ ↦ absurd (cc (rw (found₁, found₂, none₃) at h))
      | inr (e, found₃) ↦ elim (Option-cases (by_channel c s.assessments)) [
        | inl none₄ ↦ absurd (cc (rw (found₁, found₂, found₃, none₄) at h))
        | inr (judged, found₄) ↦ elim (Result-cases (channels_of rt s l)) [
          | inl (failure, failed) ↦ absurd (cc (rw (found₁, found₂, found₃, found₄, failed) at h))
          | inr (rest, read) ↦
              subst (AreProgress rt s.cards s.episodes ((c, state) ∷ l))
                (ok_inj (rw (found₁, found₂, found₃, found₄, read) at h))
                (
                  (refl, refl, card, found₁, refl, refl, refl, refl, e, found₃, refl, refl),
                  channels_of-AreProgress rt s l rest read,
                )
        ]
      ]
    ]
  ]
]
