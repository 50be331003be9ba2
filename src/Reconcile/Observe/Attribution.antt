-- ===== src/Reconcile/Observe/Attribution.antt =====
-- `_verified_ordinal_map` and `_load_cards`: which card belongs to which active channel.
use vocab_system.Base.{
  ℕ, Bool, true, false, not, ◌||◌, Option, none, some, List, [], ◌∷◌, any, all, map, length, ◌==◌,
  if◌then◌else◌, Result, ok, err,
}
use vocab_system.Base.Int.{ℤ, int_eq, nonnegative}
use vocab_system.Contracts.Channels.{Channel, channels, channel_eq, channel_text, parse_channel}
use vocab_system.Contracts.States.{State}
use vocab_system.Reconcile.Revlog.{Card}
use vocab_system.Reconcile.Materialize.Cards.{queue_suspended}
use vocab_system.Reconcile.Materialize.Effects.{
  CardRow, Template, Port, Step, Failure, cards_unread, card_count, unknown_card, duplicate_card,
  foreign_card, omitted_card, snapshot_unverified, template_malformed, template_repeated,
  templates_differ, ordinal_negative, interval_negative, lapses_negative, ordinal_unknown,
  channel_disabled, channel_twice, channel_without_card, ◌>>=◌, ◌>>◌, stop_if, reply, lift,
}

-- The channel of each template ordinal.
abbrev pub Ordinals : Type 0
Ordinals = List (ℕ × Channel)

unfoldable pub channel_at : ℕ → Ordinals → Option Channel
channel_at n [] = none
channel_at n ((m, c) ∷ l) = let rest = channel_at n l in if m == n then some c else rest

abbrev pub has_channel : {A : Type 0} → Channel → List (Channel × A) → Bool
has_channel c l = any (λ (k, a). channel_eq k c) l

abbrev pub names_channel : Channel → Ordinals → Bool
names_channel c l = any (λ (n, k). channel_eq k c) l

abbrev pub present : {A : Type 0} → Option A → Bool
present none = false
present (some a) = true

abbrev pub found : {A : Type 0} → Failure → Option A → Result Failure A
found e none = err e
found e (some a) = ok a

module _ {W : Type 0} where
  -- The loop over the templates; an ordinal or a name that comes twice is refused.
  unfoldable pub add_templates : Ordinals → List Template → Step W Ordinals
  unfolding channel_at parse_channel
  add_templates seen [] = lift (ok seen)
  add_templates seen (t ∷ l) = do
    n ← lift (found template_malformed (nonnegative t.ord))
    c ← lift (found template_malformed (parse_channel t.name))
    stop_if (present (channel_at n seen) || names_channel c seen) template_repeated
    add_templates ((n, c) ∷ seen) l

  -- `verified` is what verify_model_snapshot says of the snapshot.
  unfoldable pub verified_ordinal_map : (List Template → Bool) → List Template → Step W Ordinals
  unfolding add_templates
  verified_ordinal_map verified templates = do
    stop_if (not (verified templates)) snapshot_unverified
    ordinals ← add_templates [] templates
    stop_if (not (all (λ c. names_channel c ordinals) channels)) templates_differ
    lift (ok ordinals)

-- The cards by channel, newest first.
abbrev pub Cards : Type 0
Cards = List (Channel × Card)

abbrev pub card_ids_in : Cards → List ℤ
card_ids_in cards = map (λ (k, c). c.card_id) cards

unfoldable pub card_of : Channel → Cards → Option Card
card_of c [] = none
card_of c ((k, card) ∷ l) = let rest = card_of c l in if channel_eq k c then some card else rest

abbrev pub is_negative : ℤ → Bool
is_negative z = not (present (nonnegative z))

-- What is kept of a row, where the template name is that of the channel.
unfoldable pub card_at : CardRow → Channel → Card
card_at r channel = record {
  card_id = r.card_id;
  template_name = channel_text channel;
  template_ordinal = r.ord;
  interval_days = r.interval;
  lapses_total = r.lapses;
  is_suspended = int_eq r.queue queue_suspended;
}

module _ {W : Type 0} (note : ℤ) (ids : List ℤ) (ordinals : Ordinals)
    (active : List (Channel × State)) where
  -- The loop over the rows: every row has added a card, so the ids seen are those of the cards.
  unfoldable pub attribute_rows : Cards → List CardRow → Step W Cards
  unfolding channel_at card_at
  attribute_rows cards [] = lift (ok cards)
  attribute_rows cards (r ∷ rows) = do
    stop_if (not (any (int_eq r.card_id) ids)) unknown_card
    stop_if (any (int_eq r.card_id) (card_ids_in cards)) duplicate_card
    stop_if (not (int_eq r.note note)) foreign_card
    n ← lift (found ordinal_negative (nonnegative r.ord))
    stop_if (is_negative r.interval) interval_negative
    stop_if (is_negative r.lapses) lapses_negative
    c ← lift (found ordinal_unknown (channel_at n ordinals))
    stop_if (not (has_channel c active)) channel_disabled
    stop_if (has_channel c cards) channel_twice
    attribute_rows ((c, card_at r c) ∷ cards) rows

  unfoldable pub check_cards : Cards → Step W Cards
  check_cards cards = do
    stop_if (not (all (λ i. any (int_eq i) (card_ids_in cards)) ids)) omitted_card
    stop_if (not (all (λ (c, s). has_channel c cards) active)) channel_without_card
    lift (ok cards)

  -- `_load_cards`
  unfoldable pub load_cards : Port W → Step W Cards
  unfolding attribute_rows check_cards
  load_cards port = do
    rows ← reply cards_unread (port.cards_info ids)
    stop_if (not (length rows == length ids)) card_count
    cards ← attribute_rows [] rows
    check_cards cards
