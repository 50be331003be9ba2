-- ===== src/Reconcile/Observe/Attributed.antt =====
-- The cards of a Unit and its active channels correspond one to one.
use vocab_system.Base.{
  ok_inj, not-false, ◌≡◌, ap, subst, Bool, true, false, not, List, [], ◌∷◌, any, all, All, length,
  ◌==◌, &&-true, ok,
}
use vocab_system.Base.Int.{ℤ, int_eq, nonnegative}
use vocab_system.Contracts.Channels.{Channel}
use vocab_system.Contracts.States.{State}
use vocab_system.Reconcile.Materialize.Effects.{
  CardRow, Port, cards_unread, card_count, unknown_card, duplicate_card, foreign_card, omitted_card,
  ordinal_negative, interval_negative, lapses_negative, ordinal_unknown, channel_disabled,
  channel_twice, channel_without_card, stop_if, reply, lift, after-ensures, stop_if-passed,
}
use vocab_system.Reconcile.Observe.Attribution.{
  Ordinals, channel_at, has_channel, found, Cards, card_ids_in, is_negative, card_at,
  attribute_rows, check_cards, load_cards,
}

all-All : {A : Type 0} (f : A → Bool) (l : List A) → all f l ≡ true → All (λ a. f a ≡ true) l
all-All f [] h = tt
all-All f (a ∷ l) h = let (here, there) = &&-true (f a) (all f l) h in (here, all-All f l there)

module _ (ids : List ℤ) (active : List (Channel × State)) where
  -- Every card is one of the note's, on an active channel that has no other card.
  abbrev pub AreAttributed : Cards → Type 0
  AreAttributed [] = Unit
  AreAttributed ((c, card) ∷ l) =
      (any (int_eq card.card_id) ids ≡ true)
      × (any (int_eq card.card_id) (card_ids_in l) ≡ false)
      × (has_channel c active ≡ true)
      × (has_channel c l ≡ false)
      × AreAttributed l

  -- The cards are all of the note's, and every active channel has one.
  pub record IsAttribution (cards : Cards) : Type 0 where
    pub attributed : AreAttributed cards
    pub every_card : All (λ i. any (int_eq i) (card_ids_in cards) ≡ true) ids
    pub every_channel : All (λ (c, s). has_channel c cards ≡ true) active

module _ {W : Type 0} (note : ℤ) (ids : List ℤ) (ordinals : Ordinals)
    (active : List (Channel × State)) where
  attribute_rows-AreAttributed :
      (rows : List CardRow) (cards : Cards) (w : W)
      → AreAttributed ids active cards
      → (b : Cards) (w' : W) → attribute_rows note ids ordinals active cards rows w ≡ (ok b, w')
      → AreAttributed ids active b
  unfolding attribute_rows card_at
  attribute_rows-AreAttributed [] cards w h =
      λ b w' e. subst (AreAttributed ids active) (ok_inj (ap (λ q. q.0) e)) h
  attribute_rows-AreAttributed (r ∷ rows) cards w h =
      let P = AreAttributed ids active in
      after-ensures P (stop_if (not (any (int_eq r.card_id) ids)) unknown_card w) _ (λ _ w₁ known.
        after-ensures P (stop_if (any (int_eq r.card_id) (card_ids_in cards)) duplicate_card w₁) _
          (λ _ w₂ fresh.
            after-ensures P (stop_if (not (int_eq r.note note)) foreign_card w₂) _ (λ _ w₃ _.
              after-ensures P (lift (found ordinal_negative (nonnegative r.ord)) w₃) _ (λ n w₄ _.
                after-ensures P (stop_if (is_negative r.interval) interval_negative w₄) _ (λ _ w₅ _.
                  after-ensures P (stop_if (is_negative r.lapses) lapses_negative w₅) _ (λ _ w₆ _.
                    after-ensures P (lift (found ordinal_unknown (channel_at n ordinals)) w₆) _
                      (λ c w₇ _.
                        after-ensures P (stop_if (not (has_channel c active)) channel_disabled w₇) _
                          (λ _ w₈ enabled.
                            after-ensures P (stop_if (has_channel c cards) channel_twice w₈) _
                              (λ _ w₉ once.
                                attribute_rows-AreAttributed rows ((c, card_at r c) ∷ cards) w₉ (
                                  not-false _ (stop_if-passed _ _ w w₁ known),
                                  stop_if-passed _ _ w₁ w₂ fresh,
                                  not-false _ (stop_if-passed _ _ w₇ w₈ enabled),
                                  stop_if-passed _ _ w₈ w₉ once,
                                  h,
                                ))))))))))

  check_cards-IsAttribution :
      (cards : Cards) (w : W)
      → AreAttributed ids active cards
      → (b : Cards) (w' : W) → check_cards note ids ordinals active cards w ≡ (ok b, w')
      → IsAttribution ids active b
  unfolding check_cards
  check_cards-IsAttribution cards w h =
      let P = IsAttribution ids active in
      after-ensures P
        (stop_if (not (all (λ i. any (int_eq i) (card_ids_in cards)) ids)) omitted_card w) _
        (λ _ w₁ ids_found.
          after-ensures P
            (stop_if (not (all (λ (c, s). has_channel c cards) active)) channel_without_card w₁) _
            (λ _ w₂ channels_found b w' e. subst P (ok_inj (ap (λ q. q.0) e)) (record {
              attributed = h;
              every_card = all-All _ ids (not-false _ (stop_if-passed _ _ w w₁ ids_found));
              every_channel =
                  all-All _ active (not-false _ (stop_if-passed _ _ w₁ w₂ channels_found));
            })))

  -- Accepted cards and active channels correspond one to one: every card is one of the note's and
  -- stands on an active channel, no card and no channel comes twice, and no card of the note and
  -- no active channel is left out.
  pub load_cards-IsAttribution :
      (port : Port W) (w : W) (cards : Cards) (w' : W)
      → load_cards note ids ordinals active port w ≡ (ok cards, w')
      → IsAttribution ids active cards
  unfolding load_cards
  load_cards-IsAttribution port w =
      let P = IsAttribution ids active in
      after-ensures P (reply cards_unread (port.cards_info ids) w) _ (λ rows w₁ _.
        after-ensures P (stop_if (not (length rows == length ids)) card_count w₁) _ (λ _ w₂ _.
          after-ensures P (attribute_rows note ids ordinals active [] rows w₂) _
            (λ cards w₃ attributed.
              check_cards-IsAttribution cards w₃
                (attribute_rows-AreAttributed rows [] w₂ tt cards w₃ attributed))))
