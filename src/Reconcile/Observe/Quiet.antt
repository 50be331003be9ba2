-- ===== src/Reconcile/Observe/Quiet.antt =====
-- Reading the note and the cards, and an observation made of these, append no event.
use vocab_system.Base.{
  ℕ, ◌≡◌, refl, Bool, true, false, not, ◌||◌, Option, List, [], ◌∷◌, if◌then◌else◌, Result, ok, err,
  any, all, length, ◌==◌,
}
use vocab_system.Base.Int.{ℤ, int_eq, nonnegative}
use vocab_system.Base.Text.{str_eq}
use vocab_system.Models.Values.{same_texts}
use vocab_system.Forge.Units.{validate_forge_unit}
use vocab_system.Reconcile.Revlog.{load_revlog}
use vocab_system.Journal.History.{load_event_history}
use vocab_system.Contracts.Channels.{Channel, channels, parse_channel}
use vocab_system.Contracts.States.{State}
use vocab_system.Matching.Tokens.{Unicode}
use vocab_system.Reconcile.Runtime.{Runtime}
use vocab_system.Reconcile.Materialize.Effects.{
  Note, CardRow, Template, Port, Step, Failure, ◌>>=◌, stop_if, call, reply, lift, lift_as,
  notes_unread, foreign_note, foreign_model, fields_differ, unit_invalid, cards_repeated,
  template_malformed, template_repeated, snapshot_unverified, templates_differ, unknown_card,
  duplicate_card, foreign_card, ordinal_negative, interval_negative, lapses_negative,
  ordinal_unknown, channel_disabled, channel_twice, omitted_card, channel_without_card, card_count,
  revlog_failed, history_failed, cards_unread, snapshot_unread, revlog_unread, history_unread,
}
use vocab_system.Reconcile.Materialize.Readback.{
  View, IsTruthful, Quiet, after_Quiet, Quiet-from, reply-Quiet, call-Quiet,
}
use vocab_system.Reconcile.Observe.Notes.{
  Loaded, read_note, load_note, active_states, field_keys, note_field_names, no_violation, unit_of,
  has_repeated,
}
use vocab_system.Reconcile.Observe.Attribution.{
  Ordinals, Cards, channel_at, has_channel, names_channel, present, found, card_ids_in, is_negative,
  card_at, add_templates, verified_ordinal_map, attribute_rows, check_cards, load_cards,
}
use vocab_system.Reconcile.Observe.{
  card_ids_by_channel, channels_of, all_mastered_at, load_sources, load_attributed, observe_unit,
}

-- From every world the step appends no event.
pub record IsQuiet {W A : Type 0} (v : View W) (m : Step W A) : Type 0 where
  pub quiet : (w : W) → Quiet v w (λ _ _. Unit) (m w)

module _ {W : Type 0} (v : View W) where
  pub weaken :
      {A : Type 0} (w : W) (Good : A → W → Type 0) (r : Result Failure A × W)
      → Quiet v w Good r
      → Quiet v w (λ _ _. Unit) r
  weaken w Good (ok a, w') h = (h.0, tt)
  weaken w Good (err e, w') h = h

  pub lift-IsQuiet : {A : Type 0} (r : Result Failure A) → IsQuiet v (lift r)
  lift-IsQuiet (ok a) = record { quiet = λ w. (refl, tt) }
  lift-IsQuiet (err e) = record { quiet = λ w. refl }

  pub stop_if-IsQuiet : (b : Bool) (e : Failure) → IsQuiet v (stop_if b e)
  stop_if-IsQuiet true e = record { quiet = λ w. refl }
  stop_if-IsQuiet false e = record { quiet = λ w. (refl, tt) }

  pub >>=-IsQuiet :
      {A B : Type 0} (m : Step W A) (f : A → Step W B)
      → IsQuiet v m
      → ((a : A) → IsQuiet v (f a))
      → IsQuiet v (m >>= f)
  >>=-IsQuiet m f h k = record {
    quiet = λ w.
        after_Quiet v w (λ _ _. Unit) (Quiet v w (λ _ _. Unit)) (m w) f (h.quiet w)
          (λ a w' same _. Quiet-from v (λ _ _. Unit) w w' same (f a w') ((k a).quiet w'))
          (λ e w' same. same);
  }

  -- A test before the rest of a chain.
  pub guard-IsQuiet :
      {B : Type 0} (b : Bool) (e : Failure) (f : Unit {0} → Step W B)
      → IsQuiet v (f tt)
      → IsQuiet v (stop_if b e >>= f)
  guard-IsQuiet b e f h = >>=-IsQuiet (stop_if b e) f (stop_if-IsQuiet b e) (λ _. h)

  pub if-IsQuiet :
      {A : Type 0} (b : Bool) (m n : Step W A)
      → IsQuiet v m
      → IsQuiet v n
      → IsQuiet v (if b then m else n)
  if-IsQuiet true m n h k = h
  if-IsQuiet false m n h k = k

module _ {W : Type 0} (port : Port W) (v : View W) (note : ℤ) (t : IsTruthful port v note) where
  pub reply-IsQuiet :
      {A : Type 0} (e : Failure) (f : W → Option A × W)
      → ((w : W) (o : Option A) (w' : W) → f w ≡ (o, w') → v.events w' ≡ v.events w)
      → IsQuiet v (reply e f)
  reply-IsQuiet e f h = record {
    quiet = λ w. weaken v w _ (reply e f w) (reply-Quiet port v note t e f w (h w));
  }

  pub call-IsQuiet :
      (e : Failure) (f : W → Bool × W)
      → ((w : W) (b : Bool) (w' : W) → f w ≡ (b, w') → v.events w' ≡ v.events w)
      → IsQuiet v (call e f)
  call-IsQuiet e f h = record { quiet = λ w. call-Quiet port v note t e f w (h w) }

  read_note-IsQuiet : (u : Unicode) (id : ℤ) (notes : List Note) → IsQuiet v (read_note u id notes)
  unfolding read_note
  read_note-IsQuiet u id [] = lift-IsQuiet v _
  read_note-IsQuiet u id (n ∷ m ∷ l) = lift-IsQuiet v _
  read_note-IsQuiet u id (n ∷ []) = guard-IsQuiet v (not (int_eq n.note_id id)) foreign_note _ (
      guard-IsQuiet v (not (str_eq n.model_name "VocabularyUnit")) foreign_model _ (
        guard-IsQuiet v (not (same_texts (field_keys n.fields) note_field_names)) fields_differ _ (
          guard-IsQuiet v (not (no_violation (validate_forge_unit u (unit_of n.fields))))
            unit_invalid _
            (guard-IsQuiet v (has_repeated n.cards) cards_repeated _ (lift-IsQuiet v _)))))

  pub load_note-IsQuiet : (u : Unicode) → IsQuiet v (load_note u port note)
  unfolding load_note
  load_note-IsQuiet u =
      >>=-IsQuiet v (reply notes_unread (port.notes_info note)) _
        (reply-IsQuiet notes_unread (port.notes_info note) (λ w o w' e. t.noted w w' o e))
        (λ notes. read_note-IsQuiet u note notes)

  add_templates-IsQuiet : (seen : Ordinals) (l : List Template) → IsQuiet v (add_templates seen l)
  unfolding add_templates
  add_templates-IsQuiet seen [] = lift-IsQuiet v _
  add_templates-IsQuiet seen (x ∷ l) =
      >>=-IsQuiet v (lift (found template_malformed (nonnegative x.ord))) _ (lift-IsQuiet v _) (λ n.
        >>=-IsQuiet v (lift (found template_malformed (parse_channel x.name))) _ (lift-IsQuiet v _)
          (λ c.
            guard-IsQuiet v (present (channel_at n seen) || names_channel c seen) template_repeated
              _ (add_templates-IsQuiet ((n, c) ∷ seen) l)))

  verified_ordinal_map-IsQuiet :
      (verified : List Template → Bool) (l : List Template)
      → IsQuiet v (verified_ordinal_map verified l)
  unfolding verified_ordinal_map
  verified_ordinal_map-IsQuiet verified l =
      guard-IsQuiet v (not (verified l)) snapshot_unverified _ (
        >>=-IsQuiet v (add_templates [] l) _ (add_templates-IsQuiet [] l) (λ ordinals.
          guard-IsQuiet v (not (all (λ c. names_channel c ordinals) channels)) templates_differ _
            (lift-IsQuiet v _)))

  module _ (id : ℤ) (ids : List ℤ) (ordinals : Ordinals) (active : List (Channel × State)) where
    attribute_rows-IsQuiet :
        (cards : Cards) (rows : List CardRow)
        → IsQuiet v (attribute_rows id ids ordinals active cards rows)
    unfolding attribute_rows
    attribute_rows-IsQuiet cards [] = lift-IsQuiet v _
    attribute_rows-IsQuiet cards (r ∷ rows) =
        guard-IsQuiet v (not (any (int_eq r.card_id) ids)) unknown_card _ (
          guard-IsQuiet v (any (int_eq r.card_id) (card_ids_in cards)) duplicate_card _ (
            guard-IsQuiet v (not (int_eq r.note id)) foreign_card _ (
              >>=-IsQuiet v (lift (found ordinal_negative (nonnegative r.ord))) _ (lift-IsQuiet v _)
                (λ n. guard-IsQuiet v (is_negative r.interval) interval_negative _ (
                  guard-IsQuiet v (is_negative r.lapses) lapses_negative _ (
                    >>=-IsQuiet v (lift (found ordinal_unknown (channel_at n ordinals))) _
                      (lift-IsQuiet v _)
                      (λ c. guard-IsQuiet v (not (has_channel c active)) channel_disabled _ (
                        guard-IsQuiet v (has_channel c cards) channel_twice _
                          (attribute_rows-IsQuiet ((c, card_at r c) ∷ cards) rows)))))))))

    check_cards-IsQuiet : (cards : Cards) → IsQuiet v (check_cards id ids ordinals active cards)
    unfolding check_cards
    check_cards-IsQuiet cards =
        guard-IsQuiet v (not (all (λ i. any (int_eq i) (card_ids_in cards)) ids)) omitted_card _ (
          guard-IsQuiet v (not (all (λ (c, s). has_channel c cards) active)) channel_without_card _
            (lift-IsQuiet v _))

    load_cards-IsQuiet : IsQuiet v (load_cards id ids ordinals active port)
    unfolding load_cards
    load_cards-IsQuiet =
        >>=-IsQuiet v (reply cards_unread (port.cards_info ids)) _
          (reply-IsQuiet cards_unread (port.cards_info ids) (λ w o w' e. (t.carded ids w w' o e).0))
          (λ rows. guard-IsQuiet v (not (length rows == length ids)) card_count _ (
            >>=-IsQuiet v (attribute_rows id ids ordinals active [] rows) _
              (attribute_rows-IsQuiet [] rows) (λ cards. check_cards-IsQuiet cards)))

  module _ (u : Unicode) (rt : Runtime) (verified : List Template → Bool) where
    pub load_attributed-IsQuiet :
        (n : Loaded) → IsQuiet v (load_attributed u rt verified port note n)
    unfolding load_attributed
    load_attributed-IsQuiet n =
        >>=-IsQuiet v (reply snapshot_unread port.verified_note_type_snapshot) _
          (reply-IsQuiet snapshot_unread port.verified_note_type_snapshot
            (λ w o w' e. t.snapshot_read w w' o e))
          (λ templates.
            >>=-IsQuiet v (verified_ordinal_map verified templates) _
              (verified_ordinal_map-IsQuiet verified templates)
              (λ ordinals. load_cards-IsQuiet note n.card_ids ordinals (active_states n.unit)))

    load_sources-IsQuiet :
        (now : ℕ) (n : Loaded) (cards : Cards)
        → IsQuiet v (load_sources u rt verified port now n cards)
    unfolding load_sources
    load_sources-IsQuiet now n cards =
        >>=-IsQuiet v (reply revlog_unread (port.get_revlog n.card_ids)) _
          (reply-IsQuiet revlog_unread (port.get_revlog n.card_ids)
            (λ w o w' e. t.revlog_read n.card_ids w w' o e))
          (λ reviews.
            >>=-IsQuiet v
              (lift_as revlog_failed
                (load_revlog rt now reviews (card_ids_by_channel cards) n.card_ids))
              _ (lift-IsQuiet v _)
              (λ revlog.
                >>=-IsQuiet v (reply history_unread port.read_strict) _
                  (reply-IsQuiet history_unread port.read_strict (λ w o w' e. t.log_read w w' o e))
                  (λ events.
                    >>=-IsQuiet v
                      (lift_as history_failed
                        (load_event_history rt now n.unit.unit_key (active_states n.unit) events))
                      _ (lift-IsQuiet v _) (λ h. lift-IsQuiet v _))))

    -- Over a port that reports truly, an observation appends no event, whether it succeeds or
    -- not.
    pub observe_unit-IsQuiet : (now : ℕ) → IsQuiet v (observe_unit u rt verified port note now)
    unfolding observe_unit
    observe_unit-IsQuiet now = >>=-IsQuiet v (load_note u port note) _ (load_note-IsQuiet u) (λ n.
        >>=-IsQuiet v (load_attributed u rt verified port note n) _ (load_attributed-IsQuiet n)
          (λ cards.
            >>=-IsQuiet v (load_sources u rt verified port now n cards) _
              (load_sources-IsQuiet now n cards)
              (λ s.
                >>=-IsQuiet v (lift (channels_of rt s (active_states n.unit))) _ (lift-IsQuiet v _)
                  (λ channels.
                    >>=-IsQuiet v (lift (all_mastered_at rt s (active_states n.unit))) _
                      (lift-IsQuiet v _) (λ mastered_at. lift-IsQuiet v _)))))
