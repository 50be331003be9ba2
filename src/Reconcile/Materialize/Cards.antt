-- ===== src/Reconcile/Materialize/Cards.antt =====
-- `_suspend_cards` and `_read_card_queues`.
use vocab_system.Base.{
  Bool, false, not, Option, none, some, List, [], ◌∷◌, any, all, length, ◌==◌, if◌then◌else◌, ok,
}
use vocab_system.Base.Int.{ℤ, negsuc, int_eq}
use vocab_system.Reconcile.Materialize.Effects.{
  CardRow, Port, Step, cards_unread, card_count, unknown_card, duplicate_card, foreign_card,
  omitted_card, suspend_failed, suspend_unconfirmed, ◌>>=◌, ◌>>◌, stop_if, reply,
}

-- The queue numbers by card, newest first.
abbrev pub Queues : Type 0
Queues = List (ℤ × ℤ)

unfoldable pub queue_of : ℤ → Queues → Option ℤ
queue_of c [] = none
queue_of c ((d, q) ∷ l) = if int_eq d c then some q else queue_of c l

abbrev pub has_queue : ℤ → Queues → Bool
has_queue c queues = any (λ (d, q). int_eq d c) queues

-- ANKI_QUEUE_SUSPENDED
abbrev pub queue_suspended : ℤ
queue_suspended = negsuc 0

abbrev pub is_suspended_queue : Option ℤ → Bool
is_suspended_queue none = false
is_suspended_queue (some q) = int_eq q queue_suspended

unfoldable pub all_suspended : Queues → List ℤ → Bool
unfolding queue_of
all_suspended queues cards = all (λ c. is_suspended_queue (queue_of c queues)) cards

module _ {W : Type 0} where
  -- The loop over the rows.
  unfoldable pub add_rows : ℤ → List ℤ → Queues → List CardRow → Step W Queues
  add_rows note ids queues [] = λ w. (ok queues, w)
  add_rows note ids queues (r ∷ rows) = do
    stop_if (not (any (λ c. int_eq r.card_id c) ids)) unknown_card
    stop_if (has_queue r.card_id queues) duplicate_card
    stop_if (not (int_eq r.note note)) foreign_card
    add_rows note ids ((r.card_id, r.queue) ∷ queues) rows

  -- `set(queues) != expected_ids`, where every queue belongs to an expected card.
  unfoldable pub complete : List ℤ → Queues → Step W Queues
  complete ids queues = do
    stop_if (not (all (λ c. has_queue c queues) ids)) omitted_card
    λ w. (ok queues, w)

module _ {W : Type 0} (port : Port W) where
  unfoldable pub read_card_queues : ℤ → List ℤ → Step W Queues
  unfolding add_rows complete
  read_card_queues note ids = do
    rows ← reply cards_unread (port.cards_info ids)
    stop_if (not (length rows == length ids)) card_count
    queues ← add_rows note ids [] rows
    complete ids queues

  unfoldable pub suspend_cards : List ℤ → Step W (Unit {0})
  suspend_cards [] = stop_if false suspend_failed
  suspend_cards (c ∷ cards) = do
    confirmed ← reply suspend_failed (port.suspend (c ∷ cards))
    stop_if (not confirmed) suspend_unconfirmed
