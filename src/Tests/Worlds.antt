-- ===== src/Tests/Worlds.antt =====
-- A world in memory that answers every call, and reports truly.
use vocab_system.Base.{
  ◌≡◌, sym, ap, ◌∙◌, subst, inl, inr, String, true, Option, none, some, List, [], ◌∷◌, ◌++◌, map,
  In,
}
use vocab_system.Base.Int.{ℤ, pos}
use vocab_system.Models.{Event}
use vocab_system.Models.Values.{Json}
use vocab_system.Reconcile.Materialize.Effects.{Note, CardRow, Template, Port}
use vocab_system.Reconcile.Materialize.Cards.{queue_suspended}
use vocab_system.Reconcile.Materialize.{find}
use vocab_system.Reconcile.Materialize.Readback.{View, IsTruthful}

-- All cards share one queue.
pub record World : Type 0 where
  pub written_events : List Json
  pub note_fields : List (String × String)
  pub card_queue : ℤ
  pub note_cards : List ℤ
  pub logged_events : List Event

abbrev pub sample_note : ℤ
sample_note = pos 7

abbrev note_of : World → Note
note_of w = record {
  note_id = sample_note;
  model_name = "VocabularyUnit";
  fields = w.note_fields;
  cards = w.note_cards;
  tags = [];
}

abbrev row_of : World → ℤ → CardRow
row_of w c = record {
  card_id = c;
  note = sample_note;
  queue = w.card_queue;
  ord = pos 0;
  interval = pos 0;
  lapses = pos 0;
}

abbrev sample_templates : List Template
sample_templates =
    record { ord = pos 0; name = "R" }
    ∷ record { ord = pos 1; name = "L" }
    ∷ record { ord = pos 2; name = "W" }
    ∷ record { ord = pos 3; name = "S" }
    ∷ []

abbrev pub sample_port : Port World
sample_port = record {
  log = λ u j w. (true, record w { written_events = w.written_events ++ (j ∷ []) });
  update_note_fields = λ note l w. (true, record w { note_fields = l ++ w.note_fields });
  notes_info = λ note w. (some (note_of w ∷ []), w);
  cards_info = λ ids w. (some (map (row_of w) ids), w);
  suspend = λ ids w. (some true, record w { card_queue = queue_suspended });
  unsuspend = λ ids w. (true, record w { card_queue = pos 0 });
  verified_note_type_snapshot = λ w. (some sample_templates, w);
  get_revlog = λ ids w. (some (map (λ c. (c, [])) ids), w);
  read_strict = λ w. (some w.logged_events, w);
}

abbrev pub sample_view : View World
sample_view = record {
  events = λ w. w.written_events;
  value = λ w k. find k w.note_fields;
  queue = λ w c. some w.card_queue;
}

abbrev first_fields : Option (List Note) → List (String × String)
first_fields (some (n ∷ l)) = n.fields
first_fields _ = []

abbrev rows_in : Option (List CardRow) → List CardRow
rows_in (some l) = l
rows_in none = []

row_queue :
    (w : World) (ids : List ℤ) (r : CardRow) → In r (map (row_of w) ids) → r.queue ≡ w.card_queue
row_queue w [] r m = absurd m
row_queue w (c ∷ ids) r (inl e) = ap (λ x. x.queue) e
row_queue w (c ∷ ids) r (inr m) = row_queue w ids r m

pub sample-IsTruthful : IsTruthful sample_port sample_view sample_note
sample-IsTruthful = record {
  logged = λ u j w w' e. (
    ap (λ q. q.1.written_events) (sym e),
    record {
      values = λ k. ap (λ q. find k q.1.note_fields) (sym e);
      queues = λ c. ap (λ q. some q.1.card_queue) (sym e);
    },
  );
  log_failed = λ u j w w' e. absurd (cc (ap (λ q. q.0) e));
  updated = λ l w w' b e. ap (λ q. q.1.written_events) (sym e);
  noted = λ w w' o e. ap (λ q. q.1.written_events) (sym e);
  notes_shown = λ w w' n k e same.
      ap (λ q. find k q.1.note_fields) (sym e) ∙ ap (λ q. find k (first_fields q.0)) e;
  carded = λ ids w w' o e.
      (ap (λ q. q.1.written_events) (sym e), λ k. ap (λ q. find k q.1.note_fields) (sym e));
  cards_shown = λ ids w w' rows r e m. ap some (
      ap (λ q. q.1.card_queue) (sym e)
      ∙ sym (row_queue w ids r (subst (λ q. In r (rows_in q.0)) (sym e) m)));
  suspended = λ ids w w' o e.
      (ap (λ q. q.1.written_events) (sym e), λ k. ap (λ q. find k q.1.note_fields) (sym e));
  unsuspended = λ ids w w' b e.
      (ap (λ q. q.1.written_events) (sym e), λ k. ap (λ q. find k q.1.note_fields) (sym e));
  snapshot_read = λ w w' o e. ap (λ q. q.1.written_events) (sym e);
  revlog_read = λ ids w w' o e. ap (λ q. q.1.written_events) (sym e);
  log_read = λ w w' o e. ap (λ q. q.1.written_events) (sym e);
}
