-- ===== src/Reconcile/Observe/Observed.antt =====
-- What an observation that returns is made of.
use vocab_system.Base.{ℕ, ◌≡◌, Bool, some, List, [], ◌∷◌}
use vocab_system.Base.Int.{ℤ}
use vocab_system.Contracts.Channels.{Channel}
use vocab_system.Models.{Event, UnitProgress}
use vocab_system.Matching.Tokens.{Unicode}
use vocab_system.Forge.Units.{validate_forge_unit}
use vocab_system.Journal.Provenance.{Episode}
use vocab_system.Journal.History.Explained.{IsHistory}
use vocab_system.Reconcile.Runtime.{Runtime}
use vocab_system.Reconcile.Materialize.Effects.{Note, Template, Port}
use vocab_system.Reconcile.Observe.Notes.{Loaded, active_states, unit_of}
use vocab_system.Reconcile.Observe.Attribution.{Cards}
use vocab_system.Reconcile.Observe.Attributed.{IsAttribution}
use vocab_system.Reconcile.Observe.Progress.{AreProgress}

-- What a note has to be, to be read.
record IsRead (u : Unicode) (note : ℤ) (shown : Note) (n : Loaded) : Type 0 where
  id : shown.note_id ≡ note
  model : shown.model_name ≡ "VocabularyUnit"
  unit : n.unit ≡ unit_of shown.fields
  valid : validate_forge_unit u n.unit ≡ some []
  cards : n.card_ids ≡ shown.cards

module _ {W : Type 0} (u : Unicode) (rt : Runtime) (verified : List Template → Bool) (port : Port W)
    (note : ℤ) (now : ℕ) where
  -- What an observation that returns says of the note and of the log.
  pub record IsObserved (w : W) (progress : UnitProgress) : Type 0 where
    pub shown : Note
    pub noted : W
    pub notes : port.notes_info note w ≡ (some (shown ∷ []), noted)
    pub id : shown.note_id ≡ note
    pub model : shown.model_name ≡ "VocabularyUnit"
    pub valid : validate_forge_unit u (unit_of shown.fields) ≡ some []
    pub cards : Cards
    pub attribution : IsAttribution shown.cards (active_states (unit_of shown.fields)) cards
    pub log : List Event
    pub before : W
    pub after : W
    pub logged : port.read_strict before ≡ (some log, after)
    pub episodes : List (Channel × Episode)
    pub history :
        IsHistory rt now
          (unit_of shown.fields).unit_key
          log
          (active_states (unit_of shown.fields))
          episodes
    pub unit_key : progress.unit_key ≡ (unit_of shown.fields).unit_key
    pub channels :
        AreProgress rt cards episodes (active_states (unit_of shown.fields)) progress.channels
