-- ===== src/Reconcile/Observe/Notes/RoundTrip.antt =====
-- A note that shows the fields of a Unit is read as that Unit.
use vocab_system.Base.{◌≡◌, refl}
use vocab_system.Models.Units.{VocabUnit, to_note_fields}
use vocab_system.Reconcile.Observe.Notes.{unit_of}

-- The fields that a Unit is stored under are read back as the Unit.
pub unit_of-to_note_fields : (unit : VocabUnit) → unit_of (to_note_fields unit) ≡ unit
unfolding unit_of to_note_fields
unit_of-to_note_fields unit = refl
