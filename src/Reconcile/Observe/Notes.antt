-- ===== src/Reconcile/Observe/Notes.antt =====
-- `_load_note`: the note as a Unit, with its cards and whether it has the leech tag.
pub mod RoundTrip
use vocab_system.Base.{
  ℕ, String, Bool, true, false, not, Option, none, some, List, [], ◌∷◌, map, any, if◌then◌else◌, ok,
  err,
}
use vocab_system.Base.Int.{ℤ, int_eq}
use vocab_system.Base.Text.{str_eq, str_in}
use vocab_system.Contracts.Channels.{Channel, channels}
use vocab_system.Contracts.States.{State, parse_state}
use vocab_system.Models.Units.{VocabUnit}
use vocab_system.Models.Values.{same_texts}
use vocab_system.Matching.Tokens.{Unicode}
use vocab_system.Forge.Codes.{ForgeCode}
use vocab_system.Forge.Fields.{target_of, state_of}
use vocab_system.Forge.Units.{validate_forge_unit}
use vocab_system.Reconcile.Materialize.Effects.{
  Note, Port, Step, Failure, notes_unread, note_count, foreign_note, foreign_model, fields_differ,
  unit_invalid, cards_repeated, ◌>>=◌, ◌>>◌, stop_if, reply, lift,
}
use vocab_system.Reconcile.Materialize.{find}

-- NOTE_FIELDS
abbrev pub note_field_names : List String
note_field_names =
    "unit_key" ∷ "lemma" ∷ "lemma_slug" ∷ "sense_slug" ∷ "unit_type" ∷ "Target_R" ∷ "Target_L"
    ∷ "Target_W" ∷ "Target_S" ∷ "register" ∷ "definition_en" ∷ "source_ref" ∷ "source_sentence"
    ∷ "Ctx_1" ∷ "Ctx_2" ∷ "Ctx_3" ∷ "Ctx_4" ∷ "Ctx_5" ∷ "audio_1" ∷ "audio_2" ∷ "audio_3"
    ∷ "VisualCue" ∷ "state_R" ∷ "state_L" ∷ "state_W" ∷ "state_S" ∷ "freq_band" ∷ "created"
    ∷ "graduated" ∷ []

abbrev pub field_keys : List (String × String) → List String
field_keys fields = map (λ (k, v). k) fields

-- The value of a field that is there.
abbrev value_or_empty : Option String → String
value_or_empty none = ""
value_or_empty (some s) = s

unfoldable pub value_in : String → List (String × String) → String
unfolding find
value_in k fields = value_or_empty (find k fields)

-- `VocabUnit(**values)`
unfoldable pub unit_of : List (String × String) → VocabUnit
unfolding value_in
unit_of fields = record {
  unit_key = value_in "unit_key" fields;
  lemma = value_in "lemma" fields;
  lemma_slug = value_in "lemma_slug" fields;
  sense_slug = value_in "sense_slug" fields;
  unit_type = value_in "unit_type" fields;
  target_r = value_in "Target_R" fields;
  target_l = value_in "Target_L" fields;
  target_w = value_in "Target_W" fields;
  target_s = value_in "Target_S" fields;
  register = value_in "register" fields;
  definition_en = value_in "definition_en" fields;
  source_ref = value_in "source_ref" fields;
  source_sentence = value_in "source_sentence" fields;
  ctx_1 = value_in "Ctx_1" fields;
  ctx_2 = value_in "Ctx_2" fields;
  ctx_3 = value_in "Ctx_3" fields;
  ctx_4 = value_in "Ctx_4" fields;
  ctx_5 = value_in "Ctx_5" fields;
  audio_1 = value_in "audio_1" fields;
  audio_2 = value_in "audio_2" fields;
  audio_3 = value_in "audio_3" fields;
  visual_cue = value_in "VisualCue" fields;
  state_r = value_in "state_R" fields;
  state_l = value_in "state_L" fields;
  state_w = value_in "state_W" fields;
  state_s = value_in "state_S" fields;
  freq_band = value_in "freq_band" fields;
  created = value_in "created" fields;
  graduated = value_in "graduated" fields;
}

abbrev pub no_violation : Option (List ForgeCode) → Bool
no_violation (some []) = true
no_violation _ = false

-- `len(set(ids)) != len(ids)`
abbrev pub has_repeated : List ℤ → Bool
has_repeated [] = false
has_repeated (c ∷ l) = let rest = has_repeated l in if any (int_eq c) l then true else rest

-- The active channels of a valid Unit, with their states.
abbrev add_active :
    String → Channel → Option State → List (Channel × State) → List (Channel × State)
add_active target c none l = l
add_active target c (some s) l = if str_eq target "" then l else (c, s) ∷ l

unfoldable pub active_states_in : VocabUnit → List Channel → List (Channel × State)
unfolding parse_state
active_states_in unit [] = []
active_states_in unit (c ∷ l) =
    add_active (target_of unit c) c (parse_state (state_of unit c)) (active_states_in unit l)

abbrev pub active_states : VocabUnit → List (Channel × State)
active_states unit = active_states_in unit channels

-- What is read of a note.
pub record Loaded : Type 0 where
  pub unit : VocabUnit
  pub card_ids : List ℤ
  pub has_leech_tag : Bool

module _ {W : Type 0} (u : Unicode) where
  unfoldable pub read_note : ℤ → List Note → Step W Loaded
  unfolding unit_of validate_forge_unit
  read_note note (n ∷ []) = do
    stop_if (not (int_eq n.note_id note)) foreign_note
    stop_if (not (str_eq n.model_name "VocabularyUnit")) foreign_model
    stop_if (not (same_texts (field_keys n.fields) note_field_names)) fields_differ
    stop_if (not (no_violation (validate_forge_unit u (unit_of n.fields)))) unit_invalid
    stop_if (has_repeated n.cards) cards_repeated
    lift (
        ok (record {
          unit = unit_of n.fields;
          card_ids = n.cards;
          has_leech_tag = str_in "leech" n.tags;
        }))
  read_note note _ = lift (err note_count)

  -- `_load_note`
  unfoldable pub load_note : Port W → ℤ → Step W Loaded
  unfolding read_note
  load_note port note = do notes ← reply notes_unread (port.notes_info note); read_note note notes
