-- ===== src/Models/Units.antt =====
-- vocab/models.py: `VocabUnit`, its projections, and the state derived for display.
pub mod Derived
use vocab_system.Base.{
  String, Bool, true, false, not, Option, none, some, List, [], ◌∷◌, any, if◌then◌else◌,
}
use vocab_system.Base.Text.{str_eq, str_in}
use vocab_system.Contracts.States.{State, states, state_text, derived_state_priority, parse_state}

pub record VocabUnit : Type 0 where
  pub unit_key : String
  pub lemma : String
  pub lemma_slug : String
  pub sense_slug : String
  pub unit_type : String
  pub target_r : String
  pub target_l : String
  pub target_w : String
  pub target_s : String
  pub register : String
  pub definition_en : String
  pub source_ref : String
  pub source_sentence : String
  pub ctx_1 : String
  pub ctx_2 : String
  pub ctx_3 : String
  pub ctx_4 : String
  pub ctx_5 : String
  pub audio_1 : String
  pub audio_2 : String
  pub audio_3 : String
  pub visual_cue : String
  pub state_r : String
  pub state_l : String
  pub state_w : String
  pub state_s : String
  pub freq_band : String
  pub created : String
  pub graduated : String

abbrev keep_if : Bool → String × String → List (String × String) → List (String × String)
keep_if true x xs = x ∷ xs
keep_if false x xs = xs

-- A dict is the list of its items in insertion order.
unfoldable pub active_channel_states : VocabUnit → List (String × String)
active_channel_states u =
    keep_if (not (str_eq u.target_r "")) ("R", u.state_r)
      (keep_if (not (str_eq u.target_l "")) ("L", u.state_l)
        (keep_if (not (str_eq u.target_w "")) ("W", u.state_w)
          (keep_if (not (str_eq u.target_s "")) ("S", u.state_s) [])))

abbrev pub values : List (String × String) → List String
values [] = []
values ((_, v) ∷ l) = v ∷ values l

abbrev pub is_state : String → Bool
is_state s = elim (parse_state s) [ none ↦ false | some _ ↦ true ]

-- `for candidate in DERIVED_STATE_PRIORITY`
unfoldable pub first_candidate : List State → List String → String
first_candidate [] active = "UNKNOWN"
first_candidate (s ∷ rest) active =
    if str_in (state_text s) active then state_text s else first_candidate rest active

unfoldable pub derived_state_of : List String → String
unfolding first_candidate
derived_state_of [] = ""
derived_state_of (s ∷ rest) =
    if any (λ t. not (is_state t)) (s ∷ rest)
    then "UNKNOWN"
    else first_candidate derived_state_priority (s ∷ rest)

unfoldable pub derived_state : VocabUnit → String
unfolding active_channel_states derived_state_of
derived_state u = derived_state_of (values (active_channel_states u))

unfoldable pub to_note_fields : VocabUnit → List (String × String)
to_note_fields u =
    ("unit_key", u.unit_key)
    ∷ ("lemma", u.lemma)
    ∷ ("lemma_slug", u.lemma_slug)
    ∷ ("sense_slug", u.sense_slug)
    ∷ ("unit_type", u.unit_type)
    ∷ ("Target_R", u.target_r)
    ∷ ("Target_L", u.target_l)
    ∷ ("Target_W", u.target_w)
    ∷ ("Target_S", u.target_s)
    ∷ ("register", u.register)
    ∷ ("definition_en", u.definition_en)
    ∷ ("source_ref", u.source_ref)
    ∷ ("source_sentence", u.source_sentence)
    ∷ ("Ctx_1", u.ctx_1)
    ∷ ("Ctx_2", u.ctx_2)
    ∷ ("Ctx_3", u.ctx_3)
    ∷ ("Ctx_4", u.ctx_4)
    ∷ ("Ctx_5", u.ctx_5)
    ∷ ("audio_1", u.audio_1)
    ∷ ("audio_2", u.audio_2)
    ∷ ("audio_3", u.audio_3)
    ∷ ("VisualCue", u.visual_cue)
    ∷ ("state_R", u.state_r)
    ∷ ("state_L", u.state_l)
    ∷ ("state_W", u.state_w)
    ∷ ("state_S", u.state_s)
    ∷ ("freq_band", u.freq_band)
    ∷ ("created", u.created)
    ∷ ("graduated", u.graduated)
    ∷ []
