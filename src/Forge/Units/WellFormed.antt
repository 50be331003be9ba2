-- ===== src/Forge/Units/WellFormed.antt =====
-- Which Units are well formed, and that the validator always returns.
use vocab_system.Base.{
  agree, ℕ, ◌≡◌, refl, ◌∙◌, ◌⊎◌, inl, inr, String, Bool, true, false, not, ◌||◌, Option, none, some,
  List, [], ◌∷◌, arith, if◌then◌else◌, Bool-cases, Option-cases,
}
use vocab_system.Base.Text.{str_eq, str_eq_iff, str_in, codes, is_blank}
use vocab_system.Contracts.Channels.{Channel}
use vocab_system.Contracts.States.{
  State, state_text, parse_state, parse_state_sound, parse_state-state_text,
}
use vocab_system.Contracts.Keys.{is_slug, proposed_unit_key}
use vocab_system.Contracts.Matching.{unit_type_values}
use vocab_system.Matching.Tokens.{Unicode, Token}
use vocab_system.Matching.Units.{
  Span, unit_match_spans, contains_unit, any_span, match_word, match_chunk, match_frame,
  has_placeholder, split_placeholder,
}
use vocab_system.Models.Units.{VocabUnit, is_state}
use vocab_system.Forge.References.{is_source_ref}
use vocab_system.Forge.Fields.{target_of, state_of, target_flag_values, register_values}
use vocab_system.Forge.Units.{returned, has_valid_unit_shape}

returned_if :
    {A : Type 0} (c : Bool) (a a' b b' : Option A)
    → returned a ≡ returned a'
    → returned b ≡ returned b'
    → returned (if c then a else b) ≡ returned (if c then a' else b')
returned_if true a a' b b' p q = p
returned_if false a a' b b' p q = q

returned-match_word :
    (text text' target : List Token)
    → returned (match_word text target) ≡ returned (match_word text' target)
unfolding match_word
returned-match_word text text' [] = refl
returned-match_word text text' (w ∷ []) = refl
returned-match_word text text' (w ∷ w' ∷ ws) = refl

returned-match_chunk :
    (text text' target : List Token)
    → returned (match_chunk text target) ≡ returned (match_chunk text' target)
unfolding match_chunk
returned-match_chunk text text' [] = refl
returned-match_chunk text text' (w ∷ []) = refl
returned-match_chunk text text' (w ∷ w' ∷ ws) = refl

returned-match_frame :
    (text text' : List Token) (parts : Option (List Token × List Token))
    → returned (match_frame text parts) ≡ returned (match_frame text' parts)
unfolding match_frame
returned-match_frame text text' none = refl
returned-match_frame text text' (some (b, a)) = refl

-- Whether the matcher raises does not depend on the text that is searched.
pub returned-unit_match_spans :
    (u : Unicode) (text text' unit : List ℕ) (unit_type : String)
    → returned (unit_match_spans u text unit unit_type)
      ≡ returned (unit_match_spans u text' unit unit_type)
unfolding unit_match_spans
returned-unit_match_spans u text text' unit unit_type =
    returned_if (not (str_in unit_type unit_type_values)) _ _ _ _ refl (
      returned_if (str_eq unit_type "word") _ _ _ _ (returned-match_word _ _ _) (
        returned_if (str_eq unit_type "chunk") _ _ _ _
          (returned_if (has_placeholder (split_placeholder [] unit)) none none _ _ refl
            (returned-match_chunk _ _ _))
          (returned-match_frame _ _ _)))

returned-any_span : (o : Option (List Span)) → returned (any_span o) ≡ returned o
returned-any_span none = refl
returned-any_span (some l) = refl

-- A Unit has a valid shape exactly where the search in any text returns.
pub has_valid_unit_shape-contains_unit :
    (u : Unicode) (text : List ℕ) (lemma unit_type : String)
    → returned (contains_unit u text (codes lemma) unit_type)
      ≡ has_valid_unit_shape u lemma unit_type
unfolding contains_unit has_valid_unit_shape
has_valid_unit_shape-contains_unit u text lemma unit_type =
    returned-any_span (unit_match_spans u text (codes lemma) unit_type)
    ∙ returned-unit_match_spans u text [] (codes lemma) unit_type

-- A channel is off, or it is a target and has a state.
pub data Configured : String → String → Type 0 where
  off : Configured "" ""
  on : (s : State) → Configured "1" (state_text s)

-- What a new Unit has to be.
pub record IsForgeUnit (u : Unicode) (unit : VocabUnit) : Type 0 where
  pub lemma_slug : is_slug (codes unit.lemma_slug) ≡ true
  pub sense_slug : is_slug (codes unit.sense_slug) ≡ true
  pub key : codes unit.unit_key ≡ proposed_unit_key (codes unit.lemma_slug) (codes unit.sense_slug)
  pub lemma : is_blank unit.lemma ≡ false
  pub unit_type : str_in unit.unit_type unit_type_values ≡ true
  pub configured : (c : Channel) → Configured (target_of unit c) (state_of unit c)
  pub enabled : (c : Channel) × (target_of unit c ≡ "1")
  pub register : str_in unit.register register_values ≡ true
  pub definition : is_blank unit.definition_en ≡ false
  pub source_ref : is_source_ref (codes unit.source_ref) ≡ true
  pub source_sentence : is_blank unit.source_sentence ≡ false
  pub contains :
      contains_unit u (codes unit.source_sentence) (codes unit.lemma) unit.unit_type ≡ some true

-- The flag and the state of a channel, as the tests see them.

-- A flag is empty or set.
flag_cases :
    (target : String) → str_in target target_flag_values ≡ true → (target ≡ "") ⊎ (target ≡ "1")
flag_cases target h = elim (Bool-cases (str_eq target "")) [
  | inl same ↦ inl ((str_eq_iff target "").0 same)
  | inr other ↦ inr ((str_eq_iff target "1").0 (ground arith))
]

state_cases :
    (state : String)
    → (str_eq state "" || is_state state) ≡ true
    → (state ≡ "") ⊎ ((s : State) × (state ≡ state_text s))
state_cases state h = elim (Bool-cases (str_eq state "")) [
  | inl same ↦ inl ((str_eq_iff state "").0 same)
  | inr other ↦ elim (Option-cases (parse_state state)) [
    | inl unknown ↦ absurd (cc (rw (other, is_state, unknown) at h))
    | inr (s, known) ↦ inr (s, parse_state_sound state s known)
  ]
]

text_present : (s : State) → str_eq (state_text s) "" ≡ false
text_present State.new = refl
text_present _ = refl

-- The flag and the state of a channel, as the tests see them.
pub Configured-of :
    (target state : String)
    → str_in target target_flag_values ≡ true
    → (str_eq state "" || is_state state) ≡ true
    → agree (str_eq target "1") (not (str_eq state "")) ≡ true
    → Configured target state
Configured-of target state valid known same = elim (flag_cases target valid) [
  | inl empty ↦ elim (state_cases state known) [
    | inl none_shown ↦ rw (empty, none_shown) off
    | inr (s, shown) ↦ absurd (cc (rw (empty, shown, text_present s) at same))
  ]
  | inr set ↦ elim (state_cases state known) [
    | inl none_shown ↦ absurd (cc (rw (set, none_shown) at same))
    | inr (s, shown) ↦ rw (set, shown) (on s)
  ]
]

-- And back.
pub Configured-tests :
    {target state : String}
    → Configured target state
    → (str_in target target_flag_values ≡ true)
      × ((str_eq state "" || is_state state) ≡ true)
      × (agree (str_eq target "1") (not (str_eq state "")) ≡ true)
Configured-tests off = (refl, refl, refl)
Configured-tests (on s) =
    (refl, rw (text_present s, is_state, parse_state-state_text s) refl, rw (text_present s) refl)
