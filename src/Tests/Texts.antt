-- ===== src/Tests/Texts.antt =====
-- Unit keys, derived states, and matches in sample texts.
use vocab_system.Base.{ℕ, ◌≤◌, ◌≡◌, refl, ◌↔◌, true, false, some, List, [], ◌∷◌, arith}
use vocab_system.Base.Text.{codes}
use vocab_system.Contracts.Keys.{
  is_slug, is_slug_char, slug_rest, is_unit_key, key_rest, key_sense, proposed_unit_key,
}
use vocab_system.Contracts.Keys.Laws.{
  KeyParts, proposed_unit_key-valid, is_unit_key-KeyParts, proposed_unit_key-injective,
}
use vocab_system.Contracts.States.{state_text, stable, relapse}
use vocab_system.Models.Units.{VocabUnit, derived_state, active_channel_states}
use vocab_system.Models.Units.Derived.{most_urgent, derived_state-most_urgent}
use vocab_system.Matching.Tokens.{Token, normalize_tokens, token_eq, tokens_eq}
use vocab_system.Matching.Spans.{chunk_match_end, frame_match_end}
use vocab_system.Matching.Spans.Chunk.{
  IsChunkMatch, chunk_match_end-IsChunkMatch, chunk_match_end-first,
}
use vocab_system.Matching.Spans.Embeddings.{done, hit, skip}
use vocab_system.Matching.Spans.Frame.{
  IsFrameMatch, frame_match_end-IsFrameMatch, frame_match_end-first,
}
use vocab_system.Matching.Units.{contains_unit, split_placeholder}
use vocab_system.Matching.Units.Chunks.{contains_unit-chunk_iff}
use vocab_system.Tests.Samples.{sample_unicode}

-- bank and river
abbrev bank : List ℕ
bank = codes "bank"

abbrev river : List ℕ
river = codes "river"

proposed_unit_key-valid_example : is_unit_key (proposed_unit_key bank river) ≡ true
unfolding is_slug is_slug_char slug_rest
proposed_unit_key-valid_example = proposed_unit_key-valid bank river refl refl

is_unit_key-KeyParts_example : KeyParts false (codes "bank::river")
unfolding is_unit_key is_slug_char slug_rest key_rest key_sense is_slug
is_unit_key-KeyParts_example = is_unit_key-KeyParts (codes "bank::river") refl

proposed_unit_key-injective_example : (bank ≡ bank) × (river ≡ river)
unfolding is_slug is_slug_char slug_rest
proposed_unit_key-injective_example =
    proposed_unit_key-injective bank river bank river refl refl refl

-- A Unit with one stable channel and one in relapse.
abbrev two_channels : VocabUnit
two_channels = record {
  unit_key = "bank::river";
  lemma = "bank";
  lemma_slug = "bank";
  sense_slug = "river";
  unit_type = "word";
  target_r = "Y";
  target_l = "";
  target_w = "Y";
  target_s = "";
  register = "";
  definition_en = "";
  source_ref = "";
  source_sentence = "";
  ctx_1 = "";
  ctx_2 = "";
  ctx_3 = "";
  ctx_4 = "";
  ctx_5 = "";
  audio_1 = "";
  audio_2 = "";
  audio_3 = "";
  visual_cue = "";
  state_r = "STABLE";
  state_l = "NEW";
  state_w = "RELAPSE";
  state_s = "NEW";
  freq_band = "";
  created = "";
  graduated = "";
}

derived_state-most_urgent_example :
    derived_state two_channels ≡ state_text (most_urgent stable (relapse ∷ []))
unfolding active_channel_states
derived_state-most_urgent_example =
    derived_state-most_urgent two_channels stable (relapse ∷ []) refl

abbrev take_token : Token
take_token = codes "take"

abbrev into_token : Token
into_token = codes "into"

-- take it into account
abbrev tokens : List Token
tokens = take_token ∷ codes "it" ∷ into_token ∷ codes "account" ∷ []

chunk_match_end-IsChunkMatch_example : IsChunkMatch tokens (take_token ∷ into_token ∷ []) 0 2
unfolding chunk_match_end token_eq
chunk_match_end-IsChunkMatch_example =
    chunk_match_end-IsChunkMatch tokens take_token (into_token ∷ []) 0 2 refl

-- The match that the two theorems below start from, built by hand.
abbrev take_into : IsChunkMatch tokens (take_token ∷ into_token ∷ []) 0 2
take_into = record {
  window = take_token ∷ codes "it" ∷ into_token ∷ [];
  rest = codes "account" ∷ [];
  inserted = 1;
  split = refl;
  embeds = hit refl (skip (hit refl done));
  bounded = omega arith;
  ends = refl;
  head = (take_token, codes "it" ∷ into_token ∷ [], into_token ∷ [], refl, refl);
}

chunk_match_end-first_example :
    (f : ℕ) × (chunk_match_end tokens (take_token ∷ into_token ∷ []) 0 ≡ some f) × (f ≤ 2)
chunk_match_end-first_example =
    chunk_match_end-first tokens take_token (into_token ∷ []) 0 2 take_into

frame_match_end-IsFrameMatch_example :
    (slot : ℕ) × IsFrameMatch tokens (take_token ∷ []) (into_token ∷ []) 0 slot 2
unfolding frame_match_end token_eq tokens_eq
frame_match_end-IsFrameMatch_example =
    frame_match_end-IsFrameMatch tokens (take_token ∷ []) (into_token ∷ []) 0 2 refl

abbrev take_slot_into : IsFrameMatch tokens (take_token ∷ []) (into_token ∷ []) 0 1 2
take_slot_into = record {
  fixed_before = refl;
  fixed_after = refl;
  slot_min = omega arith;
  slot_max = omega arith;
  ends = refl;
}

frame_match_end-first_example :
    (f : ℕ) × (frame_match_end tokens (take_token ∷ []) (into_token ∷ []) 0 ≡ some f) × (f ≤ 2)
frame_match_end-first_example =
    frame_match_end-first tokens (take_token ∷ []) (into_token ∷ []) 0 2 1 take_slot_into

abbrev sentence : List ℕ
sentence = codes "take it into account"

abbrev chunk : List ℕ
chunk = codes "take into"

contains_unit-chunk_iff_example :
    (contains_unit sample_unicode sentence chunk "chunk" ≡ some true) ↔ (
      (start : ℕ) × (e : ℕ) × IsChunkMatch
        (normalize_tokens sample_unicode sentence)
        (take_token ∷ into_token ∷ [])
        start
        e)
unfolding normalize_tokens split_placeholder
contains_unit-chunk_iff_example = contains_unit-chunk_iff sample_unicode sentence chunk refl refl
