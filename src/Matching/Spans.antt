-- ===== src/Matching/Spans.antt =====
-- `_chunk_match_end`, `_frame_parts`, `_frame_match_end`, `unit_match_spans`, `contains_unit`.
pub mod Embeddings
pub mod Chunk
pub mod Frame
use vocab_system.Base.{
  ℕ, zero, suc, ◌+◌, ◌-◌, String, Bool, true, false, not, ◌&&◌, ◌||◌, Option, none, some, List, [],
  ◌∷◌, ◌++◌, ◌==◌, ltb, length, take, drop, any, if◌then◌else◌,
}
use vocab_system.Base.Text.{str_eq}
use vocab_system.Contracts.Matching.{
  chunk_max_inserted_tokens, frame_slot_min_tokens, frame_slot_max_tokens,
}
use vocab_system.Matching.Tokens.{Token, Unicode, token_eq, tokens_eq, normalize_tokens}

-- The loop of `_chunk_match_end` over the tokens that are left of the target and of the text.
unfoldable pub chunk_loop : List Token → List Token → ℕ → ℕ → Option ℕ
chunk_loop [] text inserted text_index = some (text_index - 1)
chunk_loop (t ∷ ts) [] inserted text_index = none
chunk_loop (t ∷ ts) (x ∷ xs) inserted text_index =
    let matched = chunk_loop ts xs inserted (text_index + 1) in
    let skipped = chunk_loop (t ∷ ts) xs (inserted + 1) (text_index + 1) in
    if token_eq x t
    then matched
    else if ltb chunk_max_inserted_tokens (inserted + 1)
    then none
    else skipped

-- The head of the target must match at once. (A target has two tokens or more.)
unfoldable pub chunk_from : List Token → List Token → ℕ → Option ℕ
unfolding chunk_loop
chunk_from [] target start = none
chunk_from (x ∷ xs) [] start = none
chunk_from (x ∷ xs) (t ∷ ts) start = if token_eq x t then chunk_loop ts xs 0 (start + 1) else none

unfoldable pub chunk_match_end : List Token → List Token → ℕ → Option ℕ
unfolding chunk_from
chunk_match_end text target start = chunk_from (drop start text) target start

-- The slice text[i : i + n]
abbrev pub slice : List Token → ℕ → ℕ → List Token
slice text i n = take n (drop i text)

-- The loop over slot sizes: `rounds` of them, from `slot` upwards.
unfoldable pub slot_loop : List Token → List Token → ℕ → ℕ → ℕ → Option ℕ
slot_loop text after before_end zero slot = none
slot_loop text after before_end (suc rounds) slot =
    let larger = slot_loop text after before_end rounds (slot + 1) in
    if tokens_eq (slice text (before_end + slot) (length after)) after
    then some (before_end + slot + length after - 1)
    else larger

-- `range(FRAME_SLOT_MIN_TOKENS, FRAME_SLOT_MAX_TOKENS + 1)` has six sizes.
unfoldable pub frame_match_end : List Token → List Token → List Token → ℕ → Option ℕ
unfolding slot_loop
frame_match_end text before after start =
    if tokens_eq (slice text start (length before)) before
    then slot_loop text after (start + length before)
        (frame_slot_max_tokens + 1 - frame_slot_min_tokens) frame_slot_min_tokens
    else none
