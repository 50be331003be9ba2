-- ===== src/Matching/Units.antt =====
-- `_frame_parts`, `unit_match_spans` and `contains_unit`. `none` is a ValueError.
pub mod Chunks
use vocab_system.Base.{
  ℕ, zero, suc, ◌+◌, String, Bool, true, false, not, ◌&&◌, ◌||◌, Option, none, some, List, [], ◌∷◌,
  ◌++◌, ◌==◌, ltb, length, if◌then◌else◌,
}
use vocab_system.Base.Text.{str_eq, str_in}
use vocab_system.Contracts.Matching.{unit_type_values, frame_min_fixed_tokens}
use vocab_system.Matching.Tokens.{Token, Unicode, token_eq, normalize_tokens}
use vocab_system.Matching.Spans.{chunk_match_end, frame_match_end}

-- The three characters of FRAME_PLACEHOLDER.
abbrev is_placeholder : ℕ → ℕ → ℕ → Bool
is_placeholder a b c = a == 95 && b == 95 && c == 95

-- `unit.split(FRAME_PLACEHOLDER)`; `part` is the current part so far.
unfoldable pub split_placeholder : List ℕ → List ℕ → List (List ℕ)
split_placeholder part [] = part ∷ []
split_placeholder part (a ∷ []) = (part ++ (a ∷ [])) ∷ []
split_placeholder part (a ∷ b ∷ []) = (part ++ (a ∷ b ∷ [])) ∷ []
split_placeholder part (a ∷ b ∷ c ∷ cs) =
    let cut = split_placeholder [] cs in
    let longer = split_placeholder (part ++ (a ∷ [])) (b ∷ c ∷ cs) in
    if is_placeholder a b c then part ∷ cut else longer

abbrev has_underscore : List ℕ → Bool
has_underscore [] = false
has_underscore (c ∷ cs) = c == 95 || has_underscore cs

module _ (u : Unicode) where
  -- `[\w']`, and its absence at a border of the text.
  abbrev is_joined : Option ℕ → Bool
  is_joined none = false
  is_joined (some c) = u.is_word c || c == 39

  abbrev first_of_list : List ℕ → Option ℕ
  first_of_list [] = none
  first_of_list (c ∷ cs) = some c

  -- `_FRAME_PLACEHOLDER_TOKEN_RE.search`, behind the character before.
  unfoldable pub has_standalone : Option ℕ → List ℕ → Bool
  has_standalone before [] = false
  has_standalone before (a ∷ []) = false
  has_standalone before (a ∷ b ∷ []) = false
  has_standalone before (a ∷ b ∷ c ∷ cs) =
      (is_placeholder a b c && not (is_joined before) && not (is_joined (first_of_list cs)))
      || has_standalone (some a) (b ∷ c ∷ cs)

  abbrev is_empty : List Token → Bool
  is_empty [] = true
  is_empty (t ∷ ts) = false

  -- The checks on the two texts around the slot.
  unfoldable pub parts_around : List ℕ → List ℕ → Option (List Token × List Token)
  parts_around before after =
      let b = normalize_tokens u before in
      let a = normalize_tokens u after in
      if has_underscore before || has_underscore after
      then none
      else if is_empty b || is_empty a
      then none
      else if ltb (length b + length a) frame_min_fixed_tokens
      then none
      else some (b, a)

  unfoldable pub frame_parts_of : List ℕ → List (List ℕ) → Option (List Token × List Token)
  unfolding parts_around has_standalone
  frame_parts_of unit (before ∷ after ∷ []) =
      if has_standalone none unit then parts_around before after else none
  frame_parts_of unit _ = none

  -- One placeholder makes two parts.
  unfoldable pub frame_parts : List ℕ → Option (List Token × List Token)
  unfolding frame_parts_of split_placeholder
  frame_parts unit = frame_parts_of unit (split_placeholder [] unit)

abbrev pub Span : Type 0
Span = ℕ × ℕ

abbrev pub add_span : ℕ → Option ℕ → List Span → List Span
add_span start none l = l
add_span start (some e) l = (start, e) ∷ l

-- `for start in range(...)`, with the spans of the starts that match.
unfoldable pub collect_spans : (ℕ → Option ℕ) → ℕ → ℕ → List Span
collect_spans match_end zero start = []
collect_spans match_end (suc n) start =
    add_span start (match_end start) (collect_spans match_end n (start + 1))

unfoldable pub chunk_spans : List Token → List Token → List Span
unfolding collect_spans chunk_match_end
chunk_spans text target = collect_spans (chunk_match_end text target) (length text) 0

unfoldable pub frame_spans : List Token → List Token → List Token → List Span
unfolding collect_spans frame_match_end
frame_spans text before after = collect_spans (frame_match_end text before after) (length text) 0

unfoldable pub word_spans : List Token → Token → ℕ → List Span
word_spans [] word index = []
word_spans (t ∷ ts) word index =
    let rest = word_spans ts word (index + 1) in
    if token_eq t word then (index, index) ∷ rest else rest

-- `FRAME_PLACEHOLDER in unit`
abbrev pub has_placeholder : List (List ℕ) → Bool
has_placeholder (part ∷ []) = false
has_placeholder _ = true

abbrev pub is_nonempty : List Span → Bool
is_nonempty [] = false
is_nonempty (s ∷ l) = true

-- `bool(spans)`, where no ValueError was raised.
abbrev pub any_span : Option (List Span) → Option Bool
any_span none = none
any_span (some spans) = some (is_nonempty spans)

unfoldable pub match_word : List Token → List Token → Option (List Span)
unfolding word_spans
match_word text (w ∷ []) = some (word_spans text w 0)
match_word text _ = none

unfoldable pub match_chunk : List Token → List Token → Option (List Span)
unfolding chunk_spans
match_chunk text (t ∷ t' ∷ ts) = some (chunk_spans text (t ∷ t' ∷ ts))
match_chunk text _ = none

unfoldable pub match_frame : List Token → Option (List Token × List Token) → Option (List Span)
unfolding frame_spans
match_frame text none = none
match_frame text (some (before, after)) = some (frame_spans text before after)

module _ (u : Unicode) where
  unfoldable pub unit_match_spans : List ℕ → List ℕ → String → Option (List Span)
  unfolding match_word match_chunk match_frame frame_parts split_placeholder normalize_tokens
  unit_match_spans text unit unit_type =
      if not (str_in unit_type unit_type_values)
      then none
      else if str_eq unit_type "word"
      then match_word (normalize_tokens u text) (normalize_tokens u unit)
      else if str_eq unit_type "chunk"
      then (if has_placeholder (split_placeholder [] unit)
          then none
          else match_chunk (normalize_tokens u text) (normalize_tokens u unit))
      else match_frame (normalize_tokens u text) (frame_parts u unit)

  unfoldable pub contains_unit : List ℕ → List ℕ → String → Option Bool
  unfolding unit_match_spans
  contains_unit text unit unit_type = any_span (unit_match_spans text unit unit_type)
