-- ===== src/Contracts/Keys.antt =====
-- vocab/contracts.py, section 1: slugs and Unit keys, `re.fullmatch` of SLUG_PATTERN and
-- UNIT_KEY_PATTERN over the code points of a text.
pub mod Laws
use vocab_system.Base.{
  ℕ, Bool, true, false, ◌&&◌, ◌||◌, List, [], ◌∷◌, ◌++◌, ◌==◌, leb, if◌then◌else◌,
}

-- `[a-z0-9]`
unfoldable pub is_slug_char : ℕ → Bool
is_slug_char c = (leb 97 c && leb c 122) || (leb 48 c && leb c 57)

-- The rest of a slug; `inside` is whether the current segment has a character yet.
unfoldable pub slug_rest : Bool → List ℕ → Bool
slug_rest inside [] = inside
slug_rest inside (c ∷ cs) =
    if is_slug_char c
    then slug_rest true cs
    else let rest = slug_rest false cs in (inside && c == 45) && rest

-- SLUG_PATTERN: `[a-z0-9]+(?:-[a-z0-9]+)*`
unfoldable pub is_slug : List ℕ → Bool
is_slug cs = slug_rest false cs

-- UNIT_KEY_SEPARATOR and what follows it.
unfoldable pub key_sense : List ℕ → Bool
key_sense [] = false
key_sense (c ∷ cs) = c == 58 && is_slug cs

unfoldable pub key_rest : Bool → List ℕ → Bool
key_rest inside [] = false
key_rest inside (c ∷ cs) =
    if is_slug_char c
    then key_rest true cs
    else let rest = key_rest false cs in
      ((inside && c == 45) && rest) || ((inside && c == 58) && key_sense cs)

-- UNIT_KEY_PATTERN: a lemma slug, `::` and a sense slug.
unfoldable pub is_unit_key : List ℕ → Bool
is_unit_key cs = key_rest false cs

-- `ForgeCandidate.proposed_unit_key`, and the key that `validate_forge_unit` expects.
unfoldable pub proposed_unit_key : List ℕ → List ℕ → List ℕ
proposed_unit_key lemma_slug sense_slug = lemma_slug ++ (58 ∷ 58 ∷ sense_slug)
