-- ===== src/Matching/Tokens.antt =====
-- `normalize_tokens`: case folding, apostrophes, and the tokens of LEXICAL_TOKEN_PATTERN.
use vocab_system.Base.{
  ℕ, ◌≡◌, ◌↔◌, Bool, true, false, not, ◌&&◌, ◌||◌, List, [], ◌∷◌, ◌++◌, map, ◌==◌, if◌then◌else◌,
  arith,
}

abbrev pub Token : Type 0
Token = List ℕ

unfoldable pub token_eq : Token → Token → Bool
token_eq [] [] = true
token_eq (a ∷ l) (b ∷ m) = a == b && token_eq l m
token_eq [] (b ∷ m) = false
token_eq (a ∷ l) [] = false

unfoldable pub tokens_eq : List Token → List Token → Bool
unfolding token_eq
tokens_eq [] [] = true
tokens_eq (a ∷ l) (b ∷ m) = token_eq a b && tokens_eq l m
tokens_eq [] (b ∷ m) = false
tokens_eq (a ∷ l) [] = false

-- What the code uses of Unicode: `unicodedata.normalize("NFKC", …)`, `str.casefold` and the
-- characters that `\w` matches.
pub record Unicode : Type 0 where
  pub nfkc : List ℕ → List ℕ
  pub casefold : List ℕ → List ℕ
  pub is_word : ℕ → Bool

-- `_APOSTROPHE_TRANSLATION`
unfoldable pub translate_apostrophe : ℕ → ℕ
translate_apostrophe c = if c == 0x2018 || c == 0x2019 || c == 0x02bc || c == 0xff07 then 39 else c

abbrev emit : Token → List Token → List Token
emit [] rest = rest
emit (c ∷ cs) rest = (c ∷ cs) ∷ rest

abbrev is_started : Token → Bool
is_started [] = false
is_started (c ∷ cs) = true

module _ (u : Unicode) where
  -- `[^\W_]`
  unfoldable pub is_lexical : ℕ → Bool
  is_lexical c = u.is_word c && not (c == 95)

  abbrev starts_lexical : List ℕ → Bool
  starts_lexical [] = false
  starts_lexical (c ∷ cs) = is_lexical c

  -- `findall` of the pattern; `token` is the match so far. An apostrophe belongs to a token only
  -- between two lexical characters.
  unfoldable pub find_tokens : Token → List ℕ → List Token
  unfolding is_lexical
  find_tokens token [] = emit token []
  find_tokens token (c ∷ cs) =
      let longer = find_tokens (token ++ (c ∷ [])) cs in
      let next = find_tokens [] cs in
      if is_lexical c
      then longer
      else if is_started token && c == 39 && starts_lexical cs
      then longer
      else emit token next

  unfoldable pub normalize_tokens : List ℕ → List Token
  unfolding find_tokens translate_apostrophe
  normalize_tokens text = find_tokens [] (map translate_apostrophe (u.casefold (u.nfkc text)))

pub token_eq_iff : (a b : Token) → (token_eq a b ≡ true) ↔ (a ≡ b)
unfolding token_eq
token_eq_iff [] [] = ground arith
token_eq_iff [] (b ∷ m) = ground arith
token_eq_iff (a ∷ l) [] = ground arith
token_eq_iff (a ∷ l) (b ∷ m) = ground (arith, token_eq_iff l m)

pub tokens_eq_iff : (a b : List Token) → (tokens_eq a b ≡ true) ↔ (a ≡ b)
unfolding tokens_eq
tokens_eq_iff [] [] = ground arith
tokens_eq_iff [] (b ∷ m) = ground arith
tokens_eq_iff (a ∷ l) [] = ground arith
tokens_eq_iff (a ∷ l) (b ∷ m) = ground (arith, token_eq_iff a b, tokens_eq_iff l m)
