-- ===== src/Forge/Overlap.antt =====
-- `_fixed_unit_tokens`, `_subtract_fixed_unit_tokens` and `_source_copy_ratio`: token multisets as
-- Python's Counter, the list of its items in insertion order.
pub mod Counts
pub mod Shared
use Prim.Native.Nat.{min}
use vocab_system.Base.{
  ℕ, ◌+◌, ◌-◌, String, Bool, Option, none, some, List, [], ◌∷◌, ◌++◌, ◌==◌, ltb, if◌then◌else◌,
}
use vocab_system.Base.Text.{str_eq, codes}
use vocab_system.Matching.Tokens.{Token, Unicode, token_eq, normalize_tokens}
use vocab_system.Matching.Units.{frame_parts}

abbrev pub Counter : Type 0
Counter = List (Token × ℕ)

-- `counter[token]`, 0 where the token is missing.
unfoldable pub count_of : Counter → Token → ℕ
unfolding token_eq
count_of [] t = 0
count_of ((k, n) ∷ m) t = let rest = count_of m t in if token_eq k t then n else rest

-- `counter[token] += 1`
unfoldable pub increment : Counter → Token → Counter
unfolding token_eq
increment [] t = (t, 1) ∷ []
increment ((k, n) ∷ m) t =
    let rest = increment m t in if token_eq k t then (k, n + 1) ∷ m else (k, n) ∷ rest

unfoldable pub add_tokens : Counter → List Token → Counter
unfolding increment
add_tokens m [] = m
add_tokens m (t ∷ ts) = add_tokens (increment m t) ts

-- `Counter(tokens)`
abbrev pub counter : List Token → Counter
unfolding add_tokens
counter tokens = add_tokens [] tokens

-- `counter[token] = count`
unfoldable pub set_count : Counter → Token → ℕ → Counter
unfolding token_eq
set_count [] t n = (t, n) ∷ []
set_count ((k, c) ∷ m) t n =
    let rest = set_count m t n in if token_eq k t then (k, n) ∷ m else (k, c) ∷ rest

-- `del counter[token]`, which a Counter allows for a missing token.
unfoldable pub remove : Counter → Token → Counter
unfolding token_eq
remove [] t = []
remove ((k, c) ∷ m) t = let rest = remove m t in if token_eq k t then rest else (k, c) ∷ rest

unfoldable pub subtract_one : Counter → Token → ℕ → Counter
unfolding count_of set_count remove
subtract_one m t required =
    if ltb required (count_of m t) then set_count m t (count_of m t - required) else remove m t

-- The loop over the items of the fixed tokens.
unfoldable pub subtract_items : Counter → Counter → Counter
unfolding subtract_one
subtract_items residual [] = residual
subtract_items residual ((t, required) ∷ items) =
    subtract_items (subtract_one residual t required) items

unfoldable pub subtract_fixed_unit_tokens : List Token → List Token → Counter
unfolding subtract_items counter
subtract_fixed_unit_tokens tokens fixed = subtract_items (counter tokens) (counter fixed)

-- `Counter.total`
unfoldable pub total : Counter → ℕ
total [] = 0
total ((k, n) ∷ m) = n + total m

-- The sum over the items of the context.
unfoldable pub shared_total : Counter → Counter → ℕ
unfolding count_of
shared_total [] source = 0
shared_total ((k, n) ∷ m) source = min n (count_of source k) + shared_total m source

-- The quotient as its numerator and denominator.
unfoldable pub source_copy_ratio : Counter → Counter → Option (ℕ × ℕ)
unfolding total shared_total
source_copy_ratio context source =
    if total context == 0 then none else some (shared_total context source, total context)

abbrev pub join_parts : Option (List Token × List Token) → Option (List Token)
join_parts none = none
join_parts (some (before, after)) = some (before ++ after)

-- `none` is the ValueError of `_frame_parts`.
unfoldable pub fixed_unit_tokens : Unicode → String → String → Option (List Token)
unfolding frame_parts normalize_tokens
fixed_unit_tokens u lemma unit_type =
    if str_eq unit_type "frame"
    then join_parts (frame_parts u (codes lemma))
    else some (normalize_tokens u (codes lemma))
