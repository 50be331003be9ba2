-- ===== src/Forge/Overlap/Counts.antt =====
-- A Counter counts occurrences, and subtraction stops at zero.
use vocab_system.Base.{
  ℕ, ◌+◌, ◌-◌, ◌≡◌, refl, sym, ap, ◌∙◌, true, false, List, [], ◌∷◌, arith, inl, inr, Bool-cases,
  if◌then◌else◌,
}
use vocab_system.Matching.Tokens.{Token, token_eq, token_eq_iff}
use vocab_system.Forge.Overlap.{
  Counter, count_of, increment, add_tokens, counter, set_count, remove, subtract_one,
  subtract_items, subtract_fixed_unit_tokens,
}

-- How often a token occurs.
unfoldable pub occurrences : Token → List Token → ℕ
occurrences k [] = 0
occurrences k (t ∷ ts) = let rest = occurrences k ts in if token_eq t k then 1 + rest else rest

token_eq_refl : (t : Token) → token_eq t t ≡ true
token_eq_refl t = (token_eq_iff t t).1 refl

-- Two keys that both equal a token are equal.
pub token_eq_via : (k t x : Token) → token_eq k t ≡ true → token_eq k x ≡ token_eq t x
token_eq_via k t x h = ap (λ y. token_eq y x) ((token_eq_iff k t).0 h)

-- Two tokens that differ do not both equal a third.
pub token_eq_apart :
    (x t k : Token) → token_eq x t ≡ false → token_eq x k ≡ true → token_eq t k ≡ false
token_eq_apart x t k differ same = elim (Bool-cases (token_eq t k)) [
  | inl both ↦ absurd (
      cc (
        sym differ
        ∙ (token_eq_iff x t).1 ((token_eq_iff x k).0 same ∙ sym ((token_eq_iff t k).0 both))))
  | inr apart ↦ apart
]

count_of-increment :
    (m : Counter) (t k : Token)
    → count_of (increment m t) k ≡ (if token_eq t k then 1 + count_of m k else count_of m k)
unfolding count_of increment
count_of-increment [] t k = ground arith
count_of-increment ((x, n) ∷ m) t k = elim (Bool-cases (token_eq x t)) [
  | inl same ↦ ground (arith, token_eq_via x t k same)
  | inr other ↦ ground (arith, token_eq_apart x t k other, count_of-increment m t k)
]

count_of-add_tokens :
    (ts : List Token) (m : Counter) (k : Token)
    → count_of (add_tokens m ts) k ≡ count_of m k + occurrences k ts
unfolding add_tokens occurrences
count_of-add_tokens [] m k = omega arith
count_of-add_tokens (t ∷ ts) m k =
    ground (arith, count_of-add_tokens ts (increment m t) k, count_of-increment m t k)

pub count_of-set_count :
    (m : Counter) (t : Token) (n : ℕ) (k : Token)
    → count_of (set_count m t n) k ≡ (if token_eq t k then n else count_of m k)
unfolding count_of set_count
count_of-set_count [] t n k = ground arith
count_of-set_count ((x, c) ∷ m) t n k = elim (Bool-cases (token_eq x t)) [
  | inl same ↦ ground (arith, token_eq_via x t k same)
  | inr other ↦ ground (arith, token_eq_apart x t k other, count_of-set_count m t n k)
]

pub count_of-remove :
    (m : Counter) (t k : Token)
    → count_of (remove m t) k ≡ (if token_eq t k then 0 else count_of m k)
unfolding count_of remove
count_of-remove [] t k = ground arith
count_of-remove ((x, c) ∷ m) t k = elim (Bool-cases (token_eq x t)) [
  | inl same ↦ ground (arith, token_eq_via x t k same, count_of-remove m t k)
  | inr other ↦ ground (arith, token_eq_apart x t k other, count_of-remove m t k)
]

count_of-subtract_one :
    (m : Counter) (t : Token) (n : ℕ) (k : Token)
    → count_of (subtract_one m t n) k ≡ (if token_eq t k then count_of m k - n else count_of m k)
unfolding subtract_one
count_of-subtract_one m t n k = ground (
  arith,
  count_of-set_count m t (count_of m t - n) k,
  count_of-remove m t k,
  λ (h : token_eq t k ≡ true). ap (count_of m) ((token_eq_iff t k).0 h),
)

-- No key comes twice.
abbrev pub IsDistinct : Counter → Type 0
IsDistinct [] = Unit
IsDistinct ((k, n) ∷ m) = (count_of m k ≡ 0) × IsDistinct m

pub token_eq_swap : (x t : Token) → token_eq x t ≡ false → token_eq t x ≡ false
token_eq_swap x t differ = elim (Bool-cases (token_eq t x)) [
  | inl same ↦ absurd (cc (sym differ ∙ (token_eq_iff x t).1 (sym ((token_eq_iff t x).0 same))))
  | inr apart ↦ apart
]

pub increment-IsDistinct : (m : Counter) (t : Token) → IsDistinct m → IsDistinct (increment m t)
unfolding increment count_of
increment-IsDistinct [] t h = (refl, tt)
increment-IsDistinct ((x, n) ∷ m) t (fresh, h) = elim (Bool-cases (token_eq x t)) [
  | inl same ↦ rw same (fresh, h)
  | inr other ↦ rw other (
    ground (arith, count_of-increment m t x, fresh, token_eq_swap x t other),
    increment-IsDistinct m t h,
  )
]

pub add_tokens-IsDistinct :
    (ts : List Token) (m : Counter) → IsDistinct m → IsDistinct (add_tokens m ts)
unfolding add_tokens
add_tokens-IsDistinct [] m h = h
add_tokens-IsDistinct (t ∷ ts) m h =
    add_tokens-IsDistinct ts (increment m t) (increment-IsDistinct m t h)

count_of-subtract_items :
    (items m : Counter) (k : Token)
    → IsDistinct items
    → count_of (subtract_items m items) k ≡ count_of m k - count_of items k
unfolding subtract_items count_of
count_of-subtract_items [] m k h = omega arith
count_of-subtract_items ((t, n) ∷ items) m k (fresh, h) = elim (Bool-cases (token_eq t k)) [
  | inl same ↦ ground (
    arith,
    count_of-subtract_items items (subtract_one m t n) k h,
    count_of-subtract_one m t n k,
    ap (count_of items) (sym ((token_eq_iff t k).0 same)) ∙ fresh,
  )
  | inr other ↦
      ground (
        arith,
        count_of-subtract_items items (subtract_one m t n) k h,
        count_of-subtract_one m t n k,
      )
]

-- In the residual a token occurs as often as in the text, less its occurrences in the fixed
-- tokens.
pub subtract_fixed_unit_tokens-occurrences :
    (tokens fixed : List Token) (k : Token)
    → count_of (subtract_fixed_unit_tokens tokens fixed) k
      ≡ occurrences k tokens - occurrences k fixed
unfolding subtract_fixed_unit_tokens count_of
subtract_fixed_unit_tokens-occurrences tokens fixed k = omega (
  arith,
  count_of-subtract_items (counter fixed) (counter tokens) k (add_tokens-IsDistinct fixed [] tt),
  count_of-add_tokens tokens [] k,
  count_of-add_tokens fixed [] k,
)
