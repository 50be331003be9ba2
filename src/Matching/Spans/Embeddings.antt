-- ===== src/Matching/Spans/Embeddings.antt =====
-- The loop of `_chunk_match_end` against embeddings of the target in a window of the text.
use vocab_system.Base.{
  ℕ, zero, suc, ◌+◌, ◌-◌, ◌≤◌, ◌<◌, ◌≡◌, refl, sym, ap, ◌∙◌, false, some, List, [], ◌∷◌, ◌++◌,
  arith, length, length-append, Bool-cases, inl, inr, ltb,
}
use mathlib.Core.List.{append-nil, append_assoc}
use vocab_system.Contracts.Matching.{chunk_max_inserted_tokens}
use vocab_system.Matching.Tokens.{Token, token_eq, token_eq_iff}
use vocab_system.Matching.Spans.{chunk_loop}

-- The target stands in the window, in order, up to its last token, with k other tokens between.
pub data Embeds : List Token → List Token → ℕ → Type 0 where
  done : Embeds [] [] zero
  hit :
      {t x : Token} {ts xs : List Token} {k : ℕ}
      → x ≡ t
      → Embeds ts xs k
      → Embeds (t ∷ ts) (x ∷ xs) k
  skip :
      {t x : Token} {ts xs : List Token} {k : ℕ}
      → Embeds (t ∷ ts) xs k
      → Embeds (t ∷ ts) (x ∷ xs) (suc k)

-- A prefix of the text in which the target stands.
pub record Window (target text : List Token) (allowed : ℕ) : Type 0 where
  pub window : List Token
  pub rest : List Token
  pub inserted : ℕ
  pub split : text ≡ window ++ rest
  pub embeds : Embeds target window inserted
  pub bounded : inserted ≤ allowed

-- What the loop returns lies at the end of such a prefix.
pub record LoopSound (target text : List Token) (before i e : ℕ) : Type 0 where
  pub window : List Token
  pub rest : List Token
  pub inserted : ℕ
  pub split : text ≡ window ++ rest
  pub embeds : Embeds target window inserted
  pub bounded : before + inserted ≤ chunk_max_inserted_tokens
  pub end_index : e + 1 ≡ i + length window

pub chunk_loop_sound :
    (target text : List Token) (before i e : ℕ)
    → chunk_loop target text before i ≡ some e
    → before ≤ chunk_max_inserted_tokens
    → 0 < i
    → LoopSound target text before i e
unfolding chunk_loop
chunk_loop_sound [] text before i e h b p = record {
  window = [];
  rest = text;
  inserted = 0;
  split = refl;
  embeds = done;
  bounded = omega arith;
  end_index = ground arith;
}
chunk_loop_sound (t ∷ ts) [] before i e h b p = absurd (cc)
chunk_loop_sound (t ∷ ts) (x ∷ xs) before i e h b p = elim (Bool-cases (token_eq x t)) [
  | inl same ↦
      let r = chunk_loop_sound ts xs before (i + 1) e (rw same at h) b (omega arith) in
      record {
        window = x ∷ r.window;
        rest = r.rest;
        inserted = r.inserted;
        split = ap (λ l. x ∷ l) r.split;
        embeds = hit ((token_eq_iff x t).0 same) r.embeds;
        bounded = r.bounded;
        end_index = omega (arith, r.end_index);
      }
  | inr other ↦ elim (Bool-cases (ltb chunk_max_inserted_tokens (before + 1))) [
    | inl full ↦ absurd (ground arith)
    | inr room ↦
        let r =
          chunk_loop_sound (t ∷ ts) xs (before + 1) (i + 1) e (rw (other, room) at h) (ground arith)
            (omega arith) in
        record {
          window = x ∷ r.window;
          rest = r.rest;
          inserted = suc r.inserted;
          split = ap (λ l. x ∷ l) r.split;
          embeds = skip r.embeds;
          bounded = omega (arith, r.bounded);
          end_index = omega (arith, r.end_index);
        }
  ]
]

-- One more token in front of a window, passed over; a finished target needs no window.
Window-skip :
    (target : List Token) (y : Token) (text : List Token) (allowed : ℕ)
    → Window target text allowed
    → Window target (y ∷ text) (suc allowed)
Window-skip [] y text allowed w = record {
  window = [];
  rest = y ∷ text;
  inserted = 0;
  split = refl;
  embeds = done;
  bounded = omega arith;
}
Window-skip (t ∷ ts) y text allowed w = record {
  window = y ∷ w.window;
  rest = w.rest;
  inserted = suc w.inserted;
  split = ap (λ l. y ∷ l) w.split;
  embeds = skip w.embeds;
  bounded = omega (arith, w.bounded);
}

whole-Window :
    {target window : List Token} {k : ℕ} → Embeds target window k → Window target window k
whole-Window {window} {k} e = record {
  window = window;
  rest = [];
  inserted = k;
  split = sym (append-nil window);
  embeds = e;
  bounded = omega arith;
}

-- Without its first token the target stands there with one more inserted token at most.
without_head :
    {t : Token} {ts xs : List Token} {k : ℕ} → Embeds (t ∷ ts) xs k → Window ts xs (suc k)
without_head {ts} (hit {x} {xs} e rest) = Window-skip ts x xs _ (whole-Window rest)
without_head {ts} (skip {x} {xs} rest) = Window-skip ts x xs _ (without_head rest)

-- After a greedy match of the first token, the rest still stands in what follows.
pub after_match :
    {t x : Token} {ts xs : List Token} {k : ℕ} → Embeds (t ∷ ts) (x ∷ xs) k → Window ts xs k
after_match (hit e rest) = whole-Window rest
after_match (skip rest) = without_head rest

other_head :
    {t x : Token} {ts xs : List Token} {k : ℕ}
    → token_eq x t ≡ false
    → Embeds (t ∷ ts) (x ∷ xs) k
    → (j : ℕ) × (k ≡ suc j) × Embeds (t ∷ ts) xs j
other_head {t} {x} h (hit e rest) = absurd (ground (arith, token_eq_iff x t))
other_head h (skip {k} rest) = (k, refl, rest)

not-Embeds : {t : Token} {ts : List Token} {k : ℕ} → ¬ Embeds (t ∷ ts) [] k
not-Embeds e = elim e [ ]

pub regroup : (xs a b rest : List Token) → xs ≡ a ++ b → xs ++ rest ≡ a ++ (b ++ rest)
regroup xs a b rest e = ap (λ l. l ++ rest) e ∙ append_assoc a b rest

pub shorter : (xs a b : List Token) → xs ≡ a ++ b → length a ≤ length xs
shorter xs a b e = omega (arith, ap length e, length-append a b)

has_room :
    (before : ℕ)
    → before + 1 ≤ chunk_max_inserted_tokens
    → ltb chunk_max_inserted_tokens (before + 1) ≡ false
has_room before h = ground arith

pub chunk_loop_complete :
    (target window rest : List Token) (k before i : ℕ)
    → Embeds target window k
    → before + k ≤ chunk_max_inserted_tokens
    → 0 < i
    → (e : ℕ) × (chunk_loop target (window ++ rest) before i ≡ some e) × (e + 1 ≤ i + length window)
unfolding chunk_loop
chunk_loop_complete [] window rest k before i emb b p = (i - 1, refl, omega arith)
chunk_loop_complete (t ∷ ts) [] rest k before i emb b p = absurd (not-Embeds emb)
chunk_loop_complete (t ∷ ts) (x ∷ xs) rest k before i emb b p = elim (Bool-cases (token_eq x t)) [
  | inl same ↦
      let w = after_match emb in
      let (e, found, early) =
        chunk_loop_complete ts w.window (w.rest ++ rest) w.inserted before (i + 1) w.embeds
          (omega (arith, w.bounded)) (omega arith) in
      (
        e,
        rw same (
            ap (λ l. chunk_loop ts l before (i + 1)) (regroup xs w.window w.rest rest w.split)
            ∙ found),
        omega (arith, early, shorter xs w.window w.rest w.split),
      )
  | inr other ↦
      let (j, more, tail) = other_head other emb in
      let (e, found, early) =
        chunk_loop_complete (t ∷ ts) xs rest j (before + 1) (i + 1) tail (omega arith)
          (omega arith) in
      (e, rw (other, has_room before (omega arith)) found, omega (arith, early))
]
