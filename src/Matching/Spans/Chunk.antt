-- ===== src/Matching/Spans/Chunk.antt =====
-- `_chunk_match_end` against embeddings: it finds a match exactly where the target can be embedded
-- with two inserted tokens at most, and its match ends first.
use vocab_system.Base.{
  ℕ, suc, ◌+◌, ◌≤◌, ◌≡◌, refl, sym, ap, ◌∙◌, subst, some, List, [], ◌∷◌, ◌++◌, arith, length, drop,
  Bool-cases, inl, inr,
}
use vocab_system.Contracts.Matching.{chunk_max_inserted_tokens}
use vocab_system.Matching.Tokens.{Token, token_eq, token_eq_iff}
use vocab_system.Matching.Spans.{chunk_loop, chunk_from, chunk_match_end}
use vocab_system.Matching.Spans.Embeddings.{
  Embeds, hit, LoopSound, chunk_loop_sound, after_match, regroup, shorter, chunk_loop_complete,
}

-- A match of the target at `start`: the target's first token stands there, its others follow up to
-- the inclusive end, and at most two other tokens stand between them.
pub record IsChunkMatch (text target : List Token) (start end_index : ℕ) : Type 0 where
  pub window : List Token
  pub rest : List Token
  pub inserted : ℕ
  pub split : drop start text ≡ window ++ rest
  pub embeds : Embeds target window inserted
  pub bounded : inserted ≤ chunk_max_inserted_tokens
  pub ends : end_index + 1 ≡ start + length window
  pub head :
      (x : Token) × (xs : List Token) × (ys : List Token) × (window ≡ x ∷ xs) × (target ≡ x ∷ ys)

chunk_from_sound :
    (suffix : List Token) (t : Token) (ts : List Token) (start e : ℕ)
    → chunk_from suffix (t ∷ ts) start ≡ some e
    → (x : Token) × (xs : List Token) × (suffix ≡ x ∷ xs)
      × (x ≡ t)
      × LoopSound ts xs 0 (start + 1) e
unfolding chunk_from
chunk_from_sound [] t ts start e h = absurd (cc)
chunk_from_sound (x ∷ xs) t ts start e h = elim (Bool-cases (token_eq x t)) [
  | inl same ↦ (
    x,
    xs,
    refl,
    (token_eq_iff x t).0 same,
    chunk_loop_sound ts xs 0 (start + 1) e (rw same at h) (omega arith) (omega arith),
  )
  | inr other ↦ absurd (cc (rw other at h))
]

-- Every chunk match that the code reports embeds the target in order from its first token to its
-- last, with two inserted tokens at most.
pub chunk_match_end-IsChunkMatch :
    (text : List Token) (t : Token) (ts : List Token) (start e : ℕ)
    → chunk_match_end text (t ∷ ts) start ≡ some e
    → IsChunkMatch text (t ∷ ts) start e
unfolding chunk_match_end
chunk_match_end-IsChunkMatch text t ts start e h =
    let (x, xs, suffix, same, r) = chunk_from_sound (drop start text) t ts start e h in
    record {
      window = x ∷ r.window;
      rest = r.rest;
      inserted = r.inserted;
      split = suffix ∙ ap (λ l. x ∷ l) r.split;
      embeds = hit same r.embeds;
      bounded = omega (arith, r.bounded);
      ends = omega (arith, r.end_index);
      head = (x, r.window, ts, refl, ap (λ y. y ∷ ts) (sym same));
    }

chunk_from_complete :
    (t : Token) (ts xs rest : List Token) (k start : ℕ)
    → Embeds (t ∷ ts) (t ∷ xs) k
    → k ≤ chunk_max_inserted_tokens
    → (f : ℕ) × (chunk_from (t ∷ (xs ++ rest)) (t ∷ ts) start ≡ some f)
      × (f + 1 ≤ start + suc (length xs))
unfolding chunk_from
chunk_from_complete t ts xs rest k start emb b =
    let w = after_match emb in
    let (f, found, early) =
      chunk_loop_complete ts w.window (w.rest ++ rest) w.inserted 0 (start + 1) w.embeds
        (omega (arith, w.bounded)) (omega arith) in
    (
      f,
      rw ((token_eq_iff t t).1 refl) (
          ap (λ l. chunk_loop ts l 0 (start + 1)) (regroup xs w.window w.rest rest w.split)
          ∙ found),
      omega (arith, early, shorter xs w.window w.rest w.split),
    )

-- The same for a window that is given by equations.
chunk_from_complete_window :
    (text window rest : List Token) (t x : Token) (ts xs ys : List Token) (k start e : ℕ)
    → text ≡ window ++ rest
    → window ≡ x ∷ xs
    → t ∷ ts ≡ x ∷ ys
    → Embeds (t ∷ ts) window k
    → k ≤ chunk_max_inserted_tokens
    → e + 1 ≡ start + length window
    → (f : ℕ) × (chunk_from text (t ∷ ts) start ≡ some f) × (f ≤ e)
chunk_from_complete_window text window rest t x ts xs ys k start e split w head emb b ends =
    let same : x ≡ t = cc in
    let shape = w ∙ ap (λ y. y ∷ xs) same in
    let (f, found, early) =
      chunk_from_complete t ts xs rest k start (subst (λ l. Embeds (t ∷ ts) l k) shape emb) b in
    (
      f,
      ap (λ l. chunk_from l (t ∷ ts) start) (split ∙ ap (λ l. l ++ rest) shape) ∙ found,
      omega (arith, early, ends, ap length w),
    )

-- Where a chunk match exists, the code reports one, and no match from this start ends before it.
pub chunk_match_end-first :
    (text : List Token) (t : Token) (ts : List Token) (start e : ℕ)
    → IsChunkMatch text (t ∷ ts) start e
    → (f : ℕ) × (chunk_match_end text (t ∷ ts) start ≡ some f) × (f ≤ e)
unfolding chunk_match_end
chunk_match_end-first text t ts start e m =
    let (x, xs, ys, window, target) = m.head in
    chunk_from_complete_window (drop start text) m.window m.rest t x ts xs ys m.inserted start e
      m.split window target m.embeds m.bounded m.ends
