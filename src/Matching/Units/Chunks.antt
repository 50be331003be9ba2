-- ===== src/Matching/Units/Chunks.antt =====
-- The spans of a chunk in a text, and when there is one.
use vocab_system.Base.{
  some_inj, ℕ, zero, suc, ◌+◌, ◌≤◌, ◌<◌, ◌≡◌, refl, sym, ap, ◌∙◌, subst, ◌↔◌, ◌⊎◌, inl, inr, Option,
  none, some, List, [], ◌∷◌, arith, length, length-append, length-drop, In, true,
}
use native.Mathlib.Decide.{ℕ_discrete}
use vocab_system.Matching.Tokens.{Token, Unicode, normalize_tokens}
use vocab_system.Matching.Spans.{chunk_match_end}
use vocab_system.Matching.Spans.Chunk.{
  IsChunkMatch, chunk_match_end-IsChunkMatch, chunk_match_end-first,
}
use vocab_system.Matching.Units.{
  Span, add_span, collect_spans, chunk_spans, split_placeholder, unit_match_spans, match_chunk,
  contains_unit, is_nonempty, any_span,
}

module _ (match_end : ℕ → Option ℕ) where
  In-add_span :
      (start : ℕ) (o : Option ℕ) (l : List Span) (s : Span)
      → In s (add_span start o l)
      → ((s.0 ≡ start) × (o ≡ some s.1)) ⊎ In s l
  In-add_span start none l s m = inr m
  In-add_span start (some e) l s (inl q) = inl (ap (λ p. p.0) q, ap (λ p. some (p.1)) (sym q))
  In-add_span start (some e) l s (inr m) = inr m

  -- A collected span is a match at a start of the range.
  collect_spans_sound :
      (n start : ℕ) (s : Span)
      → In s (collect_spans match_end n start)
      → (start ≤ s.0) × (s.0 < start + n) × (match_end s.0 ≡ some s.1)
  unfolding collect_spans
  collect_spans_sound zero start s m = absurd m
  collect_spans_sound (suc n) start s m = elim (In-add_span start (match_end start) _ s m) [
    | inl (same, found) ↦ (omega arith, omega arith, ap match_end same ∙ found)
    | inr rest ↦
        let (low, high, found) = collect_spans_sound n (start + 1) s rest in
        (omega arith, omega arith, found)
  ]

  add_span-In :
      (start : ℕ) (o : Option ℕ) (l : List Span) (s : Span) → In s l → In s (add_span start o l)
  add_span-In start none l s m = m
  add_span-In start (some e) l s m = inr m

  add_span-In_here :
      (start e : ℕ) (o : Option ℕ) (l : List Span) → o ≡ some e → In (start, e) (add_span start o l)
  add_span-In_here start e o l h = rw h (inl refl)

  -- Every start of the range that matches is collected.
  collect_spans_complete :
      (n start s e : ℕ)
      → start ≤ s
      → s < start + n
      → match_end s ≡ some e
      → In (s, e) (collect_spans match_end n start)
  unfolding collect_spans
  collect_spans_complete zero start s e low high found = absurd (omega arith)
  collect_spans_complete (suc n) start s e low high found = elim (ℕ_discrete s start) [
    | yes same ↦
        subst
          (λ k.
            In (k, e) (add_span start (match_end start) (collect_spans match_end n (start + 1))))
          (sym same)
          (add_span-In_here start e (match_end start) _ (ap match_end (sym same) ∙ found))
    | no differ ↦
        add_span-In start (match_end start) _ (s, e)
          (collect_spans_complete n (start + 1) s e (omega arith) (omega arith) found)
  ]

-- Every reported chunk span is a match of the chunk in the text.
pub chunk_spans-IsChunkMatch :
    (text : List Token) (t : Token) (ts : List Token) (start e : ℕ)
    → In (start, e) (chunk_spans text (t ∷ ts))
    → IsChunkMatch text (t ∷ ts) start e
unfolding chunk_spans
chunk_spans-IsChunkMatch text t ts start e m =
    chunk_match_end-IsChunkMatch text t ts start e
      (collect_spans_sound (chunk_match_end text (t ∷ ts)) (length text) 0 (start, e) m).2

starts_inside :
    {text target : List Token} {start e : ℕ}
    → IsChunkMatch text target start e
    → start < 0 + length text
starts_inside {text} {start} m =
    let (x, xs, ys, window, _) = m.head in
    omega (
      arith,
      ap length m.split,
      length-append m.window m.rest,
      length-drop start text,
      ap length window,
    )

-- Every match of the chunk has a reported span with its start that ends no later.
pub chunk_spans-first :
    (text : List Token) (t : Token) (ts : List Token) (start e : ℕ)
    → IsChunkMatch text (t ∷ ts) start e
    → (f : ℕ) × In (start, f) (chunk_spans text (t ∷ ts)) × (f ≤ e)
unfolding chunk_spans
chunk_spans-first text t ts start e match =
    let (f, found, early) = chunk_match_end-first text t ts start e match in
    (
      f,
      collect_spans_complete (chunk_match_end text (t ∷ ts)) (length text) 0 start f (omega arith)
          (starts_inside match) found,
      early,
    )

is_nonempty-In :
    (l : List Span) → (is_nonempty l ≡ true) ↔ ((start : ℕ) × (e : ℕ) × In (start, e) l)
is_nonempty-In [] = (λ h. absurd (cc h), λ (_, _, m). absurd m)
is_nonempty-In ((s, e) ∷ l) = (λ _. (s, e, inl refl), λ _. refl)

spans_of_chunk :
    (u : Unicode) (text unit : List ℕ) {t t' : Token} {ts : List Token}
    → normalize_tokens u unit ≡ t ∷ t' ∷ ts
    → split_placeholder [] unit ≡ unit ∷ []
    → unit_match_spans u text unit "chunk"
      ≡ some (chunk_spans (normalize_tokens u text) (t ∷ t' ∷ ts))
unfolding unit_match_spans
spans_of_chunk u text unit two plain = rw (plain, two) refl

module _ (u : Unicode) (text unit : List ℕ) where
  -- For a chunk of two tokens or more and no placeholder, contains_unit is true exactly when the
  -- chunk has a match in the tokens of the text.
  pub contains_unit-chunk_iff :
      {t t' : Token} {ts : List Token}
      → normalize_tokens u unit ≡ t ∷ t' ∷ ts
      → split_placeholder [] unit ≡ unit ∷ []
      → (contains_unit u text unit "chunk" ≡ some true)
        ↔ ((start : ℕ) × (e : ℕ) × IsChunkMatch (normalize_tokens u text) (t ∷ t' ∷ ts) start e)
  unfolding contains_unit unit_match_spans match_chunk
  contains_unit-chunk_iff {t} {t'} {ts} two plain =
      let text_tokens = normalize_tokens u text in
      let spans = chunk_spans text_tokens (t ∷ t' ∷ ts) in
      let known = spans_of_chunk u text unit two plain in
      (
        λ h.
            let (start, e, m) = (is_nonempty-In spans).0 (some_inj (ap any_span (sym known) ∙ h)) in
            (start, e, chunk_spans-IsChunkMatch text_tokens t (t' ∷ ts) start e m),
        λ (start, e, match).
            let (f, m, _) = chunk_spans-first text_tokens t (t' ∷ ts) start e match in
            ap any_span known ∙ ap some ((is_nonempty-In spans).1 (start, f, m)),
      )
