-- ===== src/Matching/Spans/Frame.antt =====
-- `_frame_match_end`: it finds the smallest slot of one to six tokens.
use vocab_system.Base.{
  ℕ, zero, suc, ◌+◌, ◌-◌, ◌≤◌, ◌<◌, ◌≡◌, ap, ◌∙◌, false, some, List, arith, length, Bool-cases, inl,
  inr,
}
use native.Mathlib.Decide.{ℕ_discrete}
use vocab_system.Contracts.Matching.{frame_slot_min_tokens, frame_slot_max_tokens}
use vocab_system.Matching.Tokens.{Token, tokens_eq, tokens_eq_iff}
use vocab_system.Matching.Spans.{slice, slot_loop, frame_match_end}

-- A frame match with a slot of the given size.
pub record IsFrameMatch (text before after : List Token) (start slot end_index : ℕ) : Type 0 where
  pub fixed_before : slice text start (length before) ≡ before
  pub fixed_after : slice text (start + length before + slot) (length after) ≡ after
  pub slot_min : frame_slot_min_tokens ≤ slot
  pub slot_max : slot ≤ frame_slot_max_tokens
  pub ends : end_index + 1 ≡ start + length before + slot + length after

module _ (text after : List Token) (before_end : ℕ) where
  -- The loop stops at the first size that fits.
  slot_loop_sound :
      (rounds slot e : ℕ)
      → slot_loop text after before_end rounds slot ≡ some e
      → 0 < slot
      → (s : ℕ) × (slot ≤ s)
        × (s < slot + rounds)
        × (slice text (before_end + s) (length after) ≡ after)
        × (e + 1 ≡ before_end + s + length after)
  unfolding slot_loop
  slot_loop_sound zero slot e h p = absurd (cc)
  slot_loop_sound (suc rounds) slot e h p =
      elim (Bool-cases (tokens_eq (slice text (before_end + slot) (length after)) after)) [
        | inl fits ↦
            (slot, omega arith, omega arith, (tokens_eq_iff _ after).0 fits, ended (rw fits at h))
        | inr other ↦
            let (s, low, high, fits, ends) =
              slot_loop_sound rounds (slot + 1) e (rw other at h) (omega arith) in
            (s, omega arith, omega arith, fits, ends)
      ]
    where
      ended :
          some (before_end + slot + length after - 1) ≡ some e
          → e + 1 ≡ before_end + slot + length after
      ended q = ground arith

  later :
      (slot s : ℕ)
      → slot ≤ s
      → tokens_eq (slice text (before_end + slot) (length after)) after ≡ false
      → slice text (before_end + s) (length after) ≡ after
      → slot + 1 ≤ s
  later slot s low other fits = elim (ℕ_discrete slot s) [
    | yes same ↦ absurd (
        cc (
          other,
          (tokens_eq_iff (slice text (before_end + slot) (length after)) after).1
              (ap (λ n. slice text (before_end + n) (length after)) same ∙ fits),
        ))
    | no differ ↦ omega arith
  ]

  slot_loop-first :
      (rounds slot s : ℕ)
      → slot ≤ s
      → s < slot + rounds
      → slice text (before_end + s) (length after) ≡ after
      → (f : ℕ) × (slot_loop text after before_end rounds slot ≡ some f)
        × (f ≤ before_end + s + length after - 1)
  unfolding slot_loop
  slot_loop-first zero slot s low high fits = absurd (omega arith)
  slot_loop-first (suc rounds) slot s low high fits =
      elim (Bool-cases (tokens_eq (slice text (before_end + slot) (length after)) after)) [
        | inl now ↦ (before_end + slot + length after - 1, rw now, omega arith)
        | inr other ↦
            let (f, found, early) =
              slot_loop-first rounds (slot + 1) s (later slot s low other fits) (omega arith)
                fits in
            (f, rw other found, early)
      ]

module _ (text before after : List Token) (start e : ℕ) where
  -- Every frame match that the code reports is one, with a slot of one to six tokens.
  pub frame_match_end-IsFrameMatch :
      frame_match_end text before after start ≡ some e
      → (slot : ℕ) × IsFrameMatch text before after start slot e
  unfolding frame_match_end
  frame_match_end-IsFrameMatch h =
      elim (Bool-cases (tokens_eq (slice text start (length before)) before)) [
        | inl fixed ↦
            let (s, low, high, fits, ends) =
              slot_loop_sound text after (start + length before)
                (frame_slot_max_tokens + 1 - frame_slot_min_tokens) frame_slot_min_tokens e
                (rw fixed at h) (omega arith) in
            (
              s,
              record {
                fixed_before = (tokens_eq_iff _ before).0 fixed;
                fixed_after = fits;
                slot_min = low;
                slot_max = omega arith;
                ends = ends;
              },
            )
        | inr other ↦ absurd (cc (rw other at h))
      ]

  -- Where a frame match exists, the code reports one, and no match from this start ends before
  -- it.
  pub frame_match_end-first :
      (slot : ℕ)
      → IsFrameMatch text before after start slot e
      → (f : ℕ) × (frame_match_end text before after start ≡ some f) × (f ≤ e)
  unfolding frame_match_end
  frame_match_end-first slot m =
      let (f, found, early) =
        slot_loop-first text after (start + length before)
          (frame_slot_max_tokens + 1 - frame_slot_min_tokens) frame_slot_min_tokens slot m.slot_min
          (omega (arith, m.slot_max)) m.fixed_after in
      (
        f,
        rw ((tokens_eq_iff (slice text start (length before)) before).1 m.fixed_before) found,
        omega (arith, early, m.ends),
      )
