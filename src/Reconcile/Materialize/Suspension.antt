-- ===== src/Reconcile/Materialize/Suspension.antt =====
-- What the calls on cards establish: a verified suspension.
use vocab_system.Base.{
  &&-true, ◌≡◌, refl, sym, ap, ◌∙◌, subst, inl, inr, String, Bool, true, false, not, Option, none,
  some, List, [], ◌∷◌, All, In, all, any, length, ◌==◌, Bool-cases, Result, ok, err,
}
use vocab_system.Base.Int.{ℤ, int_eq, int_eq_iff}
use vocab_system.Reconcile.Materialize.Effects.{
  CardRow, Port, Failure, cards_unread, card_count, suspend_failed, suspend_unconfirmed, after,
  ◌>>=◌, stop_if, reply,
}
use vocab_system.Reconcile.Materialize.Cards.{
  Queues, queue_of, has_queue, queue_suspended, is_suspended_queue, all_suspended, add_rows,
  complete, read_card_queues, suspend_cards,
}
use vocab_system.Reconcile.Materialize.Readback.{
  View, IsTruthful, AreSuspended, Quiet, after_Quiet, reply-Quiet,
}

module _ {W : Type 0} (port : Port W) (v : View W) (note : ℤ) (t : IsTruthful port v note) where
  -- What the queues of the loop report.
  abbrev pub Reported : W → Queues → Type 0
  Reported w queues = All (λ (c, q). v.queue w c ≡ some q) queues

  add_rows-Quiet :
      (ids : List ℤ) (queues : Queues) (rows : List CardRow) (w : W)
      → ((r : CardRow) → In r rows → v.queue w r.card_id ≡ some r.queue)
      → Reported w queues
      → Quiet v w (λ found w'. Reported w' found × (w' ≡ w)) (add_rows note ids queues rows w)
  unfolding add_rows
  add_rows-Quiet ids queues [] w h known = (refl, (known, refl))
  add_rows-Quiet ids queues (r ∷ rows) w h known =
      elim (Bool-cases (any (λ c. int_eq r.card_id c) ids)) [
        | inr a ↦ rw a refl
        | inl a ↦ elim (Bool-cases (has_queue r.card_id queues)) [
          | inl b ↦ rw (a, b) refl
          | inr b ↦ elim (Bool-cases (int_eq r.note note)) [
            | inr c ↦ rw (a, b, c) refl
            | inl c ↦
                rw (a, b, c)
                  (add_rows-Quiet ids ((r.card_id, r.queue) ∷ queues) rows w (λ s m. h s (inr m))
                    (h r (inl refl), known))
          ]
        ]
      ]

  complete-Quiet :
      (ids : List ℤ) (queues : Queues) (w : W)
      → Reported w queues
      → Quiet v w (λ found w'. Reported w' found × (w' ≡ w)) (complete ids queues w)
  unfolding complete
  complete-Quiet ids queues w known = elim (Bool-cases (all (λ c. has_queue c queues) ids)) [
    | inr a ↦ rw a refl
    | inl a ↦ rw a (refl, (known, refl))
  ]

  pub queue_of-Reported :
      (w : W) (queues : Queues) (c q : ℤ)
      → Reported w queues
      → queue_of c queues ≡ some q
      → v.queue w c ≡ some q
  unfolding queue_of
  queue_of-Reported w [] c q known h = absurd (cc)
  queue_of-Reported w ((d, p) ∷ queues) c q known h = elim (Bool-cases (int_eq d c)) [
    | inl same ↦ ap (v.queue w) (sym ((int_eq_iff d c).0 same)) ∙ known.0 ∙ rw same at h
    | inr other ↦ queue_of-Reported w queues c q known.1 (rw other at h)
  ]

  suspended_queue : (o : Option ℤ) → is_suspended_queue o ≡ true → o ≡ some queue_suspended
  suspended_queue none h = absurd (cc)
  suspended_queue (some q) h = ap some ((int_eq_iff q queue_suspended).0 h)

  pub all_suspended-AreSuspended :
      (w : W) (queues : Queues) (cards : List ℤ)
      → Reported w queues
      → all_suspended queues cards ≡ true
      → AreSuspended v w cards
  unfolding all_suspended
  all_suspended-AreSuspended w queues [] known h = tt
  all_suspended-AreSuspended w queues (c ∷ cards) known h =
      let (now, more) =
        &&-true (is_suspended_queue (queue_of c queues))
          (all (λ d. is_suspended_queue (queue_of d queues)) cards) h in
      (
        queue_of-Reported w queues c queue_suspended known
            (suspended_queue (queue_of c queues) now),
        all_suspended-AreSuspended w queues cards known more,
      )

  -- The fields of the note are as before.
  abbrev pub KeepsValues : W → W → Type 0
  KeepsValues w w' = (k : String) → v.value w' k ≡ v.value w k

  rows-Quiet :
      (ids : List ℤ) (rows : List CardRow) (w w' : W)
      → port.cards_info ids w ≡ (some rows, w')
      → Quiet v w'
          (λ found w''. Reported w'' found × (w'' ≡ w'))
          (after
            (stop_if (not (length rows == length ids)) card_count w')
            (λ _. add_rows note ids [] rows >>= complete ids))
  rows-Quiet ids rows w w' p = elim (Bool-cases (length rows == length ids)) [
    | inr a ↦ rw a refl
    | inl a ↦ rw a (
        after_Quiet v w' (λ found w''. Reported w'' found × (w'' ≡ w'))
          (Quiet v w' (λ found w''. Reported w'' found × (w'' ≡ w'))) (add_rows note ids [] rows w')
          (complete ids)
          (add_rows-Quiet ids [] rows w' (λ r m. t.cards_shown ids w w' rows r p m) tt)
          (λ found w'' same (known, e).
            subst
              (λ x. Quiet v w' (λ found' y. Reported y found' × (y ≡ w')) (complete ids found x))
              (sym e) (complete-Quiet ids found w' (subst (λ x. Reported x found) e known)))
          (λ _ _ same. same))
  ]

  pub read_card_queues-Quiet :
      (ids : List ℤ) (w : W)
      → Quiet v w
          (λ found w'. Reported w' found × KeepsValues w w')
          (read_card_queues port note ids w)
  unfolding read_card_queues
  read_card_queues-Quiet ids w =
      after_Quiet v w (λ rows w'. port.cards_info ids w ≡ (some rows, w'))
        (Quiet v w (λ found w'. Reported w' found × KeepsValues w w'))
        (reply cards_unread (port.cards_info ids) w) _
        (reply-Quiet port v note t cards_unread (port.cards_info ids) w
          (λ o w' p. (t.carded ids w w' o p).0))
        (λ rows w' same p.
          weaken w w' same (t.carded ids w w' (some rows) p).1 _ (rows-Quiet ids rows w w' p))
        (λ _ _ same. same)
    where
      weaken :
          (w w' : W)
          → v.events w' ≡ v.events w
          → KeepsValues w w'
          → (q : Result Failure Queues × W)
          → Quiet v w' (λ found w''. Reported w'' found × (w'' ≡ w')) q
          → Quiet v w (λ found w''. Reported w'' found × KeepsValues w w'') q
      weaken w w' same keeps (ok found, w'') (e, (known, here)) =
          (e ∙ same, (known, λ k. ap (λ x. v.value x k) here ∙ keeps k))
      weaken w w' same keeps (err f, w'') e = e ∙ same

  pub suspend_cards-Quiet :
      (cards : List ℤ) (w : W) → Quiet v w (λ _ w'. KeepsValues w w') (suspend_cards port cards w)
  unfolding suspend_cards
  suspend_cards-Quiet [] w = (refl, λ k. refl)
  suspend_cards-Quiet (c ∷ cards) w =
      after_Quiet v w (λ b w'. port.suspend (c ∷ cards) w ≡ (some b, w'))
        (Quiet v w (λ _ w'. KeepsValues w w')) (reply suspend_failed (port.suspend (c ∷ cards)) w) _
        (reply-Quiet port v note t suspend_failed (port.suspend (c ∷ cards)) w
          (λ o w' p. (t.suspended (c ∷ cards) w w' o p).0))
        (λ b w' same p. confirmed b w' same (t.suspended (c ∷ cards) w w' (some b) p).1)
        (λ _ _ same. same)
    where
      confirmed :
          (b : Bool) (w' : W)
          → v.events w' ≡ v.events w
          → KeepsValues w w'
          → Quiet v w (λ _ w''. KeepsValues w w'') (stop_if (not b) suspend_unconfirmed w')
      confirmed true w' same keeps = (same, keeps)
      confirmed false w' same keeps = same
