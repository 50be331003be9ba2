-- ===== src/Reconcile/Recover/Reactivation.antt =====
-- What a reactivation has done when it returns.
use vocab_system.Base.{
  ℕ, ◌≡◌, ◌≢◌, refl, sym, ap, ◌∙◌, subst, String, Bool, true, false, not, not-false, not-true,
  Option, none, some, some_inj, List, [], ◌∷◌, In, all, length, ◌==◌, &&-true, Bool-cases, inl, inr,
  ok, ok_inj,
}
use vocab_system.Base.Int.{ℤ, int_eq, int_eq_iff}
use vocab_system.Base.Text.{str_eq, str_eq_iff}
use vocab_system.Models.{ChannelProgress, UnitProgress}
use vocab_system.Matching.Tokens.{Unicode}
use vocab_system.Reconcile.Runtime.{Runtime}
use vocab_system.Reconcile.Materialize.Cards.{
  Queues, queue_of, has_queue, queue_suspended, is_suspended_queue, add_rows, complete,
  read_card_queues,
}
use vocab_system.Reconcile.Materialize.Effects.{
  Template, Port, omitted_card, not_relapsed, unsuspend_failed, still_suspended, cards_unread,
  card_count, unconfirmed, channel_unknown, call, lift, stop_if, ◌>>=◌, ◌>>◌, reply,
}
use vocab_system.Reconcile.Materialize.Effects.Inversion.{after-eq-ok, stop_if-eq-ok, call-eq-ok}
use vocab_system.Reconcile.Materialize.Readback.{View, IsTruthful, Quiet}
use vocab_system.Reconcile.Materialize.Suspension.{
  Reported, KeepsValues, queue_of-Reported, read_card_queues-Quiet,
}
use vocab_system.Reconcile.Observe.{observe_unit}
use vocab_system.Reconcile.Observe.Quiet.{observe_unit-IsQuiet}
use vocab_system.Reconcile.Recover.Unit.{selected, is_known, reactivate, reactivate_relapse_channel}

-- A reading of queues that returns has one for every card that was asked for.
queue_of-some :
    (c : ℤ) (queues : Queues) → has_queue c queues ≡ true → (q : ℤ) × (queue_of c queues ≡ some q)
unfolding queue_of
queue_of-some c [] h = absurd (cc)
queue_of-some c ((d, q) ∷ l) h = elim (Bool-cases (int_eq d c)) [
  | inl same ↦ (q, rw same refl)
  | inr other ↦ rw other (queue_of-some c l (rw other at h))
]

read_card_queues_complete :
    {W : Type 0} (port : Port W) (note c : ℤ) (w : W) (queues : Queues) (w' : W)
    → read_card_queues port note (c ∷ []) w ≡ (ok queues, w')
    → has_queue c queues ≡ true
unfolding read_card_queues complete
read_card_queues_complete port note c w queues w' h =
    let (rows, w₁, _, h₁) = after-eq-ok (reply cards_unread (port.cards_info (c ∷ [])) w) _ h in
    let (_, w₂, _, h₂) = after-eq-ok (stop_if (not (length rows == 1)) card_count w₁) _ h₁ in
    let (found, w₃, _, h₃) = after-eq-ok (add_rows note (c ∷ []) [] rows w₂) _ h₂ in
    let (_, w₄, full, last) =
      after-eq-ok (stop_if (not (all (λ d. has_queue d found) (c ∷ []))) omitted_card w₃) _ h₃ in
    let every = not-false _ (stop_if-eq-ok _ omitted_card w₃ full).0 in
    subst (λ l. has_queue c l ≡ true) (ok_inj (ap (λ q. q.0) last))
      (&&-true (has_queue c found) true every).0

module _ {W : Type 0} (port : Port W) (v : View W) (note : ℤ) (t : IsTruthful port v note) where
  -- The card stands in a queue that is not the suspended one.
  abbrev HasOther : W → ℤ → Type 0
  HasOther w c = (queue : ℤ) × (v.queue w c ≡ some queue) × (queue ≢ queue_suspended)

  -- What was done with the card of the channel: nothing, where it was awake; else Anki was asked to
  -- unsuspend it, and then shows another queue for it.
  abbrev pub Reactivated : ChannelProgress → W → W → Bool → Type 0
  Reactivated c w w' false = (c.is_suspended ≡ false) × (w ≡ w')
  Reactivated c w w' true =
      (c.is_suspended ≡ true)
      × (w₁ : W) × (port.unsuspend (c.card_id ∷ []) w ≡ (true, w₁))
      × HasOther w' c.card_id

  -- A reading that returns reports the queues, and leaves the events and the fields.
  reading-Quiet :
      (ids : List ℤ) (w : W) (queues : Queues) (w' : W)
      → read_card_queues port note ids w ≡ (ok queues, w')
      → (v.events w' ≡ v.events w)
        × (Reported port v note t w' queues × KeepsValues port v note t w w')
  reading-Quiet ids w queues w' h =
      subst (Quiet v w (λ found x. Reported port v note t x found × KeepsValues port v note t w x))
        h (read_card_queues-Quiet port v note t ids w)

  awake_queue :
      (w : W) (queues : Queues) (c : ℤ)
      → Reported port v note t w queues
      → has_queue c queues ≡ true
      → is_suspended_queue (queue_of c queues) ≡ false
      → HasOther w c
  awake_queue w queues c known found awake =
      let (q, read) = queue_of-some c queues found in
      (
        q,
        queue_of-Reported port v note t w queues c q known read,
        λ same. cc (
            sym (subst (λ o. is_suspended_queue o ≡ false) read awake)
            ∙ (int_eq_iff q queue_suspended).1 same),
      )

  -- No event is appended, and no field changes.
  abbrev Leaves : W → W → Type 0
  Leaves w w' = (v.events w' ≡ v.events w) × KeepsValues port v note t w w'

  awake-Reactivated :
      (c : ChannelProgress) (w w' : W) (b : Bool)
      → not c.is_suspended ≡ true
      → lift (ok false) w ≡ (ok b, w')
      → Leaves w w' × Reactivated c w w' b
  awake-Reactivated c w w' b awake h =
      let same : w ≡ w' = ap (λ q. q.1) h in
      (
        (ap v.events (sym same), λ k. ap (λ x. v.value x k) (sym same)),
        subst (Reactivated c w w') (ok_inj (ap (λ q. q.0) h))
            ((not-true c.is_suspended).0 awake, same),
      )

  asleep-Reactivated :
      (c : ChannelProgress) (w w' : W) (b : Bool)
      → not c.is_suspended ≡ false
      → (call unsuspend_failed (port.unsuspend (c.card_id ∷ []))
            >> (read_card_queues port note (c.card_id ∷ []) >>= λ queues.
                stop_if (is_suspended_queue (queue_of c.card_id queues)) still_suspended
                >> lift (ok true)))
          w
        ≡ (ok b, w')
      → Leaves w w' × Reactivated c w w' b
  asleep-Reactivated c w w' b asleep h =
      let (_, w₁, called, h₁) =
        after-eq-ok (call unsuspend_failed (port.unsuspend (c.card_id ∷ [])) w) _ h in
      let asked = call-eq-ok unsuspend_failed (port.unsuspend (c.card_id ∷ [])) w called in
      let (queues, w₂, read, h₂) =
        after-eq-ok (read_card_queues port note (c.card_id ∷ []) w₁) _ h₁ in
      let (_, w₃, checked, last) =
        after-eq-ok (stop_if (is_suspended_queue (queue_of c.card_id queues)) still_suspended w₂) _
          h₂ in
      let (woken, same₂) = stop_if-eq-ok _ still_suspended w₂ checked in
      let same₃ : w₃ ≡ w' = ap (λ q. q.1) last in
      let (events₂, (known, values₂)) = reading-Quiet (c.card_id ∷ []) w₁ queues w₂ read in
      let (events₁, values₁) = t.unsuspended (c.card_id ∷ []) w w₁ true asked in
      let found = read_card_queues_complete port note c.card_id w₁ queues w₂ read in
      subst (λ x. Leaves w x × Reactivated c w x b) (same₂ ∙ same₃)
        (
          (events₂ ∙ events₁, λ k. values₂ k ∙ values₁ k),
          subst (Reactivated c w w₂) (ok_inj (ap (λ q. q.0) last)) (
            not-false c.is_suspended asleep,
            w₁,
            asked,
            awake_queue w₂ queues c.card_id known found woken,
          ),
        )

  module _ (u : Unicode) (rt : Runtime) (verified : List Template → Bool) (now : ℕ) where
    selected-In :
        (channel : String) (l : List ChannelProgress) (c : ChannelProgress)
        → selected u rt verified port note now channel l ≡ some c
        → In c l × (c.channel ≡ channel)
    unfolding selected
    selected-In channel [] c h = absurd (cc)
    selected-In channel (d ∷ l) c h = elim (Bool-cases (str_eq d.channel channel)) [
      | inl same ↦
          let here = some_inj (rw same at h) in
          (inl (sym here), ap (λ x. x.channel) (sym here) ∙ (str_eq_iff d.channel channel).0 same)
      | inr other ↦
          let (later, named) = selected-In channel l c (rw other at h) in (inr later, named)
    ]

    reactivate-Reactivated :
        (o : Option ChannelProgress) (w w' : W) (b : Bool)
        → reactivate u rt verified port note now o w ≡ (ok b, w')
        → (c : ChannelProgress) × (o ≡ some c)
          × (c.state ≡ "RELAPSE")
          × (Leaves w w' × Reactivated c w w' b)
    unfolding reactivate
    reactivate-Reactivated none w w' b h = absurd (cc (ap (λ q. q.0) h))
    reactivate-Reactivated (some c) w w' b h =
        let (_, w₁, checked, rest) =
          after-eq-ok (stop_if (not (str_eq c.state "RELAPSE")) not_relapsed w) _ h in
        let (relapsed, same) = stop_if-eq-ok _ not_relapsed w checked in
        (
          c,
          refl,
          (str_eq_iff c.state "RELAPSE").0 (not-false _ relapsed),
          subst (λ x. Leaves x w' × Reactivated c x w' b) (sym same)
              (elim (Bool-cases (not c.is_suspended)) [
                | inl awake ↦ awake-Reactivated c w₁ w' b awake (rw awake at rest)
                | inr asleep ↦ asleep-Reactivated c w₁ w' b asleep (rw asleep at rest)
              ]),
        )

    observing-Quiet :
        (w : W) (progress : UnitProgress) (w' : W)
        → observe_unit u rt verified port note now w ≡ (ok progress, w')
        → v.events w' ≡ v.events w
    observing-Quiet w progress w' h =
        (subst (Quiet v w (λ _ _. Unit)) h
          ((observe_unit-IsQuiet port v note t u rt verified now).quiet w)).0

    -- What a reactivation that returns has seen and done.
    pub record IsReactivation (channel : String) (confirmed : Bool) (w w' : W) (b : Bool)
        : Type 0 where
      pub confirmation : confirmed ≡ true
      pub progress : UnitProgress
      pub seen : W
      pub observed : observe_unit u rt verified port note now w ≡ (ok progress, seen)
      pub card : ChannelProgress
      pub listed : In card progress.channels
      pub named : card.channel ≡ channel
      pub relapsed : card.state ≡ "RELAPSE"
      pub done : Reactivated card seen w' b
      pub fields : KeepsValues port v note t seen w'
      pub events : v.events w' ≡ v.events w

    -- Over a port that reports truly, a reactivation that returns was confirmed, and the observed
    -- channel is in RELAPSE; it returns false and calls nothing more where the card was awake,
    -- and else it has unsuspended exactly this card, and Anki shows it in another queue. After
    -- the observation no field of the note has changed, and no event was appended.
    pub reactivate_relapse_channel-IsReactivation :
        (channel : String) (confirmed : Bool) (w w' : W) (b : Bool)
        → reactivate_relapse_channel u rt verified port note now channel confirmed w ≡ (ok b, w')
        → IsReactivation channel confirmed w w' b
    unfolding reactivate_relapse_channel
    reactivate_relapse_channel-IsReactivation channel confirmed w w' b h =
        let (_, w₁, first, h₁) = after-eq-ok (stop_if (not confirmed) unconfirmed w) _ h in
        let (sure, same₁) = stop_if-eq-ok _ unconfirmed w first in
        let (_, w₂, second, h₂) =
          after-eq-ok
            (stop_if (not (is_known u rt verified port note now channel)) channel_unknown w₁) _
            h₁ in
        let (_, same₂) = stop_if-eq-ok _ channel_unknown w₁ second in
        let (progress, w₃, observed, h₃) =
          after-eq-ok (observe_unit u rt verified port note now w₂) _ h₂ in
        let (c, chosen, state, ((events, fields), done)) = reactivate-Reactivated _ w₃ w' b h₃ in
        let (listed, named) = selected-In channel progress.channels c chosen in
        let quiet = observing-Quiet w₂ progress w₃ observed in
        record {
          confirmation = not-false confirmed sure;
          progress = progress;
          seen = w₃;
          observed = ap (observe_unit u rt verified port note now) (same₁ ∙ same₂) ∙ observed;
          card = c;
          listed = listed;
          named = named;
          relapsed = state;
          done = done;
          fields = fields;
          events = events ∙ quiet ∙ ap v.events (sym (same₁ ∙ same₂));
        }
