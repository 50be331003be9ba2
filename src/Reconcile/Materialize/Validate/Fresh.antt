-- ===== src/Reconcile/Materialize/Validate/Fresh.antt =====
-- What the plans of a decision that passes validation are.
use vocab_system.Base.{
  not-false, ok_inj, ◌≡◌, refl, sym, ◌∙◌, subst, String, Bool, true, false, not, ◌&&◌, ◌||◌, Option,
  none, some, List, [], ◌∷◌, All, any, arith, ok, raise_if, >>=-eq-ok, raise_if-eq-ok,
}
use mathlib.Core.Path.{ap₂}
use vocab_system.Base.Text.{str_eq, str_eq_iff}
use vocab_system.Contracts.Channels.{Channel, channel_text, channel_eq}
use vocab_system.Contracts.States.{state_text, is_transition}
use vocab_system.Models.{ChannelProgress, UnitProgress, PlannedTransition}
use vocab_system.Reconcile.Runtime.{Runtime}
use vocab_system.Reconcile.Plans.{transition_id}
use vocab_system.Reconcile.Materialize.Effects.{
  edge_invalid, episode_empty, evidence_invalid, id_mismatch, group_id_invalid, channel_repeated,
  channel_order,
}
use vocab_system.Reconcile.Materialize.Validate.{
  freeze_validated_plan, observed, not_after, is_current, check_source, check_plans,
}
use vocab_system.Reconcile.Plans.{is_digest}
use vocab_system.Models.Values.{is_object}

-- A plan along an edge of the table, with the identity that its id hashes, from the state and the
-- episode that are observed on its channel.
pub record IsFresh (rt : Runtime) (progress : UnitProgress) (p : PlannedTransition) : Type 0 where
  pub edge : is_transition p.from_state p.to_state ≡ true
  pub id :
      p.transition_id
      ≡ transition_id rt progress.unit_key
          (channel_text p.channel)
          p.from_state
          p.to_state
          p.trigger
          p.from_episode_id
          p.evidence
  pub source : ChannelProgress
  pub active : observed p.channel progress.channels ≡ some source
  pub state : state_text p.from_state ≡ source.state
  pub episode : p.from_episode_id ≡ source.state_episode_id

-- The channels of the plans ascend in the frozen order, so no two are the same.
abbrev pub Ascends : Option Channel → List PlannedTransition → Type 0
Ascends last [] = Unit
Ascends last (p ∷ l) = (not_after p.channel last ≡ false) × Ascends (some p.channel) l

neither : (a b : Bool) → (not a || not b) ≡ false → b ≡ true
neither a b h = ground arith

freeze_validated_plan-eq :
    (rt : Runtime) (u : String) (p q : PlannedTransition)
    → freeze_validated_plan rt u p ≡ ok q
    → (p ≡ q)
      × (is_transition p.from_state p.to_state ≡ true)
      × (p.transition_id
          ≡ transition_id rt u
              (channel_text p.channel)
              p.from_state
              p.to_state
              p.trigger
              p.from_episode_id
              p.evidence)
unfolding freeze_validated_plan
freeze_validated_plan-eq rt u p q h =
    let (_, edge, h₁) =
      >>=-eq-ok (raise_if (not (is_transition p.from_state p.to_state)) edge_invalid) _ h in
    let (_, _, h₂) = >>=-eq-ok (raise_if (str_eq p.from_episode_id "") episode_empty) _ h₁ in
    let (_, _, h₃) = >>=-eq-ok (raise_if (not (is_object p.evidence)) evidence_invalid) _ h₂ in
    let hashed =
      transition_id rt u (channel_text p.channel) p.from_state p.to_state p.trigger
        p.from_episode_id p.evidence in
    let (_, id, h₄) =
      >>=-eq-ok
        (raise_if (not (is_digest p.transition_id) || not (str_eq p.transition_id hashed))
          id_mismatch)
        _ h₃ in
    let (_, _, h₅) =
      >>=-eq-ok
        (raise_if (not (str_eq p.transition_group_id "") && not (is_digest p.transition_group_id))
          group_id_invalid)
        _ h₄ in
    (
      ok_inj h₅,
      not-false (is_transition p.from_state p.to_state) (raise_if-eq-ok _ _ edge),
      (str_eq_iff p.transition_id hashed).0 (
          neither (is_digest p.transition_id) (str_eq p.transition_id hashed)
            (raise_if-eq-ok _ _ id)),
    )

check_source-parts :
    (p : PlannedTransition) (o : Option ChannelProgress) (a : Unit {0})
    → check_source p o ≡ ok a
    → (c : ChannelProgress) × (o ≡ some c)
      × (state_text p.from_state ≡ c.state)
      × (p.from_episode_id ≡ c.state_episode_id)
check_source-parts p none a h = absurd (cc)
check_source-parts p (some c) a h =
    let same = not-false (is_current p c) (raise_if-eq-ok _ _ h) in
    let (x, y) =
      both (str_eq (state_text p.from_state) c.state) (str_eq p.from_episode_id c.state_episode_id)
        same in
    (
      c,
      refl,
      (str_eq_iff (state_text p.from_state) c.state).0 x,
      (str_eq_iff p.from_episode_id c.state_episode_id).0 y,
    )
  where
    both : (a b : Bool) → (a && b) ≡ true → (a ≡ true) × (b ≡ true)
    both true b h = (refl, h)
    both false b h = absurd (cc)

module _ (rt : Runtime) (progress : UnitProgress) where
  pub check_plans-IsFresh :
      (seen : List Channel) (last : Option Channel) (l plans : List PlannedTransition)
      → check_plans rt progress seen last l ≡ ok plans
      → (plans ≡ l) × All (IsFresh rt progress) l × Ascends last l
  unfolding check_plans
  check_plans-IsFresh seen last [] plans h = (sym (ok_inj h), tt, tt)
  check_plans-IsFresh seen last (p ∷ l) plans h =
      let (q, frozen, h₁) = >>=-eq-ok (freeze_validated_plan rt progress.unit_key p) _ h in
      let (same, edge, id) = freeze_validated_plan-eq rt progress.unit_key p q frozen in
      let (_, _, h₂) =
        >>=-eq-ok (raise_if (any (channel_eq q.channel) seen) channel_repeated) _ h₁ in
      let (_, order, h₃) = >>=-eq-ok (raise_if (not_after q.channel last) channel_order) _ h₂ in
      let (_, source, h₄) =
        >>=-eq-ok (check_source q (observed q.channel progress.channels)) _ h₃ in
      let (rest, more, h₅) =
        >>=-eq-ok (check_plans rt progress (q.channel ∷ seen) (some q.channel) l) _ h₄ in
      let (c, active, state, episode) =
        check_source-parts q (observed q.channel progress.channels) _ source in
      let (same_rest, fresh, ascends) =
        check_plans-IsFresh (q.channel ∷ seen) (some q.channel) l rest more in
      (
        sym (ok_inj h₅) ∙ ap₂ (λ x y. x ∷ y) (sym same) same_rest,
        (
          subst (IsFresh rt progress) (sym same) (record {
            edge = subst (λ x. is_transition x.from_state x.to_state ≡ true) same edge;
            id =
                subst
                  (λ (x : PlannedTransition).
                    x.transition_id
                    ≡ transition_id rt progress.unit_key (channel_text x.channel) x.from_state
                        x.to_state x.trigger x.from_episode_id x.evidence)
                  same id;
            source = c;
            active = active;
            state = state;
            episode = episode;
          }),
          fresh,
        ),
        (
          subst (λ (x : PlannedTransition). not_after x.channel last ≡ false) (sym same)
              (raise_if-eq-ok _ _ order),
          subst (λ (x : PlannedTransition). Ascends (some x.channel) l) (sym same) ascends,
        ),
      )
