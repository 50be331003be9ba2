-- ===== src/Reconcile/Materialize/Validate/Frozen.antt =====
-- Which plans `_freeze_validated_plan` accepts.
use vocab_system.Base.{
  not-false, ok_inj, ◌≡◌, refl, String, Bool, true, false, not, ◌&&◌, ◌||◌, arith, ok, raise_if,
  >>=-ensures, raise_if-eq-ok,
}
use vocab_system.Base.Text.{str_eq, str_eq_iff}
use vocab_system.Contracts.Channels.{channel_text}
use vocab_system.Contracts.States.{is_transition}
use vocab_system.Models.{PlannedTransition}
use vocab_system.Models.Values.{is_object}
use vocab_system.Reconcile.Runtime.{Runtime}
use vocab_system.Reconcile.Plans.{transition_id, is_digest}
use vocab_system.Reconcile.Materialize.Effects.{
  edge_invalid, episode_empty, evidence_invalid, id_mismatch, group_id_invalid,
}
use vocab_system.Reconcile.Materialize.Validate.{freeze_validated_plan}

-- A plan with the id that its identity hashes.
pub record IsFrozen (rt : Runtime) (unit_key : String) (p : PlannedTransition) : Type 0 where
  pub edge : is_transition p.from_state p.to_state ≡ true
  pub episode : str_eq p.from_episode_id "" ≡ false
  pub object : is_object p.evidence ≡ true
  pub digest : is_digest p.transition_id ≡ true
  pub hashed :
      p.transition_id
      ≡ transition_id rt unit_key
          (channel_text p.channel)
          p.from_state
          p.to_state
          p.trigger
          p.from_episode_id
          p.evidence
  pub group :
      (not (str_eq p.transition_group_id "") && not (is_digest p.transition_group_id)) ≡ false

module _ (rt : Runtime) (unit_key : String) (p : PlannedTransition) where
  hash_of : String
  hash_of =
      transition_id rt unit_key (channel_text p.channel) p.from_state p.to_state p.trigger
        p.from_episode_id p.evidence

  both_of : (a b : Bool) → (not a || not b) ≡ false → (a ≡ true) × (b ≡ true)
  both_of a b h = (ground arith, ground arith)

  abbrev Frozen : PlannedTransition → Type 0
  Frozen q = (p ≡ q) × IsFrozen rt unit_key p

  -- An accepted plan is returned as it is.
  pub freeze_validated_plan-IsFrozen :
      (q : PlannedTransition)
      → freeze_validated_plan rt unit_key p ≡ ok q
      → (p ≡ q) × IsFrozen rt unit_key p
  unfolding freeze_validated_plan hash_of
  freeze_validated_plan-IsFrozen =
      >>=-ensures Frozen (raise_if (not (is_transition p.from_state p.to_state)) edge_invalid) _
        (λ _ edge.
          >>=-ensures Frozen (raise_if (str_eq p.from_episode_id "") episode_empty) _ (λ _ episode.
            >>=-ensures Frozen (raise_if (not (is_object p.evidence)) evidence_invalid) _
              (λ _ object.
                >>=-ensures Frozen
                  (raise_if
                    (not (is_digest p.transition_id) || not (str_eq p.transition_id hash_of))
                    id_mismatch)
                  _
                  (λ _ id.
                    >>=-ensures Frozen
                      (raise_if
                        (not (str_eq p.transition_group_id "")
                          && not (is_digest p.transition_group_id))
                        group_id_invalid)
                      _
                      (λ _ group q last.
                        let (digest, hashed) =
                          both_of (is_digest p.transition_id) (str_eq p.transition_id hash_of)
                            (raise_if-eq-ok _ _ id) in
                        (
                          ok_inj last,
                          record {
                            edge = not-false _ (raise_if-eq-ok _ _ edge);
                            episode = raise_if-eq-ok _ _ episode;
                            object = not-false _ (raise_if-eq-ok _ _ object);
                            digest = digest;
                            hashed = (str_eq_iff p.transition_id hash_of).0 hashed;
                            group = raise_if-eq-ok _ _ group;
                          },
                        ))))))

  pub IsFrozen-freeze_validated_plan :
      IsFrozen rt unit_key p → freeze_validated_plan rt unit_key p ≡ ok p
  unfolding freeze_validated_plan
  IsFrozen-freeze_validated_plan f =
      rw (f.edge, f.episode, f.object, f.digest, (str_eq_iff p.transition_id _).1 f.hashed, f.group)
        refl
