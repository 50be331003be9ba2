-- ===== src/Forge/Units/Verdicts.antt =====
-- The verdicts of `validate_forge_unit`.
use vocab_system.Base.{
  ◌≡◌, refl, sym, ap, subst, ◌∙◌, ◌↔◌, inl, inr, Bool, true, ◌&&◌, Option, none, some, List, [],
  arith, Bool-cases, any, &&-true, &&-true_of, not-true, implies-true, implies-true_of, some_inj,
  any-true,
}
use vocab_system.Base.Reports.{AllHold, reported_iff}
use vocab_system.Base.Text.{str_eq, str_eq_iff, str_in, codes, is_blank}
use vocab_system.Contracts.Channels.{Channel, reading, listening, writing, speaking, channels}
use vocab_system.Contracts.Keys.{is_unit_key}
use vocab_system.Contracts.Matching.{unit_type_values}
use vocab_system.Contracts.Keys.Laws.{proposed_unit_key-valid}
use vocab_system.Matching.Tokens.{Unicode, token_eq_iff}
use vocab_system.Matching.Units.{contains_unit}
use vocab_system.Models.Units.{VocabUnit}
use vocab_system.Forge.Codes.{ForgeCode, forge_violation_codes, forge_code_index, forge_code_listed}
use vocab_system.Forge.Fields.{target_of, state_of}
use vocab_system.Forge.Units.{
  returned, is_nonempty_text, has_valid_unit_shape, unit_shape_valid, target_valid, state_valid,
  target_state_agree, forge_tests, source_contains, forge_violations, validate_forge_unit,
}
use vocab_system.Forge.Units.WellFormed.{
  has_valid_unit_shape-contains_unit, Configured, IsForgeUnit, Configured-of, Configured-tests,
}

module _ (u : Unicode) (unit : VocabUnit) where
  returned-some : {A : Type 0} (o : Option A) → returned o ≡ true → (a : A) × (o ≡ some a)
  returned-some none h = absurd (cc)
  returned-some (some a) h = (a, refl)

  -- The search behind its guard does not raise.
  source_contains-some : (b : Bool) × (source_contains u unit ≡ some b)
  unfolding source_contains
  source_contains-some =
      elim (Bool-cases (is_nonempty_text unit.source_sentence && unit_shape_valid u unit)) [
        | inl guarded ↦ rw guarded (
            returned-some _ (
              has_valid_unit_shape-contains_unit u (codes unit.source_sentence) unit.lemma
                unit.unit_type
              ∙ (&&-true _ _ (&&-true _ _ guarded).1).1))
        | inr skipped ↦ rw skipped (true, refl)
      ]

  -- For every Unit the validator returns a tuple of codes; the ValueErrors of the Unit matcher
  -- are not passed on.
  pub validate_forge_unit_total : (l : List ForgeCode) × (validate_forge_unit u unit ≡ some l)
  unfolding validate_forge_unit forge_violations
  validate_forge_unit_total =
      let (b, found) = source_contains-some in (_, ap (forge_violations u unit) found)

  enabled_target :
      any (λ c. str_eq (target_of unit c) "1") channels ≡ true
      → (c : Channel) × (target_of unit c ≡ "1")
  enabled_target h =
      let (c, set) = any-true (λ c. str_eq (target_of unit c) "1") channels h in
      (c, (str_eq_iff (target_of unit c) "1").0 set)

  target_enabled :
      (c : Channel)
      → target_of unit c ≡ "1"
      → any (λ c. str_eq (target_of unit c) "1") channels ≡ true
  target_enabled reading h = ground (arith, (str_eq_iff unit.target_r "1").1 h)
  target_enabled listening h = ground (arith, (str_eq_iff unit.target_l "1").1 h)
  target_enabled writing h = ground (arith, (str_eq_iff unit.target_w "1").1 h)
  target_enabled speaking h = ground (arith, (str_eq_iff unit.target_s "1").1 h)

  Configured-channel :
      (c : Channel)
      → target_valid unit c ≡ true
      → state_valid unit c ≡ true
      → target_state_agree unit c ≡ true
      → Configured (target_of unit c) (state_of unit c)
  Configured-channel c valid known same =
      Configured-of (target_of unit c) (state_of unit c) valid known
        (implies-true (target_valid unit c && state_valid unit c) _ same (&&-true_of valid known))

  -- The search is made, where the lemma, the type, the shape and the sentence are valid.
  source_contains-searched :
      is_nonempty_text unit.source_sentence ≡ true
      → is_nonempty_text unit.lemma ≡ true
      → str_in unit.unit_type unit_type_values ≡ true
      → has_valid_unit_shape u unit.lemma unit.unit_type ≡ true
      → source_contains u unit
        ≡ contains_unit u (codes unit.source_sentence) (codes unit.lemma) unit.unit_type
  unfolding source_contains
  source_contains-searched sentence lemma unit_type shape =
      rw (&&-true_of sentence (&&-true_of (&&-true_of lemma unit_type) shape)) refl

  IsForgeUnit-of :
      (contained : Bool)
      → source_contains u unit ≡ some contained
      → AllHold (forge_tests u unit contained)
      → IsForgeUnit u unit
  unfolding forge_tests
  IsForgeUnit-of contained found
        (
          lemma_slug,
          (
            sense_slug,
            (
              unit_key,
              (
                key,
                (
                  lemma,
                  (
                    unit_type,
                    (
                      shape,
                      (
                        t_r,
                        (
                          t_l,
                          (
                            t_w,
                            (
                              t_s,
                              (
                                enabled,
                                (
                                  sr,
                                  (
                                    sl,
                                    (
                                      sw,
                                      (
                                        ss,
                                        (
                                          ar,
                                          (
                                            al,
                                            (
                                              aw,
                                              (
                                                as_,
                                                (
                                                  register,
                                                  (
                                                    definition,
                                                    (source_ref, (sentence, (contains, _))),
                                                  ),
                                                ),
                                              ),
                                            ),
                                          ),
                                        ),
                                      ),
                                    ),
                                  ),
                                ),
                              ),
                            ),
                          ),
                        ),
                      ),
                    ),
                  ),
                ),
              ),
            ),
          ),
        ) =
      record {
        lemma_slug = lemma_slug;
        sense_slug = sense_slug;
        key = (token_eq_iff _ _).0 key;
        lemma = (not-true (is_blank unit.lemma)).0 lemma;
        unit_type = unit_type;
        configured = λ c. elim c as (λ k. Configured (target_of unit k) (state_of unit k)) [
          | reading ↦ Configured-channel reading t_r sr ar
          | listening ↦ Configured-channel listening t_l sl al
          | writing ↦ Configured-channel writing t_w sw aw
          | speaking ↦ Configured-channel speaking t_s ss as_
        ];
        enabled = enabled_target (
            implies-true _ _ enabled
              (&&-true_of t_r (&&-true_of t_l (&&-true_of t_w (&&-true_of t_s refl)))));
        register = register;
        definition = (not-true (is_blank unit.definition_en)).0 definition;
        source_ref = source_ref;
        source_sentence = (not-true (is_blank unit.source_sentence)).0 sentence;
        contains =
            sym (
              source_contains-searched sentence lemma unit_type
                (&&-true _ _ (implies-true _ _ shape (&&-true_of lemma unit_type))).1)
            ∙ found
            ∙ ap some contains;
      }

  shape_of : IsForgeUnit u unit → has_valid_unit_shape u unit.lemma unit.unit_type ≡ true
  shape_of w =
      sym (
        has_valid_unit_shape-contains_unit u (codes unit.source_sentence) unit.lemma unit.unit_type)
      ∙ ap returned w.contains

  valid_channel : IsForgeUnit u unit → (c : Channel) → target_valid unit c ≡ true
  valid_channel w c = (Configured-tests (w.configured c)).0

  known_channel : IsForgeUnit u unit → (c : Channel) → state_valid unit c ≡ true
  known_channel w c = (Configured-tests (w.configured c)).1

  agreeing_channel : IsForgeUnit u unit → (c : Channel) → target_state_agree unit c ≡ true
  agreeing_channel w c =
      implies-true_of (target_valid unit c && state_valid unit c) _
        (λ _. (Configured-tests (w.configured c)).2)

  forge_tests-hold : IsForgeUnit u unit → AllHold (forge_tests u unit true)
  unfolding forge_tests
  forge_tests-hold w =
      let lemma = (not-true (is_blank unit.lemma)).1 w.lemma in
      let valid = valid_channel w in
      let known = known_channel w in
      let same = agreeing_channel w in
      (
        w.lemma_slug,
        (
          w.sense_slug,
          (
            subst (λ k. is_unit_key k ≡ true) (sym w.key)
                (proposed_unit_key-valid _ _ w.lemma_slug w.sense_slug),
            (
              (token_eq_iff _ _).1 w.key,
              (
                lemma,
                (
                  w.unit_type,
                  (
                    implies-true_of _ _ (λ lt. &&-true_of lt (shape_of w)),
                    (
                      valid reading,
                      (
                        valid listening,
                        (
                          valid writing,
                          (
                            valid speaking,
                            (
                              implies-true_of _ _ (λ _. target_enabled w.enabled.0 w.enabled.1),
                              (
                                known reading,
                                (
                                  known listening,
                                  (
                                    known writing,
                                    (
                                      known speaking,
                                      (
                                        same reading,
                                        (
                                          same listening,
                                          (
                                            same writing,
                                            (
                                              same speaking,
                                              (
                                                w.register,
                                                (
                                                  (not-true (is_blank unit.definition_en)).1
                                                      w.definition,
                                                  (
                                                    w.source_ref,
                                                    (
                                                      (not-true (is_blank unit.source_sentence)).1
                                                          w.source_sentence,
                                                      (refl, tt),
                                                    ),
                                                  ),
                                                ),
                                              ),
                                            ),
                                          ),
                                        ),
                                      ),
                                    ),
                                  ),
                                ),
                              ),
                            ),
                          ),
                        ),
                      ),
                    ),
                  ),
                ),
              ),
            ),
          ),
        ),
      )

  -- A Unit has no violation exactly where it is well formed: its key is composed of its two
  -- slugs, its type and register are of the closed sets, every channel is off or is a target with
  -- a lifecycle state, one channel at least is a target, its lemma, definition and source
  -- sentence are not blank, its source reference has the pattern, and the source sentence
  -- contains the Unit.
  pub validate_forge_unit-IsForgeUnit : (validate_forge_unit u unit ≡ some []) ↔ IsForgeUnit u unit
  unfolding validate_forge_unit forge_violations
  validate_forge_unit-IsForgeUnit = (
    λ h.
        let (contained, found) = source_contains-some in
        IsForgeUnit-of contained found (
          (reported_iff forge_code_index forge_violation_codes forge_code_listed
              (forge_tests u unit contained)).0
            (some_inj (ap (forge_violations u unit) (sym found) ∙ h))),
    λ w.
        ap (forge_violations u unit) (
          source_contains-searched ((not-true (is_blank unit.source_sentence)).1 w.source_sentence)
            ((not-true (is_blank unit.lemma)).1 w.lemma) w.unit_type (shape_of w)
          ∙ w.contains)
        ∙ ap some (
            (reported_iff forge_code_index forge_violation_codes forge_code_listed
                (forge_tests u unit true)).1
              (forge_tests-hold w)),
  )
