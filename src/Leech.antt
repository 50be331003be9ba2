-- ===== src/Leech.antt =====
-- vocab/leech.py: `verify_leech_config`, the check of Anki's leech options.
use vocab_system.Base.{
  ◌≡◌, refl, ap, ◌∙◌, ◌↔◌, inl, inr, String, not, Option, none, some, List, [], ◌∷◌, ◌++◌,
  if◌then◌else◌, Bool-cases,
}
use vocab_system.Base.Int.{ℤ, pos, int_eq, int_eq_iff}
use vocab_system.Base.Text.{str_eq}
use vocab_system.Contracts.{leech_lapse_threshold}

-- The codes of LeechConfigViolation, without the prefix `L7_`.
pub data LeechCode : Type 0 where
  config_shape_invalid lapse_section_missing threshold_mismatch action_unknown action_suspend :
      LeechCode

-- A value of the lapse section, a section, and the configuration. `whole` is a Python int.
pub data Entry : Type 0 where
  whole : ℤ → Entry
  other_value : Entry

pub data Section : Type 0 where
  mapping : List (String × Entry) → Section
  other_section : Section

pub data Config : Type 0 where
  sections : List (String × Section) → Config
  other_config : Config

-- `mapping.get(key)`
unfoldable pub get : {A : Type 0} → String → List (String × A) → Option A
get k [] = none
get k ((j, v) ∷ l) = if str_eq j k then some v else get k l

-- `_LEECH_ACTION_WIRE_BY_NAME`
abbrev pub suspend_card_wire : ℤ
suspend_card_wire = pos 0

abbrev pub expected_leech_action : ℤ
expected_leech_action = pos 1

unfoldable pub threshold_violations : Option Entry → List LeechCode
threshold_violations (some (whole n)) =
    if not (int_eq n (pos leech_lapse_threshold)) then threshold_mismatch ∷ [] else []
threshold_violations _ = threshold_mismatch ∷ []

unfoldable pub action_violations : Option Entry → List LeechCode
action_violations (some (whole n)) =
    if int_eq n suspend_card_wire
    then action_suspend ∷ []
    else if not (int_eq n expected_leech_action)
    then action_unknown ∷ []
    else []
action_violations _ = action_unknown ∷ []

unfoldable pub lapse_violations : Option Section → List LeechCode
unfolding threshold_violations action_violations get
lapse_violations (some (mapping lapse)) =
    threshold_violations (get "leechFails" lapse) ++ action_violations (get "leechAction" lapse)
lapse_violations _ = lapse_section_missing ∷ []

unfoldable pub verify_leech_config : Config → List LeechCode
unfolding lapse_violations get
verify_leech_config (sections config) = lapse_violations (get "lapse" config)
verify_leech_config other_config = config_shape_invalid ∷ []

-- The lapse section tags a card at four lapses and leaves it in its queue.
pub record TagsOnly (c : Config) : Type 0 where
  pub config : List (String × Section)
  pub is_mapping : c ≡ sections config
  pub lapse : List (String × Entry)
  pub has_lapse : get "lapse" config ≡ some (mapping lapse)
  pub fails : get "leechFails" lapse ≡ some (whole (pos 4))
  pub action : get "leechAction" lapse ≡ some (whole (pos 1))

threshold_violations-nil :
    (o : Option Entry) → threshold_violations o ≡ [] → o ≡ some (whole (pos 4))
unfolding threshold_violations
threshold_violations-nil none h = absurd (cc)
threshold_violations-nil (some other_value) h = absurd (cc)
threshold_violations-nil (some (whole n)) h = elim (Bool-cases (int_eq n (pos 4))) [
  | inl e ↦ ap (λ m. some (whole m)) ((int_eq_iff n (pos 4)).0 e)
  | inr e ↦ absurd (cc (rw (e, not) at h))
]

action_violations-nil : (o : Option Entry) → action_violations o ≡ [] → o ≡ some (whole (pos 1))
unfolding action_violations
action_violations-nil none h = absurd (cc)
action_violations-nil (some other_value) h = absurd (cc)
action_violations-nil (some (whole n)) h = elim (Bool-cases (int_eq n suspend_card_wire)) [
  | inl s ↦ absurd (cc (rw s at h))
  | inr t ↦ elim (Bool-cases (int_eq n expected_leech_action)) [
    | inl e ↦ ap (λ m. some (whole m)) ((int_eq_iff n (pos 1)).0 e)
    | inr e ↦ absurd (cc (rw (t, e, not) at h))
  ]
]

append-nil_parts : (a b : List LeechCode) → a ++ b ≡ [] → (a ≡ []) × (b ≡ [])
append-nil_parts [] b h = (refl, h)
append-nil_parts (x ∷ a) b h = absurd (cc)

lapse_violations-nil :
    (o : Option Section)
    → lapse_violations o ≡ []
    → (l : List (String × Entry)) × (o ≡ some (mapping l))
      × (get "leechFails" l ≡ some (whole (pos 4)))
      × (get "leechAction" l ≡ some (whole (pos 1)))
unfolding lapse_violations
lapse_violations-nil none h = absurd (cc)
lapse_violations-nil (some other_section) h = absurd (cc)
lapse_violations-nil (some (mapping l)) h =
    let (t, a) =
      append-nil_parts (threshold_violations (get "leechFails" l))
        (action_violations (get "leechAction" l)) h in
    (
      l,
      refl,
      threshold_violations-nil (get "leechFails" l) t,
      action_violations-nil (get "leechAction" l) a,
    )

verify_leech_config_complete : (c : Config) → TagsOnly c → verify_leech_config c ≡ []
unfolding verify_leech_config lapse_violations threshold_violations action_violations
verify_leech_config_complete c t =
    ap verify_leech_config t.is_mapping
    ∙ ap lapse_violations t.has_lapse
    ∙ ap (λ o. threshold_violations o ++ action_violations (get "leechAction" t.lapse)) t.fails
    ∙ ap action_violations t.action

verify_leech_config_sound : (c : Config) → verify_leech_config c ≡ [] → TagsOnly c
unfolding verify_leech_config
verify_leech_config_sound other_config h = absurd (cc)
verify_leech_config_sound (sections config) h =
    let (l, has, fails, action) = lapse_violations-nil (get "lapse" config) h in
    record {
      config = config;
      is_mapping = refl;
      lapse = l;
      has_lapse = has;
      fails = fails;
      action = action;
    }

-- A configuration has no violation exactly when it is a mapping with a lapse section whose
-- leechFails is 4 and whose leechAction is 1, which is Tag Only.
pub verify_leech_config-TagsOnly : (c : Config) → (verify_leech_config c ≡ []) ↔ TagsOnly c
verify_leech_config-TagsOnly c = (verify_leech_config_sound c, verify_leech_config_complete c)
