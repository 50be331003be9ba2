-- ===== src/Journal/Reading/Legal.antt =====
-- What the records that are read say of their events.
use vocab_system.Base.{
  Option, none, ok_inj, not-false, ℕ, ◌≤◌, ◌≡◌, refl, ap, ◌∙◌, subst, String, not, some, some_inj,
  ltb, ltb→le, Bool-cases, inl, inr, ok, >>=-eq-ok, >>=-ensures, raise_if, raise_if-eq-ok,
}
use vocab_system.Base.Text.{str_eq, str_eq_iff}
use vocab_system.Contracts.Channels.{channel_text, parse_channel}
use vocab_system.Contracts.States.{
  state_text, parse_state, parse_state_sound, parse_trigger, is_transition,
}
use vocab_system.Models.{Event}
use vocab_system.Models.Values.{Json, text, json_field}
use vocab_system.Reconcile.Runtime.{Runtime, IsoText, malformed, naive, aware}
use vocab_system.Reconcile.Plans.{is_digest, transition_id_at}
use vocab_system.Journal.Records.{JournalRecord, phase_text, parse_phase, parse_phase_sound}
use vocab_system.Journal.Transactions.{
  HistoryError, timestamp_empty, timestamp_not_normalized, record_in_future, field_missing,
  channel_invalid, state_invalid, transition_invalid, trigger_invalid, id_invalid, episode_invalid,
  phase_invalid, evidence_invalid, id_mismatch,
}
use vocab_system.Journal.Provenance.Chains.{IsLegal}
use vocab_system.Journal.Reading.{
  has_all, t9_state_required_payload_fields, found, named, digest_text, filled_text, object_of,
  group_of, normalized, event_instant, state_record, journal_record, has_any, journal_marker_fields,
}

-- A record read from the event at a place of the log.
pub record IsReadFrom (rt : Runtime) (now : ℕ) (event : Event) (index : ℕ) (r : JournalRecord)
    : Type 0 where
  pub legal : IsLegal r
  pub phase : json_field "phase" event.payload ≡ some (text (phase_text r.phase))
  pub id : json_field "transition_id" event.payload ≡ some (text r.transition_id)
  pub from_state : json_field "from" event.payload ≡ some (text (state_text r.identity.from_state))
  pub to_state : json_field "to" event.payload ≡ some (text (state_text r.identity.to_state))
  pub unit : r.identity.unit_key ≡ event.unit_key
  pub hashed :
      r.transition_id
      ≡ transition_id_at rt event.v event.unit_key
          (channel_text r.identity.channel)
          r.identity.from_state
          r.identity.to_state
          r.identity.trigger
          r.identity.from_episode_id
          r.evidence
  pub stamped : event.ts ≡ rt.isoformat r.instant
  pub past : r.instant ≤ now
  pub place : r.index ≡ index

found-ok : {A : Type 0} (e : HistoryError) (o : Option A) (a : A) → found e o ≡ ok a → o ≡ some a
found-ok e none a h = absurd (cc)
found-ok e (some b) a h = ap some (ok_inj h)

-- A value that a closed vocabulary gives is the text that it was read from.
named-text :
    {A : Type 0} (parse : String → Option A) (print : A → String)
    → ((s : String) (a : A) → parse s ≡ some a → s ≡ print a)
    → (e : HistoryError) (o : Option Json) (a : A) → found e (named parse o) ≡ ok a
    → o ≡ some (text (print a))
named-text parse print sound e none a h = absurd (cc)
named-text parse print sound e (some (text s)) a h =
    ap (λ t. some (text t)) (sound s a (found-ok e (parse s) a h))
named-text parse print sound e (some _) a h = absurd (cc)

digest_text-same : (s d : String) → digest_text s ≡ some d → s ≡ d
digest_text-same s d h = elim (Bool-cases (is_digest s)) [
  | inl hex ↦ some_inj (rw hex at h)
  | inr other ↦ absurd (cc (rw other at h))
]

normalized-text :
    (rt : Runtime) (value : String) (t : IsoText) (instant : ℕ)
    → normalized rt value t ≡ ok instant
    → value ≡ rt.isoformat instant
normalized-text rt value malformed instant h = absurd (cc)
normalized-text rt value naive instant h = absurd (cc)
normalized-text rt value (aware n) instant h =
    let (_, same, last) =
      >>=-eq-ok (raise_if (not (str_eq value (rt.isoformat n))) timestamp_not_normalized) _ h in
    (str_eq_iff value (rt.isoformat n)).0 (not-false _ (raise_if-eq-ok _ _ same))
    ∙ ap rt.isoformat (ok_inj last)

event_instant-text :
    (rt : Runtime) (now : ℕ) (future : HistoryError) (value : String) (instant : ℕ)
    → event_instant rt now future value ≡ ok instant
    → (value ≡ rt.isoformat instant) × (instant ≤ now)
unfolding event_instant
event_instant-text rt now future value instant h =
    let (_, _, rest) = >>=-eq-ok (raise_if (str_eq value "") timestamp_empty) _ h in
    let (n, parsed, rest₂) = >>=-eq-ok (normalized rt value (rt.fromisoformat value)) _ rest in
    let (_, early, last) = >>=-eq-ok (raise_if (ltb now n) future) _ rest₂ in
    (
      normalized-text rt value (rt.fromisoformat value) n parsed ∙ ap rt.isoformat (ok_inj last),
      subst (λ k. k ≤ now) (ok_inj last) (ltb→le now n (raise_if-eq-ok _ _ early)),
    )

module _ (rt : Runtime) (now : ℕ) where
  module _ (event : Event) (index : ℕ) where
    abbrev Read : JournalRecord → Type 0
    Read = IsReadFrom rt now event index

    state_record-IsReadFrom :
        (r : JournalRecord)
        → state_record rt now event index ≡ ok r
        → IsReadFrom rt now event index r
    unfolding state_record
    state_record-IsReadFrom =
        >>=-ensures Read
          (raise_if (not (has_all t9_state_required_payload_fields event.payload)) field_missing) _
          (λ _ _.
            >>=-ensures Read
              (found channel_invalid (named parse_channel (json_field "channel" event.payload))) _
              (λ c _.
                >>=-ensures Read
                  (found state_invalid (named parse_state (json_field "from" event.payload))) _
                  (λ from from_read.
                    >>=-ensures Read
                      (found state_invalid (named parse_state (json_field "to" event.payload))) _
                      (λ to to_read.
                        >>=-ensures Read (raise_if (not (is_transition from to)) transition_invalid)
                          _
                          (λ _ edge.
                            >>=-ensures Read
                              (found trigger_invalid
                                (named parse_trigger (json_field "trigger" event.payload)))
                              _
                              (λ trigger _.
                                >>=-ensures Read
                                  (found id_invalid
                                    (named digest_text (json_field "transition_id" event.payload)))
                                  _
                                  (λ id id_read.
                                    >>=-ensures Read
                                      (found episode_invalid (
                                        named filled_text
                                          (json_field "from_episode_id" event.payload)))
                                      _
                                      (λ episode _.
                                        >>=-ensures Read
                                          (found phase_invalid
                                            (named parse_phase (json_field "phase" event.payload)))
                                          _
                                          (λ phase phase_read.
                                            >>=-ensures Read
                                              (found evidence_invalid
                                                (object_of (json_field "evidence" event.payload)))
                                              _
                                              (λ evidence _.
                                                >>=-ensures Read
                                                  (group_of (
                                                    json_field "transition_group_id" event.payload))
                                                  _
                                                  (λ group _.
                                                    >>=-ensures Read
                                                      (raise_if
                                                        (not (
                                                          str_eq id (
                                                            transition_id_at rt event.v
                                                            event.unit_key (channel_text c) from to
                                                            trigger episode evidence)))
                                                        id_mismatch)
                                                      _
                                                      (λ _ same.
                                                        >>=-ensures Read
                                                          (event_instant rt now record_in_future
                                                            event.ts)
                                                          _
                                                          (λ instant stamped. λ r last.
                                                            subst Read (ok_inj last) (record {
                                                            legal =
                                                            not-false _ (raise_if-eq-ok _ _ edge);
                                                            unit = refl;
                                                            phase =
                                                            named-text parse_phase phase_text
                                                            parse_phase_sound phase_invalid _ phase
                                                            phase_read;
                                                            id =
                                                            named-text digest_text (λ d. d)
                                                            digest_text-same id_invalid _ id
                                                            id_read;
                                                            from_state =
                                                            named-text parse_state state_text
                                                            parse_state_sound state_invalid _ from
                                                            from_read;
                                                            to_state =
                                                            named-text parse_state state_text
                                                            parse_state_sound state_invalid _ to
                                                            to_read;
                                                            hashed =
                                                            (str_eq_iff id _).0
                                                            (not-false _ (raise_if-eq-ok _ _ same));
                                                            stamped =
                                                            (event_instant-text rt now
                                                            record_in_future event.ts instant
                                                            stamped).0;
                                                            past =
                                                            (event_instant-text rt now
                                                            record_in_future event.ts instant
                                                            stamped).1;
                                                            place = refl;
                                                            }))))))))))))))

    pub journal_record-IsReadFrom :
        (r : JournalRecord)
        → journal_record rt now event index ≡ ok (some r)
        → IsReadFrom rt now event index r
    unfolding journal_record
    journal_record-IsReadFrom r h =
        elim (Bool-cases (has_any journal_marker_fields event.payload)) [
          | inl marked ↦
              let (s, read, last) =
                >>=-eq-ok (state_record rt now event index) _ (rw marked at h) in
              subst (IsReadFrom rt now event index) (some_inj (ok_inj last))
                (state_record-IsReadFrom s read)
          | inr plain ↦ absurd (cc (rw plain at h))
        ]
