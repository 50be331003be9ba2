-- ===== src/Journal/History/Explained.antt =====
-- Persisted states are explained by the events of the log.
use vocab_system.Base.{
  ok_inj, not-false, ℕ, ◌+◌, ◌≡◌, refl, subst, String, not, Option, none, some, List, [], ◌∷◌, map,
  All, In, ok, >>=-ensures, Bool-cases, inl, inr,
}
use vocab_system.Base.Text.{str_eq, str_eq_iff}
use vocab_system.Contracts.Channels.{Channel}
use vocab_system.Contracts.States.{State}
use vocab_system.Models.{Event, LifecycleAssessment}
use vocab_system.Reconcile.Runtime.{Runtime}
use vocab_system.Journal.Records.{JournalRecord}
use vocab_system.Journal.Provenance.{Episode, state_episode_provenance}
use vocab_system.Journal.Provenance.Chains.{
  IsLegal, IsExplained, state_episode_provenance-IsExplained,
}
use vocab_system.Journal.Reading.{journal_record, cons_record}
use vocab_system.Journal.Reading.Legal.{IsReadFrom, journal_record-IsReadFrom}
use vocab_system.Journal.History.{
  lifecycle_assessment, Collected, collect, channel_names, load_event_history,
}

module _ (rt : Runtime) (now : ℕ) (unit_key : String) (log : List Event) where
  -- A record that was read from a STATE event of the Unit in the log.
  pub record IsLogged (r : JournalRecord) : Type 0 where
    pub event : Event
    pub index : ℕ
    pub logged : In event log
    pub unit : event.unit_key ≡ unit_key
    pub state : event.event ≡ "STATE"
    pub read : IsReadFrom rt now event index r

  cons_record-IsLogged :
      (e : Event) (index : ℕ) (o : Option JournalRecord) (l : List JournalRecord)
      → In e log
      → e.unit_key ≡ unit_key
      → e.event ≡ "STATE"
      → journal_record rt now e index ≡ ok o
      → All IsLogged l
      → All IsLogged (cons_record o l)
  cons_record-IsLogged e index none l m u s h rest = rest
  cons_record-IsLogged e index (some r) l m u s h rest = (
    record {
      event = e;
      index = index;
      logged = m;
      unit = u;
      state = s;
      read = journal_record-IsReadFrom rt now e index r h;
    },
    rest,
  )

  collect-IsLogged :
      (active : List String) (index : ℕ) (events : List Event)
      → ((e : Event) → In e events → In e log)
      → (c : Collected rt now) → collect rt now unit_key active index events ≡ ok c
      → All IsLogged (c.1)
  unfolding collect
  collect-IsLogged active index [] inside c h = subst (λ k. All IsLogged (k.1)) (ok_inj h) tt
  collect-IsLogged active index (e ∷ events) inside c h =
      let rest = collect-IsLogged active (index + 1) events (λ x m. inside x (inr m)) in
      elim (Bool-cases (not (str_eq e.unit_key unit_key))) [
        | inl foreign ↦ rest c (rw foreign at h)
        | inr own ↦ elim (Bool-cases (str_eq e.event "JUDGE")) [
          | inl judge ↦
              >>=-ensures (λ k. All IsLogged (k.1)) (lifecycle_assessment rt now e) _
                (λ t _.
                  >>=-ensures (λ k. All IsLogged (k.1))
                    (collect rt now unit_key active (index + 1) events) _
                    (λ k found d last.
                      subst (λ x. All IsLogged (x.1)) (ok_inj last) (rest k found)))
                c (rw (own, judge) at h)
          | inr other ↦ elim (Bool-cases (str_eq e.event "STATE")) [
            | inl state ↦
                >>=-ensures (λ k. All IsLogged (k.1)) (journal_record rt now e index) _
                  (λ r read.
                    >>=-ensures (λ k. All IsLogged (k.1))
                      (collect rt now unit_key active (index + 1) events) _
                      (λ k found d last.
                        subst (λ x. All IsLogged (x.1)) (ok_inj last)
                          (cons_record-IsLogged e index r (k.1) (inside e (inl refl))
                            ((str_eq_iff e.unit_key unit_key).0 (not-false _ own))
                            ((str_eq_iff e.event "STATE").0 state) read (rest k found))))
                  c (rw (own, other, state) at h)
            | inr plain ↦ rest c (rw (own, other, plain) at h)
          ]
        ]
      ]

  IsLegal-logged : (l : List JournalRecord) → All IsLogged l → All IsLegal l
  IsLegal-logged [] h = tt
  IsLegal-logged (r ∷ l) (h, hs) = (h.read.legal, IsLegal-logged l hs)

  -- What an accepted history says.
  pub record IsHistory (active : List (Channel × State)) (episodes : List (Channel × Episode))
      : Type 0 where
    pub records : List JournalRecord
    pub logged : All IsLogged records
    pub states : map (λ (c, e). (c, e.state)) episodes ≡ active
    pub explained : All (λ (c, e). IsExplained rt unit_key records c e) episodes

-- An accepted history explains every persisted state by events of the log: each state is the end
-- of a chain of COMMIT records, and every record was read from a STATE event of the Unit whose
-- payload names the phase, the id and the states of the record.
pub load_event_history-IsHistory :
    (rt : Runtime) (now : ℕ) (unit_key : String) (active : List (Channel × State))
    (log : List Event) (assessments : List (Channel × List LifecycleAssessment))
    (episodes : List (Channel × Episode))
    → load_event_history rt now unit_key active log ≡ ok (assessments, episodes)
    → IsHistory rt now unit_key log active episodes
unfolding load_event_history
load_event_history-IsHistory rt now unit_key active log assessments episodes =
    let Good = λ (p : List (Channel × List LifecycleAssessment) × List (Channel × Episode)).
      IsHistory rt now unit_key log active (p.1) in
    >>=-ensures Good (collect rt now unit_key (channel_names rt now active) 0 log) _
      (λ c collected.
        >>=-ensures Good (state_episode_provenance rt unit_key active (c.1)) _
          (λ es explained p last.
            let logged =
              collect-IsLogged rt now unit_key log (channel_names rt now active) 0 log (λ e m. m) c
                collected in
            let (states, chains) =
              state_episode_provenance-IsExplained rt unit_key active (c.1) es
                (IsLegal-logged rt now unit_key log (c.1) logged) explained in
            subst Good (ok_inj last)
              (record { records = c.1; logged = logged; states = states; explained = chains })))
      (assessments, episodes)
