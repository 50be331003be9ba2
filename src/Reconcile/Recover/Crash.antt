-- ===== src/Reconcile/Recover/Crash.antt =====
-- A transition that was prepared and not closed is found and reconstructed by the next run.
use vocab_system.Base.{
  ok_inj, ℕ, suc, ◌+◌, ◌≡◌, refl, sym, ap, ◌∙◌, String, true, ◌&&◌, Option, none, some, List, [],
  ◌∷◌, ◌++◌, length, ok, >>=-eq-ok, ◌>>=◌, arith, Bool-cases, inl, inr,
}
use vocab_system.Base.Text.{str_eq, str_eq_iff}
use vocab_system.Models.{Event, PlannedTransition}
use vocab_system.Reconcile.Runtime.{Runtime}
use vocab_system.Journal.Records.{JournalRecord, Phase, prepare}
use vocab_system.Journal.Transactions.{
  Transaction, Transactions, add_record, add_records, insert, lookup, advance, open_with,
  journal_transactions,
}
use vocab_system.Journal.Transactions.Independence.{lookup-insert}
use vocab_system.Journal.Reading.{group_text, journal_record, journal_records, cons_record}
use vocab_system.Journal.Reading.Written.{
  written_event, record_of, group_option, IsStamp, journal_record-written_event,
}
use vocab_system.Reconcile.Materialize.Validate.{freeze_validated_plan}
use vocab_system.Reconcile.Materialize.Validate.Frozen.{IsFrozen, IsFrozen-freeze_validated_plan}
use vocab_system.Reconcile.Recover.{prepared_plan, plan_from_prepare}

group_text-option : (g : String) → group_text (group_option g) ≡ g
group_text-option g = elim (Bool-cases (str_eq g "")) [
  | inl empty ↦ rw empty (sym ((str_eq_iff g "").0 empty))
  | inr filled ↦ rw filled refl
]

prepared_plan-record_of :
    (rt : Runtime) (unit_key : String) (p : PlannedTransition) (phase : Phase) (instant index : ℕ)
    → prepared_plan rt unit_key (record_of rt unit_key p phase instant index) ≡ p
prepared_plan-record_of rt unit_key p phase instant index =
    ap (λ g. record p { transition_group_id = g }) (group_text-option p.transition_group_id)

add_zero : (n : ℕ) → n + 0 ≡ n
add_zero n = omega arith

shifted : (i n : ℕ) → i + 1 + n ≡ i + suc n
shifted i n = omega arith

append-cons_record :
    (o : Option JournalRecord) (l m : List JournalRecord)
    → cons_record o l ++ m ≡ cons_record o (l ++ m)
append-cons_record none l m = refl
append-cons_record (some r) l m = refl

module _ (rt : Runtime) (now : ℕ) (unit_key : String) (e : Event) (r : JournalRecord)
    (own : str_eq e.unit_key unit_key ≡ true) (state : str_eq e.event "STATE" ≡ true) where
  -- A record that is appended to the log is read behind the others.
  journal_records-append :
      (events : List Event) (index : ℕ) (rs : List JournalRecord)
      → journal_records rt now unit_key index events ≡ ok rs
      → journal_record rt now e (index + length events) ≡ ok (some r)
      → journal_records rt now unit_key index (events ++ (e ∷ [])) ≡ ok (rs ++ (r ∷ []))
  unfolding journal_records
  journal_records-append [] index rs h read =
      rw (own, state, ap (λ i. journal_record rt now e i) (sym (add_zero index)) ∙ read)
        (ap (λ l. ok (l ++ (r ∷ []))) (ok_inj h))
  journal_records-append (x ∷ events) index rs h read =
      let later =
        λ (l : List JournalRecord)
            (found : journal_records rt now unit_key (index + 1) events ≡ ok l).
          journal_records-append events (index + 1) l found
            (ap (λ i. journal_record rt now e i) (shifted index (length events)) ∙ read) in
      elim (Bool-cases (str_eq x.unit_key unit_key && str_eq x.event "STATE")) [
        | inr other ↦ rw other (later rs (rw other at h))
        | inl mine ↦
            let (o, here, rest) = >>=-eq-ok (journal_record rt now x index) _ (rw mine at h) in
            let (l, there, last) =
              >>=-eq-ok (journal_records rt now unit_key (index + 1) events) _ rest in
            rw (mine, here, later l there)
              (ap ok
                (sym (append-cons_record o l (r ∷ [])) ∙ ap (λ k. k ++ (r ∷ [])) (ok_inj last)))
      ]

abbrev open_transaction : JournalRecord → Transaction
open_transaction r = record { prepared = r; terminal = none }

-- The journal of a log with one more record.
add_records-append :
    (rs : List JournalRecord) (r : JournalRecord) (m m' : Transactions)
    → add_records m rs ≡ ok m'
    → add_records m (rs ++ (r ∷ [])) ≡ (add_record m' r >>= (λ m''. ok m''))
unfolding add_records
add_records-append [] r m m' h = ap (λ k. add_record k r >>= (λ x. ok x)) (ok_inj h)
add_records-append (x ∷ rs) r m m' h =
    let (n, here, rest) = >>=-eq-ok (add_record m x) _ h in
    rw here (add_records-append rs r n m' rest)

module _ (rt : Runtime) (now : ℕ) (unit_key ts day : String) (instant : ℕ)
    (s : IsStamp rt now ts instant) (p : PlannedTransition) (f : IsFrozen rt unit_key p) where
  plan_from_prepare-record_of :
      (phase : Phase) (index : ℕ)
      → plan_from_prepare rt unit_key (record_of rt unit_key p phase instant index) ≡ ok p
  unfolding plan_from_prepare
  plan_from_prepare-record_of phase index =
      ap (freeze_validated_plan rt unit_key)
        (prepared_plan-record_of rt unit_key p phase instant index)
      ∙ IsFrozen-freeze_validated_plan rt unit_key p f

  -- The record that a frozen plan writes, in any phase, is read back from its event with this
  -- phase, and the plan is reconstructed from the record as it was.
  pub plan_from_prepare-journal_record :
      (phase : Phase) (index : ℕ)
      → (r : JournalRecord) × (journal_record rt now (written_event unit_key ts day p phase) index
          ≡ ok (some r))
        × (r.phase ≡ phase)
        × (plan_from_prepare rt unit_key r ≡ ok p)
  plan_from_prepare-journal_record phase index = (
    record_of rt unit_key p phase instant index,
    journal_record-written_event rt now unit_key ts day instant index s p f phase,
    refl,
    plan_from_prepare-record_of phase index,
  )

  -- Where the log is read without an error and does not know the id of a frozen plan, a run that
  -- stops behind the PREPARE record of the plan leaves an open transaction under that id, and the
  -- next reading reconstructs the plan from it as it was.
  pub journal_transactions-prepared :
      (events : List Event) (rs : List JournalRecord) (m : Transactions)
      → journal_records rt now unit_key 0 events ≡ ok rs
      → journal_transactions rs ≡ ok m
      → lookup p.transition_id m ≡ none
      → (rs' : List JournalRecord) × (m' : Transactions) × (journal_records rt now unit_key 0
            (events ++ (written_event unit_key ts day p prepare ∷ []))
          ≡ ok rs')
        × (journal_transactions rs' ≡ ok m')
        × (t : Transaction) × (lookup p.transition_id m' ≡ some t)
        × (t.terminal ≡ none)
        × (plan_from_prepare rt unit_key t.prepared ≡ ok p)
  unfolding journal_transactions add_record advance open_with
  journal_transactions-prepared events rs m read journal fresh =
      let r = record_of rt unit_key p prepare instant (0 + length events) in
      let opened = open_transaction r in
      (
        rs ++ (r ∷ []),
        insert p.transition_id opened m,
        journal_records-append rt now unit_key (written_event unit_key ts day p prepare) r
            ((str_eq_iff unit_key unit_key).1 refl) refl events 0 rs read
            (journal_record-written_event rt now unit_key ts day instant (0 + length events) s p f
              prepare),
        add_records-append rs r [] m journal ∙ opened_by r refl refl,
        opened,
        lookup-insert p.transition_id p.transition_id opened m
            ∙ rw ((str_eq_iff p.transition_id p.transition_id).1 refl) refl,
        refl,
        plan_from_prepare-record_of prepare (0 + length events),
      )
    where
      opened_by :
          (r : JournalRecord)
          → r.phase ≡ prepare
          → r.transition_id ≡ p.transition_id
          → (add_record m r >>= (λ x. ok x))
            ≡ ok (insert p.transition_id (record { prepared = r; terminal = none }) m)
      opened_by r phase id = rw (phase, id, fresh) refl
