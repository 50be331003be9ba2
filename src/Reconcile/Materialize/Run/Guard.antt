-- ===== src/Reconcile/Materialize/Run/Guard.antt =====
-- What a run of `_materialize_decision` may write.
use vocab_system.Base.{
  Result-cases, ap, ◌∙◌, subst, ok_inj, >>=-eq-ok, String, some, if◌then◌else◌, ◌≡◌, refl, sym, inl,
  inr, Bool, true, List, [], ◌∷◌, any, In, Bool-cases, ok, err,
}
use vocab_system.Base.Int.{ℤ}
use vocab_system.Models.{UnitProgress, PlannedTransition, ReconcileDecision}
use vocab_system.Base.Text.{str_eq, str_eq_iff}
use vocab_system.Journal.Records.{JournalRecord}
use vocab_system.Journal.Transactions.{
  Transaction, Transactions, lookup, advance, add_record, add_records, journal_transactions,
}
use vocab_system.Journal.Transactions.Independence.{lookup-insert}
use vocab_system.Reconcile.Materialize.Validate.Accepted.{
  validate_materialization_decision-IsAccepted,
}
use vocab_system.Reconcile.Runtime.{Runtime}
use vocab_system.Reconcile.Materialize.Effects.{Port, Failure, id_reused}
use vocab_system.Reconcile.Materialize.Validate.{validate_materialization_decision}
use vocab_system.Reconcile.Materialize.Run.{is_known, is_reused, materialize_decision}

any-In :
    (f : PlannedTransition → Bool) (p : PlannedTransition) (l : List PlannedTransition)
    → In p l
    → f p ≡ true
    → any f l ≡ true
any-In f p [] m h = absurd m
any-In f p (q ∷ l) (inl e) h = rw (sym e, h) refl
any-In f p (q ∷ l) (inr m) h = elim (Bool-cases (f q)) [
  | inl here ↦ rw here refl
  | inr other ↦ rw other (any-In f p l m h)
]

module _ (k : String) where
  -- Once an id has a transaction, it keeps one.
  add_records-known :
      (rs : List JournalRecord) (m final : Transactions)
      → add_records m rs ≡ ok final
      → is_known (lookup k m) ≡ true
      → is_known (lookup k final) ≡ true
  unfolding add_records add_record
  add_records-known [] m final h known = subst (λ n. is_known (lookup k n) ≡ true) (ok_inj h) known
  add_records-known (r ∷ rs) m final h known =
      let (m', step, rest) = >>=-eq-ok (add_record m r) _ h in
      let (t, _, made) = >>=-eq-ok (advance r.phase (lookup r.transition_id m) r) _ step in
      add_records-known rs m' final rest (
        subst (λ n. is_known (lookup k n) ≡ true) (ok_inj made)
          (ap is_known (lookup-insert k r.transition_id t m) ∙ kept r.transition_id t m known))
    where
      kept :
          (i : String) (t : Transaction) (m : Transactions)
          → is_known (lookup k m) ≡ true
          → is_known (if str_eq i k then some t else lookup k m) ≡ true
      kept i t m known = elim (Bool-cases (str_eq i k)) [
        | inl same ↦ rw same refl
        | inr other ↦ rw other known
      ]

  -- A record of the id that is read gives it one.
  add_records-reads :
      (rs : List JournalRecord) (m final : Transactions) (r : JournalRecord)
      → add_records m rs ≡ ok final
      → In r rs
      → r.transition_id ≡ k
      → is_known (lookup k final) ≡ true
  unfolding add_records add_record
  add_records-reads [] m final r h here id = absurd here
  add_records-reads (q ∷ rs) m final r h (inr later) id =
      let (m', _, rest) = >>=-eq-ok (add_record m q) _ h in
      add_records-reads rs m' final r rest later id
  add_records-reads (q ∷ rs) m final r h (inl here) id =
      let (m', step, rest) = >>=-eq-ok (add_record m q) _ h in
      let (t, _, made) = >>=-eq-ok (advance q.phase (lookup q.transition_id m) q) _ step in
      let same = (str_eq_iff q.transition_id k).1 (ap (λ x. x.transition_id) (sym here) ∙ id) in
      add_records-known rs m' final rest (
        subst (λ n. is_known (lookup k n) ≡ true) (ok_inj made)
          (ap is_known (lookup-insert k q.transition_id t m) ∙ rw same refl))

-- No transition is prepared a second time: where an accepted journal has a record, in any phase,
-- of the id of one of the plans, the decision is refused, and nothing is written or called.
pub materialize_decision-fresh :
    {W : Type 0} (rt : Runtime) (port : Port W) (note : ℤ) (progress : UnitProgress)
    (decision : ReconcileDecision) (rs : List JournalRecord) (transactions : Transactions)
    (r : JournalRecord) (p : PlannedTransition) (w : W)
    → journal_transactions rs ≡ ok transactions
    → In r rs
    → In p decision.transitions
    → r.transition_id ≡ p.transition_id
    → (e : Failure) × (materialize_decision rt port note progress decision transactions w
        ≡ (err e, w))
unfolding materialize_decision journal_transactions
materialize_decision-fresh rt port note progress decision rs transactions r p w journal read m
      same =
    elim (Result-cases (validate_materialization_decision rt progress decision)) [
      | inl (e, invalid) ↦ (e, rw invalid refl)
      | inr (plans, valid) ↦
          let accepted =
            validate_materialization_decision-IsAccepted rt progress decision plans valid in
          let known = add_records-reads p.transition_id rs [] transactions r journal read same in
          let reused =
            any-In (is_reused transactions) p plans (subst (In p) (sym accepted.same) m)
              (unfold is_reused in known) in
          (id_reused, rw (valid, reused) refl)
    ]
