-- ===== src/Journal/Transactions/Protocols.antt =====
-- The journals that `_journal_transactions` accepts, said without its code.
use vocab_system.Base.{
  ◌≡◌, ◌≢◌, ◌⊎◌, refl, sym, ◌∙◌, subst, String, true, Option, none, some, List, [], ◌∷◌,
  if◌then◌else◌, ok, err, ok_inj, ◌>>=◌, Bool-cases, ◌↔◌, inl, inr,
}
use vocab_system.Base.Text.{str_eq}
use vocab_system.Journal.Records.{
  JournalRecord, Phase, prepare, commit, abort, phase_eq, identity_eq, identity_eq-same,
  identity_eq_refl,
}
use vocab_system.Journal.Transactions.{
  History, Transaction, Transactions, lookup, set_terminal, close, open_with, advance,
  journal_transactions,
}
use vocab_system.Journal.Transactions.Independence.{
  replay, Accepted, Accepted-cases, journal_transactions-replay, journal_transactions-Accepted,
}

-- The records of an id, in the order of the journal.
pub records_of : String → List JournalRecord → List JournalRecord
records_of k [] = []
records_of k (r ∷ rs) =
    let rest = records_of k rs in if str_eq r.transition_id k then r ∷ rest else rest

-- What an id may have in a journal, and its transaction: nothing; a PREPARE; or a PREPARE and one
-- COMMIT or ABORT of the same identity.
pub data IsProtocol : List JournalRecord → Option Transaction → Type 0 where
  absent : IsProtocol [] none
  opened :
      (p : JournalRecord)
      → p.phase ≡ prepare
      → IsProtocol (p ∷ []) (some (record { prepared = p; terminal = none }))
  closed :
      (p r : JournalRecord)
      → p.phase ≡ prepare
      → r.phase ≢ prepare
      → p.identity ≡ r.identity
      → IsProtocol (p ∷ r ∷ []) (some (record { prepared = p; terminal = some r }))

-- The records of one id, one after the other.
run : Option Transaction → List JournalRecord → History (Option Transaction)
run t [] = ok t
run t (r ∷ rs) = advance r.phase t r >>= (λ u. run (some u) rs)

bind_pointwise :
    {A B : Type 0} (h : History A) (f g : A → History B)
    → ((a : A) → f a ≡ g a)
    → (h >>= f) ≡ (h >>= g)
bind_pointwise (ok a) f g same = same a
bind_pointwise (err e) f g same = refl

replay-run :
    (k : String) (t : Option Transaction) (rs : List JournalRecord)
    → replay k t rs ≡ run t (records_of k rs)
unfolding replay records_of run
replay-run k t [] = refl
replay-run k t (r ∷ rs) = elim (Bool-cases (str_eq r.transition_id k)) [
  | inl here ↦ rw here (bind_pointwise (advance r.phase t r) _ _ (λ u. replay-run k (some u) rs))
  | inr there ↦ rw there (replay-run k t rs)
]

Phase-cases : (f : Phase) → (f ≡ prepare) ⊎ (f ≢ prepare)
Phase-cases prepare = inl refl
Phase-cases commit = inr λ e. cc
Phase-cases abort = inr λ e. cc

advance-prepare :
    (f : Phase) (t : Option Transaction) (r : JournalRecord)
    → f ≡ prepare
    → advance f t r ≡ open_with t r
unfolding advance
advance-prepare prepare t r h = refl
advance-prepare commit t r h = absurd (cc)
advance-prepare abort t r h = absurd (cc)

advance-close :
    (f : Phase) (t : Option Transaction) (r : JournalRecord)
    → f ≢ prepare
    → advance f t r ≡ close t r
unfolding advance
advance-close prepare t r h = absurd (h refl)
advance-close commit t r h = refl
advance-close abort t r h = refl

-- A first record opens, and only a PREPARE does.
run-first :
    (p : JournalRecord) (rs : List JournalRecord) (o : Option Transaction)
    → run none (p ∷ rs) ≡ ok o
    → (p.phase ≡ prepare) × (run (some (record { prepared = p; terminal = none })) rs ≡ ok o)
unfolding run open_with close
run-first p rs o h = elim (Phase-cases p.phase) [
  | inl e ↦ (e, rw (advance-prepare p.phase none p e) at h)
  | inr n ↦ absurd (cc (rw (advance-close p.phase none p n) at h))
]

-- The next record closes, with the same identity.
run-second :
    (p r : JournalRecord) (rs : List JournalRecord) (o : Option Transaction)
    → run (some (record { prepared = p; terminal = none })) (r ∷ rs) ≡ ok o
    → (r.phase ≢ prepare)
      × (identity_eq p.identity r.identity ≡ true)
      × (run (some (record { prepared = p; terminal = some r })) rs ≡ ok o)
unfolding run open_with close set_terminal
run-second p r rs o h = elim (Phase-cases r.phase) [
  | inl e ↦ absurd (cc (rw (advance-prepare r.phase _ r e) at h))
  | inr n ↦ elim (Bool-cases (identity_eq p.identity r.identity)) [
    | inl same ↦ (n, same, rw (advance-close r.phase _ r n, same) at h)
    | inr other ↦ absurd (cc (rw (advance-close r.phase _ r n, other) at h))
  ]
]

-- A closed transaction takes no record.
run-third :
    (p r q : JournalRecord) (rs : List JournalRecord) (o : Option Transaction)
    → run (some (record { prepared = p; terminal = some r })) (q ∷ rs) ≡ ok o
    → ⊥
unfolding run open_with close set_terminal
run-third p r q rs o h = elim (Phase-cases q.phase) [
  | inl e ↦ cc (rw (advance-prepare q.phase _ q e) at h)
  | inr n ↦ elim (Bool-cases (identity_eq p.identity q.identity)) [
    | inr other ↦ cc (rw (advance-close q.phase _ q n, other) at h)
    | inl same ↦ elim (Bool-cases (phase_eq r.phase q.phase)) [
      | inl a ↦ cc (rw (advance-close q.phase _ q n, same, a) at h)
      | inr a ↦ cc (rw (advance-close q.phase _ q n, same, a) at h)
    ]
  ]
]

run-IsProtocol :
    (l : List JournalRecord) (o : Option Transaction) → run none l ≡ ok o → IsProtocol l o
unfolding run
run-IsProtocol [] o h = subst (IsProtocol []) (ok_inj h) absent
run-IsProtocol (p ∷ []) o h =
    let (first, rest) = run-first p [] o h in
    subst (IsProtocol (p ∷ [])) (ok_inj rest) (opened p first)
run-IsProtocol (p ∷ r ∷ []) o h =
    let (first, rest) = run-first p (r ∷ []) o h in
    let (second, same, last) = run-second p r [] o rest in
    subst (IsProtocol (p ∷ r ∷ [])) (ok_inj last)
      (closed p r first second (identity_eq-same p.identity r.identity same))
run-IsProtocol (p ∷ r ∷ q ∷ l) o h =
    let (first, rest) = run-first p (r ∷ q ∷ l) o h in
    let (second, same, more) = run-second p r (q ∷ l) o rest in absurd (run-third p r q l o more)

IsProtocol-run :
    (l : List JournalRecord) (o : Option Transaction) → IsProtocol l o → run none l ≡ ok o
unfolding run open_with close set_terminal
IsProtocol-run _ _ absent = refl
IsProtocol-run _ _ (opened p first) = rw (advance-prepare p.phase none p first) refl
IsProtocol-run _ _ (closed p r first second same) =
    rw
      (
        advance-prepare p.phase none p first,
        advance-close r.phase (some (record { prepared = p; terminal = none })) r second,
        identity_eq_refl p.identity r.identity same,
      )
      refl

-- In an accepted journal every id has no record, a PREPARE, or a PREPARE and then one COMMIT or
-- ABORT of the same identity, and its transaction is made of exactly these records.
pub journal_transactions-IsProtocol :
    (k : String) (rs : List JournalRecord) (m : Transactions)
    → journal_transactions rs ≡ ok m
    → IsProtocol (records_of k rs) (lookup k m)
journal_transactions-IsProtocol k rs m h =
    run-IsProtocol (records_of k rs) (lookup k m)
      (sym (replay-run k none rs) ∙ journal_transactions-replay k rs m h)

-- A journal is accepted exactly when every id has no record, a PREPARE, or a PREPARE and then one
-- COMMIT or ABORT of the same identity.
pub journal_transactions-accepts :
    (rs : List JournalRecord)
    → ((m : Transactions) × (journal_transactions rs ≡ ok m))
      ↔ ((k : String) → (o : Option Transaction) × IsProtocol (records_of k rs) o)
journal_transactions-accepts rs = (
  λ (m, e) k. (lookup k m, journal_transactions-IsProtocol k rs m e),
  λ protocols. Accepted-cases (journal_transactions rs) (
      (journal_transactions-Accepted rs).1 λ k.
        let (o, p) = protocols k in
        subst Accepted (sym (replay-run k none rs ∙ IsProtocol-run (records_of k rs) o p)) tt),
)
