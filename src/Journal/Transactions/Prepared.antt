-- ===== src/Journal/Transactions/Prepared.antt =====
-- The write-ahead rule of the journal: a terminal record follows the PREPARE record of its id, and
-- keeps its identity.
use vocab_system.Base.{
  ◌≡◌, refl, sym, ap, ◌∙◌, subst, String, true, not, Option, none, some, List, [], ◌∷◌, ◌++◌, All,
  In, ok, err, >>=-eq-ok, Bool-cases, inl, inr,
}
use mathlib.Core.List.{append_assoc, append-nil}
use vocab_system.Base.Text.{str_eq, str_eq_iff}
use vocab_system.Journal.Records.{
  JournalRecord, Phase, prepare, commit, abort, phase_eq, identity_eq,
}
use vocab_system.Journal.Transactions.{
  History, Transaction, Transactions, lookup, insert, set_terminal, close, open_with, advance,
  add_record, add_records, journal_transactions,
}

-- A PREPARE record of the id stands in the log.
pub record IsOpened (log : List JournalRecord) (k : String) (p : JournalRecord) : Type 0 where
  pub written : In p log
  pub prepares : p.phase ≡ prepare
  pub id : p.transition_id ≡ k

-- The record stands in the log behind a PREPARE record of its id and identity.
pub record IsPrepared (log : List JournalRecord) (r : JournalRecord) : Type 0 where
  pub before : List JournalRecord
  pub after : List JournalRecord
  pub split : log ≡ before ++ (r ∷ after)
  pub prepared : JournalRecord
  pub opened : IsOpened before r.transition_id prepared
  pub same_identity : identity_eq prepared.identity r.identity ≡ true

pub In-append : (l m : List JournalRecord) (r : JournalRecord) → In r l → In r (l ++ m)
In-append [] m r h = absurd h
In-append (s ∷ l) m r (inl e) = inl e
In-append (s ∷ l) m r (inr h) = inr (In-append l m r h)

pub In-append_right : (l m : List JournalRecord) (r : JournalRecord) → In r m → In r (l ++ m)
In-append_right [] m r h = h
In-append_right (s ∷ l) m r h = inr (In-append_right l m r h)

-- What is known of a transaction after reading `log`.
abbrev pub TerminalPrepared : List JournalRecord → String → Option JournalRecord → Type 0
TerminalPrepared log k none = Unit
TerminalPrepared log k (some r) = IsPrepared log r

abbrev IsProper : List JournalRecord → String → Transaction → Type 0
IsProper log k t = IsOpened log k t.prepared × TerminalPrepared log k t.terminal

abbrev pub AllProper : List JournalRecord → Transactions → Type 0
AllProper log m = All (λ (k, t). IsProper log k t) m

abbrev EntryProper : List JournalRecord → String → Option Transaction → Type 0
EntryProper log k none = Unit
EntryProper log k (some t) = IsProper log k t

IsOpened-append :
    {log : List JournalRecord} {k : String} {p : JournalRecord} (more : List JournalRecord)
    → IsOpened log k p
    → IsOpened (log ++ more) k p
IsOpened-append {log} {p} more o = record {
  written = In-append log more p o.written;
  prepares = o.prepares;
  id = o.id;
}

IsPrepared-append :
    {log : List JournalRecord} {r : JournalRecord} (more : List JournalRecord)
    → IsPrepared log r
    → IsPrepared (log ++ more) r
IsPrepared-append {r} more h = record {
  before = h.before;
  after = h.after ++ more;
  split = ap (λ l. l ++ more) h.split ∙ append_assoc h.before (r ∷ h.after) more;
  prepared = h.prepared;
  opened = h.opened;
  same_identity = h.same_identity;
}

TerminalPrepared-append :
    (log : List JournalRecord) (k : String) (more : List JournalRecord) (o : Option JournalRecord)
    → TerminalPrepared log k o
    → TerminalPrepared (log ++ more) k o
TerminalPrepared-append log k more none h = tt
TerminalPrepared-append log k more (some r) h = IsPrepared-append more h

AllProper-append :
    (log more : List JournalRecord) (m : Transactions) → AllProper log m → AllProper (log ++ more) m
AllProper-append log more [] h = tt
AllProper-append log more ((k, t) ∷ m) h = (
  (IsOpened-append more h.0.0, TerminalPrepared-append log k more t.terminal h.0.1),
  AllProper-append log more m h.1,
)

lookup-Proper :
    (log : List JournalRecord) (k : String) (m : Transactions)
    → AllProper log m
    → EntryProper log k (lookup k m)
unfolding lookup
lookup-Proper log k [] h = tt
lookup-Proper log k ((j, t) ∷ m) h = elim (Bool-cases (str_eq j k)) [
  | inl same ↦ rw same (subst (λ i. IsProper log i t) ((str_eq_iff j k).0 same) h.0)
  | inr other ↦ rw other (lookup-Proper log k m h.1)
]

insert-Proper :
    (log : List JournalRecord) (k : String) (t : Transaction) (m : Transactions)
    → IsProper log k t
    → AllProper log m
    → AllProper log (insert k t m)
unfolding insert
insert-Proper log k t [] ht h = (ht, tt)
insert-Proper log k t ((j, u) ∷ m) ht h = elim (Bool-cases (str_eq j k)) [
  | inl same ↦ rw same (subst (λ i. IsProper log i t) (sym ((str_eq_iff j k).0 same)) ht, h.1)
  | inr other ↦ rw other (h.0, insert-Proper log k t m ht h.1)
]

-- What a record does to the transaction of its id, which was proper before it.
module _ (log : List JournalRecord) (r : JournalRecord) where
  abbrev OkProper : History Transaction → Type 0
  OkProper (ok t) = IsProper (log ++ (r ∷ [])) r.transition_id t
  OkProper (err e) = Unit

  set_terminal-Proper :
      (t : Transaction) (o : Option JournalRecord)
      → IsOpened log r.transition_id t.prepared
      → identity_eq t.prepared.identity r.identity ≡ true
      → OkProper (set_terminal t o r)
  unfolding set_terminal
  set_terminal-Proper t none opened same = (
    IsOpened-append (r ∷ []) opened,
    record {
      before = log;
      after = [];
      split = refl;
      prepared = t.prepared;
      opened = opened;
      same_identity = same;
    },
  )
  set_terminal-Proper t (some q) opened same = elim (Bool-cases (phase_eq q.phase r.phase)) [
    | inl e ↦ rw e tt
    | inr e ↦ rw e tt
  ]

  close-Proper : (o : Option Transaction) → EntryProper log r.transition_id o → OkProper (close o r)
  unfolding close
  close-Proper none h = tt
  close-Proper (some t) h = elim (Bool-cases (identity_eq t.prepared.identity r.identity)) [
    | inl same ↦ rw (same, not) (set_terminal-Proper t t.terminal h.0 same)
    | inr changed ↦ rw (changed, not) tt
  ]

  open_with-Proper : (o : Option Transaction) → r.phase ≡ prepare → OkProper (open_with o r)
  unfolding open_with
  open_with-Proper none e =
      (record { written = In-append_right log (r ∷ []) r (inl refl); prepares = e; id = refl }, tt)
  open_with-Proper (some t) e = tt

  advance-Proper :
      (p : Phase) (o : Option Transaction)
      → r.phase ≡ p
      → EntryProper log r.transition_id o
      → OkProper (advance p o r)
  unfolding advance
  advance-Proper prepare o e h = open_with-Proper o e
  advance-Proper commit o e h = close-Proper o h
  advance-Proper abort o e h = close-Proper o h

abbrev OkAll : List JournalRecord → History Transactions → Type 0
OkAll log (ok m) = AllProper log m
OkAll log (err x) = Unit

add_records-Proper :
    (log rs : List JournalRecord) (m final : Transactions)
    → AllProper log m
    → add_records m rs ≡ ok final
    → AllProper (log ++ rs) final
unfolding add_records add_record
add_records-Proper log [] m final h e =
    subst (λ l. AllProper l final) (sym (append-nil log)) (subst (OkAll log) e h)
add_records-Proper log (r ∷ rs) m final h e =
    let (m', step, rest) = >>=-eq-ok (add_record m r) _ e in
    let (t, moved, made) = >>=-eq-ok (advance r.phase (lookup r.transition_id m) r) _ step in
    let proper = subst (OkProper log r) moved (
      advance-Proper log r r.phase (lookup r.transition_id m) refl
        (lookup-Proper log r.transition_id m h)) in
    let next = subst (OkAll (log ++ (r ∷ []))) made (
      insert-Proper (log ++ (r ∷ [])) r.transition_id t m proper
        (AllProper-append log (r ∷ []) m h)) in
    subst (λ l. AllProper l final) (append_assoc log (r ∷ []) rs)
      (add_records-Proper (log ++ (r ∷ [])) rs m' final next rest)

-- In an accepted journal every transaction was opened by a PREPARE record of its id, and its
-- COMMIT or ABORT record, if it has one, stands behind a PREPARE record of the same id and
-- identity.
pub journal_transactions-AllProper :
    (rs : List JournalRecord) (m : Transactions) → journal_transactions rs ≡ ok m → AllProper rs m
unfolding journal_transactions
journal_transactions-AllProper rs m h = add_records-Proper [] rs [] m tt h
