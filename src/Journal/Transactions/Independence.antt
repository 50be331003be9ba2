-- ===== src/Journal/Transactions/Independence.antt =====
-- The transactions of different ids do not interfere: the journal is read as if each id had a
-- journal of its own.
use vocab_system.Base.{
  ok_inj, ◌≡◌, refl, sym, ap, ◌∙◌, subst, String, Bool, true, false, Option, none, some, List, [],
  ◌∷◌, if◌then◌else◌, ok, err, ◌>>=◌, >>=-eq-ok, Bool-cases, ◌↔◌, inl, inr, arith,
}
use vocab_system.Base.Text.{str_eq, str_eq_iff}
use vocab_system.Journal.Records.{JournalRecord}
use vocab_system.Journal.Transactions.{
  History, Transaction, Transactions, lookup, insert, advance, add_record, add_records,
  journal_transactions,
}

pub lookup-insert :
    (j k : String) (t : Transaction) (m : Transactions)
    → lookup j (insert k t m) ≡ (if str_eq k j then some t else lookup j m)
unfolding lookup insert
lookup-insert j k t [] = refl
lookup-insert j k t ((i, u) ∷ m) =
    ground (arith, str_eq_iff i k, str_eq_iff i j, str_eq_iff k j, lookup-insert j k t m)

-- The history of one id, read alone: other records are passed over.
unfoldable pub replay :
    String → Option Transaction → List JournalRecord → History (Option Transaction)
replay k t [] = ok t
replay k t (r ∷ rs) =
    let here = advance r.phase t r >>= (λ u. replay k (some u) rs) in
    let there = replay k t rs in if str_eq r.transition_id k then here else there

if_true : {A : Type 0} {b : Bool} (x y : A) → b ≡ true → (if b then x else y) ≡ x
if_true x y e = rw e

if_false : {A : Type 0} {b : Bool} (x y : A) → b ≡ false → (if b then x else y) ≡ y
if_false x y e = rw e

replay-here :
    (k : String) (r : JournalRecord) (rs : List JournalRecord) (o : Option Transaction)
    {t : Transaction}
    → str_eq r.transition_id k ≡ true
    → advance r.phase o r ≡ ok t
    → replay k o (r ∷ rs) ≡ replay k (some t) rs
unfolding replay
replay-here k r rs o here moved =
    if_true _ _ here ∙ ap (λ u. u >>= (λ v. replay k (some v) rs)) moved

replay-there :
    (k : String) (r : JournalRecord) (rs : List JournalRecord) (o : Option Transaction)
    → str_eq r.transition_id k ≡ false
    → replay k o (r ∷ rs) ≡ replay k o rs
unfolding replay
replay-there k r rs o there = if_false _ _ there

replay_self :
    (r : JournalRecord) (rs : List JournalRecord) (o : Option Transaction)
    → str_eq r.transition_id r.transition_id ≡ true
    → replay r.transition_id o (r ∷ rs)
      ≡ (advance r.phase o r >>= (λ u. replay r.transition_id (some u) rs))
unfolding replay
replay_self r rs o self = if_true _ _ self

-- What a round of the journal is for each id.
replay-step :
    (j : String) (r : JournalRecord) (rs : List JournalRecord) (m : Transactions) (t : Transaction)
    → advance r.phase (lookup r.transition_id m) r ≡ ok t
    → replay j (lookup j m) (r ∷ rs) ≡ replay j (lookup j (insert r.transition_id t m)) rs
replay-step j r rs m t moved =
    let looked = lookup-insert j r.transition_id t m in
    elim (Bool-cases (str_eq r.transition_id j)) [
      | inl here ↦
          let same = (str_eq_iff r.transition_id j).0 here in
          replay-here j r rs (lookup j m) here
            (ap (λ i. advance r.phase (lookup i m) r) (sym same) ∙ moved)
          ∙ ap (λ o. replay j o rs) (sym (looked ∙ if_true _ _ here))
      | inr there ↦
          replay-there j r rs (lookup j m) there
          ∙ ap (λ o. replay j o rs) (sym (looked ∙ if_false _ _ there))
    ]

add_records-replay :
    (k : String) (rs : List JournalRecord) (m final : Transactions)
    → add_records m rs ≡ ok final
    → replay k (lookup k m) rs ≡ ok (lookup k final)
unfolding add_records add_record replay
add_records-replay k [] m final h = ground arith
add_records-replay k (r ∷ rs) m final h =
    let (m', step, rest) = >>=-eq-ok (add_record m r) _ h in
    let (t, moved, made) = >>=-eq-ok (advance r.phase (lookup r.transition_id m) r) _ step in
    replay-step k r rs m t moved
    ∙ ap (λ n. replay k (lookup k n) rs) (ok_inj made)
    ∙ add_records-replay k rs m' final rest

-- After an accepted journal, the transaction under an id is the one that the records of this id
-- alone give.
pub journal_transactions-replay :
    (k : String) (rs : List JournalRecord) (m : Transactions)
    → journal_transactions rs ≡ ok m
    → replay k none rs ≡ ok (lookup k m)
unfolding journal_transactions lookup
journal_transactions-replay k rs m h = add_records-replay k rs [] m h

abbrev pub Accepted : {A : Type 0} → History A → Type 0
Accepted (ok a) = Unit
Accepted (err e) = ⊥

pub Accepted-cases : {A : Type 0} (h : History A) → Accepted h → (a : A) × (h ≡ ok a)
Accepted-cases (ok a) x = (a, refl)
Accepted-cases (err e) x = absurd x

Accepted-bind : {A B : Type 0} (h : History A) (f : A → History B) → Accepted (h >>= f) → Accepted h
Accepted-bind (ok a) f x = tt
Accepted-bind (err e) f x = x

add_records-Accepted :
    (rs : List JournalRecord) (m : Transactions)
    → ((k : String) → Accepted (replay k (lookup k m) rs))
    → Accepted (add_records m rs)
unfolding add_records add_record
add_records-Accepted [] m h = tt
add_records-Accepted (r ∷ rs) m h =
    let k = r.transition_id in
    let self = (str_eq_iff k k).1 refl in
    let moves =
      Accepted-bind (advance r.phase (lookup k m) r) (λ u. replay k (some u) rs)
        (subst Accepted (replay_self r rs (lookup k m) self) (h k)) in
    let (t, moved) = Accepted-cases (advance r.phase (lookup k m) r) moves in
    rw moved (
      add_records-Accepted rs (insert k t m)
        λ j. subst Accepted (replay-step j r rs m t moved) (h j))

-- A journal is accepted exactly when the records of every id, read alone, are.
pub journal_transactions-Accepted :
    (rs : List JournalRecord)
    → Accepted (journal_transactions rs) ↔ ((k : String) → Accepted (replay k none rs))
unfolding journal_transactions lookup
journal_transactions-Accepted rs = (
  λ a k.
      let (m, e) = Accepted-cases (add_records [] rs) a in
      subst Accepted (sym (add_records-replay k rs [] m e)) tt,
  λ h. add_records-Accepted rs [] h,
)
