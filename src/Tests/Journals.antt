-- ===== src/Tests/Journals.antt =====
-- A journal of one committed and one open transition, read on its own and by the theorems.
use vocab_system.Base.{ℕ, ◌≡◌, refl, ◌↔◌, String, Option, none, List, [], ◌∷◌, map, All, ok, err}
use vocab_system.Models.Values.{obj, end}
use vocab_system.Contracts.Channels.{Channel, reading}
use vocab_system.Contracts.States.{
  State, new, learning, stable, first_review, stability_gate, Trigger, is_transition,
}
use vocab_system.Journal.Records.{JournalRecord, Phase, prepare, commit, identity_eq}
use vocab_system.Journal.Transactions.{
  History, Transaction, Transactions, journal_transactions, lookup,
}
use vocab_system.Journal.Transactions.Protocols.{
  records_of, IsProtocol, journal_transactions-IsProtocol, journal_transactions-accepts,
}
use vocab_system.Journal.Transactions.Prepared.{AllProper, journal_transactions-AllProper}
use vocab_system.Journal.Provenance.{Episode, state_episode_provenance}
use vocab_system.Journal.Provenance.Chains.{IsExplained, state_episode_provenance-IsExplained}
use vocab_system.Tests.Samples.{sample_runtime}

abbrev entry : String → Phase → State → State → Trigger → String → ℕ → JournalRecord
entry id phase from to trigger episode index = record {
  transition_id = id;
  phase = phase;
  identity = record {
    version = 1;
    unit_key = "bank::river";
    channel = reading;
    from_state = from;
    to_state = to;
    trigger = trigger;
    from_episode_id = episode;
    evidence = "{}";
    group = none;
  };
  evidence = obj end;
  instant = index;
  index = index;
}

abbrev review : Phase → ℕ → JournalRecord
review phase index = entry "first" phase new learning first_review "initial-new:digest" index

abbrev gate : Phase → ℕ → JournalRecord
gate phase index = entry "second" phase learning stable stability_gate "first" index

-- The second PREPARE stands between the records of the first transition.
abbrev log : List JournalRecord
log = review prepare 0 ∷ gate prepare 1 ∷ review commit 2 ∷ []

abbrev transactions : History Transactions → Transactions
transactions (ok m) = m
transactions (err e) = []

abbrev episodes : History (List (Channel × Episode)) → List (Channel × Episode)
episodes (ok l) = l
episodes (err e) = []

abbrev read : Transactions
unfolding journal_transactions
read = transactions (journal_transactions log)

abbrev provenance : List (Channel × Episode)
unfolding state_episode_provenance
provenance =
    episodes (state_episode_provenance sample_runtime "bank::river" ((reading, learning) ∷ []) log)

journal_transactions-IsProtocol_example : IsProtocol (records_of "first" log) (lookup "first" read)
unfolding read identity_eq
journal_transactions-IsProtocol_example = journal_transactions-IsProtocol "first" log read refl

journal_transactions-accepts_example :
    ((m : Transactions) × (journal_transactions log ≡ ok m))
    ↔ ((k : String) → (o : Option Transaction) × IsProtocol (records_of k log) o)
journal_transactions-accepts_example = journal_transactions-accepts log

journal_transactions-AllProper_example : AllProper log read
unfolding read identity_eq
journal_transactions-AllProper_example = journal_transactions-AllProper log read refl

state_episode_provenance-IsExplained_example :
    (map {B = Channel × State} (λ (c, e). (c, e.state)) provenance ≡ (reading, learning) ∷ [])
    × All (λ (c, e). IsExplained sample_runtime "bank::river" log c e) provenance
unfolding provenance identity_eq is_transition journal_transactions
state_episode_provenance-IsExplained_example =
    state_episode_provenance-IsExplained sample_runtime "bank::river" ((reading, learning) ∷ []) log
      provenance (refl, (refl, (refl, tt))) refl
