-- ===== src/Journal/Provenance/Chains.antt =====
-- Persisted states are explained by the journal: each is the end of a chain of committed
-- transitions that starts in the channel's initial NEW episode.
use vocab_system.Base.{
  ok_inj, ◌≡◌, refl, sym, ap, ◌∙◌, subst, String, true, false, not, Option, none, some, List, [],
  ◌∷◌, map, All, In, leb, ok, >>=-eq-ok, Bool-cases, inl, inr, arith, raise_if, raise_if-eq-ok,
}
use mathlib.Core.Path.{ap₂}
use vocab_system.Base.Text.{str_eq, str_eq_iff}
use vocab_system.Contracts.Channels.{Channel, channel_eq, channel_eq_iff}
use vocab_system.Contracts.States.{State, new, state_eq, state_eq_iff, is_transition}
use vocab_system.Reconcile.Runtime.{Runtime}
use vocab_system.Journal.Records.{JournalRecord, commit, phase_eq}
use vocab_system.Journal.Transactions.{
  Transactions, journal_transactions, broken_chain, broken_provenance, state_conflict,
}
use vocab_system.Journal.Transactions.Prepared.{
  IsPrepared, TerminalPrepared, AllProper, In-append_right, journal_transactions-AllProper,
}
use vocab_system.Journal.Provenance.{
  Episode, insert_record, add_commit, committed, of_channel, follow, channel_episode,
  channel_episodes, initial_new_episode_id, state_episode_provenance,
}

-- `_journal_record` admits only edges of the transition table.
abbrev pub IsLegal : JournalRecord → Type 0
IsLegal r = is_transition r.identity.from_state r.identity.to_state ≡ true

-- The episode that a committed transition starts.
abbrev pub started_by : JournalRecord → Episode
started_by r = record {
  state = r.identity.to_state;
  episode_id = r.transition_id;
  entry = some r.instant;
}

-- Each transition leaves the state and the episode that the one before it started.
pub data Chain : Episode → List JournalRecord → Episode → Type 0 where
  done : {e : Episode} → Chain e [] e
  step :
      {e f : Episode} {r : JournalRecord} {l : List JournalRecord}
      → r.identity.from_state ≡ e.state
      → r.identity.from_episode_id ≡ e.episode_id
      → Chain (started_by r) l f
      → Chain e (r ∷ l) f

-- A COMMIT record of the channel along an edge of the table, behind its PREPARE record.
pub record IsCommitted (log : List JournalRecord) (c : Channel) (r : JournalRecord) : Type 0 where
  pub prepared : IsPrepared log r
  pub commits : phase_eq r.phase commit ≡ true
  pub channel : r.identity.channel ≡ c
  pub edge : IsLegal r

-- A chain of commits of the channel that ends in the episode.
pub record IsExplained (rt : Runtime) (unit_key : String) (log : List JournalRecord) (c : Channel)
    (e : Episode) : Type 0 where
  pub commits : List JournalRecord
  pub committed : All (IsCommitted log c) commits
  pub chain :
      Chain
        (record { state = new; episode_id = initial_new_episode_id rt unit_key c; entry = none })
        commits
        e

abbrev IsCommit : List JournalRecord → JournalRecord → Type 0
IsCommit log r = IsPrepared log r × (phase_eq r.phase commit ≡ true)

insert_record-All :
    (P : JournalRecord → Type 0) (r : JournalRecord) (l : List JournalRecord)
    → P r
    → All P l
    → All P (insert_record r l)
unfolding insert_record
insert_record-All P r [] h k = (h, tt)
insert_record-All P r (s ∷ l) h k = elim (Bool-cases (leb r.index s.index)) [
  | inl e ↦ rw e (h, k)
  | inr e ↦ rw e (k.0, insert_record-All P r l h k.1)
]

add_commit-IsCommit :
    (log : List JournalRecord) (k : String) (o : Option JournalRecord) (l : List JournalRecord)
    → TerminalPrepared log k o
    → All (IsCommit log) l
    → All (IsCommit log) (add_commit o l)
unfolding add_commit
add_commit-IsCommit log k none l h rest = rest
add_commit-IsCommit log k (some r) l h rest = elim (Bool-cases (phase_eq r.phase commit)) [
  | inl e ↦ rw e (insert_record-All (IsCommit log) r l (h, e) rest)
  | inr e ↦ rw e rest
]

committed-IsCommit :
    (log : List JournalRecord) (m : Transactions)
    → AllProper log m
    → All (IsCommit log) (committed m)
unfolding committed
committed-IsCommit log [] h = tt
committed-IsCommit log ((k, t) ∷ m) h =
    add_commit-IsCommit log k t.terminal (committed m) h.0.1 (committed-IsCommit log m h.1)

All-In :
    (P : JournalRecord → Type 0) (l : List JournalRecord)
    → All P l
    → (r : JournalRecord) → In r l
    → P r
All-In P [] h r m = absurd m
All-In P (s ∷ l) h r (inl e) = subst P (sym e) h.0
All-In P (s ∷ l) h r (inr m) = All-In P l h.1 r m

module _ (log : List JournalRecord) (legal : All IsLegal log) (c : Channel) where
  commit-IsCommitted :
      (r : JournalRecord)
      → IsCommit log r
      → channel_eq r.identity.channel c ≡ true
      → IsCommitted log c r
  commit-IsCommitted r (prepared, commits) same = record {
    prepared = prepared;
    commits = commits;
    channel = (channel_eq_iff r.identity.channel c).0 same;
    edge = All-In IsLegal log legal r (
        subst (In r) (sym prepared.split)
          (In-append_right prepared.before (r ∷ prepared.after) r (inl refl)));
  }

  of_channel-IsCommitted :
      (l : List JournalRecord) → All (IsCommit log) l → All (IsCommitted log c) (of_channel c l)
  unfolding of_channel
  of_channel-IsCommitted [] h = tt
  of_channel-IsCommitted (r ∷ l) h = elim (Bool-cases (channel_eq r.identity.channel c)) [
    | inl e ↦ rw e (commit-IsCommitted r h.0 e, of_channel-IsCommitted l h.1)
    | inr e ↦ rw e (of_channel-IsCommitted l h.1)
  ]

-- An accepted walk over the commits is a chain of all of them.
follow-Chain : (l : List JournalRecord) (e f : Episode) → follow e l ≡ ok f → Chain e l f
unfolding follow
follow-Chain [] e f h = subst (Chain e []) (ok_inj h) done
follow-Chain (r ∷ l) e f h =
    let (_, from_ok, rest) =
      >>=-eq-ok (raise_if (not (state_eq r.identity.from_state e.state)) broken_chain) _ h in
    let (_, episode_ok, more) =
      >>=-eq-ok (raise_if (not (str_eq r.identity.from_episode_id e.episode_id)) broken_provenance)
        _ rest in
    step (same_state r.identity.from_state e.state (raise_if-eq-ok _ _ from_ok))
      (same_text r.identity.from_episode_id e.episode_id (raise_if-eq-ok _ _ episode_ok))
      (follow-Chain l _ f more)
  where
    same_state : (a b : State) → not (state_eq a b) ≡ false → a ≡ b
    same_state a b q = ground (arith, state_eq_iff a b)

    same_text : (a b : String) → not (str_eq a b) ≡ false → a ≡ b
    same_text a b q = ground (arith, str_eq_iff a b)

module _ (rt : Runtime) (unit_key : String) (log : List JournalRecord)
    (legal : All IsLegal log) where
  channel_episode-IsExplained :
      (commits : List JournalRecord) (c : Channel) (s : State) (e : Episode)
      → All (IsCommit log) commits
      → channel_episode rt unit_key commits c s ≡ ok e
      → (e.state ≡ s) × IsExplained rt unit_key log c e
  unfolding channel_episode
  channel_episode-IsExplained commits c s e good h =
      let (f, followed, rest) =
        >>=-eq-ok
          (follow
            (record {
              state = new;
              episode_id = initial_new_episode_id rt unit_key c;
              entry = none;
            })
            (of_channel c commits))
          _ h in
      let (_, same_state, last) =
        >>=-eq-ok (raise_if (not (state_eq f.state s)) state_conflict) _ rest in
      (
        ap (λ g. g.state) (sym (ok_inj last)) ∙ matching f.state s (raise_if-eq-ok _ _ same_state),
        record {
          commits = of_channel c commits;
          committed = of_channel-IsCommitted log legal c commits good;
          chain =
              subst (Chain _ (of_channel c commits)) (ok_inj last) (follow-Chain _ _ f followed);
        },
      )
    where
      matching : (a b : State) → not (state_eq a b) ≡ false → a ≡ b
      matching a b q = ground (arith, state_eq_iff a b)

  channel_episodes-IsExplained :
      (commits : List JournalRecord) (active : List (Channel × State))
      (es : List (Channel × Episode))
      → All (IsCommit log) commits
      → channel_episodes rt unit_key commits active ≡ ok es
      → (map (λ (c, e). (c, e.state)) es ≡ active)
        × All (λ (c, e). IsExplained rt unit_key log c e) es
  unfolding channel_episodes
  channel_episodes-IsExplained commits [] es good h =
      (ap (map (λ (c, e). (c, e.state))) (sym (ok_inj h)), subst (All _) (ok_inj h) tt)
  channel_episodes-IsExplained commits ((c, s) ∷ active) es good h =
      let (e, one, rest) = >>=-eq-ok (channel_episode rt unit_key commits c s) _ h in
      let (more, others, last) = >>=-eq-ok (channel_episodes rt unit_key commits active) _ rest in
      let (same, explained) = channel_episode-IsExplained commits c s e good one in
      let (states, all) = channel_episodes-IsExplained commits active more good others in
      (
        ap (map (λ (c', e'). (c', e'.state))) (sym (ok_inj last))
            ∙ ap₂ (λ t l. (c, t) ∷ l) same states,
        subst (All (λ (c', e'). IsExplained rt unit_key log c' e')) (ok_inj last) (explained, all),
      )

-- An accepted journal of records whose transitions are edges of the table explains every
-- persisted state: the episodes that it gives the channels have these states, and each episode is
-- the end of a chain of COMMIT records of its channel that starts in the initial NEW episode,
-- every one of them behind a PREPARE record of its id and identity.
pub state_episode_provenance-IsExplained :
    (rt : Runtime) (unit_key : String) (active : List (Channel × State)) (log : List JournalRecord)
    (es : List (Channel × Episode))
    → All IsLegal log
    → state_episode_provenance rt unit_key active log ≡ ok es
    → (map (λ (c, e). (c, e.state)) es ≡ active)
      × All (λ (c, e). IsExplained rt unit_key log c e) es
unfolding state_episode_provenance
state_episode_provenance-IsExplained rt unit_key active log es legal h =
    let (m, journal, rest) = >>=-eq-ok (journal_transactions log) _ h in
    channel_episodes-IsExplained rt unit_key log legal (committed m) active es
      (committed-IsCommit log m (journal_transactions-AllProper log m journal)) rest
