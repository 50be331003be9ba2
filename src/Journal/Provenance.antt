-- ===== src/Journal/Provenance.antt =====
-- `_state_episode_provenance`: each channel's lifecycle chain, from the initial NEW episode
-- through its commits.
pub mod Chains
use Prim.Native.String.{◌++◌ as concat}
use vocab_system.Base.{
  ℕ, String, Bool, true, false, not, Option, none, some, List, [], ◌∷◌, leb, if◌then◌else◌, ok, err,
  ◌>>=◌, ◌>>◌, raise_if,
}
use vocab_system.Base.Text.{str_eq}
use vocab_system.Contracts.Channels.{Channel, channel_eq, channel_text}
use vocab_system.Contracts.States.{State, new, state_eq}
use vocab_system.Models.Values.{Json, text, obj, end, field}
use vocab_system.Reconcile.Runtime.{Runtime}
use vocab_system.Journal.Records.{JournalRecord, Phase, commit, phase_eq}
use vocab_system.Journal.Transactions.{
  History, Transaction, Transactions, journal_transactions, broken_chain, broken_provenance,
  state_conflict,
}

-- `_initial_new_episode_id`
unfoldable pub initial_new_episode_id : Runtime → String → Channel → String
initial_new_episode_id rt unit_key channel = concat "initial-new:" (
    rt.canonical_sha256
      (obj (field "channel" (text (channel_text channel)) (field "unit_key" (text unit_key) end))))

-- `sorted(…, key=index)`; equal keys keep their order.
unfoldable pub insert_record : JournalRecord → List JournalRecord → List JournalRecord
insert_record r [] = r ∷ []
insert_record r (s ∷ l) = if leb r.index s.index then r ∷ s ∷ l else s ∷ insert_record r l

unfoldable pub add_commit : Option JournalRecord → List JournalRecord → List JournalRecord
unfolding insert_record
add_commit none l = l
add_commit (some r) l = if phase_eq r.phase commit then insert_record r l else l

-- The COMMIT terminals, by the place of their events in the log.
unfoldable pub committed : Transactions → List JournalRecord
unfolding add_commit
committed [] = []
committed ((_, t) ∷ m) = add_commit t.terminal (committed m)

unfoldable pub of_channel : Channel → List JournalRecord → List JournalRecord
of_channel c [] = []
of_channel c (r ∷ l) =
    let rest = of_channel c l in if channel_eq r.identity.channel c then r ∷ rest else rest

-- The state of a channel with the id and the entry instant of its episode.
pub record Episode : Type 0 where
  pub state : State
  pub episode_id : String
  pub entry : Option ℕ

-- The loop over the commits of one channel.
unfoldable pub follow : Episode → List JournalRecord → History Episode
follow e [] = ok e
follow e (r ∷ l) = do
  raise_if (not (state_eq r.identity.from_state e.state)) broken_chain
  raise_if (not (str_eq r.identity.from_episode_id e.episode_id)) broken_provenance
  follow
      (record { state = r.identity.to_state; episode_id = r.transition_id; entry = some r.instant })
      l

module _ (rt : Runtime) (unit_key : String) where
  unfoldable pub channel_episode : List JournalRecord → Channel → State → History Episode
  unfolding follow of_channel initial_new_episode_id
  channel_episode commits channel persisted = do
    e ←
        follow
          (record {
            state = new;
            episode_id = initial_new_episode_id rt unit_key channel;
            entry = none;
          })
          (of_channel channel commits)
    raise_if (not (state_eq e.state persisted)) state_conflict
    ok e

  unfoldable pub channel_episodes :
      List JournalRecord → List (Channel × State) → History (List (Channel × Episode))
  unfolding channel_episode
  channel_episodes commits [] = ok []
  channel_episodes commits ((channel, persisted) ∷ l) = do
    e ← channel_episode commits channel persisted
    rest ← channel_episodes commits l
    ok ((channel, e) ∷ rest)

  unfoldable pub state_episode_provenance :
      List (Channel × State) → List JournalRecord → History (List (Channel × Episode))
  unfolding channel_episodes committed
  state_episode_provenance active records = do
    m ← journal_transactions records
    channel_episodes (committed m) active
