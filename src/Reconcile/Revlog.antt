-- ===== src/Reconcile/Revlog.antt =====
-- `_load_revlog`, `_first_revlog_id_after` and `_channel_progress`: what the reviews of the active
-- cards tell of each channel. The reply of AnkiConnect is an argument.
pub mod Earliest
use Prim.Native.Nat.{◌/◌}
use vocab_system.Base.{
  ℕ, ◌+◌, ◌-◌, String, Bool, true, false, not, ◌&&◌, ◌||◌, Option, none, some, List, [], ◌∷◌, any,
  all, map, leb, ltb, length, if◌then◌else◌, ◌==◌, Result, ok, err, raise_if, ◌>>=◌, ◌>>◌,
}
use vocab_system.Base.Int.{ℤ, pos, int_eq, nonnegative}
use vocab_system.Contracts.{days, stable_zero_lapse_window_days}
use vocab_system.Contracts.Channels.{Channel}
use vocab_system.Models.{LifecycleAssessment, ChannelProgress}
use vocab_system.Reconcile.Runtime.{Runtime}

-- The raises of ReconcileRevlogError. `card_without_channel` is the KeyError of `card_to_channel`.
pub data RevlogError : Type 0 where
  keys_differ id_negative ease_unknown type_unknown id_repeated : RevlogError
  id_out_of_range id_in_future card_without_channel : RevlogError

-- One row of the reply.
pub record Review : Type 0 where
  pub id : ℤ
  pub ease : ℤ
  pub kind : ℤ
  pub interval : ℤ

-- A row that has passed its checks.
pub record Parsed : Type 0 where
  pub review_id : ℕ
  pub instant : ℕ
  pub review : Review

abbrev int_in : ℤ → List ℤ → Bool
int_in a l = any (int_eq a) l

abbrev known_eases : List ℤ
known_eases = pos 1 ∷ pos 2 ∷ pos 3 ∷ pos 4 ∷ []

-- REVLOG_LIFECYCLE_TYPES and `_KNOWN_REVLOG_TYPES`
abbrev lifecycle_types : List ℤ
lifecycle_types = pos 0 ∷ pos 1 ∷ pos 2 ∷ []

abbrev known_types : List ℤ
known_types = pos 0 ∷ pos 1 ∷ pos 2 ∷ pos 3 ∷ []

-- `parsed.sort(key=lambda item: item[0])`
unfoldable pub insert_parsed : Parsed → List Parsed → List Parsed
insert_parsed p [] = p ∷ []
insert_parsed p (q ∷ l) = if leb p.review_id q.review_id then p ∷ q ∷ l else q ∷ insert_parsed p l

unfoldable pub sort_parsed : List Parsed → List Parsed
unfolding insert_parsed
sort_parsed [] = []
sort_parsed (p ∷ l) = insert_parsed p (sort_parsed l)

abbrev pub is_lifecycle : Parsed → Bool
is_lifecycle p = int_in p.review.kind lifecycle_types

-- A lapse is a review answered Again.
abbrev pub is_lapse : Parsed → Bool
is_lapse p = int_eq p.review.kind (pos 1) && int_eq p.review.ease (pos 1)

unfoldable pub keep : (Parsed → Bool) → List Parsed → List Parsed
keep f [] = []
keep f (p ∷ l) = let rest = keep f l in if f p then p ∷ rest else rest

abbrev pub first_of : List Parsed → Option Parsed
first_of [] = none
first_of (p ∷ l) = some p

unfoldable pub last_of : List Parsed → Option Parsed
last_of [] = none
last_of (p ∷ []) = some p
last_of (p ∷ q ∷ l) = last_of (q ∷ l)

abbrev pub id_of : Option Parsed → Option ℕ
id_of none = none
id_of (some p) = some p.review_id

-- What a channel learns from its reviews.
pub record Summary : Type 0 where
  pub first_lifecycle_review_id : Option ℕ
  pub latest_lifecycle_review_id : Option ℕ
  pub latest_lapse_review_id : Option ℕ
  pub lifecycle_review_entries : List Parsed
  pub lapse_entries : List Parsed
  pub lapses_last_30_days : ℕ
  pub age_days : ℕ

-- `_first_revlog_id_after`
unfoldable pub first_after : List Parsed → ℕ → Option ℕ
first_after [] entry = none
first_after (p ∷ l) entry = if ltb entry p.instant then some p.review_id else first_after l entry

unfoldable pub first_revlog_id_after : List Parsed → Option ℕ → Option ℕ
unfolding first_after
first_revlog_id_after entries none = none
first_revlog_id_after entries (some entry) = first_after entries entry

module _ (now : ℕ) where
  abbrev age : Option Parsed → ℕ
  age none = 0
  age (some p) = (now - p.instant) / days 1

  -- `lapse[4] >= window_start`
  abbrev is_recent : Parsed → Bool
  is_recent p = leb now (p.instant + days stable_zero_lapse_window_days)

  -- From the sorted lifecycle reviews.
  unfoldable pub summary_of : List Parsed → Summary
  unfolding keep last_of
  summary_of lifecycle = record {
    first_lifecycle_review_id = id_of (first_of lifecycle);
    latest_lifecycle_review_id = id_of (last_of lifecycle);
    latest_lapse_review_id = id_of (last_of (keep is_lapse lifecycle));
    lifecycle_review_entries = lifecycle;
    lapse_entries = keep is_lapse lifecycle;
    lapses_last_30_days = length (keep is_recent (keep is_lapse lifecycle));
    age_days = age (first_of lifecycle);
  }

  unfoldable pub summarize : List Parsed → Summary
  unfolding summary_of sort_parsed keep
  summarize parsed = summary_of (keep is_lifecycle (sort_parsed parsed))

abbrev found {ℓ} : {A : Type ℓ} → RevlogError → Option A → Result RevlogError A
found e none = err e
found e (some a) = ok a

module _ (rt : Runtime) (now : ℕ) where
  unfoldable pub parse_review : List ℕ → Review → Result RevlogError Parsed
  parse_review seen r = do
    id ← found id_negative (nonnegative r.id)
    raise_if (not (int_in r.ease known_eases)) ease_unknown
    raise_if (not (int_in r.kind known_types)) type_unknown
    raise_if (any (λ n. n == id) seen) id_repeated
    instant ← found id_out_of_range (rt.fromtimestamp id)
    raise_if (ltb now instant) id_in_future
    ok (record { review_id = id; instant = instant; review = r })

  -- The reviews of one card; the ids seen so far go on to the next one.
  unfoldable pub parse_reviews : List ℕ → List Review → Result RevlogError (List Parsed × List ℕ)
  unfolding parse_review
  parse_reviews seen [] = ok ([], seen)
  parse_reviews seen (r ∷ l) = do
    p ← parse_review seen r
    (rest, seen') ← parse_reviews (p.review_id ∷ seen) l
    ok (p ∷ rest, seen')

  -- The reply by card.
  abbrev pub Reply : Type 0
  Reply = List (ℤ × List Review)

  unfoldable pub reviews_of : ℤ → Reply → List Review
  reviews_of card [] = []
  reviews_of card ((c, l) ∷ reply) = if int_eq c card then l else reviews_of card reply

  -- `card_to_channel[card_id]`: of equal cards the last one.
  unfoldable pub channel_of : ℤ → List (Channel × ℤ) → Option Channel
  channel_of card [] = none
  channel_of card ((k, c) ∷ l) =
      let here = if int_eq c card then some k else none in
      elim (channel_of card l) [ none ↦ here | some k' ↦ some k' ]

  unfoldable pub load_cards :
      List ℕ → Reply → List (Channel × ℤ) → List ℤ → Result RevlogError (List (Channel × Summary))
  unfolding parse_reviews reviews_of channel_of summarize
  load_cards seen reply cards [] = ok []
  load_cards seen reply cards (c ∷ ids) = do
    (parsed, seen') ← parse_reviews seen (reviews_of c reply)
    channel ← found card_without_channel (channel_of c cards)
    rest ← load_cards seen' reply cards ids
    ok ((channel, summarize now parsed) ∷ rest)

  -- `set(raw_revlog) != expected_keys`
  abbrev same_cards : Reply → List ℤ → Bool
  same_cards reply ids =
      all (λ (c, l). int_in c ids) reply && all (λ i. any (λ (c, l). int_eq c i) reply) ids

  unfoldable pub load_revlog :
      Reply → List (Channel × ℤ) → List ℤ → Result RevlogError (List (Channel × Summary))
  unfolding load_cards
  load_revlog reply cards ids = do
    raise_if (not (same_cards reply ids)) keys_differ
    load_cards [] reply cards ids

-- What `_channel_progress` takes from a card.
pub record Card : Type 0 where
  pub card_id : ℤ
  pub template_name : String
  pub template_ordinal : ℤ
  pub interval_days : ℤ
  pub lapses_total : ℤ
  pub is_suspended : Bool

abbrev optional_pos : Option ℕ → Option ℤ
optional_pos none = none
optional_pos (some n) = some (pos n)

abbrev pub entry_text : Runtime → Option ℕ → String
entry_text rt none = ""
entry_text rt (some entry) = rt.isoformat entry

-- `_channel_progress`
unfoldable pub channel_progress :
    Runtime
    → String
    → String
    → Card
    → Summary
    → String
    → Option ℕ
    → List LifecycleAssessment
    → ChannelProgress
unfolding first_revlog_id_after
channel_progress rt channel state card revlog episode_id entry assessments = record {
  channel = channel;
  state = state;
  card_id = card.card_id;
  template_name = card.template_name;
  template_ordinal = card.template_ordinal;
  interval_days = card.interval_days;
  lapses_total = card.lapses_total;
  lapses_last_30_days = pos revlog.lapses_last_30_days;
  age_days = pos revlog.age_days;
  is_suspended = card.is_suspended;
  first_lifecycle_review_id = optional_pos revlog.first_lifecycle_review_id;
  latest_lifecycle_review_id = optional_pos revlog.latest_lifecycle_review_id;
  latest_lapse_review_id = optional_pos revlog.latest_lapse_review_id;
  state_episode_id = episode_id;
  state_entered_at = entry_text rt entry;
  first_lifecycle_review_after_state_entry_id =
      optional_pos (first_revlog_id_after revlog.lifecycle_review_entries entry);
  first_lapse_after_state_entry_id =
      optional_pos (first_revlog_id_after revlog.lapse_entries entry);
  assessments = assessments;
}
