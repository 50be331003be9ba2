-- ===== src/Tests/Samples.antt =====
-- Instances of the parameters: a calendar of a few days, and the alphabet of ASCII.
use vocab_system.Base.{
  ℕ, ◌*◌, String, Bool, true, false, ◌&&◌, ◌||◌, none, some, List, [], ◌∷◌, ◌==◌, leb,
  if◌then◌else◌,
}
use vocab_system.Base.Int.{pos}
use vocab_system.Base.Text.{str_eq}
use vocab_system.Contracts.{days}
use vocab_system.Models.{LifecycleAssessment, ChannelProgress, UnitProgress}
use vocab_system.Matching.Tokens.{Unicode}
use vocab_system.Reconcile.Runtime.{Runtime, IsoText, malformed, aware}

abbrev pub calendar : List (String × ℕ)
calendar =
    ("day 1", days 1)
    ∷ ("day 2", days 2)
    ∷ ("day 3", days 3)
    ∷ ("day 11", days 11)
    ∷ ("day 12", days 12)
    ∷ []

abbrev instant_of : List (String × ℕ) → String → IsoText
instant_of [] s = malformed
instant_of ((t, n) ∷ l) s = if str_eq t s then aware n else instant_of l s

abbrev text_of : List (String × ℕ) → ℕ → String
text_of [] n = ""
text_of ((t, m) ∷ l) n = if m == n then t else text_of l n

abbrev pub sample_runtime : Runtime
sample_runtime = record {
  fromisoformat = instant_of calendar;
  isoformat = text_of calendar;
  fromtimestamp = λ n. some (n * 1000);
  canonical_sha256 = λ _. "digest";
  canonical_json = λ _. "{}";
}

abbrev ascii_word : ℕ → Bool
ascii_word c = (leb 97 c && leb c 122) || (leb 48 c && leb c 57) || c == 95

-- Lower-case texts are their own normal forms.
abbrev pub sample_unicode : Unicode
sample_unicode = record { nfkc = λ s. s; casefold = λ s. s; is_word = ascii_word }

abbrev pub pass_on : String → String → String → LifecycleAssessment
pass_on id stimulus ts = record {
  channel = "R";
  passed = true;
  assessment_id = id;
  stimulus_ref = stimulus;
  novel = true;
  ts = ts;
  model_id = "model";
  model_version = "1";
}

abbrev pub channel_in : String → String → ℕ → String → List LifecycleAssessment → ChannelProgress
channel_in channel state card entered assessments = record {
  channel = channel;
  state = state;
  card_id = pos card;
  template_name = channel;
  template_ordinal = pos 0;
  interval_days = pos 30;
  lapses_total = pos 0;
  lapses_last_30_days = pos 0;
  age_days = pos 60;
  is_suspended = false;
  first_lifecycle_review_id = none;
  latest_lifecycle_review_id = none;
  latest_lapse_review_id = none;
  state_episode_id = "episode";
  state_entered_at = entered;
  first_lifecycle_review_after_state_entry_id = none;
  first_lapse_after_state_entry_id = none;
  assessments = assessments;
}

-- Two channels that have been mastered since the second day.
abbrev pub mastered_unit : UnitProgress
mastered_unit = record {
  unit_key = "bank::river";
  channels =
      channel_in "L" "MASTERED" 12 "day 2" []
      ∷ channel_in "R" "MASTERED" 11 "day 1" (pass_on "a" "s" "day 3" ∷ [])
      ∷ [];
  all_active_channels_mastered_at = "day 2";
  has_leech_tag = false;
}

-- A stable channel with two passes that are nine days apart.
abbrev pub stable_unit : UnitProgress
stable_unit = record {
  unit_key = "bank::river";
  channels =
      channel_in "R" "STABLE" 11 "day 1" (pass_on "a" "s" "day 3" ∷ pass_on "b" "t" "day 12" ∷ [])
      ∷ [];
  all_active_channels_mastered_at = "";
  has_leech_tag = false;
}
