-- ===== src/Contracts.antt =====
-- vocab/contracts.py: the closed vocabularies of the program and its engineering parameters.
-- A closed set of strings is an enumeration with its spelling; a membership test such as
-- `state in STATES` is `parse_state`.
pub mod States
pub mod Channels
pub mod Keys
pub mod Assessments
pub mod Matching
use vocab_system.Base.{ℕ, ◌*◌}

-- 6. Engineering parameters of the state machine, and 8. the Anki thresholds.
abbrev pub stable_min_interval_days : ℕ
stable_min_interval_days = 21

abbrev pub stable_zero_lapse_window_days : ℕ
stable_zero_lapse_window_days = 30

abbrev pub stable_min_age_days : ℕ
stable_min_age_days = stable_min_interval_days

abbrev pub mastered_min_session_passes : ℕ
mastered_min_session_passes = 2

abbrev pub mastered_min_delay_between_passes_days : ℕ
mastered_min_delay_between_passes_days = 7

abbrev pub mastered_to_dormant_days : ℕ
mastered_to_dormant_days = 30

abbrev pub leech_lapse_threshold : ℕ
leech_lapse_threshold = 4

abbrev pub lifecycle_seconds_per_day : ℕ
lifecycle_seconds_per_day = 86400

-- An instant is a number of microseconds, the resolution of Python's `datetime`.
-- `timedelta(seconds=days * LIFECYCLE_SECONDS_PER_DAY)`
abbrev pub days : ℕ → ℕ
days n = n * lifecycle_seconds_per_day * 1000000
