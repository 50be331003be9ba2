-- ===== src/Reconcile/Runtime.antt =====
-- What reconciliation uses of Python's `datetime`, of `json` and of `canonical_sha256` in
-- vocab/artifact_json.py. An instant is a number of microseconds after the epoch, in UTC.
use vocab_system.Base.{ℕ, String, Option}
use vocab_system.Models.Values.{Json}

-- The outcome of `datetime.fromisoformat`: it raises, or its value has no offset, or it is the
-- instant that `astimezone(timezone.utc)` gives.
pub data IsoText : Type 0 where
  malformed naive : IsoText
  aware : ℕ → IsoText

pub record Runtime : Type 0 where
  pub fromisoformat : String → IsoText
  pub isoformat : ℕ → String
  -- `datetime.fromtimestamp(value / 1000, tz=timezone.utc)`; none where it raises.
  pub fromtimestamp : ℕ → Option ℕ
  pub canonical_sha256 : Json → String
  -- `json.dumps` with sorted keys and without blanks.
  pub canonical_json : Json → String
