-- ===== src/Events/File.antt =====
-- vocab/events.py: reading the lines of a log, and appending one. A file is its bytes.
use vocab_system.Base.{
  take, drop, ℕ, zero, suc, ◌-◌, String, Bool, true, false, not, ◌&&◌, Option, none, some, List, [],
  ◌∷◌, ◌++◌, ◌==◌, ltb, length, if◌then◌else◌, ok, err, raise_if, ◌>>=◌, ◌>>◌,
}
use vocab_system.Base.Text.{str_eq, str_in}
use vocab_system.Models.{Event}
use vocab_system.Models.Values.{Json, text, obj, Fields}
use vocab_system.Reconcile.Runtime.{Runtime}
use vocab_system.Events.{
  unknown_type, unterminated, malformed_line, reserved_type, not_serializable, Decoded, event_types,
  reserved_event_types, expect, validate_event_values, parse_timestamp, event_at, event_from_record,
  to_dict,
}

abbrev pub Bytes : Type 0
Bytes = List ℕ

abbrev pub newline : ℕ
newline = 10

abbrev pub cons_first : ℕ → List Bytes → List Bytes
cons_first b [] = (b ∷ []) ∷ []
cons_first b (l ∷ ls) = (b ∷ l) ∷ ls

-- `data.split(b"\n")`
unfoldable pub split : Bytes → List Bytes
split [] = [] ∷ []
split (b ∷ l) = let rest = split l in if b == newline then [] ∷ rest else cons_first b rest

-- `if lines[-1] == b"": lines.pop()`
unfoldable pub without_empty_last : List Bytes → List Bytes
without_empty_last [] = []
without_empty_last ([] ∷ []) = []
without_empty_last ((b ∷ l) ∷ []) = (b ∷ l) ∷ []
without_empty_last (l ∷ m ∷ ls) = l ∷ without_empty_last (m ∷ ls)

-- `_read_lines`
unfoldable pub read_lines : Bytes → List Bytes
unfolding split without_empty_last
read_lines file = without_empty_last (split file)

-- `raw.endswith(b"\n")`
unfoldable pub ends_in_newline : Bytes → Bool
ends_in_newline [] = false
ends_in_newline (b ∷ []) = b == newline
ends_in_newline (b ∷ c ∷ l) = ends_in_newline (c ∷ l)

abbrev pub is_last : List Bytes → Bool
is_last [] = true
is_last (l ∷ ls) = false

-- _TAIL_READ_CHUNK_SIZE
abbrev pub tail_read_chunk_size : ℕ
tail_read_chunk_size = 8192

abbrev pub smaller : ℕ → ℕ → ℕ
smaller a b = if ltb a b then a else b

-- `chunk[previous_newline + 1:]`, where the chunk has a newline.
unfoldable pub after_newline : Bytes → Option Bytes
after_newline [] = none
after_newline (b ∷ l) = elim (after_newline l) [
  | some r ↦ some r
  | none ↦ if b == newline then some l else none
]

-- The loop that reads chunks backward from a position; `joined` are the chunks that it has. The
-- position falls in every round, so a fuel that is no less than the position is enough.
unfoldable pub scan_backward : Bytes → ℕ → ℕ → Bytes → Bytes
unfolding after_newline
scan_backward file zero position joined = joined
scan_backward file (suc fuel) zero joined = joined
scan_backward file (suc fuel) (suc n) joined =
    let size = smaller tail_read_chunk_size (suc n) in
    let chunk = take size (drop (suc n - size) file) in
    elim (after_newline chunk) [
      | some r ↦ r ++ joined
      | none ↦ scan_backward file fuel (suc n - size) (chunk ++ joined)
    ]

-- `_read_trailing_record`
unfoldable pub read_trailing_record : Bytes → Decoded (Option Bytes)
unfolding scan_backward ends_in_newline
read_trailing_record file =
    if length file == 0
    then ok none
    else if not (ends_in_newline file)
    then err unterminated
    else ok (some (scan_backward file (length file - 1) (length file - 1) []))

-- What the log uses of `json` and of UTF-8: `loads` decodes a line and parses it, `dumps` prints a
-- value; none where they raise.
pub record Codec : Type 0 where
  pub loads : Bytes → Option Json
  pub dumps : Json → Option Bytes

-- What a reading returns, and whether it has warned of a malformed final record.
abbrev pub Reading : Type 0
Reading = List Event × Bool

module _ (codec : Codec) (rt : Runtime) (local_day : ℕ → String) where
  abbrev since_holds : Option ℕ → ℕ → Bool
  since_holds none instant = true
  since_holds (some since) instant = not (ltb instant since)

  abbrev type_holds : Option String → String → Bool
  type_holds none event = true
  type_holds (some t) event = str_eq event t

  abbrev kept : Bool → Event → Reading → Reading
  kept true e (l, warned) = (e ∷ l, warned)
  kept false e r = r

  -- The loop of `read` over the lines.
  unfoldable pub read_events : Option String → Option ℕ → List Bytes → Decoded Reading
  unfolding event_from_record parse_timestamp
  read_events event_type since [] = ok ([], false)
  read_events event_type since (line ∷ lines) =
      let rest = read_events event_type since lines in
      elim (codec.loads line) [
        | none ↦ if is_last lines then ok ([], true) else err malformed_line
        | some value ↦ (do
          e ← event_from_record rt local_day value
          instant ← parse_timestamp rt (text e.ts)
          r ← rest
          ok (kept (type_holds event_type e.event && since_holds since instant) e r))
      ]

  abbrev since_of : Option String → Decoded (Option ℕ)
  since_of none = ok none
  since_of (some s) = do i ← parse_timestamp rt (text s); ok (some i)

  abbrev is_unknown : Option String → Bool
  is_unknown none = false
  is_unknown (some t) = not (str_in t event_types)

  -- `EventLog.read`
  unfoldable pub read : Option String → Option String → Bytes → Decoded Reading
  unfolding read_events read_lines parse_timestamp
  read event_type since file = do
    raise_if (is_unknown event_type) unknown_type
    from ← since_of since
    read_events event_type from (read_lines file)

  -- `EventLog.read_strict`: the warning is an error.
  unfoldable pub read_strict : Bytes → Decoded (List Event)
  unfolding read ends_in_newline
  read_strict file = do
    raise_if (not (length file == 0) && not (ends_in_newline file)) unterminated
    (events, warned) ← read none none file
    raise_if warned malformed_line
    ok events

  abbrev check_final : Option Bytes → Decoded (Unit {0})
  check_final none = ok tt
  check_final (some line) = do
    value ← expect malformed_line (codec.loads line)
    e ← event_from_record rt local_day value
    ok tt

  -- `_validate_trailing_record_for_append`
  unfoldable pub validate_trailing_record : Bytes → Decoded (Unit {0})
  unfolding read_trailing_record event_from_record
  validate_trailing_record file = do final ← read_trailing_record file; check_final final

  -- `EventLog.log` appends to a file at the instant of the clock.
  unfoldable pub log : ℕ → String → String → Fields → Bytes → Decoded (Event × Bytes)
  unfolding validate_event_values validate_trailing_record to_dict
  log instant event unit_key payload file = do
    valid ← validate_event_values (text event) (text unit_key) (obj payload)
    raise_if (str_in event reserved_event_types) reserved_type
    line ←
        expect not_serializable
          (codec.dumps (to_dict (event_at rt local_day instant event unit_key payload)))
    validate_trailing_record file
    ok (event_at rt local_day instant event unit_key payload, file ++ (line ++ (newline ∷ [])))
