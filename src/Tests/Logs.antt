-- ===== src/Tests/Logs.antt =====
-- A log of one event, and one more.
use vocab_system.Base.{ℕ, ◌≡◌, refl, String, true, none, some, List, [], ◌∷◌, ◌++◌, ok, err}
use vocab_system.Contracts.{days}
use vocab_system.Models.{Event}
use vocab_system.Models.Values.{text, flag, Fields, end, field}
use vocab_system.Events.{
  unterminated, event_at, event_from_record, event_payload_required_fields, validate_event_values,
  parse_timestamp, decode_v1_event, to_dict,
}
use vocab_system.Events.File.{
  Bytes, Codec, split, without_empty_last, read_lines, ends_in_newline, read_events, read,
  read_strict, after_newline, scan_backward, read_trailing_record, log,
}
use vocab_system.Events.Trailing.{read_trailing_record-read_lines}
use vocab_system.Events.Appended.{read_strict-log}
use vocab_system.Tests.Samples.{sample_runtime}

abbrev local_day : ℕ → String
local_day _ = "day"

abbrev payload : Fields
payload = field "source_ref" (text "dictionary:cambridge:bank") (field "accepted" (flag true) end)

abbrev forged : Event
forged = event_at sample_runtime local_day (days 1) "FORGE" "bank::river" payload

-- Every line stands for the same event, but an empty line for none.
abbrev codec : Codec
unfolding to_dict
codec = record {
  loads = λ l. elim l [ [] ↦ none | b ∷ r ↦ some (to_dict forged) ];
  dumps = λ _. some (123 ∷ 125 ∷ []);
}

abbrev file : Bytes
file = 123 ∷ 125 ∷ 10 ∷ []

read_strict_file : read_strict codec sample_runtime local_day file ≡ ok (forged ∷ [])
unfolding read_strict read read_events read_lines split without_empty_last ends_in_newline
    event_from_record decode_v1_event validate_event_values event_payload_required_fields
    parse_timestamp to_dict
read_strict_file = refl

unterminated_file : read_strict codec sample_runtime local_day (123 ∷ 125 ∷ []) ≡ err unterminated
unfolding read_strict ends_in_newline
unterminated_file = refl

trailing : read_trailing_record (1 ∷ 10 ∷ 2 ∷ 3 ∷ 10 ∷ []) ≡ ok (some (2 ∷ 3 ∷ []))
unfolding read_trailing_record scan_backward after_newline ends_in_newline
trailing = refl

read_trailing_record-read_lines_example :
    (ls : List Bytes) × (l : Bytes) × (read_lines (1 ∷ 10 ∷ 2 ∷ 3 ∷ 10 ∷ []) ≡ ls ++ (l ∷ []))
    × (read_trailing_record (1 ∷ 10 ∷ 2 ∷ 3 ∷ 10 ∷ []) ≡ ok (some l))
read_trailing_record-read_lines_example = read_trailing_record-read_lines (1 ∷ 10 ∷ 2 ∷ 3 ∷ [])

read_strict-log_example :
    (file' : Bytes) × (log codec sample_runtime local_day
        (days 1)
        "FORGE"
        "bank::river"
        payload
        file
      ≡ ok (forged, file'))
    × (read_strict codec sample_runtime local_day file' ≡ ok (forged ∷ forged ∷ []))
unfolding validate_event_values event_payload_required_fields to_dict
read_strict-log_example =
    read_strict-log codec sample_runtime local_day (days 1) "FORGE" "bank::river" payload file
      (123 ∷ 125 ∷ []) (forged ∷ []) read_strict_file refl refl
      (record { filled = refl; parsed = refl })
      (record { dumped = refl; loaded = refl; single = refl })
